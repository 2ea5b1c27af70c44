-- ===== src/Dump/Format.antt =====
-- How the dump of src/capture_dump.rs shows times, numbers and lists, described on its own.
use pgr.Prelude.{
  ℕ, zero, suc, ◌+◌, ◌-◌, ◌/◌, ◌%◌, ◌^◌, ◌≡◌, refl, ap₂, List, [], ◌∷◌, ◌++◌, arith, Bytes, codes,
  sub64, ltb, if◌then◌else◌, append_assoc, append-nil, Bool-cases, inl, inr,
}
use pgr.Prelude.Decimal.{decimal, digits}
use pgr.Capture.Reader.{CaptureReader}
use pgr.Dump.{head, list, list_items, ts, six_digits, signed_decimal, first_lines}

-- The last `k` decimal digits of a number, before those printed so far.
abbrev pub padded : ℕ → ℕ → Bytes → Bytes
padded zero n printed = printed
padded (suc k) n printed = padded k (n / 10) ((48 + n % 10) ∷ printed)

-- Microseconds as seconds with six digits after the point.
abbrev pub seconds : ℕ → Bytes
seconds us = decimal (us / 1000000) ++ codes "." ++ padded 6 us []

-- A number of 64 bits, of which the highest is the sign.
abbrev pub signed : (ℕ → Bytes) → ℕ → Bytes
signed show n = if ltb n (2 ^ 63) then show n else codes "-" ++ show (2 ^ 64 - n)

-- Elements with a space between each and the next.
abbrev pub spaced : List ℕ → Bytes
spaced [] = []
spaced (x ∷ []) = decimal x
spaced (x ∷ y ∷ xs) = decimal x ++ codes " " ++ spaced (y ∷ xs)

-- The time since the start, the client, and the name of the message.
abbrev pub prefix : ℕ → ℕ → ℕ → Bytes → Bytes
prefix t base id name =
    signed seconds (sub64 t base) ++ codes "," ++ decimal id ++ codes "," ++ name

abbrev pub line_end : Bytes
line_end = 10 ∷ []

abbrev pub heading : ℕ → Bytes
heading l =
    codes "timestamp,client_id,message,fields"
    ++ line_end
    ++ codes "0.000000,0,lsn,"
    ++ decimal l
    ++ line_end

six_digits-padded : (n : ℕ) → six_digits (n % 1000000) ≡ padded 6 n []
unfolding six_digits
six_digits-padded n = step (omega arith) (
    step (omega arith)
      (step (omega arith) (step (omega arith) (step (omega arith) (step (omega arith) refl)))))
  where
    step : {a b : ℕ} {as' bs : Bytes} → a ≡ b → as' ≡ bs → ◌≡◌ {A = Bytes} (a ∷ as') (b ∷ bs)
    step e h = ap₂ (λ d ds. d ∷ ds) e h

ts-eq : (t base : ℕ) → ts t base ≡ signed seconds (sub64 t base)
unfolding ts
ts-eq t base = elim (Bool-cases (ltb (sub64 t base) (2 ^ 63))) [
  | inl ahead ↦ rw (ahead, six_digits-padded (sub64 t base)) refl
  | inr behind ↦ rw (behind, six_digits-padded (2 ^ 64 - sub64 t base)) (simp append_assoc)
]

pub head-eq : (t base id : ℕ) (name : Bytes) → head t base id name ≡ prefix t base id name
unfolding head
head-eq t base id name = rw ts-eq refl

pub signed_decimal-eq : (n : ℕ) → signed_decimal n ≡ signed decimal n
unfolding signed_decimal
signed_decimal-eq n = elim (Bool-cases (ltb n (2 ^ 63))) [
  | inl plus ↦ rw plus refl
  | inr minus ↦ rw minus refl
]

list_items-spaced :
    (i x : ℕ) (xs : List ℕ) → list_items (suc i) (x ∷ xs) ≡ codes " " ++ spaced (x ∷ xs)
unfolding list_items
list_items-spaced i x [] = append-nil _
list_items-spaced i x (y ∷ xs) = rw (list_items-spaced (suc i) y xs) (simp append_assoc)

pub list-eq : (xs : List ℕ) → list xs ≡ codes ",\"" ++ spaced xs ++ codes "\""
unfolding list list_items
list-eq [] = refl
list-eq (x ∷ []) = rw append-nil
list-eq (x ∷ y ∷ xs) = rw (list_items-spaced 0 y xs) (simp append_assoc)

pub first_lines-eq : (r : CaptureReader) → first_lines r ≡ heading r.lsn
unfolding head decimal digits
first_lines-eq r = let now : sub64 r.start_ts r.start_ts ≡ 0 = omega arith in rw (ts-eq, now) refl
