-- ===== src/Proto/Frame.antt =====
-- Frames of the protocol: a tag, a length that counts itself and the body, and the body.
use pgr.Prelude.{
  length-pos, append-nil, ℕ, ◌+◌, ◌≤◌, ◌<◌, ◌^◌, ◌≡◌, ◌≢◌, refl, ap, Option, none, some, [], ◌∷◌,
  ◌++◌, arith, Bytes, length, to_be, from_be-to_be, length-append, length-to_be, append_assoc,
  le→ltb, ltb, if◌then◌else◌,
}
use pgr.Proto.{try_read_frame}

abbrev pub frame : ℕ → Bytes → Bytes
frame t body = t ∷ to_be 4 (4 + length body) ++ body

-- A frame that the length field can count.
abbrev pub FitsFrame : Bytes → Type 0
FitsFrame body = 4 + length body < 2 ^ 32

pub length-frame : (t : ℕ) (body : Bytes) → length (frame t body) ≡ 5 + length body
length-frame t body =
    omega (arith, length-append (to_be 4 (4 + length body)) body, length-to_be 4 (4 + length body))

pub read_length :
    (t n : ℕ) (rest : Bytes)
    → n < 2 ^ 32
    → try_read_frame (t ∷ to_be 4 n ++ rest)
      ≡ (if ltb (5 + length rest) (1 + n) then none else some (t, 1 + n))
unfolding try_read_frame to_be
read_length t n rest h =
    ap (λ (k : ℕ). if ltb (5 + length rest) (1 + k) then none else some (t, 1 + k))
      (from_be-to_be 4 n h)

-- At the start of a frame, whatever follows, its tag and its length are read.
pub try_read_frame-frame :
    (t : ℕ) (body rest : Bytes)
    → FitsFrame body
    → try_read_frame (frame t body ++ rest) ≡ some (t, 5 + length body)
try_read_frame-frame t body rest h =
    rw
      (
        append_assoc (to_be 4 (4 + length body)) body rest,
        read_length t (4 + length body) (body ++ rest) h,
        le→ltb (5 + length (body ++ rest)) (1 + (4 + length body))
            (omega (arith, length-append body rest)),
      )
      (ap (λ n. some (t, n)) (omega arith))

-- A frame that is read lies in the buffer, and is not empty.
pub try_read_frame-bounds :
    (p : Bytes) (t n : ℕ) → try_read_frame p ≡ some (t, n) → (0 < n) × (n ≤ length p)
unfolding try_read_frame
try_read_frame-bounds [] t n h = absurd (cc)
try_read_frame-bounds (a ∷ []) t n h = absurd (cc)
try_read_frame-bounds (a ∷ b ∷ []) t n h = absurd (cc)
try_read_frame-bounds (a ∷ b ∷ c ∷ []) t n h = absurd (cc)
try_read_frame-bounds (a ∷ b ∷ c ∷ d ∷ []) t n h = absurd (cc)
try_read_frame-bounds (a ∷ b ∷ c ∷ d ∷ e ∷ p) t n h = ground arith

-- Bytes that arrive later do not change a frame that is already there.
pub try_read_frame-append :
    (p q : Bytes) (t n : ℕ) → try_read_frame p ≡ some (t, n) → try_read_frame (p ++ q) ≡ some (t, n)
unfolding try_read_frame
try_read_frame-append [] q t n h = absurd (cc)
try_read_frame-append (a ∷ []) q t n h = absurd (cc)
try_read_frame-append (a ∷ b ∷ []) q t n h = absurd (cc)
try_read_frame-append (a ∷ b ∷ c ∷ []) q t n h = absurd (cc)
try_read_frame-append (a ∷ b ∷ c ∷ d ∷ []) q t n h = absurd (cc)
try_read_frame-append (a ∷ b ∷ c ∷ d ∷ e ∷ p) q t n h = ground (arith, length-append p q)

-- A proper prefix of a frame is not yet read.
pub try_read_frame-cut :
    (t : ℕ) (body p q : Bytes)
    → FitsFrame body
    → frame t body ≡ p ++ q
    → q ≢ []
    → try_read_frame p ≡ none
try_read_frame-cut t body p q h e ne = outcome (try_read_frame p) refl
  where
    whole : try_read_frame (p ++ q) ≡ some (t, 5 + length body)
    whole = rw (← e, ← append-nil (frame t body)) (try_read_frame-frame t body [] h)

    total : length p + length q ≡ 5 + length body
    total = omega (arith, length-append p q, length-frame t body, ap length e)

    outcome : (x : Option (ℕ × ℕ)) → try_read_frame p ≡ x → x ≡ none
    outcome none k = refl
    outcome (some (t', n)) k =
        let same : n ≡ 5 + length body = cc (whole, try_read_frame-append p q t' n k) in
        absurd (omega (arith, same, total, try_read_frame-bounds p t' n k, length-pos q ne))
