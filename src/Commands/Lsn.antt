-- ===== src/Commands/Lsn.antt =====
-- The log position as the command `lsn` of src/main.rs prints it.
use pgr.Prelude.{
  ◌≢◌, refl, length, ◌⊎◌, ◌≤◌, ℕ, zero, suc, ◌+◌, ◌-◌, ◌*◌, ◌/◌, ◌%◌, ◌<◌, ◌^◌, ◌≡◌, ap, ◌∙◌, inl,
  inr, ◌&&◌, Option, none, some, [], ◌∷◌, ◌++◌, arith, Bytes, ltb, leb, ◌==◌, if◌then◌else◌,
  Bool-cases,
}
use pgr.Prelude.Panic.{◌>>=◌}

unfoldable pub hex_digit : ℕ → ℕ
hex_digit d = if ltb d 10 then 48 + d else 55 + d

-- `{:X}`: the digits of `n` before those printed so far, at most `fuel` of them.
unfoldable pub hex_digits : ℕ → ℕ → Bytes → Bytes
hex_digits zero n printed = printed
hex_digits (suc fuel) n printed =
    let printed' = hex_digit (n % 16) ∷ printed in
    let more = hex_digits fuel (n / 16) printed' in if n / 16 == 0 then printed' else more

-- `{:0kX}` of a number of at most `k` digits.
unfoldable pub padded_hex : ℕ → ℕ → Bytes → Bytes
padded_hex zero n printed = printed
padded_hex (suc k) n printed = padded_hex k (n / 16) (hex_digit (n % 16) ∷ printed)

abbrev slash : ℕ
slash = 0x2f

-- `{:X}/{:08X}` of the upper half and the lower half. A u64 has at most 16 digits.
unfoldable pub lsn_text : ℕ → Bytes
lsn_text l = hex_digits 16 (l / 2 ^ 32) [] ++ slash ∷ padded_hex 8 (l % 2 ^ 32) []

-- The number that uppercase hexadecimal digits stand for, after the digits read so far.
unfoldable digit_value : ℕ → Option ℕ
digit_value b =
    if leb 48 b && leb b 57
    then some (b - 48)
    else if leb 65 b && leb b 70
    then some (b - 55)
    else none

pub hex_value : ℕ → Bytes → Option ℕ
hex_value n [] = some n
hex_value n (b ∷ bs) = do v ← digit_value b; hex_value (n * 16 + v) bs

-- The single digit 0, or digits that do not start with it.
abbrev pub NoLeadingZero : Bytes → Type 0
NoLeadingZero s = (s ≡ b'0' ∷ []) ⊎ ((b : ℕ) × (bs : Bytes) × (s ≡ b ∷ bs) × (b ≢ b'0'))

-- The usual text of a position: the upper half of the 64 bits in at most eight hexadecimal digits
-- without leading zeros, a slash, and the lower half in exactly eight.
pub record IsLsnText (l : ℕ) (s : Bytes) : Type 0 where
  pub upper : Bytes
  pub lower : Bytes
  pub text : s ≡ upper ++ b'/' ∷ lower
  pub upper_value : hex_value 0 upper ≡ some (l / 2 ^ 32)
  pub lower_value : hex_value 0 lower ≡ some (l % 2 ^ 32)
  pub upper_length : length upper ≤ 8
  pub lower_length : length lower ≡ 8
  pub leading : NoLeadingZero upper

-- 16 ^ k, by recursion.
abbrev hex_bound : ℕ → ℕ
hex_bound zero = 1
hex_bound (suc k) = 16 * hex_bound k

digit_value-hex_digit : (d : ℕ) → d < 16 → digit_value (hex_digit d) ≡ some d
unfolding digit_value hex_digit
digit_value-hex_digit d h = ground arith

-- A last digit read behind the number before it.
hex_value-digit :
    (m n : ℕ) (printed : Bytes)
    → m * 16 + n % 16 ≡ n
    → hex_value m (hex_digit (n % 16) ∷ printed) ≡ hex_value n printed
unfolding hex_value
hex_value-digit m n printed e = rw (digit_value-hex_digit (n % 16) (omega arith), ◌>>=◌, e)

hex_value-padded_hex :
    (k n : ℕ) (printed : Bytes)
    → n < hex_bound k
    → hex_value 0 (padded_hex k n printed) ≡ hex_value n printed
unfolding padded_hex
hex_value-padded_hex zero n printed h = ap (λ m. hex_value m printed) (omega arith)
hex_value-padded_hex (suc k) n printed h =
    hex_value-padded_hex k (n / 16) (hex_digit (n % 16) ∷ printed) (omega arith)
    ∙ hex_value-digit (n / 16) n printed (omega arith)

hex_value-hex_digits :
    (k n : ℕ) (printed : Bytes)
    → n < hex_bound k
    → hex_value 0 (hex_digits k n printed) ≡ hex_value n printed
unfolding hex_digits
hex_value-hex_digits zero n printed h = ap (λ m. hex_value m printed) (omega arith)
hex_value-hex_digits (suc k) n printed h = elim (Bool-cases (n / 16 == 0)) [
  | inl last ↦ rw last (hex_value-digit 0 n printed (ground arith))
  | inr more ↦ rw more (
      hex_value-hex_digits k (n / 16) (hex_digit (n % 16) ∷ printed) (omega arith)
      ∙ hex_value-digit (n / 16) n printed (omega arith))
]

length-padded_hex :
    (k n : ℕ) (printed : Bytes) → length (padded_hex k n printed) ≡ k + length printed
unfolding padded_hex
length-padded_hex zero n printed = omega arith
length-padded_hex (suc k) n printed =
    omega (arith, length-padded_hex k (n / 16) (hex_digit (n % 16) ∷ printed))

length-hex_digits :
    (fuel k n : ℕ) (printed : Bytes)
    → 0 < k
    → n < hex_bound k
    → length (hex_digits fuel n printed) ≤ k + length printed
unfolding hex_digits
length-hex_digits zero k n printed h b = omega arith
length-hex_digits (suc fuel) zero n printed h b = absurd (omega arith)
length-hex_digits (suc fuel) (suc k) n printed h b = elim (Bool-cases (n / 16 == 0)) [
  | inl last ↦ rw last (omega arith)
  | inr more ↦
      let later =
        length-hex_digits fuel k (n / 16) (hex_digit (n % 16) ∷ printed)
          (positive k (n / 16) (ground arith) (omega arith)) (omega arith) in
      rw more (omega (arith, later))
]
  where
    positive : (k m : ℕ) → m ≢ 0 → m < hex_bound k → 0 < k
    positive zero m e b = absurd (omega arith)
    positive (suc k) m e b = omega arith

hex_digit-zero : (d : ℕ) → 0 < d → hex_digit d ≢ b'0'
unfolding hex_digit
hex_digit-zero d h = ground arith

hex_digits-NoLeadingZero :
    (fuel n : ℕ) (printed : Bytes)
    → 0 < n
    → n < hex_bound fuel
    → NoLeadingZero (hex_digits fuel n printed)
unfolding hex_digits
hex_digits-NoLeadingZero zero n printed h b = absurd (omega arith)
hex_digits-NoLeadingZero (suc fuel) n printed h b = elim (Bool-cases (n / 16 == 0)) [
  | inl last ↦
      rw last (inr (hex_digit (n % 16), printed, refl, hex_digit-zero (n % 16) (ground arith)))
  | inr more ↦ rw more (
      hex_digits-NoLeadingZero fuel (n / 16) (hex_digit (n % 16) ∷ printed) (ground arith)
        (omega arith))
]

upper-NoLeadingZero : (n : ℕ) → n < 2 ^ 32 → NoLeadingZero (hex_digits 16 n [])
unfolding hex_digits hex_digit
upper-NoLeadingZero n h = elim (Bool-cases (n == 0)) [
  | inl nothing ↦ let e : n ≡ 0 = ground arith in rw e (inl refl)
  | inr more ↦ hex_digits-NoLeadingZero 16 n [] (ground arith) (omega arith)
]

pub lsn_text-IsLsnText : (l : ℕ) → l < 2 ^ 64 → IsLsnText l (lsn_text l)
unfolding lsn_text hex_value
lsn_text-IsLsnText l h = record {
  upper = hex_digits 16 (l / 2 ^ 32) [];
  lower = padded_hex 8 (l % 2 ^ 32) [];
  text = refl;
  upper_value = hex_value-hex_digits 16 (l / 2 ^ 32) [] (omega arith);
  lower_value = hex_value-padded_hex 8 (l % 2 ^ 32) [] (omega arith);
  upper_length = length-hex_digits 16 8 (l / 2 ^ 32) [] (omega arith) (omega arith);
  lower_length = length-padded_hex 8 (l % 2 ^ 32) [];
  leading = upper-NoLeadingZero (l / 2 ^ 32) (omega arith);
}
