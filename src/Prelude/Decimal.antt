-- ===== src/Prelude/Decimal.antt =====
-- The decimal digits of an unsigned integer, as `to_string` and `{}` print it.
use pgr.Prelude.Tests.{◌==◌, if◌then◌else◌}
use pgr.Prelude.Words.{Bytes}
use Prim.Native.Nat.{ℕ, zero, suc, ◌+◌, ◌/◌, ◌%◌}
use mathlib.Core.List.{[], ◌∷◌}

-- The digits of `n` before those printed so far, at most `fuel` of them.
unfoldable pub digits : ℕ → ℕ → Bytes → Bytes
digits zero n printed = printed
digits (suc fuel) n printed =
    let printed' = (48 + n % 10) ∷ printed in
    let more = digits fuel (n / 10) printed' in if n / 10 == 0 then printed' else more

-- A 64-bit number has at most twenty digits.
unfoldable pub decimal : ℕ → Bytes
unfolding digits
decimal n = digits 20 n []
