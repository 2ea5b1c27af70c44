-- ===== src/Prelude/Io.antt =====
-- Reading a file: the bytes that are left, and the errors that the readers raise or pass on. A file
-- is read to its end without an error of the operating system.
pub mod Stable
use Prim.Native.Nat.{ℕ, zero, suc, ◌+◌, ◌<◌}
use mathlib.Core.Path.{◌≡◌, refl, ap}
use mathlib.Core.List.{List, [], ◌∷◌, ◌++◌}
use native.Mathlib.Omega.{arith}
use pgr.Prelude.Tests.{ltb, le→ltb, if◌then◌else◌}
use pgr.Prelude.Lists.{length, take, drop, take-append, drop-append, length-append, All}
use pgr.Prelude.Words.{Bytes}

-- `io::ErrorKind`
pub data IoError : Type 0 where
  unexpected_eof invalid_data : IoError

pub data Result {ℓ} (A : Type ℓ) : Type ℓ where
  ok : A → Result A
  err : IoError → Result A

-- What a reading of whole files comes to: `P` of its result, or the report of bad data.
abbrev pub Settled {ℓ} : {A : Type ℓ} → (A → Type 0) → Result A → Type 0
Settled P (ok a) = P a
Settled P (err e) = e ≡ invalid_data

-- An action on an open file: what it returns, with the bytes left after it.
abbrev pub Reader : Type 0 → Type 0
Reader A = Bytes → Result (A × Bytes)

infixl 5 ◌>>=◌
abbrev pub ◌>>=◌ : {A B : Type 0} → Reader A → (A → Reader B) → Reader B
◌>>=◌ m f s = elim (m s) [ ok (a, s') ↦ f a s' | err e ↦ err e ]

abbrev pub pure : {A : Type 0} → A → Reader A
pure a s = ok (a, s)

abbrev pub fail : {A : Type 0} → IoError → Reader A
fail e s = err e

-- `read_exact` into a buffer of `n` bytes.
unfoldable pub read_exact : ℕ → Reader Bytes
read_exact n s = if ltb (length s) n then err unexpected_eof else ok (take n s, drop n s)

-- `n` rounds of a loop that pushes what it reads.
unfoldable pub repeat : {A : Type 0} → ℕ → Reader A → Reader (List A)
repeat zero m s = ok ([], s)
repeat (suc n) m s = (do a ← m; as' ← repeat n m; pure (a ∷ as')) s

pub read_exact-append :
    (n : ℕ) (bs rest : Bytes) → length bs ≡ n → read_exact n (bs ++ rest) ≡ ok (bs, rest)
unfolding read_exact
read_exact-append n bs rest h = rw (
  le→ltb (length (bs ++ rest)) n (omega (arith, length-append bs rest)),
  take-append bs rest n (omega arith),
  drop-append bs rest n (omega arith),
)

-- What a loop reads back, if each round reads back one encoded element.
module _ {A : Type 0} (P : A → Type 0) (encode : A → Bytes) (m : Reader A) where
  abbrev pub encode_all : List A → Bytes
  encode_all [] = []
  encode_all (a ∷ as') = encode a ++ encode_all as'
