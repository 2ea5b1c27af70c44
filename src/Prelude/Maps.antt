-- ===== src/Prelude/Maps.antt =====
-- Maps as association lists in which a key stands once, and the keys that they are used with.
use pgr.Prelude.Tests.{◌==◌, if◌then◌else◌, Bool-cases}
use pgr.Prelude.Words.{Bytes}
use pgr.Prelude.Lists.{All}
use Prim.Native.Nat.{ℕ}
use mathlib.Core.Path.{◌≡◌, refl, sym, subst}
use mathlib.Core.Bool.{Bool, true, false, ◌&&◌}
use mathlib.Core.Option.{Option, none, some}
use mathlib.Core.List.{List, [], ◌∷◌}
use mathlib.Core.Logic.{◌⊎◌, inl, inr}
use native.Mathlib.Omega.{arith}

pub record Key (K : Type 0) : Type 0 where
  pub equal : K → K → Bool
  pub equal_refl : (a : K) → equal a a ≡ true
  pub equal_eq : (a b : K) → equal a b ≡ true → a ≡ b

pub ℕ-equal_eq : (a b : ℕ) → (a == b) ≡ true → a ≡ b
ℕ-equal_eq a b h = ground arith

pub ℕ-equal_refl : (a : ℕ) → (a == a) ≡ true
ℕ-equal_refl a = ground arith

instance abbrev pub ℕ_key : Key ℕ
ℕ_key = record { equal = λ a b. a == b; equal_refl = ℕ-equal_refl; equal_eq = ℕ-equal_eq }

abbrev pub same_bytes : Bytes → Bytes → Bool
same_bytes [] [] = true
same_bytes (a ∷ as') (b ∷ bs) = (a == b) && same_bytes as' bs
same_bytes _ _ = false

pub same_bytes_refl : (a : Bytes) → same_bytes a a ≡ true
same_bytes_refl [] = refl
same_bytes_refl (a ∷ as') = rw (ℕ-equal_refl a, same_bytes_refl as')

pub same_bytes_eq : (a b : Bytes) → same_bytes a b ≡ true → a ≡ b
same_bytes_eq [] [] h = refl
same_bytes_eq [] (b ∷ bs) h = cc
same_bytes_eq (a ∷ as') [] h = cc
same_bytes_eq (a ∷ as') (b ∷ bs) h = ground (arith, same_bytes_eq as' bs)

instance abbrev pub Bytes_key : Key Bytes
Bytes_key = record { equal = same_bytes; equal_refl = same_bytes_refl; equal_eq = same_bytes_eq }

abbrev pub Map : Type 0 → Type 0 → Type 0
Map K V = List (K × V)

abbrev or_default : {V : Type 0} → Option V → V → V
or_default none d = d
or_default (some v) d = v

module _ {K V : Type 0} ⦃key : Key K⦄ where
  unfoldable pub lookup : K → Map K V → Option V
  lookup k [] = none
  lookup k (e ∷ m) = if key.equal k e.0 then some e.1 else lookup k m

  -- `insert`: the value of a known key is replaced where it stands.
  unfoldable pub insert : K → V → Map K V → Map K V
  insert k v [] = (k, v) ∷ []
  insert k v (e ∷ m) = if key.equal k e.0 then (k, v) ∷ m else (e ∷ insert k v m)

  -- `entry(k).or_insert(d)`: the value that the entry holds from then on.
  unfoldable pub entry : K → V → Map K V → V
  unfolding lookup
  entry k d m = or_default (lookup k m) d

  pub lookup-insert : (k : K) (v : V) (m : Map K V) → lookup k (insert k v m) ≡ some v
  unfolding lookup insert
  lookup-insert k v [] = rw (key.equal_refl k)
  lookup-insert k v (e ∷ m) = elim (Bool-cases (key.equal k e.0)) [
    | inl same ↦ rw (same, key.equal_refl k)
    | inr other ↦ rw (other, other, lookup-insert k v m)
  ]

  pub lookup-insert_other :
      (q k : K) (v : V) (m : Map K V) → key.equal q k ≡ false → lookup q (insert k v m) ≡ lookup q m
  unfolding lookup insert
  lookup-insert_other q k v [] h = rw h
  lookup-insert_other q k v (e ∷ m) h = elim (Bool-cases (key.equal k e.0)) [
    | inl same ↦ rw (same, h, sym (key.equal_eq k e.0 same)) (rw h)
    | inr other ↦ rw (other, lookup-insert_other q k v m h)
  ]

  -- What holds of every value holds of one that is found.
  pub lookup-All :
      (P : V → Type 0) (k : K) (v : V) (m : Map K V)
      → All (λ (e : K × V). P e.1) m
      → lookup k m ≡ some v
      → P v
  unfolding lookup
  lookup-All P k v [] h e = cc
  lookup-All P k v (e' ∷ m) (h, hs) e = elim (taken (key.equal k e'.0) e) [
    | inl same ↦ subst P same h
    | inr later ↦ lookup-All P k v m hs later
  ]
    where
      taken :
          {a : V} {o : Option V} (b : Bool)
          → (if b then some a else o) ≡ some v
          → (a ≡ v) ⊎ (o ≡ some v)
      taken true e = inl cc
      taken false e = inr e
