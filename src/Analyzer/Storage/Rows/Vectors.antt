-- ===== src/Analyzer/Storage/Rows/Vectors.antt =====
-- The vectors that `write_trace` of src/analyzer.rs grows and updates.
use pgr.Prelude.{
  nth, ℕ, zero, suc, ◌≤◌, ◌<◌, ◌≡◌, refl, sym, ap, ◌∙◌, some, List, [], ◌∷◌, ◌++◌, arith, Bytes,
  length, append_assoc, append-nil,
}
use mathlib.Core.Option
use pgr.Prelude.Panic.{Returns, Returns-bind}
use pgr.Analyzer.Storage.{resize, update, write_each}

pub write_each-append :
    {A : Type 0} (encode : A → Bytes) (xs : List A) (x : A)
    → write_each encode (xs ++ (x ∷ [])) ≡ write_each encode xs ++ encode x
write_each-append encode [] x = append-nil _
write_each-append encode (y ∷ xs) x =
    ap (λ s. encode y ++ s) (write_each-append encode xs x)
    ∙ sym (append_assoc (encode y) (write_each encode xs) (encode x))

module _ {A : Type 0} where
  pub length-resize : (n : ℕ) (d : A) (xs : List A) → length (resize n d xs) ≡ n
  unfolding resize
  length-resize zero d xs = refl
  length-resize (suc n) d [] = ap suc (length-resize n d [])
  length-resize (suc n) d (x ∷ xs) = ap suc (length-resize n d xs)

  pub nth-resize_old :
      (n : ℕ) (d : A) (xs : List A) (j : ℕ)
      → j < length xs
      → length xs ≤ n
      → nth (resize n d xs) j ≡ nth xs j
  unfolding resize
  nth-resize_old n d [] j h k = absurd (omega arith)
  nth-resize_old zero d (x ∷ xs) j h k = absurd (omega arith)
  nth-resize_old (suc n) d (x ∷ xs) zero h k = refl
  nth-resize_old (suc n) d (x ∷ xs) (suc j) h k =
      nth-resize_old n d xs j (omega arith) (omega arith)

  pub nth-resize_new :
      (n : ℕ) (d : A) (xs : List A) (j : ℕ) → length xs ≤ j → j < n → nth (resize n d xs) j ≡ some d
  unfolding resize
  nth-resize_new zero d xs j h k = absurd (omega arith)
  nth-resize_new (suc n) d [] zero h k = refl
  nth-resize_new (suc n) d [] (suc j) h k = nth-resize_new n d [] j (omega arith) (omega arith)
  nth-resize_new (suc n) d (x ∷ xs) zero h k = absurd (omega arith)
  nth-resize_new (suc n) d (x ∷ xs) (suc j) h k =
      nth-resize_new n d xs j (omega arith) (omega arith)

  -- An update in range returns a list of the same length that differs at that index.
  module _ (f : A → A) {B : Type 0} (g : A → B) (keeps : (a : A) → g (f a) ≡ g a) where
    abbrev pub Updated : List A → List A → Type 0
    Updated xs ys =
        (length ys ≡ length xs) × ((j : ℕ) → Option.map g (nth ys j) ≡ Option.map g (nth xs j))

    Updated-cons : (x : A) (xs ys : List A) → Updated xs ys → Updated (x ∷ xs) (x ∷ ys)
    Updated-cons x xs ys (h, k) = (ap suc h, at)
      where
        at : (j : ℕ) → Option.map g (nth (x ∷ ys) j) ≡ Option.map g (nth (x ∷ xs) j)
        at zero = refl
        at (suc j) = k j

    pub update-Updated :
        (i : ℕ) (xs : List A) → i < length xs → Returns (Updated xs) (update i f xs)
    unfolding update
    update-Updated i [] h = absurd (omega arith)
    update-Updated zero (x ∷ xs) h = (refl, at)
      where
        at : (j : ℕ) → Option.map g (nth (f x ∷ xs) j) ≡ Option.map g (nth (x ∷ xs) j)
        at zero = ap some (keeps x)
        at (suc j) = refl
    update-Updated (suc i) (x ∷ xs) h =
        Returns-bind (Updated xs) (Updated (x ∷ xs)) (update i f xs) _
          (update-Updated i xs (omega arith)) (λ ys. Updated-cons x xs ys)
