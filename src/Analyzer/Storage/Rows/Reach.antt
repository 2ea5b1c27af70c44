-- ===== src/Analyzer/Storage/Rows/Reach.antt =====
-- How far a list of rows goes before its first row in a chunk or behind it.
use pgr.Prelude.{
  ℕ, suc, ◌+◌, ◌≤◌, ◌<◌, ◌≡◌, refl, sym, List, [], ◌∷◌, ◌++◌, arith, length, max, All, ◌⊎◌, true,
  false, leb→le, leb-false, lt→leb-false, le→leb, leb, if◌then◌else◌, take, drop, ◌-◌, ◌&&◌, ap,
  ◌∙◌, Bool-cases, inl, inr,
}

module _ {A : Type 0} (ix : A → ℕ) where
  unfoldable pub reach : ℕ → List A → ℕ
  reach i [] = 0
  reach i (x ∷ xs) = if leb i (ix x) then 0 else suc (reach i xs)

  unfoldable pub height : List A → ℕ
  height [] = 0
  height (x ∷ xs) = max (suc (ix x)) (height xs)

  pub reach-append_lt : (i : ℕ) (xs ys : List A) → i < height xs → reach i (xs ++ ys) ≡ reach i xs
  unfolding reach height
  reach-append_lt i [] ys h = absurd (omega arith)
  reach-append_lt i (x ∷ xs) ys h = ground (arith, reach-append_lt i xs ys)

  pub reach-append_ge :
      (i : ℕ) (xs ys : List A) → height xs ≤ i → reach i (xs ++ ys) ≡ length xs + reach i ys
  unfolding reach height
  reach-append_ge i [] ys h = omega arith
  reach-append_ge i (x ∷ xs) ys h = ground (arith, reach-append_ge i xs ys)

  pub reach-all : (i : ℕ) (xs : List A) → height xs ≤ i → reach i xs ≡ length xs
  unfolding reach height
  reach-all i [] h = omega arith
  reach-all i (x ∷ xs) h = ground (arith, reach-all i xs)

  pub reach_le : (i : ℕ) (xs : List A) → reach i xs ≤ length xs
  unfolding reach
  reach_le i [] = omega arith
  reach_le i (x ∷ xs) = ground (arith, reach_le i xs)

  pub reach_mono : (i j : ℕ) (xs : List A) → i ≤ j → reach i xs ≤ reach j xs
  unfolding reach
  reach_mono i j [] h = omega arith
  reach_mono i j (x ∷ xs) h = ground (arith, reach_mono i j xs)

  pub height-append : (xs ys : List A) → height (xs ++ ys) ≡ max (height xs) (height ys)
  unfolding height
  height-append [] ys = omega arith
  height-append (x ∷ xs) ys = omega (arith, height-append xs ys)

  -- The rows from the first one that reaches chunk `i` to the first one that reaches chunk `j`.
  abbrev pub between : ℕ → ℕ → List A → List A
  between i j xs = take (reach j xs - reach i xs) (drop (reach i xs) xs)

  unfoldable pub of_chunks : ℕ → ℕ → List A → List A
  of_chunks i j [] = []
  of_chunks i j (x ∷ xs) =
      if leb i (ix x) && leb (suc (ix x)) j then x ∷ of_chunks i j xs else of_chunks i j xs

  -- The rows come in the order of their chunks.
  abbrev pub IsSorted : List A → Type 0
  IsSorted [] = Unit
  IsSorted (x ∷ xs) = All (λ y. ix x ≤ ix y) xs × IsSorted xs

  reach-zero : (i k : ℕ) (xs : List A) → i ≤ k → All (λ y. k ≤ ix y) xs → reach i xs ≡ 0
  unfolding reach
  reach-zero i k [] h hs = refl
  reach-zero i k (x ∷ xs) h (hx, hs) = ground arith

  of_chunks-nil : (i j k : ℕ) (xs : List A) → j ≤ k → All (λ y. k ≤ ix y) xs → of_chunks i j xs ≡ []
  unfolding of_chunks
  of_chunks-nil i j k [] h hs = refl
  of_chunks-nil i j k (x ∷ xs) h (hx, hs) = ground (arith, of_chunks-nil i j k xs h hs)

  reach-stop : (i : ℕ) (x : A) (xs : List A) → i ≤ ix x → reach i (x ∷ xs) ≡ 0
  unfolding reach
  reach-stop i x xs h = rw (le→leb i (ix x) h)

  reach-go : (i : ℕ) (x : A) (xs : List A) → ix x < i → reach i (x ∷ xs) ≡ suc (reach i xs)
  unfolding reach
  reach-go i x xs h = rw (lt→leb-false i (ix x) h)

  between-zero : (i j : ℕ) (xs : List A) → reach i xs ≡ 0 → between i j xs ≡ take (reach j xs) xs
  between-zero i j xs z = rw z (ap (λ n. take n xs) (omega arith))

  between-in :
      (i j : ℕ) (x : A) (xs : List A)
      → i ≤ ix x
      → ix x < j
      → All (λ y. ix x ≤ ix y) xs
      → between i j (x ∷ xs) ≡ x ∷ between i j xs
  between-in i j x xs a b h =
      between-zero i j (x ∷ xs) (reach-stop i x xs a)
      ∙ ap (λ n. take n (x ∷ xs)) (reach-go j x xs b)
      ∙ ap (λ l. x ∷ l) (sym (between-zero i j xs (reach-zero i (ix x) xs a h)))

  between-behind : (i j : ℕ) (x : A) (xs : List A) → i ≤ j → j ≤ ix x → between i j (x ∷ xs) ≡ []
  between-behind i j x xs h b =
      between-zero i j (x ∷ xs) (reach-stop i x xs (omega arith))
      ∙ ap (λ n. take n (x ∷ xs)) (reach-stop j x xs b)

  between-before :
      (i j : ℕ) (x : A) (xs : List A) → i ≤ j → ix x < i → between i j (x ∷ xs) ≡ between i j xs
  between-before i j x xs h a =
      rw (reach-go i x xs a, reach-go j x xs (omega arith))
        (ap (λ n. take n (drop (reach i xs) xs)) (omega arith))

  between-nil : (i j : ℕ) → between i j [] ≡ []
  unfolding reach
  between-nil i j = refl

  -- On sorted rows these are the rows of the chunks from `i` up to `j`.
  pub between-IsSorted :
      (i j : ℕ) (xs : List A) → i ≤ j → IsSorted xs → between i j xs ≡ of_chunks i j xs
  unfolding of_chunks
  between-IsSorted i j [] h s = between-nil i j
  between-IsSorted i j (x ∷ xs) h (sx, s) =
      by_tests (Bool-cases (leb i (ix x))) (Bool-cases (leb (suc (ix x)) j))
        (between-IsSorted i j xs h s)
    where
      by_tests :
          (leb i (ix x) ≡ true) ⊎ (leb i (ix x) ≡ false)
          → (leb (suc (ix x)) j ≡ true) ⊎ (leb (suc (ix x)) j ≡ false)
          → between i j xs ≡ of_chunks i j xs
          → between i j (x ∷ xs) ≡ of_chunks i j (x ∷ xs)
      by_tests (inl a) (inl b) e =
          rw (a, b)
            (between-in i j x xs (leb→le i (ix x) a) (leb→le (suc (ix x)) j b) sx
              ∙ ap (λ l. x ∷ l) e)
      by_tests (inl a) (inr b) e =
          rw (a, b)
            (between-behind i j x xs h (omega (arith, leb-false (suc (ix x)) j b))
              ∙ sym (of_chunks-nil i j (ix x) xs (omega (arith, leb-false (suc (ix x)) j b)) sx))
      by_tests (inr a) b e = rw a (between-before i j x xs h (leb-false i (ix x) a) ∙ e)
