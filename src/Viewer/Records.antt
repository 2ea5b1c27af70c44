-- ===== src/Viewer/Records.antt =====
-- Files of records of one size, of which src/viewer.rs cuts out some.
use pgr.Prelude.{
  nth, ℕ, zero, suc, ◌+◌, ◌-◌, ◌*◌, ◌≤◌, ◌≡◌, refl, sym, ap, ◌∙◌, some, List, [], ◌∷◌, ◌++◌, arith,
  Bytes, length, length-append, append_assoc, take, drop, slice, slice-eq, drop-append, drop-drop,
  drop-nil, ap₂,
}
use pgr.Analyzer.Storage.{write_each}

take-nil : (n : ℕ) → take {A = ℕ} n [] ≡ []
take-nil zero = refl
take-nil (suc n) = refl

-- A file of records of `k` bytes each.
module _ {A : Type 0} (encode : A → Bytes) (k : ℕ) (size : (a : A) → length (encode a) ≡ k) where
  pub record Record (xs : List A) (i : ℕ) (a : A) : Type 0 where
    pub pre : Bytes
    pub post : Bytes
    pub eq : write_each encode xs ≡ pre ++ (encode a ++ post)
    pub before : length pre ≡ i * k

  Record-cons : (x : A) (xs : List A) (i : ℕ) (a : A) → Record xs i a → Record (x ∷ xs) (suc i) a
  Record-cons x xs i a r = record {
    pre = encode x ++ r.pre;
    post = r.post;
    eq = ap (λ s. encode x ++ s) r.eq ∙ sym (append_assoc (encode x) r.pre (encode a ++ r.post));
    before = omega (arith, length-append (encode x) r.pre, size x, r.before);
  }

  pub nth-Record : (xs : List A) (i : ℕ) (a : A) → nth xs i ≡ some a → Record xs i a
  nth-Record [] i a h = cc
  nth-Record (x ∷ xs) zero a h = record {
    pre = [];
    post = write_each encode xs;
    eq = ap (λ y. encode y ++ write_each encode xs) (cc h);
    before = omega arith;
  }
  nth-Record (x ∷ xs) (suc i) a h = Record-cons x xs i a (nth-Record xs i a h)

  take-more : (e s : Bytes) (n m : ℕ) → n ≡ length e + m → take n (e ++ s) ≡ e ++ take m s
  take-more [] s n m h = ap (λ j. take j s) (omega arith)
  take-more (b ∷ e) s zero m h = absurd (omega arith)
  take-more (b ∷ e) s (suc n) m h = ap (λ l. b ∷ l) (take-more e s n m (omega arith))

  drop-records :
      (n : ℕ) (xs : List A) → drop (n * k) (write_each encode xs) ≡ write_each encode (drop n xs)
  drop-records zero xs =
      let z : 0 * k ≡ 0 = omega arith in ap (λ j. drop j (write_each encode xs)) z
  drop-records (suc n) [] = drop-nil (suc n * k)
  drop-records (suc n) (x ∷ xs) =
      ap (λ j. drop j (encode x ++ write_each encode xs)) (omega arith)
      ∙ sym (drop-drop (n * k) k (encode x ++ write_each encode xs))
      ∙ ap (drop (n * k)) (drop-append (encode x) (write_each encode xs) k (sym (size x)))
      ∙ drop-records n xs

  take-records :
      (n : ℕ) (xs : List A) → take (n * k) (write_each encode xs) ≡ write_each encode (take n xs)
  take-records zero xs =
      let z : 0 * k ≡ 0 = omega arith in ap (λ j. take j (write_each encode xs)) z
  take-records (suc n) [] = take-nil (suc n * k)
  take-records (suc n) (x ∷ xs) =
      take-more (encode x) (write_each encode xs) (suc n * k) (n * k) (omega (arith, size x))
      ∙ ap (λ s. encode x ++ s) (take-records n xs)

  -- A slice from the start of one record to that of another.
  pub slice-records :
      (xs : List A) (a b : ℕ)
      → a ≤ b
      → b * k ≤ length (write_each encode xs)
      → slice (write_each encode xs) (a * k) (b * k)
        ≡ some (write_each encode (take (b - a) (drop a xs)))
  slice-records xs a b h l =
      slice-eq (write_each encode xs) (a * k) (b * k) (grind arith) l
      ∙ ap some (ap₂ take (grind arith) (drop-records a xs) ∙ take-records (b - a) (drop a xs))
