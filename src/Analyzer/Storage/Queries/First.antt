-- ===== src/Analyzer/Storage/Queries/First.antt =====
-- Which query's entry stands for a query in the file that `map_query` of src/analyzer.rs fills.
use pgr.Prelude.{
  ℕ, ◌≡◌, refl, sym, ap, ◌∙◌, Option, none, some, List, [], ◌∷◌, ◌++◌, Bytes, append_assoc, ◌==◌,
  inl, inr, Bool-cases,
}
use pgr.Prelude.Maps.{ℕ_key}
use pgr.Viewer.Queries.{Query}
use pgr.Analyzer.Storage.Queries.{
  first_with, keep_or, stored_all, first_with-append_some, first_with-append_none,
}

module _ (hash : Bytes → ℕ) where
  -- For each query the first of `all` whose text has the same hash.
  abbrev pub firsts : List Query → List Query → List Query
  firsts all [] = []
  firsts all (q ∷ qs) = keep_or hash (first_with hash (hash q.text) all) q ∷ firsts all qs

  first_with_self : (q : Query) (qs : List Query) → first_with hash (hash q.text) (q ∷ qs) ≡ some q
  unfolding first_with
  first_with_self q qs = rw (ℕ_key.equal_refl (hash q.text))

  -- A query whose hash an earlier one has is never the first.
  first_with-skip :
      (k : ℕ) (seen : List Query) (p q : Query) (qs : List Query)
      → first_with hash (hash q.text) seen ≡ some p
      → first_with hash k (seen ++ q ∷ qs) ≡ first_with hash k (seen ++ qs)
  unfolding first_with
  first_with-skip k seen p q qs e = by_seen (first_with hash k seen) refl
    where
      by_seen :
          (o : Option Query)
          → first_with hash k seen ≡ o
          → first_with hash k (seen ++ q ∷ qs) ≡ first_with hash k (seen ++ qs)
      by_seen (some r) f =
          first_with-append_some hash k seen (q ∷ qs) r f
          ∙ sym (first_with-append_some hash k seen qs r f)
      by_seen none f = elim (Bool-cases (k == hash q.text)) [
        | inl same ↦
            let eq : k ≡ hash q.text = ℕ_key.equal_eq k (hash q.text) same in
            absurd (cc (ap (λ j. first_with hash j seen) eq, e, f))
        | inr other ↦
            first_with-append_none hash k seen (q ∷ qs) f
            ∙ rw other (sym (first_with-append_none hash k seen qs f))
      ]

  stored_all-from :
      (all seen qs : List Query)
      → ((k : ℕ) → first_with hash k all ≡ first_with hash k (seen ++ qs))
      → stored_all hash seen qs ≡ firsts all qs
  stored_all-from all seen [] h = refl
  stored_all-from all seen (q ∷ qs) h =
      by_seen (first_with hash (hash q.text) seen) refl
        (λ seen' h'. stored_all-from all seen' qs h')
    where
      by_seen :
          (o : Option Query)
          → first_with hash (hash q.text) seen ≡ o
          → ((seen' : List Query)
              → ((k : ℕ) → first_with hash k all ≡ first_with hash k (seen' ++ qs))
              → stored_all hash seen' qs ≡ firsts all qs)
          → stored_all hash seen (q ∷ qs) ≡ firsts all (q ∷ qs)
      by_seen (some p) e later = rw (
        e,
        h (hash q.text),
        first_with-append_some hash (hash q.text) seen (q ∷ qs) p e,
        later seen (λ k. h k ∙ first_with-skip k seen p q qs e),
      )
      by_seen none e later = rw (
        e,
        h (hash q.text),
        first_with-append_none hash (hash q.text) seen (q ∷ qs) e,
        first_with_self q qs,
        later (seen ++ q ∷ [])
            (λ k. h k ∙ ap (λ l. first_with hash k l) (sym (append_assoc seen (q ∷ []) qs))),
      )

  pub stored_all-firsts : (qs : List Query) → stored_all hash [] qs ≡ firsts qs qs
  stored_all-firsts qs = stored_all-from qs [] qs (λ k. refl)
