-- ===== src/Analyzer/Storage/Queries/Served.antt =====
-- The entries that `read_queries` of src/viewer.rs returns at the offsets of `map_query` of
-- src/analyzer.rs.
use pgr.Prelude.{
  ℕ, ◌+◌, ◌<◌, ◌≤◌, ◌^◌, ◌≡◌, refl, sym, ap, ap₂, subst, ◌∙◌, Option, none, some, List, [], ◌∷◌,
  ◌++◌, arith, Bytes, length, append_assoc, append-nil, All, All-append, ◌==◌, inl, inr, Bool-cases,
}
use pgr.Prelude.Maps.{ℕ_key}
use pgr.Prelude.Io.{ok}
use pgr.Analyzer.{F32, StorageWriter}
use pgr.Analyzer.Storage
use pgr.Analyzer.Storage.{query_bytes, query_size, map_query, map_known}
use pgr.Viewer.{read_queries, query_total, post_queries, AppState, octets, respond}
use pgr.Viewer.Entries.{
  StandsAt, StandsAt-append, StandAt, StandAt-small, concat, read_entries-StandAt,
}
use pgr.Viewer.Offsets.{offsets_body, post-offsets_body}
use pgr.Viewer.Queries.{Query, entry_of, FitsQuery, query_total-query_bytes}
use pgr.Analyzer.Storage.Queries.First.{firsts, stored_all-firsts}
use pgr.Analyzer.Storage.Queries.{
  first_with, keep_or, add_new, stored, remember, stored_all, map_all, Indexed, Indexed-new, Mapped,
  map_query-Mapped,
}

abbrev pub total_size : List Query → ℕ
total_size [] = 0
total_size (q ∷ qs) = query_size q.text q.parameter_types + total_size qs

abbrev pub entries : List Query → List Bytes
entries [] = []
entries (q ∷ qs) = entry_of q ∷ entries qs

abbrev pub texts : List Query → List Bytes
texts [] = []
texts (q ∷ qs) = q.text ∷ texts qs

abbrev Entry : Bytes → Type 0
Entry e = (q : Query) × (e ≡ entry_of q) × FitsQuery q

Entry-measured : (e post : Bytes) → Entry e → query_total (e ++ post) ≡ some (ok (length e))
Entry-measured e post (q, h, f) =
    rw h (query_total-query_bytes q.text q.parameter_types post f.text f.types)

entries-Entry : (qs : List Query) → All FitsQuery qs → All Entry (entries qs)
entries-Entry [] h = tt
entries-Entry (q ∷ qs) (h, hs) = ((q, refl, h), entries-Entry qs hs)

module _ (hash : Bytes → ℕ) where
  -- A property of queries that the stored hash ones share.
  module _ (P : Query → Type 0) where
    first_with-All :
        (k : ℕ) (seen : List Query) (q : Query) → All P seen → first_with hash k seen ≡ some q → P q
    unfolding first_with
    first_with-All k [] q hs e = cc
    first_with-All k (p ∷ seen) q (h, hs) e = elim (Bool-cases (k == hash p.text)) [
      | inl same ↦ subst P (cc (rw same at e)) h
      | inr other ↦ first_with-All k seen q hs (rw other at e)
    ]

    stored-All : (seen : List Query) (q : Query) → All P seen → P q → P (stored hash seen q)
    stored-All seen q hs h = by_first (first_with hash (hash q.text) seen) refl
      where
        by_first :
            (o : Option Query) → first_with hash (hash q.text) seen ≡ o → P (keep_or hash o q)
        by_first none e = h
        by_first (some p) e = first_with-All (hash q.text) seen p hs e

    remember-All : (seen : List Query) (q : Query) → All P seen → P q → All P (remember hash seen q)
    remember-All seen q hs h = by_first (first_with hash (hash q.text) seen)
      where
        by_first : (o : Option Query) → All P (add_new hash o seen q)
        by_first none = All-append P seen (q ∷ []) hs (h, tt)
        by_first (some p) = hs

    stored_all-All :
        (seen qs : List Query) → All P seen → All P qs → All P (stored_all hash seen qs)
    stored_all-All seen [] hs h = tt
    stored_all-All seen (q ∷ qs) hs (h, k) = (
      stored-All seen q hs h,
      stored_all-All (remember hash seen q) qs (remember-All seen q hs h) k,
    )

  -- A hash that tells the texts apart stores, for each query, an entry with its own text.
  module _ (T : Bytes → Type 0) (apart : (a b : Bytes) → T a → T b → hash a ≡ hash b → a ≡ b) where
    first_with-text :
        (seen : List Query) (p q : Query)
        → All (λ r. T r.text) seen
        → T q.text
        → first_with hash (hash q.text) seen ≡ some p
        → p.text ≡ q.text
    unfolding first_with
    first_with-text [] p q hs h e = cc
    first_with-text (r ∷ seen) p q (k, hs) h e = elim (Bool-cases (hash q.text == hash r.text)) [
      | inl same ↦
          let p_eq : r ≡ p = cc (rw same at e) in
          sym (ap (λ (s : Query). s.text) p_eq)
          ∙ sym (apart q.text r.text h k (ℕ_key.equal_eq (hash q.text) (hash r.text) same))
      | inr other ↦ first_with-text seen p q hs h (rw other at e)
    ]

    stored-text :
        (seen : List Query) (q : Query)
        → All (λ r. T r.text) seen
        → T q.text
        → (stored hash seen q).text ≡ q.text
    stored-text seen q hs h = by_first (first_with hash (hash q.text) seen) refl
      where
        by_first :
            (o : Option Query)
            → first_with hash (hash q.text) seen ≡ o
            → (keep_or hash o q).text ≡ q.text
        by_first none e = refl
        by_first (some p) e = first_with-text seen p q hs h e

    pub stored_all-texts :
        (seen qs : List Query)
        → All (λ r. T r.text) seen
        → All (λ r. T r.text) qs
        → texts (stored_all hash seen qs) ≡ texts qs
    stored_all-texts seen [] hs h = refl
    stored_all-texts seen (q ∷ qs) hs (h, k) =
        ap₂ (λ t ts. t ∷ ts) (stored-text seen q hs h)
          (stored_all-texts (remember hash seen q) qs (remember-All (λ r. T r.text) seen q hs h) k)

module _ (F : F32) (hash : Bytes → ℕ) where
  record MappedAll (w : StorageWriter F) (seen qs : List Query) (r : List ℕ × StorageWriter F)
      : Type 0 where
    stand : StandAt r.1.queries (entries (stored_all hash seen qs)) r.0
    more : Bytes
    grown : r.1.queries ≡ w.queries ++ more
    bounded : length r.1.queries ≤ length w.queries + total_size qs

  -- One call and then the others.
  MappedAll-cons :
      (w : StorageWriter F) (seen : List Query) (q : Query) (qs : List Query)
      (r : ℕ × StorageWriter F) (rest : List ℕ × StorageWriter F)
      → Mapped F hash w seen q r
      → MappedAll r.1 (remember hash seen q) qs rest
      → MappedAll w seen (q ∷ qs) (r.0 ∷ rest.0, rest.1)
  MappedAll-cons w seen q qs r rest one later = record {
    stand = (
      subst (λ s. StandsAt s (entry_of (stored hash seen q)) r.0) (sym later.grown)
          (StandsAt-append r.1.queries (entry_of (stored hash seen q)) later.more r.0 one.stands),
      later.stand,
    );
    more = one.more ++ later.more;
    grown =
        later.grown
        ∙ ap (λ s. s ++ later.more) one.grown
        ∙ append_assoc w.queries one.more later.more;
    bounded = omega (arith, one.bounded, later.bounded);
  }

  map_all-MappedAll :
      (w : StorageWriter F) (seen qs : List Query)
      → Indexed F hash w seen
      → length w.queries + total_size qs < 2 ^ 64
      → MappedAll w seen qs (map_all F hash w qs)
  map_all-MappedAll w seen [] h b = record {
    stand = tt;
    more = [];
    grown = rw append-nil;
    bounded = omega arith;
  }
  map_all-MappedAll w seen (q ∷ qs) h b =
      let r = map_query F hash w q.text q.parameter_types in
      let one = map_query-Mapped F hash w seen q h (omega arith) in
      MappedAll-cons w seen q qs r (map_all F hash r.1 qs) one
        (map_all-MappedAll r.1 (remember hash seen q) qs one.indexed (omega (arith, one.bounded)))

  -- The files after `map_query` for some queries, and any others beside.
  abbrev pub queries_state : F.Carrier → List Query → Bytes → Bytes → Bytes → AppState
  queries_state c qs params traces chunks = record {
    queries = (map_all F hash (Storage.new F c) qs).1.queries;
    params = params;
    traces = traces;
    chunks = chunks;
  }

  -- Asked for the offsets that `map_query` returned for some queries, the service answers with one
  -- entry for each: that of the first of the queries whose text has the same hash, whatever the hash
  -- is. The file is smaller than 2^64 bytes, and texts and types fit their counters.
  pub post_queries-map_all :
      (c : F.Carrier) (qs : List Query) (params traces chunks : Bytes)
      → All FitsQuery qs
      → total_size qs < 2 ^ 64
      → post_queries
          (queries_state c qs params traces chunks)
          (offsets_body (map_all F hash (Storage.new F c) qs).0)
        ≡ some (octets (concat (entries (firsts hash qs qs))))
  unfolding read_queries
  post_queries-map_all c qs params traces chunks h b =
      let r = map_all F hash (Storage.new F c) qs in
      let all = map_all-MappedAll (Storage.new F c) [] qs (Indexed-new F hash c) (omega arith) in
      (post-offsets_body (queries_state c qs params traces chunks) r.0 (
        StandAt-small r.1.queries (entries (stored_all hash [] qs)) r.0 all.stand
          (omega (arith, all.bounded)))).0
      ∙ ap respond (
          read_entries-StandAt query_total Entry Entry-measured r.1.queries
            (entries (stored_all hash [] qs)) r.0
            (entries-Entry (stored_all hash [] qs) (stored_all-All hash FitsQuery [] qs tt h))
            all.stand)
      ∙ ap (λ l. some (octets (concat (entries l)))) (stored_all-firsts hash qs)

  -- Where the hash tells the texts of the queries apart, each of the entries that the service answers
  -- with at the offsets of `map_query` has the text of its own query. The file is smaller than 2^64
  -- bytes, and texts and types fit their counters.
  pub post_queries-own_texts :
      (T : Bytes → Type 0) (c : F.Carrier) (qs : List Query) (params traces chunks : Bytes)
      → All FitsQuery qs
      → All (λ q. T q.text) qs
      → ((a b : Bytes) → T a → T b → hash a ≡ hash b → a ≡ b)
      → total_size qs < 2 ^ 64
      → (served : List Query) × (post_queries
            (queries_state c qs params traces chunks)
            (offsets_body (map_all F hash (Storage.new F c) qs).0)
          ≡ some (octets (concat (entries served))))
        × (texts served ≡ texts qs)
  post_queries-own_texts T c qs params traces chunks h t apart b = (
    firsts hash qs qs,
    post_queries-map_all c qs params traces chunks h b,
    ap texts (sym (stored_all-firsts hash qs)) ∙ stored_all-texts hash T apart [] qs tt t,
  )
