-- ===== src/Analyzer/Storage/Queries.antt =====
-- The file of the queries that `map_query` of src/analyzer.rs fills, and the offsets that it returns.
pub mod First
pub mod Served
use pgr.Prelude.{
  ℕ, zero, suc, ◌+◌, ◌<◌, ◌^◌, ◌≡◌, refl, sym, ap, ap₂, subst, ◌∙◌, Bool, true, false, Option, none,
  some, List, [], ◌∷◌, ◌++◌, arith, Bytes, length, length-append, append_assoc, append-nil, All,
  All-append, add64, add64-eq, ◌==◌, if◌then◌else◌, inl, inr, Bool-cases, Option-cases,
}
use pgr.Prelude.Maps.{lookup, insert, lookup-insert, lookup-insert_other, ℕ_key}
use pgr.Prelude.Io.{Result, ok}
use pgr.Analyzer.{F32, StorageWriter}
use pgr.Analyzer.Storage
use pgr.Analyzer.Storage.{query_bytes, query_size, map_query, map_known}
use pgr.Viewer.{read_queries, query_total}
use pgr.Viewer.Entries.{StandsAt, StandsAt-append, StandAt, concat, read_entries-StandAt}
use pgr.Viewer.Queries.{Query, entry_of, FitsQuery, length-query_bytes, query_total-query_bytes}

module _ (hash : Bytes → ℕ) where
  -- The first query whose text has the hash `k`.
  unfoldable pub first_with : ℕ → List Query → Option Query
  first_with k [] = none
  first_with k (q ∷ qs) = if k == hash q.text then some q else first_with k qs

  abbrev pub keep_or : Option Query → Query → Query
  keep_or (some stored) q = stored
  keep_or none q = q

  abbrev pub add_new : Option Query → List Query → Query → List Query
  add_new (some stored) seen q = seen
  add_new none seen q = seen ++ q ∷ []

  -- The entry that stands for `q` once the queries `seen` have entries, and the entries after it.
  abbrev pub stored : List Query → Query → Query
  stored seen q = keep_or (first_with (hash q.text) seen) q

  abbrev pub remember : List Query → Query → List Query
  remember seen q = add_new (first_with (hash q.text) seen) seen q

  abbrev pub stored_all : List Query → List Query → List Query
  stored_all seen [] = []
  stored_all seen (q ∷ qs) = stored seen q ∷ stored_all (remember seen q) qs

  pub first_with-append_some :
      (k : ℕ) (seen more : List Query) (q : Query)
      → first_with k seen ≡ some q
      → first_with k (seen ++ more) ≡ some q
  unfolding first_with
  first_with-append_some k [] more q h = cc
  first_with-append_some k (p ∷ seen) more q h = elim (Bool-cases (k == hash p.text)) [
    | inl same ↦ rw same (rw same at h)
    | inr other ↦ rw other (first_with-append_some k seen more q (rw other at h))
  ]

  pub first_with-append_none :
      (k : ℕ) (seen more : List Query)
      → first_with k seen ≡ none
      → first_with k (seen ++ more) ≡ first_with k more
  unfolding first_with
  first_with-append_none k [] more h = refl
  first_with-append_none k (p ∷ seen) more h = elim (Bool-cases (k == hash p.text)) [
    | inl same ↦ absurd (cc (rw same at h))
    | inr other ↦ rw other (first_with-append_none k seen more (rw other at h))
  ]

module _ (F : F32) (hash : Bytes → ℕ) where
  -- `map_query` for one query after the other.
  abbrev pub map_all : StorageWriter F → List Query → List ℕ × StorageWriter F
  map_all w [] = ([], w)
  map_all w (q ∷ qs) =
      let r = map_query F hash w q.text q.parameter_types in
      let rest = map_all r.1 qs in (r.0 ∷ rest.0, rest.1)

  pub record Indexed (w : StorageWriter F) (seen : List Query) : Type 0 where
    pub offset_eq : w.query_offset ≡ length w.queries
    pub known :
        (k o : ℕ)
        → lookup k w.query_map ≡ some o
        → (q : Query) × (first_with hash k seen ≡ some q) × StandsAt w.queries (entry_of q) o
    pub fresh : (k : ℕ) → lookup k w.query_map ≡ none → first_with hash k seen ≡ none

  pub Indexed-new : (c : F.Carrier) → Indexed (Storage.new F c) []
  unfolding lookup first_with
  Indexed-new c = record { offset_eq = refl; known = λ k o h. cc; fresh = λ k h. refl }

  -- What a call that returns the offset `o` and the writer `w'` leaves.
  pub record Mapped (w : StorageWriter F) (seen : List Query) (q : Query) (r : ℕ × StorageWriter F)
      : Type 0 where
    pub indexed : Indexed r.1 (remember hash seen q)
    pub stands : StandsAt r.1.queries (entry_of (stored hash seen q)) r.0
    pub more : Bytes
    pub grown : r.1.queries ≡ w.queries ++ more
    pub bounded : length r.1.queries < length w.queries + query_size q.text q.parameter_types + 1

  Mapped-known :
      (w : StorageWriter F) (seen : List Query) (q : Query) (o : ℕ)
      → Indexed w seen
      → lookup (hash q.text) w.query_map ≡ some o
      → Mapped w seen q (o, w)
  Mapped-known w seen q o h e = from (h.known (hash q.text) o e)
    where
      from :
          (p : Query) × (first_with hash (hash q.text) seen ≡ some p)
            × StandsAt w.queries (entry_of p) o
          → Mapped w seen q (o, w)
      from (p, f, s) = record {
        indexed = rw f h;
        stands = rw f s;
        more = [];
        grown = rw append-nil;
        bounded = omega arith;
      }

  module _ (w : StorageWriter F) (seen : List Query) (q : Query) (h : Indexed w seen)
      (e : lookup (hash q.text) w.query_map ≡ none)
      (b : length w.queries + query_size q.text q.parameter_types < 2 ^ 64) where
    abbrev written : Bytes
    written = w.queries ++ entry_of q

    length-written : length written ≡ length w.queries + query_size q.text q.parameter_types
    length-written =
        omega
          (arith, length-append w.queries (entry_of q), length-query_bytes q.text q.parameter_types)

    stands-new : StandsAt written (entry_of q) w.query_offset
    stands-new = record {
      pre = w.queries;
      post = [];
      file_eq = rw append-nil;
      offset_eq = h.offset_eq;
    }

    abbrev Known : ℕ → Option ℕ → Type 0
    Known k o =
        (n : ℕ)
        → o ≡ some n
        → (p : Query) × (first_with hash k (seen ++ q ∷ []) ≡ some p)
          × StandsAt written (entry_of p) n

    known-old :
        (k n : ℕ)
        → (p : Query) × (first_with hash k seen ≡ some p) × StandsAt w.queries (entry_of p) n
        → (p : Query) × (first_with hash k (seen ++ q ∷ []) ≡ some p)
          × StandsAt written (entry_of p) n
    known-old k n (p, f, s) = (
      p,
      first_with-append_some hash k seen (q ∷ []) p f,
      StandsAt-append w.queries (entry_of p) (entry_of q) n s,
    )

    first-new : first_with hash (hash q.text) (seen ++ q ∷ []) ≡ some q
    unfolding first_with
    first-new =
        first_with-append_none hash (hash q.text) seen (q ∷ []) (h.fresh (hash q.text) e)
        ∙ rw (ℕ_key.equal_refl (hash q.text))

    Known-same :
        Known (hash q.text) (lookup (hash q.text) (insert (hash q.text) w.query_offset w.query_map))
    Known-same n f = (
      q,
      first-new,
      subst (StandsAt written (entry_of q))
          (cc (lookup-insert (hash q.text) w.query_offset w.query_map, f)) stands-new,
    )

    Known-new : (k : ℕ) → Known k (lookup k (insert (hash q.text) w.query_offset w.query_map))
    Known-new k = elim (Bool-cases (k == hash q.text)) [
      | inl same ↦
          subst (λ j. Known j (lookup j (insert (hash q.text) w.query_offset w.query_map)))
            (sym (ℕ_key.equal_eq k (hash q.text) same)) Known-same
      | inr other ↦
          rw (lookup-insert_other k (hash q.text) w.query_offset w.query_map other)
            (λ n f. known-old k n (h.known k n f))
    ]

    fresh-new :
        (k : ℕ)
        → lookup k (insert (hash q.text) w.query_offset w.query_map) ≡ none
        → first_with hash k (seen ++ q ∷ []) ≡ none
    unfolding first_with
    fresh-new k f = elim (Bool-cases (k == hash q.text)) [
      | inl same ↦ absurd (
          cc (
            lookup-insert (hash q.text) w.query_offset w.query_map,
            ℕ_key.equal_eq k (hash q.text) same,
            f,
          ))
      | inr other ↦
          first_with-append_none hash k seen (q ∷ []) (
            h.fresh k
              (sym (lookup-insert_other k (hash q.text) w.query_offset w.query_map other) ∙ f))
          ∙ rw other
    ]

    Mapped-new : Mapped w seen q (map_known F hash none w q.text q.parameter_types)
    Mapped-new = record {
      indexed = rw (h.fresh (hash q.text) e) record {
        offset_eq = omega (
          arith,
          length-written,
          h.offset_eq,
          add64-eq w.query_offset (query_size q.text q.parameter_types)
              (omega (arith, h.offset_eq)),
        );
        known = Known-new;
        fresh = fresh-new;
      };
      stands = rw (h.fresh (hash q.text) e) stands-new;
      more = entry_of q;
      grown = refl;
      bounded = omega (arith, length-written);
    }

  pub map_query-Mapped :
      (w : StorageWriter F) (seen : List Query) (q : Query)
      → Indexed w seen
      → length w.queries + query_size q.text q.parameter_types < 2 ^ 64
      → Mapped w seen q (map_query F hash w q.text q.parameter_types)
  unfolding map_query
  map_query-Mapped w seen q h b = by_lookup (lookup (hash q.text) w.query_map) refl
    where
      by_lookup :
          (o : Option ℕ)
          → lookup (hash q.text) w.query_map ≡ o
          → Mapped w seen q (map_known F hash o w q.text q.parameter_types)
      by_lookup none e = Mapped-new w seen q h e b
      by_lookup (some o) e = Mapped-known w seen q o h e
