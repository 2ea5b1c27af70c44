-- ===== src/Viewer/Queries.antt =====
-- `read_queries` of src/viewer.rs on the entries that the analyzer writes.
use pgr.Prelude.{
  ℕ, ◌+◌, ◌*◌, ◌<◌, ◌^◌, ◌≡◌, ap, ◌∙◌, some, List, [], ◌∷◌, ◌++◌, arith, Bytes, length, to_le,
  length-to_le, length-append, append_assoc,
}
use pgr.Prelude.Panic.{◌>>=◌}
use pgr.Prelude.Io.{ok}
use pgr.Analyzer.Storage.{query_bytes, query_size, write_each}
use pgr.Viewer.{word, query_total}
use pgr.Viewer.Entries.{word-at, need-le}

pub length-write_each {ℓ} :
    {A : Type ℓ} (encode : A → Bytes) (k : ℕ)
    → ((a : A) → length (encode a) ≡ k)
    → (as' : List A) → length (write_each encode as') ≡ length as' * k
length-write_each encode k h [] = omega arith
length-write_each encode k h (a ∷ as') =
    length-append (encode a) (write_each encode as')
    ∙ omega (arith, h a, length-write_each encode k h as')

pub length-query_bytes :
    (text : Bytes) (types : List ℕ) → length (query_bytes text types) ≡ query_size text types
unfolding query_bytes
length-query_bytes text types = omega (
  arith,
  length-append (to_le 4 (length text) ++ text ++ to_le 2 (length types))
      (write_each (to_le 4) types),
  length-append (to_le 4 (length text) ++ text) (to_le 2 (length types)),
  length-append (to_le 4 (length text)) text,
  length-to_le 4 (length text),
  length-to_le 2 (length types),
  length-write_each (to_le 4) 4 (length-to_le 4) types,
)

module _ (text : Bytes) (types : List ℕ) (post : Bytes) where
  front :
      query_bytes text types ++ post
      ≡ to_le 4 (length text)
        ++ (text ++ (to_le 2 (length types) ++ (write_each (to_le 4) types ++ post)))
  unfolding query_bytes
  front = simp append_assoc

  middle :
      query_bytes text types ++ post
      ≡ (to_le 4 (length text) ++ text)
        ++ (to_le 2 (length types) ++ (write_each (to_le 4) types ++ post))
  unfolding query_bytes
  middle = simp append_assoc

  text_len : length text < 2 ^ 32 → word (query_bytes text types ++ post) 0 4 ≡ some (length text)
  text_len h =
      ap (λ s. word s 0 4) front
      ∙ word-at [] 4 (length text)
          (text ++ (to_le 2 (length types) ++ (write_each (to_le 4) types ++ post))) 0 4
          (omega arith) (omega arith) (omega arith)

  oid_count :
      length types < 2 ^ 16
      → word (query_bytes text types ++ post) (4 + length text) (4 + length text + 2)
        ≡ some (length types)
  oid_count h =
      ap (λ s. word s (4 + length text) (4 + length text + 2)) middle
      ∙ word-at (to_le 4 (length text) ++ text) 2 (length types)
          (write_each (to_le 4) types ++ post) (4 + length text) (4 + length text + 2)
          (omega (arith, length-append (to_le 4 (length text)) text, length-to_le 4 (length text)))
          (omega arith) (omega arith)

  pub query_total-query_bytes :
      length text < 2 ^ 32
      → length types < 2 ^ 16
      → query_total (query_bytes text types ++ post) ≡ some (ok (length (query_bytes text types)))
  unfolding query_total
  query_total-query_bytes h k = rw (
    need-le (query_bytes text types ++ post) 4 _ (omega (arith, whole)),
    text_len h,
    ◌>>=◌,
    need-le (query_bytes text types ++ post) (4 + length text + 2) _ (omega (arith, whole)),
    oid_count k,
    ◌>>=◌,
    need-le (query_bytes text types ++ post) (4 + length text + 2 + length types * 4) _
        (omega (arith, whole)),
    length-query_bytes text types,
  )
    where
      whole : length (query_bytes text types ++ post) ≡ query_size text types + length post
      whole =
          omega (arith, length-append (query_bytes text types) post, length-query_bytes text types)

pub record Query : Type 0 where
  pub text : Bytes
  pub parameter_types : List ℕ

abbrev pub entry_of : Query → Bytes
entry_of q = query_bytes q.text q.parameter_types

pub record FitsQuery (q : Query) : Type 0 where
  pub text : length q.text < 2 ^ 32
  pub types : length q.parameter_types < 2 ^ 16
