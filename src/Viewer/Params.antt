-- ===== src/Viewer/Params.antt =====
-- `read_params` of src/viewer.rs on the entries that the analyzer writes for a bind without parameters.
use pgr.Prelude.{
  Option, none, ℕ, ◌+◌, ◌*◌, ◌<◌, ◌^◌, ◌≡◌, refl, ap, ◌∙◌, some, List, [], ◌∷◌, ◌++◌, arith, Bytes,
  length, to_le, length-to_le, length-append, append_assoc,
}
use pgr.Prelude.Panic.{◌>>=◌}
use pgr.Prelude.Io.{ok}
use pgr.Capture.{BindParam}
use pgr.Analyzer.Storage.{
  params_bytes, params_size, values_size, value_bytes, value_size, write_each,
}
use pgr.Viewer.{word, values_end, params_total}
use pgr.Viewer.Entries.{word-at, need-le}
use pgr.Viewer.Queries.{length-write_each}

length-value_bytes : (v : Option Bytes) → length (value_bytes v) ≡ value_size v
length-value_bytes none = length-to_le 4 _
length-value_bytes (some v) =
    omega (arith, length-append (to_le 4 (length v)) v, length-to_le 4 (length v))

length-values :
    (ps : List BindParam) → length (write_each (λ p. value_bytes p.value) ps) ≡ values_size ps
length-values [] = refl
length-values (p ∷ ps) = omega (
  arith,
  length-append (value_bytes p.value) (write_each (λ r. value_bytes r.value) ps),
  length-value_bytes p.value,
  length-values ps,
)

-- An entry is two bytes longer per parameter than the offset is told.
pub length-params_bytes :
    (o : ℕ) (ps : List BindParam) (rf : List ℕ)
    → length (params_bytes o ps rf) ≡ params_size ps rf + length ps * 2
unfolding params_bytes
length-params_bytes o ps rf = omega (
  arith,
  length-append
      (to_le 8 o
        ++ to_le 2 (length ps)
        ++ write_each (λ p. to_le 4 p.type_oid) ps
        ++ to_le 2 (length ps)
        ++ write_each (λ p. value_bytes p.value) ps
        ++ to_le 2 (length rf))
      (write_each (to_le 2) rf),
  length-append
      (to_le 8 o
        ++ to_le 2 (length ps)
        ++ write_each (λ p. to_le 4 p.type_oid) ps
        ++ to_le 2 (length ps)
        ++ write_each (λ p. value_bytes p.value) ps)
      (to_le 2 (length rf)),
  length-append
      (to_le 8 o
        ++ to_le 2 (length ps)
        ++ write_each (λ p. to_le 4 p.type_oid) ps
        ++ to_le 2 (length ps))
      (write_each (λ p. value_bytes p.value) ps),
  length-append (to_le 8 o ++ to_le 2 (length ps) ++ write_each (λ p. to_le 4 p.type_oid) ps)
      (to_le 2 (length ps)),
  length-append (to_le 8 o ++ to_le 2 (length ps)) (write_each (λ p. to_le 4 p.type_oid) ps),
  length-append (to_le 8 o) (to_le 2 (length ps)),
  length-to_le 8 o,
  length-to_le 2 (length ps),
  length-to_le 2 (length rf),
  length-values ps,
  length-write_each (λ (p : BindParam). to_le 4 p.type_oid) 4 (λ p. length-to_le 4 p.type_oid) ps,
  length-write_each (to_le 2) 2 (length-to_le 2) rf,
)

module _ (o : ℕ) (rf : List ℕ) (post : Bytes) where
  abbrev entry : Bytes
  entry = params_bytes o [] rf ++ post

  length-entry : length entry ≡ params_size [] rf + length post
  length-entry =
      omega (arith, length-append (params_bytes o [] rf) post, length-params_bytes o [] rf)

  types_count : word entry 8 10 ≡ some 0
  unfolding params_bytes
  types_count =
      ap (λ s. word s 8 10) (simp append_assoc)
      ∙ word-at (to_le 8 o) 2 0
          (to_le 2 0 ++ (to_le 2 (length rf) ++ (write_each (to_le 2) rf ++ post))) 8 10
          (omega (arith, length-to_le 8 o)) (omega arith) (omega arith)

  values_count : word entry 10 12 ≡ some 0
  unfolding params_bytes
  values_count =
      ap (λ s. word s 10 12) (simp append_assoc)
      ∙ word-at (to_le 8 o ++ to_le 2 0) 2 0
          (to_le 2 (length rf) ++ (write_each (to_le 2) rf ++ post)) 10 12
          (omega (arith, length-append (to_le 8 o) (to_le 2 0), length-to_le 8 o, length-to_le 2 0))
          (omega arith) (omega arith)

  formats_count : length rf < 2 ^ 16 → word entry 12 14 ≡ some (length rf)
  unfolding params_bytes
  formats_count h =
      ap (λ s. word s 12 14) (simp append_assoc)
      ∙ word-at (to_le 8 o ++ to_le 2 0 ++ to_le 2 0) 2 (length rf)
          (write_each (to_le 2) rf ++ post) 12 14
          (omega (
            arith,
            length-append (to_le 8 o ++ to_le 2 0) (to_le 2 0),
            length-append (to_le 8 o) (to_le 2 0),
            length-to_le 8 o,
            length-to_le 2 0,
          ))
          (omega arith) (omega arith)

  pub params_total-params_bytes :
      length rf < 2 ^ 16
      → params_total (params_bytes o [] rf ++ post) ≡ some (ok (length (params_bytes o [] rf)))
  unfolding params_total values_end
  params_total-params_bytes h =
      rw
        (
          need-le entry 8 _ (omega (arith, length-entry)),
          need-le entry 10 _ (omega (arith, length-entry)),
          types_count,
          ◌>>=◌,
          need-le entry 12 _ (omega (arith, length-entry)),
          values_count,
          ◌>>=◌,
          need-le entry 14 _ (omega (arith, length-entry)),
          formats_count h,
          ◌>>=◌,
          need-le entry (14 + length rf * 2) _ (omega (arith, length-entry)),
        )
        (ap (λ n. some (ok n)) (omega (arith, length-params_bytes o [] rf)))
