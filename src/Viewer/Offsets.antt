-- ===== src/Viewer/Offsets.antt =====
-- The bodies of the requests for queries and parameters in src/viewer.rs.
use pgr.Prelude.{
  ℕ, ◌*◌, ◌/◌, ◌%◌, ◌<◌, ◌^◌, ◌≡◌, ◌≢◌, refl, ap, ap₂, ◌∙◌, some, List, [], ◌∷◌, arith, Bytes, All,
  length, to_le, from_le-to_le, length-to_le, take-append, drop-append, ne→==-false, from_le,
}
use pgr.Prelude.Io.{invalid_data, ok}
use pgr.Analyzer.Storage.{write_each}
use pgr.Viewer.{
  AppState, bad_request, chunks_exact, parse_offsets, post_queries, post_params, post_with,
  read_queries, read_params, respond,
}
use pgr.Viewer.Queries.{length-write_each}

-- The body that asks for some offsets.
abbrev pub offsets_body : List ℕ → Bytes
offsets_body offsets = write_each (to_le 8) offsets

chunks_exact-to_le :
    (offsets : List ℕ)
    → All (λ o. o < 2 ^ 64) offsets
    → chunks_exact (length offsets) (offsets_body offsets) ≡ offsets
chunks_exact-to_le [] h = refl
chunks_exact-to_le (o ∷ offsets) (h, hs) =
    ap₂ (λ x xs. x ∷ xs)
      (ap from_le
          (take-append (to_le 8 o) (offsets_body offsets) 8 (omega (arith, length-to_le 8 o)))
        ∙ from_le-to_le 8 o (omega arith))
      (ap (chunks_exact (length offsets))
          (drop-append (to_le 8 o) (offsets_body offsets) 8 (omega (arith, length-to_le 8 o)))
        ∙ chunks_exact-to_le offsets hs)

parse_offsets-to_le :
    (offsets : List ℕ)
    → All (λ o. o < 2 ^ 64) offsets
    → parse_offsets (offsets_body offsets) ≡ ok offsets
unfolding parse_offsets
parse_offsets-to_le offsets h = rw (whole, count, chunks_exact-to_le offsets h)
  where
    body_length : length (offsets_body offsets) ≡ length offsets * 8
    body_length = length-write_each (to_le 8) 8 (length-to_le 8) offsets

    whole : length (offsets_body offsets) % 8 ≡ 0
    whole = omega (arith, body_length)

    count : length (offsets_body offsets) / 8 ≡ length offsets
    count = omega (arith, body_length)

-- A body of some offsets is answered with what is read at these offsets, both for queries and for
-- parameters. Each offset fits a u64.
pub post-offsets_body :
    (state : AppState) (offsets : List ℕ)
    → All (λ o. o < 2 ^ 64) offsets
    → (post_queries state (offsets_body offsets) ≡ respond (read_queries state.queries offsets))
      × (post_params state (offsets_body offsets) ≡ respond (read_params state.params offsets))
unfolding post_queries post_params
post-offsets_body state offsets h = (
  ap (post_with (read_queries state.queries)) (parse_offsets-to_le offsets h),
  ap (post_with (read_params state.params)) (parse_offsets-to_le offsets h),
)

-- A body whose length is not a multiple of 8 is a bad request, both for queries and for parameters.
pub post-bad_request :
    (state : AppState) (body : Bytes)
    → length body % 8 ≢ 0
    → (post_queries state body ≡ some (bad_request invalid_data))
      × (post_params state body ≡ some (bad_request invalid_data))
unfolding post_queries post_params parse_offsets
post-bad_request state body h =
    (rw (ne→==-false (length body % 8) 0 h), rw (ne→==-false (length body % 8) 0 h))
