-- ===== src/Viewer/Rows.antt =====
-- `chunk_row_range` and `get_traces` of src/viewer.rs on the files that the analyzer writes.
pub mod Chunks
use pgr.Prelude.{
  nth, ℕ, zero, suc, ◌+◌, ◌-◌, ◌*◌, ◌/◌, ◌≤◌, ◌<◌, ◌^◌, ◌≡◌, refl, sym, ap, subst, ◌∙◌, Option,
  none, some, List, [], ◌∷◌, ◌++◌, arith, Bytes, length, to_le, length-to_le, length-append,
  append_assoc, min, take, drop, slice, slice-eq, leb, ltb, ◌==◌, ◌||◌, if◌then◌else◌, Bool-cases,
  inl, inr, lt→ltb, le→ltb, ltb→lt, ltb-false, ne→==-false, le→leb, lt→leb-false, leb→le, leb-false,
  drop-append, take-append, drop-drop, drop-nil, ap₂,
}
use mathlib.Core.Option
use pgr.Prelude.Panic.{◌>>=◌}
use pgr.Analyzer.{F32, TraceRow, StorageWriter}
use pgr.Analyzer.Storage.{write_each, row_bytes, finish}
use pgr.Analyzer.Storage.Rows.{Holds, index}
use pgr.Analyzer.Storage.Rows.Reach.{reach, height, between, reach_le, reach_mono, reach-all}
use pgr.Viewer.{
  AppState, Response, octets, word, entry_start_row, chunk_row_range, rows_between, get_traces,
}
use pgr.Viewer.Records.{Record, nth-Record, slice-records}
use pgr.Viewer.Entries.{word-at}
use pgr.Viewer.Queries.{length-write_each}

pub length-row_bytes : (F : F32) (row : TraceRow F) → length (row_bytes F row) ≡ 29
unfolding row_bytes
length-row_bytes F row = simp (length-append, length-to_le)

module _ (F : F32) where
  abbrev chunk_bytes : F.Carrier × ℕ → Bytes
  chunk_bytes c = to_le 4 (F.bits c.0) ++ to_le 8 c.1

  length-chunk_bytes : (c : F.Carrier × ℕ) → length (chunk_bytes c) ≡ 12
  length-chunk_bytes c = simp (length-append, length-to_le)

  module _ (w : StorageWriter F) where
    abbrev header : Bytes
    header = to_le 4 (F.bits w.chunk_secs) ++ to_le 8 w.trace_row_count

    length-header : length header ≡ 12
    length-header = simp (length-append, length-to_le)

    pub length-finish : length (finish F w) ≡ 12 + length w.chunks * 12
    unfolding finish
    length-finish = omega (
      arith,
      length-append header (write_each chunk_bytes w.chunks),
      length-header,
      length-write_each chunk_bytes 12 length-chunk_bytes w.chunks,
    )

    pub total_rows : w.trace_row_count < 2 ^ 64 → word (finish F w) 4 12 ≡ some w.trace_row_count
    unfolding finish
    total_rows h =
        ap (λ s. word s 4 12)
          (append_assoc (to_le 4 (F.bits w.chunk_secs)) (to_le 8 w.trace_row_count)
            (write_each chunk_bytes w.chunks))
        ∙ word-at (to_le 4 (F.bits w.chunk_secs)) 8 w.trace_row_count
            (write_each chunk_bytes w.chunks) 4 12
            (omega (arith, length-to_le 4 (F.bits w.chunk_secs))) (omega arith) (omega arith)

    pub start_row :
        (i : ℕ) (c : F.Carrier × ℕ)
        → nth w.chunks i ≡ some c
        → c.1 < 2 ^ 64
        → entry_start_row (finish F w) i ≡ some c.1
    unfolding entry_start_row finish
    start_row i c e h =
        let r = nth-Record chunk_bytes 12 length-chunk_bytes w.chunks i c e in
        let front = header ++ r.pre ++ to_le 4 (F.bits c.0) in
        let split : header ++ write_each chunk_bytes w.chunks ≡ front ++ (to_le 8 c.1 ++ r.post) =
          ap (λ s. header ++ s) r.eq ∙ simp append_assoc in
        ap (λ s. word s (12 + i * 12 + 4) (12 + i * 12 + 12)) split
        ∙ word-at front 8 c.1 r.post (12 + i * 12 + 4) (12 + i * 12 + 12)
            (omega (
              arith,
              length-append (header ++ r.pre) (to_le 4 (F.bits c.0)),
              length-append header r.pre,
              length-header,
              r.before,
              length-to_le 4 (F.bits c.0),
            ))
            (omega arith) (omega arith)
