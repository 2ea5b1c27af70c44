-- ===== src/Analyzer/Storage/Rows.antt =====
-- The rows and the chunks that `write_trace` of src/analyzer.rs keeps: for each chunk, how many rows
-- were written before the first one of it or of a later chunk.
pub mod Reach
pub mod Vectors
use pgr.Prelude.{
  nth, ℕ, zero, suc, ◌+◌, ◌*◌, ◌≤◌, ◌<◌, ◌^◌, ◌≡◌, refl, sym, ap, subst, ◌∙◌, Option, none, some,
  List, [], ◌∷◌, ◌++◌, arith, Bytes, length, length-append, append_assoc, append-nil, add64,
  add64-eq, All, max, leb, ltb, if◌then◌else◌, Bool-cases, inl, inr, leb→le, leb-false, le→leb,
  lt→leb-false, ltb→lt, ltb-false,
}
use mathlib.Core.Option
use pgr.Prelude.Panic.{◌>>=◌, Returns, Returns-bind, Returns-map}
use pgr.Analyzer.{F32, TraceRow, StorageWriter}
use pgr.Analyzer.Storage
use pgr.Analyzer.Storage.{resize, update, grow, write_each, row_bytes, write_trace}
use pgr.Analyzer.Storage.Rows.Vectors.{
  write_each-append, length-resize, nth-resize_old, nth-resize_new, Updated, update-Updated,
}
use pgr.Analyzer.Storage.Rows.Reach.{reach, height, reach-append_lt, reach-append_ge, height-append}

module _ (F : F32) (chunk_secs : F.Carrier) where
  -- The chunk of a row.
  abbrev pub index : TraceRow F → ℕ
  index row = F.div_as_usize row.ts_secs chunk_secs

  abbrev pub starts_at : StorageWriter F → ℕ → Option ℕ
  starts_at w j = Option.map (λ c. c.1) (nth w.chunks j)

  -- What the writer holds after some rows.
  pub record Holds (w : StorageWriter F) (rows : List (TraceRow F)) : Type 0 where
    pub secs : w.chunk_secs ≡ chunk_secs
    pub traces : w.traces ≡ write_each (row_bytes F) rows
    pub count : w.trace_row_count ≡ length rows
    pub chunk_count : length w.chunks ≡ height index rows
    pub starts : (j : ℕ) → j < height index rows → starts_at w j ≡ some (reach index j rows)

  Holds-new : Holds (Storage.new F chunk_secs) []
  unfolding height
  Holds-new = record {
    secs = refl;
    traces = refl;
    count = refl;
    chunk_count = refl;
    starts = λ j h. absurd (omega arith);
  }

  -- The chunks after `grow`, before the update.
  pub grow-length :
      (w : StorageWriter F) (i : ℕ)
      → suc i < 2 ^ 64
      → length (grow F w i) ≡ max (suc i) (length w.chunks)
  unfolding grow
  grow-length w i h = elim (Bool-cases (leb (length w.chunks) i)) [
    | inl b ↦ rw b (
        omega (
          arith,
          length-resize (add64 i 1) (F.zero, w.trace_row_count) w.chunks,
          add64-eq i 1,
          leb→le (length w.chunks) i b,
        ))
    | inr b ↦ rw b (omega (arith, leb-false (length w.chunks) i b))
  ]

  grow-old :
      (w : StorageWriter F) (i j : ℕ)
      → suc i < 2 ^ 64
      → j < length w.chunks
      → nth (grow F w i) j ≡ nth w.chunks j
  unfolding grow
  grow-old w i j h k = elim (Bool-cases (leb (length w.chunks) i)) [
    | inl b ↦ rw b (
        nth-resize_old (add64 i 1) (F.zero, w.trace_row_count) w.chunks j k
          (omega (arith, add64-eq i 1, leb→le (length w.chunks) i b)))
    | inr b ↦ rw b
  ]

  grow-new :
      (w : StorageWriter F) (i j : ℕ)
      → suc i < 2 ^ 64
      → length w.chunks ≤ j
      → j ≤ i
      → nth (grow F w i) j ≡ some (F.zero, w.trace_row_count)
  unfolding grow
  grow-new w i j h k l = rw (le→leb (length w.chunks) i (omega arith)) (
      nth-resize_new (add64 i 1) (F.zero, w.trace_row_count) w.chunks j k
        (omega (arith, add64-eq i 1)))

  module _ (w : StorageWriter F) (rows : List (TraceRow F)) (row : TraceRow F) (h : Holds w rows)
      (small : suc (index row) < 2 ^ 64) where
    abbrev after : List (TraceRow F)
    after = rows ++ row ∷ []

    height-row : height index (row ∷ []) ≡ suc (index row)
    unfolding height
    height-row = omega arith

    height-after : height index after ≡ max (height index rows) (suc (index row))
    height-after = omega (arith, height-append index rows (row ∷ []), height-row)

    reach-row : (j : ℕ) → j ≤ index row → reach index j (row ∷ []) ≡ 0
    unfolding reach
    reach-row j k = rw (le→leb j (index row) k)

    -- The first row of each chunk, once the chunks have grown.
    grow-starts :
        (j : ℕ)
        → j < height index after
        → Option.map (λ c. c.1) (nth (grow F w (index row)) j) ≡ some (reach index j after)
    grow-starts j k = elim (Bool-cases (ltb j (height index rows))) [
      | inl b ↦
          ap (Option.map (λ c. c.1)) (
            grow-old w (index row) j small
              (omega (arith, h.chunk_count, ltb→lt j (height index rows) b)))
          ∙ h.starts j (ltb→lt j (height index rows) b)
          ∙ ap some (sym (reach-append_lt index j rows (row ∷ []) (ltb→lt j (height index rows) b)))
      | inr b ↦
          ap (Option.map (λ c. c.1)) (
            grow-new w (index row) j small
              (omega (arith, h.chunk_count, ltb-false j (height index rows) b))
              (omega (arith, height-after, ltb-false j (height index rows) b)))
          ∙ ap some (
              omega (
                arith,
                h.count,
                reach-append_ge index j rows (row ∷ []) (ltb-false j (height index rows) b),
                reach-row j (omega (arith, height-after, ltb-false j (height index rows) b)),
              ))
    ]

    abbrev longest : F.Carrier × ℕ → F.Carrier × ℕ
    longest c = (F.max c.0 row.duration_ms, c.1)

    abbrev with_chunks : List (F.Carrier × ℕ) → StorageWriter F
    with_chunks chunks = record w {
      traces = w.traces ++ row_bytes F row;
      chunks = chunks;
      trace_row_count = add64 w.trace_row_count 1;
    }

    with_chunks-Holds :
        (chunks : List (F.Carrier × ℕ))
        → suc (length rows) < 2 ^ 64
        → Updated longest (λ c. c.1) (λ c. refl) (grow F w (index row)) chunks
        → Holds (with_chunks chunks) after
    with_chunks-Holds chunks few (same_length, same_starts) = record {
      secs = h.secs;
      traces =
          ap (λ s. s ++ row_bytes F row) h.traces ∙ sym (write_each-append (row_bytes F) rows row);
      count = omega (arith, h.count, add64-eq w.trace_row_count 1, length-append rows (row ∷ []));
      chunk_count =
          omega (arith, same_length, grow-length w (index row) small, h.chunk_count, height-after);
      starts = λ j k. same_starts j ∙ grow-starts j k;
    }

    abbrev write_at : ℕ → Option (StorageWriter F)
    write_at i = update i longest (grow F w i) >>= λ chunks. some (with_chunks chunks)

    write_trace-eq : write_trace F w row ≡ write_at (index row)
    unfolding write_trace
    write_trace-eq = ap (λ c. write_at (F.div_as_usize row.ts_secs c)) h.secs

    write_trace-Holds :
        suc (length rows) < 2 ^ 64 → Returns (λ w'. Holds w' after) (write_trace F w row)
    write_trace-Holds few = rw write_trace-eq (
        Returns-bind (Updated longest (λ c. c.1) (λ c. refl) (grow F w (index row)))
          (λ w'. Holds w' after) (update (index row) longest (grow F w (index row)))
          (λ chunks. some (with_chunks chunks))
          (update-Updated longest (λ c. c.1) (λ c. refl) (index row) (grow F w (index row))
            (omega (arith, grow-length w (index row) small)))
          (λ chunks. with_chunks-Holds chunks few))

  abbrev pub write_rows : StorageWriter F → List (TraceRow F) → Option (StorageWriter F)
  write_rows w [] = some w
  write_rows w (row ∷ rows) = write_trace F w row >>= λ w'. write_rows w' rows

  write_rows-Holds :
      (w : StorageWriter F) (before rows : List (TraceRow F))
      → Holds w before
      → All (λ row. suc (index row) < 2 ^ 64) rows
      → length before + length rows < 2 ^ 64
      → Returns (λ w'. Holds w' (before ++ rows)) (write_rows w rows)
  write_rows-Holds w before [] h small few = rw append-nil h
  write_rows-Holds w before (row ∷ rows) h (s, small) few =
      Returns-bind (λ w'. Holds w' (before ++ row ∷ [])) (λ w'. Holds w' (before ++ row ∷ rows))
        (write_trace F w row) (λ w'. write_rows w' rows)
        (write_trace-Holds w before row h s (omega arith))
        (λ w' h'.
          subst (λ l. Returns (λ v. Holds v l) (write_rows w' rows))
            (append_assoc before (row ∷ []) rows)
            (write_rows-Holds w' (before ++ row ∷ []) rows h' small
              (omega (arith, length-append before (row ∷ [])))))

  -- Rows whose chunks fit a usize are written without a panic, and the writer holds them.
  pub write_rows-new :
      (rows : List (TraceRow F))
      → All (λ row. suc (index row) < 2 ^ 64) rows
      → length rows < 2 ^ 64
      → Returns (λ w. Holds w rows) (write_rows (Storage.new F chunk_secs) rows)
  write_rows-new rows small few =
      write_rows-Holds (Storage.new F chunk_secs) [] rows Holds-new small (omega arith)
