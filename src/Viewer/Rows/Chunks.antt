-- ===== src/Viewer/Rows/Chunks.antt =====
-- The rows that `get_traces` of src/viewer.rs serves from the analyzer's files.
use pgr.Prelude.{
  nth, ℕ, suc, ◌+◌, ◌-◌, ◌*◌, ◌/◌, ◌≤◌, ◌<◌, ◌^◌, ◌%◌, ◌≡◌, refl, sym, ap, ◌∙◌, Option, none, some,
  List, arith, Bytes, length, All, min, take, drop, slice, ltb, ◌==◌, if◌then◌else◌, Bool-cases,
  inl, inr, le→ltb, ltb→lt, ltb-false, ne→==-false, le→leb, lt→leb-false,
}
use mathlib.Core.Option
use pgr.Prelude.Panic.{◌>>=◌, Returns-some}
use pgr.Analyzer.Storage
use pgr.Analyzer.{F32, TraceRow, StorageWriter}
use pgr.Analyzer.Storage.{write_each, row_bytes, finish}
use pgr.Analyzer.Storage.Rows.{Holds, index, write_rows, write_rows-new}
use pgr.Analyzer.Storage.Rows.Reach.{
  reach, height, between, reach_le, reach_mono, reach-all, of_chunks, IsSorted, between-IsSorted,
}
use pgr.Viewer.{AppState, octets, word, entry_start_row, chunk_row_range, rows_between, get_traces}
use pgr.Viewer.Records.{slice-records}
use pgr.Viewer.Queries.{length-write_each}
use pgr.Viewer.Rows.{length-row_bytes, length-finish, total_rows, start_row}

-- `chunk_row_range` once the two numbers of the file are known.
abbrev ranged : Bytes → ℕ → ℕ → ℕ → ℕ → Option (ℕ × ℕ)
ranged chunks total num a b =
    if num == 0
    then some (0, 0)
    else (entry_start_row chunks (min a (num - 1)) >>= λ start.
        (if ltb (min b (num - 1) + 1) num
          then entry_start_row chunks (min b (num - 1) + 1)
          else some total)
        >>= λ end'. some (start, end'))

chunk_row_range-ranged :
    (chunks : Bytes) (a b total num : ℕ)
    → word chunks 4 12 ≡ some total
    → (length chunks - 12) / 12 ≡ num
    → chunk_row_range chunks a b ≡ ranged chunks total num a b
unfolding chunk_row_range
chunk_row_range-ranged chunks a b total num h e = rw (h, ◌>>=◌, e)

module _ (F : F32) (chunk_secs : F.Carrier) (w : StorageWriter F) (rows : List (TraceRow F))
    (h : Holds F chunk_secs w rows) (few : length rows * 29 < 2 ^ 64) where
  abbrev ix : TraceRow F → ℕ
  ix = index F chunk_secs

  abbrev file : Bytes
  file = finish F w

  entry-at :
      (i : ℕ) (o : Option (F.Carrier × ℕ))
      → nth w.chunks i ≡ o
      → Option.map (λ c. c.1) o ≡ some (reach ix i rows)
      → entry_start_row file i ≡ some (reach ix i rows)
  entry-at i none e s = cc
  entry-at i (some c) e s =
      let start_eq : c.1 ≡ reach ix i rows = cc in
      start_row F w i c e (omega (arith, start_eq, reach_le ix i rows)) ∙ ap some start_eq

  entry_start_row-reach :
      (i : ℕ) → i < height ix rows → entry_start_row file i ≡ some (reach ix i rows)
  entry_start_row-reach i k = entry-at i (nth w.chunks i) refl (h.starts i k)

  module _ (a b : ℕ) (ordered : a ≤ b) (inside : a < height ix rows) where
    last_row :
        (if ltb (min b (height ix rows - 1) + 1) (height ix rows)
          then entry_start_row file (min b (height ix rows - 1) + 1)
          else some (length rows))
        ≡ some (reach ix (suc b) rows)
    last_row = elim (Bool-cases (ltb (min b (height ix rows - 1) + 1) (height ix rows))) [
      | inl t ↦ rw t (
          ap (entry_start_row file)
            (omega (arith, ltb→lt (min b (height ix rows - 1) + 1) (height ix rows) t))
          ∙ entry_start_row-reach (suc b)
              (omega (arith, ltb→lt (min b (height ix rows - 1) + 1) (height ix rows) t)))
      | inr f ↦ rw f (
          ap some (
            sym (
              reach-all ix (suc b) rows
                (omega (arith, ltb-false (min b (height ix rows - 1) + 1) (height ix rows) f)))))
    ]

    ranged-reach :
        ranged file (length rows) (height ix rows) a b
        ≡ some (reach ix a rows, reach ix (suc b) rows)
    ranged-reach = rw (
      ne→==-false (height ix rows) 0 (λ e. omega arith),
      first,
      entry_start_row-reach a inside,
      ◌>>=◌,
      last_row,
    )
      where
        first : min a (height ix rows - 1) ≡ a
        first = omega arith

    pub chunk_row_range-reach :
        chunk_row_range file a b ≡ some (reach ix a rows, reach ix (suc b) rows)
    chunk_row_range-reach =
        chunk_row_range-ranged file a b (length rows) (height ix rows)
          (total_rows F w (omega (arith, h.count)) ∙ ap some h.count)
          (omega (arith, length-finish F w, h.chunk_count))
        ∙ ranged-reach

  length-traces : length w.traces ≡ length rows * 29
  length-traces = ap length h.traces ∙ length-write_each (row_bytes F) 29 (length-row_bytes F) rows

  slice-traces :
      (s e : ℕ)
      → s ≤ e
      → e ≤ length rows
      → slice w.traces (s * 29) (e * 29)
        ≡ some (write_each (row_bytes F) (take (e - s) (drop s rows)))
  slice-traces s e k l =
      ap (λ t. slice t (s * 29) (e * 29)) h.traces
      ∙ slice-records (row_bytes F) 29 (length-row_bytes F) rows s e k
          (omega (arith, length-write_each (row_bytes F) 29 (length-row_bytes F) rows))

  rows_between-eq :
      (s e : ℕ)
      → s ≤ e
      → e ≤ length rows
      → rows_between w.traces (s, e) ≡ some (write_each (row_bytes F) (take (e - s) (drop s rows)))
  unfolding rows_between
  rows_between-eq s e k l = elim (Bool-cases (ltb s e)) [
    | inl some_rows ↦
        rw
          (
            start_eq,
            end_eq,
            lt→leb-false (e * 29) (s * 29) (omega (arith, ltb→lt s e some_rows)),
            le→ltb (length w.traces) (s * 29) (omega (arith, length-traces)),
          )
          (slice-traces s e k l)
    | inr no_rows ↦
        rw (start_eq, end_eq, le→leb (e * 29) (s * 29) (omega (arith, ltb-false s e no_rows)))
          (ap (λ n. some (write_each (row_bytes F) (take n (drop s rows))))
            (none_left (ltb-false s e no_rows)))
  ]
    where
      start_eq : (s * 29) % 2 ^ 64 ≡ s * 29
      start_eq = omega arith

      end_eq : min ((e * 29) % 2 ^ 64) (length w.traces) ≡ e * 29
      end_eq = omega (arith, length-traces)

      none_left : e ≤ s → 0 ≡ e - s
      none_left m = omega arith

  get_traces-Holds :
      (queries params : Bytes) (a b : ℕ)
      → a ≤ b
      → a < height ix rows
      → get_traces
          (record { queries = queries; params = params; traces = w.traces; chunks = file })
          a
          b
        ≡ some (octets (write_each (row_bytes F) (between ix a (suc b) rows)))
  unfolding get_traces
  get_traces-Holds queries params a b ordered inside = rw (
    chunk_row_range-reach a b ordered inside,
    ◌>>=◌,
    rows_between-eq (reach ix a rows) (reach ix (suc b) rows)
        (reach_mono ix a (suc b) rows (omega arith)) (reach_le ix (suc b) rows),
    ◌>>=◌,
  )

module _ (F : F32) (chunk_secs : F.Carrier) (queries params : Bytes) where
  -- The state of the service over the files that the analyzer writes for some rows.
  abbrev pub state_for : StorageWriter F → AppState
  state_for w = record {
    queries = queries;
    params = params;
    traces = w.traces;
    chunks = finish F w;
  }

  module _ (rows : List (TraceRow F))
      (small : All (λ row. suc (index F chunk_secs row) < 2 ^ 64) rows)
      (few : length rows * 29 < 2 ^ 64) (a b : ℕ) (ordered : a ≤ b)
      (inside : a < height (index F chunk_secs) rows) where
    -- The rows are written without a panic, and the response for the chunks `a` to `b` holds the rows
    -- from the first one that was written in chunk `a` or a later one, up to the first one in a chunk
    -- after `b`. Some row is in chunk `a` or a later one, each chunk's number fits a usize, and the
    -- file of the rows is smaller than 2^64 bytes.
    pub get_traces-write_rows :
        (write_rows F chunk_secs (Storage.new F chunk_secs) rows >>= λ w.
        get_traces (state_for w) a b)
        ≡ some (octets (write_each (row_bytes F) (between (index F chunk_secs) a (suc b) rows)))
    get_traces-write_rows =
        let (w, e, h) =
          Returns-some (λ w. Holds F chunk_secs w rows)
            (write_rows F chunk_secs (Storage.new F chunk_secs) rows)
            (write_rows-new F chunk_secs rows small (omega arith)) in
        ap (λ o. o >>= λ v. get_traces (state_for v) a b) e
        ∙ get_traces-Holds F chunk_secs w rows h few queries params a b ordered inside

    -- Where the rows are written in the order of their chunks, the response for the chunks `a` to `b`
    -- holds exactly the rows of these chunks. Some row is in chunk `a` or a later one, each chunk's
    -- number fits a usize, and the file of the rows is smaller than 2^64 bytes.
    pub get_traces-of_chunks :
        IsSorted (index F chunk_secs) rows
        → (write_rows F chunk_secs (Storage.new F chunk_secs) rows >>= λ w.
            get_traces (state_for w) a b)
          ≡ some (octets (write_each (row_bytes F) (of_chunks (index F chunk_secs) a (suc b) rows)))
    get_traces-of_chunks sorted =
        get_traces-write_rows
        ∙ ap (λ l. some (octets (write_each (row_bytes F) l)))
            (between-IsSorted (index F chunk_secs) a (suc b) rows (omega arith) sorted)
