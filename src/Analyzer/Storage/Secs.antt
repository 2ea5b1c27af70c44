-- ===== src/Analyzer/Storage/Secs.antt =====
-- What the methods of `StorageWriter` of src/analyzer.rs leave as it is, and when they return.
use pgr.Prelude.{ℕ, suc, ◌<◌, ◌^◌, ◌≡◌, refl, Option, none, some, List, Bytes, arith, length}
use pgr.Prelude.Panic.{Returns, Returns-bind}
use pgr.Prelude.Maps.{lookup, ℕ_key}
use pgr.Capture.{BindParam}
use pgr.Analyzer.{F32, TraceRow, StorageWriter}
use pgr.Analyzer.Storage.{map_known, map_query, write_params, write_trace, update, grow}
use pgr.Analyzer.Storage.Rows.{grow-length}
use pgr.Analyzer.Storage.Rows.Vectors.{Updated, update-Updated}

-- A writer with a given length of the chunks.
abbrev pub HasSecs : (F : F32) → F.Carrier → StorageWriter F → Type 0
HasSecs F secs w = w.chunk_secs ≡ secs

-- Each time falls into a chunk whose number, and the number of chunks up to it, fit a usize.
abbrev pub SmallChunks : (F : F32) → F.Carrier → Type 0
SmallChunks F secs = (ts : F.Carrier) → suc (F.div_as_usize ts secs) < 2 ^ 64

module _ (F : F32) (secs : F.Carrier) where
  map_known-HasSecs :
      (hash : Bytes → ℕ) (o : Option ℕ) (w : StorageWriter F) (text : Bytes) (types : List ℕ)
      → HasSecs F secs w
      → HasSecs F secs (map_known F hash o w text types).1
  map_known-HasSecs hash none w text types h = h
  map_known-HasSecs hash (some o) w text types h = h

  pub map_query-HasSecs :
      (hash : Bytes → ℕ) (w : StorageWriter F) (text : Bytes) (types : List ℕ)
      → HasSecs F secs w
      → HasSecs F secs (map_query F hash w text types).1
  unfolding map_query
  map_query-HasSecs hash w text types h =
      map_known-HasSecs hash (lookup (hash text) w.query_map) w text types h

  pub write_params-HasSecs :
      (w : StorageWriter F) (o : ℕ) (ps : List BindParam) (formats : List ℕ)
      → HasSecs F secs w
      → HasSecs F secs (write_params F w o ps formats).1
  unfolding write_params
  write_params-HasSecs w o ps formats h = h

  pub write_trace-HasSecs :
      (w : StorageWriter F) (row : TraceRow F)
      → SmallChunks F secs
      → HasSecs F secs w
      → Returns (HasSecs F secs) (write_trace F w row)
  unfolding write_trace
  write_trace-HasSecs w row small h =
      let i = F.div_as_usize row.ts_secs w.chunk_secs in
      Returns-bind
        (Updated (λ c. (F.max c.0 row.duration_ms, c.1)) (λ c. c.1) (λ c. refl) (grow F w i))
        (HasSecs F secs) (update i (λ c. (F.max c.0 row.duration_ms, c.1)) (grow F w i)) _
        (update-Updated (λ c. (F.max c.0 row.duration_ms, c.1)) (λ c. c.1) (λ c. refl) i
          (grow F w i) (omega (arith, fits i (rw h (small row.ts_secs)))))
        (λ chunks u. h)
    where
      fits : (i : ℕ) → suc i < 2 ^ 64 → i < length (grow F w i)
      fits i l = omega (arith, grow-length F secs w i l)
