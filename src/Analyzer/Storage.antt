-- ===== src/Analyzer/Storage.antt =====
-- `StorageWriter` of src/analyzer.rs. A write of a buffered file does not fail; a method that indexes
-- out of range panics (`none`). The hash of a text comes from a package and is the parameter `hash`.
pub mod Secs
pub mod Queries
pub mod Rows
pub mod Params
use pgr.Prelude.{
  ℕ, zero, suc, ◌+◌, ◌-◌, ◌*◌, Option, none, some, List, [], ◌∷◌, ◌++◌, Bytes, length, to_le,
  u32_max, add64, leb, if◌then◌else◌,
}
use pgr.Prelude.Panic.{◌>>=◌}
use pgr.Prelude.Maps.{Map, lookup, insert, ℕ_key}
use pgr.Capture.{BindParam}
use pgr.Analyzer.{F32, TraceRow, StorageWriter}

-- A loop that writes each element of a slice.
abbrev pub write_each {ℓ} : {A : Type ℓ} → (A → Bytes) → List A → Bytes
write_each encode [] = []
write_each encode (a ∷ as') = encode a ++ write_each encode as'

-- The bytes that `map_query` writes, and what it adds to the offset.
unfoldable pub query_bytes : Bytes → List ℕ → Bytes
query_bytes text types =
    to_le 4 (length text) ++ text ++ to_le 2 (length types) ++ write_each (to_le 4) types

abbrev pub query_size : Bytes → List ℕ → ℕ
query_size text types = 4 + length text + 2 + length types * 4

-- The bytes that `write_params` writes for a value, and what it adds to the size.
abbrev pub value_bytes : Option Bytes → Bytes
value_bytes (some bytes) = to_le 4 (length bytes) ++ bytes
value_bytes none = to_le 4 u32_max

abbrev pub value_size : Option Bytes → ℕ
value_size (some bytes) = 4 + length bytes
value_size none = 4

abbrev pub values_size : List BindParam → ℕ
values_size [] = 0
values_size (p ∷ ps) = value_size p.value + values_size ps

unfoldable pub params_bytes : ℕ → List BindParam → List ℕ → Bytes
params_bytes query_offset parameters result_formats =
    to_le 8 query_offset
    ++ to_le 2 (length parameters)
    ++ write_each (λ p. to_le 4 p.type_oid) parameters
    ++ to_le 2 (length parameters)
    ++ write_each (λ p. value_bytes p.value) parameters
    ++ to_le 2 (length result_formats)
    ++ write_each (to_le 2) result_formats

abbrev pub params_size : List BindParam → List ℕ → ℕ
params_size parameters result_formats =
    8 + 2 + length parameters * 2 + 2 + values_size parameters + (2 + length result_formats * 2)

-- `Vec::resize`
unfoldable pub resize {ℓ} : {A : Type ℓ} → ℕ → A → List A → List A
resize zero d xs = []
resize (suc n) d [] = d ∷ resize n d []
resize (suc n) d (x ∷ xs) = x ∷ resize n d xs

-- `xs[i] = f(xs[i])`
unfoldable pub update {ℓ} : {A : Type ℓ} → ℕ → (A → A) → List A → Option (List A)
update i f [] = none
update zero f (x ∷ xs) = some (f x ∷ xs)
update (suc i) f (x ∷ xs) = do xs' ← update i f xs; some (x ∷ xs')

module _ (F : F32) where
  -- The writer for three new, empty files.
  abbrev pub new : F.Carrier → StorageWriter F
  new chunk_secs = record {
    queries = [];
    params = [];
    traces = [];
    query_offset = 0;
    params_offset = 0;
    query_map = [];
    chunk_secs = chunk_secs;
    chunks = [];
    trace_row_count = 0;
  }

  module _ (hash : Bytes → ℕ) where
    -- The offset of a text whose hash is known, or that of the entry that is written now.
    abbrev pub map_known : Option ℕ → StorageWriter F → Bytes → List ℕ → ℕ × StorageWriter F
    map_known (some offset) w text types = (offset, w)
    map_known none w text types = (
      w.query_offset,
      record w {
        queries = w.queries ++ query_bytes text types;
        query_offset = add64 w.query_offset (query_size text types);
        query_map = insert (hash text) w.query_offset w.query_map;
      },
    )

    unfoldable pub map_query : StorageWriter F → Bytes → List ℕ → ℕ × StorageWriter F
    map_query w text types = map_known (lookup (hash text) w.query_map) w text types

  unfoldable pub write_params : StorageWriter F → ℕ → List BindParam → List ℕ → ℕ × StorageWriter F
  write_params w query_offset parameters result_formats = (
    w.params_offset,
    record w {
      params = w.params ++ params_bytes query_offset parameters result_formats;
      params_offset = add64 w.params_offset (params_size parameters result_formats);
    },
  )

  unfoldable pub row_bytes : TraceRow F → Bytes
  row_bytes row =
      to_le 8 row.query_offset
      ++ to_le 8 row.params_offset
      ++ to_le 4 (F.bits row.ts_secs)
      ++ to_le 4 row.client_id
      ++ to_le 4 (F.bits row.duration_ms)
      ++ row.event_type ∷ []

  -- The chunks, grown to hold the index. New chunks start at the row that is written now.
  unfoldable pub grow : StorageWriter F → ℕ → List (F.Carrier × ℕ)
  grow w idx =
      if leb (length w.chunks) idx
      then resize (add64 idx 1) (F.zero, w.trace_row_count) w.chunks
      else w.chunks

  unfoldable pub write_trace : StorageWriter F → TraceRow F → Option (StorageWriter F)
  write_trace w row =
      let idx = F.div_as_usize row.ts_secs w.chunk_secs in
      do
        chunks ← update idx (λ c. (F.max c.0 row.duration_ms, c.1)) (grow w idx)
        some (record w {
          traces = w.traces ++ row_bytes row;
          chunks = chunks;
          trace_row_count = add64 w.trace_row_count 1;
        })

  -- The file of the chunks that `finish` writes.
  unfoldable pub finish : StorageWriter F → Bytes
  finish w =
      to_le 4 (F.bits w.chunk_secs)
      ++ to_le 8 w.trace_row_count
      ++ write_each (λ c. to_le 4 (F.bits c.0) ++ to_le 8 c.1) w.chunks
