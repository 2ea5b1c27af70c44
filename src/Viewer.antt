-- ===== src/Viewer.antt =====
-- src/viewer.rs: the service that shows the files of the analyzer. A mapped file is its bytes; a
-- handler that indexes out of range panics (`none`). Routing, compression and headers are those of
-- the web framework and are left out; a response is its status and its body.
pub mod Entries
pub mod Queries
pub mod Params
pub mod Records
pub mod Offsets
pub mod Rows
use pgr.Prelude.{
  ℕ, zero, suc, ◌+◌, ◌-◌, ◌*◌, ◌/◌, ◌%◌, ◌^◌, min, Option, none, some, List, [], ◌∷◌, ◌++◌, Bytes,
  length, take, drop, slice, from_le, u32_max, ltb, leb, ◌==◌, ◌||◌, not, if◌then◌else◌,
}
use pgr.Prelude.Panic.{◌>>=◌}
use pgr.Prelude.Io.{IoError, unexpected_eof, invalid_data, Result, ok, err}

pub record AppState : Type 0 where
  pub queries : Bytes
  pub params : Bytes
  pub traces : Bytes
  pub chunks : Bytes

-- The statuses that the handlers give, with the text of the error left out.
pub data Response : Type 0 where
  octets : Bytes → Response
  bad_request : IoError → Response
  internal_error : IoError → Response

abbrev pub trace_row_size : ℕ
trace_row_size = 8 + 8 + 4 + 4 + 4 + 1

abbrev pub chunk_header_size : ℕ
chunk_header_size = 4 + 8

abbrev pub chunk_entry_size : ℕ
chunk_entry_size = 4 + 8

-- `uN::from_le_bytes(buf[a..b].try_into().unwrap())`
unfoldable pub word : Bytes → ℕ → ℕ → Option ℕ
word buf a b = do v ← slice buf a b; some (from_le v)

unfoldable pub entry_start_row : Bytes → ℕ → Option ℕ
entry_start_row chunks i =
    let base = chunk_header_size + i * chunk_entry_size in word chunks (base + 4) (base + 12)

unfoldable pub chunk_row_range : Bytes → ℕ → ℕ → Option (ℕ × ℕ)
chunk_row_range chunks from_chunk to_chunk = do
  total_rows ← word chunks 4 12
  let num_chunks = (length chunks - chunk_header_size) / chunk_entry_size in
      if num_chunks == 0 then some (0, 0) else (do
        start_row ← entry_start_row chunks (min from_chunk (num_chunks - 1))
        end_row ←
            (if ltb (min to_chunk (num_chunks - 1) + 1) num_chunks
              then entry_start_row chunks (min to_chunk (num_chunks - 1) + 1)
              else some total_rows)
        some (start_row, end_row))

unfoldable pub get_chunks : AppState → Response
get_chunks state = octets state.chunks

-- Rows `start_row` to `end_row`, as many of them as the file has. A row's position is a usize.
unfoldable pub rows_between : Bytes → ℕ × ℕ → Option Bytes
rows_between traces (start_row, end_row) =
    let start = (start_row * trace_row_size) % 2 ^ 64 in
    let end' = min ((end_row * trace_row_size) % 2 ^ 64) (length traces) in
    if leb end' start || ltb (length traces) start then some [] else slice traces start end'

unfoldable pub get_traces : AppState → ℕ → ℕ → Option Response
get_traces state from_chunk to_chunk = do
  range ← chunk_row_range state.chunks from_chunk to_chunk
  rows ← rows_between state.traces range
  some (octets rows)

-- The 8-byte chunks of a body, `n` of them.
abbrev pub chunks_exact : ℕ → Bytes → List ℕ
chunks_exact zero body = []
chunks_exact (suc n) body = from_le (take 8 body) ∷ chunks_exact n (drop 8 body)

unfoldable pub parse_offsets : Bytes → Result (List ℕ)
parse_offsets body =
    if not (length body % 8 == 0)
    then err invalid_data
    else ok (chunks_exact (length body / 8) body)

-- A guard `if buf.len() < n { return Err(..) }` before the rest of a round.
abbrev pub need : Bytes → ℕ → Option (Result ℕ) → Option (Result ℕ)
need buf n rest = if ltb (length buf) n then some (err unexpected_eof) else rest

-- How many bytes the entry at the start of `buf` takes.
unfoldable pub query_total : Bytes → Option (Result ℕ)
query_total buf = need buf 4 (
    word buf 0 4 >>= λ text_len.
    let after_text = 4 + text_len in
    need buf (after_text + 2) (
      word buf after_text (after_text + 2) >>= λ oid_count.
      let total = after_text + 2 + oid_count * 4 in need buf total (some (ok total))))

-- The loop over the values of a `params` entry: the index after them.
abbrev pub skip_value : ℕ → ℕ → ℕ
skip_value len idx = if not (len == u32_max) then idx + len else idx

unfoldable pub values_end : ℕ → Bytes → ℕ → Option (Result ℕ)
values_end zero buf idx = some (ok idx)
values_end (suc param_count) buf idx =
    need buf (idx + 4)
      (word buf idx (idx + 4) >>= λ len. values_end param_count buf (skip_value len (idx + 4)))

-- The result formats, behind the values.
abbrev pub formats_end : Bytes → Result ℕ → Option (Result ℕ)
formats_end buf (err e) = some (err e)
formats_end buf (ok idx) = need buf (idx + 2) (
    word buf idx (idx + 2) >>= λ result_fmt_count.
    let end' = idx + 2 + result_fmt_count * 2 in need buf end' (some (ok end')))

unfoldable pub params_total : Bytes → Option (Result ℕ)
params_total buf = need buf 8 (
    need buf (8 + 2) (
      word buf 8 (8 + 2) >>= λ fmt_count.
      let idx = 8 + 2 + fmt_count * 2 in
      need buf (idx + 2) (
        word buf idx (idx + 2) >>= λ param_count.
        values_end param_count buf (idx + 2) >>= λ values. formats_end buf values)))

-- The loop over the offsets, that copies the entry at each of them.
abbrev pub copied : Result ℕ → Bytes → Option (Result Bytes) → Option (Result Bytes)
copied (err e) buf rest = some (err e)
copied (ok total) buf none = none
copied (ok total) buf (some (err e)) = some (err e)
copied (ok total) buf (some (ok out)) = do entry ← slice buf 0 total; some (ok (entry ++ out))

abbrev pub read_entries : (Bytes → Option (Result ℕ)) → Bytes → List ℕ → Option (Result Bytes)
read_entries entry_total file [] = some (ok [])
read_entries entry_total file (offset ∷ offsets) = slice file offset (length file) >>= λ buf.
    entry_total buf >>= λ total. copied total buf (read_entries entry_total file offsets)

unfoldable pub read_queries : Bytes → List ℕ → Option (Result Bytes)
read_queries queries offsets = read_entries query_total queries offsets

unfoldable pub read_params : Bytes → List ℕ → Option (Result Bytes)
read_params params offsets = read_entries params_total params offsets

abbrev pub respond : Option (Result Bytes) → Option Response
respond none = none
respond (some (ok data')) = some (octets data')
respond (some (err e)) = some (internal_error e)

abbrev pub post_with : (List ℕ → Option (Result Bytes)) → Result (List ℕ) → Option Response
post_with read (err e) = some (bad_request e)
post_with read (ok offsets) = respond (read offsets)

unfoldable pub post_queries : AppState → Bytes → Option Response
post_queries state body = post_with (read_queries state.queries) (parse_offsets body)

unfoldable pub post_params : AppState → Bytes → Option Response
post_params state body = post_with (read_params state.params) (parse_offsets body)
