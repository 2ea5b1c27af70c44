-- ===== src/Tests/Analyzer.antt =====
-- Tests of src/analyzer.rs, src/viewer.rs and src/trace_reader.rs. The numbers stand for times in
-- milliseconds in place of the f32.
use pgr.Prelude.{
  All, ℕ, suc, ◌+◌, ◌*◌, ◌/◌, ◌<◌, ◌≤◌, ◌^◌, min, max, ◌≡◌, refl, sym, ap, ◌∙◌, some, none, List,
  [], ◌∷◌, ◌++◌, arith, Bytes, length, to_le,
}
use pgr.Prelude.Panic.{Returns, ◌>>=◌}
use pgr.Prelude.Io.{Settled}
use pgr.Capture.{CaptureMessage, simple_query, parse}
use pgr.Capture.Format.{encode, encode_all}
use pgr.Capture.Reader.{CaptureReader}
use pgr.Trace.{TraceData}
use pgr.Trace.RoundTrip.{records, records-encoded, trace_bytes, FitsTrace}
use pgr.Analyzer.{F32, TraceRow, StorageWriter}
use pgr.Analyzer.Storage
use pgr.Analyzer.Storage.{write_each, row_bytes}
use pgr.Analyzer.Storage.Queries.{map_all}
use pgr.Analyzer.Storage.Queries.Served.{
  entries, texts, queries_state, post_queries-map_all, post_queries-own_texts,
}
use pgr.Analyzer.Storage.Queries.First.{firsts}
use pgr.Analyzer.Storage.Params.{
  Bind, write_all, bind_entries, write_all-behind, post_params-write_all,
}
use pgr.Analyzer.Storage.Rows.{index, write_rows}
use pgr.Analyzer.Storage.Rows.Reach.{height, reach, of_chunks}
use pgr.Analyzer.Client
use pgr.Analyzer.Client.{QueryInfo, AnalyzeClient, on_trace}
use pgr.Analyzer.Client.Queue.{info_at, from_index, row_for, on_trace-info_at}
use pgr.Analyzer.Client.Order.{Counted}
use pgr.Analyzer.Client.Order.Run.{message, trace, run, run-Counted}
use pgr.Analyzer.Analyze.{Analysis, analyze}
use pgr.Analyzer.Analyze.Total.{analyze-Returns}
use pgr.Viewer.{AppState, octets, get_traces, post_queries, post_params}
use pgr.Viewer.Entries.{concat}
use pgr.Viewer.Offsets.{offsets_body}
use pgr.Viewer.Queries.{Query, FitsQuery}
use pgr.Viewer.Rows.Chunks.{state_for, get_traces-write_rows, get_traces-of_chunks}

abbrev whole_numbers : F32
whole_numbers = record {
  Carrier = ℕ;
  zero = 0;
  bits = λ n. n;
  div_as_usize = λ a b. min (a / b) (2 ^ 32);
  max = λ a b. max a b;
  div_1e6 = λ n. n / 1000000;
  div_1e3 = λ n. n / 1000;
}

abbrev first_byte : Bytes → ℕ
first_byte [] = 0
first_byte (b ∷ bs) = b

abbrev OneByte : Bytes → Type 0
OneByte s = (b : ℕ) × (s ≡ b ∷ [])

OneByte-apart : (s t : Bytes) → OneByte s → OneByte t → first_byte s ≡ first_byte t → s ≡ t
OneByte-apart s t (a, e) (b, f) h =
    e ∙ ap (λ x. x ∷ []) (sym (ap first_byte e) ∙ h ∙ ap first_byte f) ∙ sym f

abbrev three_queries : List Query
three_queries =
    record { text = b'a' ∷ []; parameter_types = [] }
    ∷ record { text = b'b' ∷ []; parameter_types = 23 ∷ [] }
    ∷ record { text = b'a' ∷ []; parameter_types = 25 ∷ [] }
    ∷ []

abbrev served_state : StorageWriter whole_numbers → AppState
served_state w = record { queries = w.queries; params = w.params; traces = []; chunks = [] }

three_queries-Fit : All FitsQuery three_queries
three_queries-Fit = (
  record { text = omega arith; types = omega arith },
  (
    record { text = omega arith; types = omega arith },
    (record { text = omega arith; types = omega arith }, tt),
  ),
)

-- A hash that tells no texts apart: the first query's entry stands for all.
abbrev same_hash : Bytes → ℕ
same_hash s = 7

post_queries-map_all_example :
    post_queries (queries_state whole_numbers same_hash 50 three_queries [] [] []) (
      offsets_body (map_all whole_numbers same_hash (Storage.new whole_numbers 50) three_queries).0)
    ≡ some (octets (concat (entries (firsts same_hash three_queries three_queries))))
post_queries-map_all_example =
    post_queries-map_all whole_numbers same_hash 50 three_queries [] [] [] three_queries-Fit
      (omega arith)

post_queries-own_texts_example :
    (served : List Query) × (post_queries
        (queries_state whole_numbers first_byte 50 three_queries [] [] [])
        (offsets_body
          (map_all whole_numbers first_byte (Storage.new whole_numbers 50) three_queries).0)
      ≡ some (octets (concat (entries served))))
    × (texts served ≡ texts three_queries)
post_queries-own_texts_example =
    post_queries-own_texts whole_numbers first_byte OneByte 50 three_queries [] [] []
      three_queries-Fit ((b'a', refl), ((b'b', refl), ((b'a', refl), tt))) OneByte-apart
      (omega arith)

abbrev plain_binds : List Bind
plain_binds =
    record { query_offset = 0; parameters = []; result_formats = [] }
    ∷ record { query_offset = 7; parameters = []; result_formats = 0 ∷ 1 ∷ [] }
    ∷ []

post_params-write_all_example :
    let r = write_all whole_numbers (Storage.new whole_numbers 50) plain_binds in
    let state : AppState = record { queries = []; params = r.1.params; traces = []; chunks = [] } in
    post_params state (offsets_body r.0) ≡ some (octets (concat (bind_entries plain_binds)))
post_params-write_all_example =
    post_params-write_all whole_numbers 50 plain_binds [] [] []
      ((refl, omega arith), ((refl, omega arith), tt)) (omega arith)

abbrev binds : List Bind
binds =
    record {
      query_offset = 0;
      parameters =
          record { type_oid = 23; value = some (b'4' ∷ b'2' ∷ []) }
          ∷ record { type_oid = 25; value = none }
          ∷ [];
      result_formats = [];
    }
    ∷ plain_binds

write_all-behind_example :
    let w' = (write_all whole_numbers (Storage.new whole_numbers 50) binds).1 in
    length w'.params + 0 ≡ w'.params_offset + 0 + 2 * 2
write_all-behind_example =
    write_all-behind whole_numbers (Storage.new whole_numbers 50) binds (omega arith)

abbrev row : ℕ → TraceRow whole_numbers
row ts = record {
  query_offset = 0;
  params_offset = 0;
  ts_secs = ts;
  client_id = 7;
  duration_ms = 3;
  event_type = 5;
}

-- The second row is in the second chunk, and the third in the first again.
abbrev unsorted_rows : List (TraceRow whole_numbers)
unsorted_rows = row 10 ∷ row 60 ∷ row 30 ∷ []

unsorted-height : 1 < height (index whole_numbers 50) unsorted_rows
unfolding height
unsorted-height = omega arith

get_traces-write_rows_example :
    (write_rows whole_numbers 50 (Storage.new whole_numbers 50) unsorted_rows >>= λ w.
    get_traces (state_for whole_numbers 50 [] [] w) 1 1)
    ≡ some (octets (write_each (row_bytes whole_numbers) (row 60 ∷ row 30 ∷ [])))
unfolding reach
get_traces-write_rows_example =
    get_traces-write_rows whole_numbers 50 [] [] unsorted_rows (omega arith) (omega arith) 1 1
      (omega arith) unsorted-height

abbrev sorted_rows : List (TraceRow whole_numbers)
sorted_rows = row 10 ∷ row 30 ∷ row 60 ∷ row 120 ∷ []

sorted-height : 1 < height (index whole_numbers 50) sorted_rows
unfolding height
sorted-height = omega arith

get_traces-of_chunks_example :
    (write_rows whole_numbers 50 (Storage.new whole_numbers 50) sorted_rows >>= λ w.
    get_traces (state_for whole_numbers 50 [] [] w) 1 2)
    ≡ some (octets (write_each (row_bytes whole_numbers) (row 60 ∷ row 120 ∷ [])))
unfolding of_chunks
get_traces-of_chunks_example =
    get_traces-of_chunks whole_numbers 50 [] [] sorted_rows (omega arith) (omega arith) 1 2
      (omega arith) sorted-height (omega arith)

abbrev info : ℕ → QueryInfo
info n = record { index = n; offset = 10 * n; params_offset = 0; ts = 60 * n }

abbrev client : AnalyzeClient
client = record (Client.new 7 0) { frame_index = 5; queries = info 2 ∷ info 3 ∷ info 5 ∷ [] }

abbrev third_frame : TraceData
third_frame = record { id = 7; frame_index = 3; duration_us = 4000; event_type = 5 }

on_trace-info_at_example :
    let w = Storage.new whole_numbers 50 in
    on_trace whole_numbers (client, w) third_frame ≡ (
      row_for whole_numbers (some (info 3)) 7 third_frame w >>= λ w'.
      some (record client { queries = info 3 ∷ info 5 ∷ [] }, w'))
unfolding info_at from_index Client.new
on_trace-info_at_example =
    on_trace-info_at whole_numbers client (Storage.new whole_numbers 50) third_frame (omega arith)

abbrev queried : CaptureMessage
queried = record { id = 7; ts = 60000000; event = simple_query (b'a' ∷ []) }

abbrev parsed : CaptureMessage
parsed = record { id = 7; ts = 61000000; event = parse [] (b'b' ∷ []) [] }

chunks-small : (ts : ℕ) → suc (min (ts / 50) (2 ^ 32)) < 2 ^ 64
chunks-small ts = omega arith

run-Counted_example :
    Returns
      (λ cw. Counted 2 cw.0)
      (run whole_numbers first_byte
        (Client.new 7 0, Storage.new whole_numbers 50)
        (message queried ∷ trace (record third_frame { frame_index = 1 }) ∷ message parsed ∷ []))
run-Counted_example =
    run-Counted whole_numbers first_byte 50 chunks-small 7 0 (Storage.new whole_numbers 50)
      (message queried ∷ trace (record third_frame { frame_index = 1 }) ∷ message parsed ∷ []) refl
      (omega arith)

abbrev capture : CaptureReader
capture = record { buf = encode_all encode (queried ∷ parsed ∷ []); lsn = 0; start_ts = 0 }

abbrev trace_file : Bytes
trace_file = trace_bytes (record third_frame { frame_index = 2 }) ++ 1 ∷ 2 ∷ []

trace_file-short : length trace_file < 13 * 2 ^ 31
unfolding trace_bytes to_le
trace_file-short = omega arith

analyze-Returns_example :
    Returns
      (Settled (λ (r : Analysis whole_numbers × Bytes).
        (r.0.traces_total ≡ length trace_file / 13) × (r.0.traces_processed ≤ r.0.traces_total)))
      (analyze whole_numbers first_byte capture trace_file (Storage.new whole_numbers 50))
analyze-Returns_example =
    analyze-Returns whole_numbers first_byte 50 chunks-small capture trace_file
      (Storage.new whole_numbers 50) refl trace_file-short

third_frame-FitsTrace : FitsTrace third_frame
third_frame-FitsTrace = record {
  id = omega arith;
  frame_index = omega arith;
  duration_us = omega arith;
  event_type = omega arith;
}

records-encoded_example :
    records 3 (encode_all trace_bytes (third_frame ∷ third_frame ∷ []) ++ 7 ∷ 0 ∷ [])
    ≡ some (third_frame ∷ third_frame ∷ [])
records-encoded_example =
    records-encoded 3 (third_frame ∷ third_frame ∷ []) (7 ∷ 0 ∷ [])
      (third_frame-FitsTrace, (third_frame-FitsTrace, tt)) (omega arith) (omega arith)
