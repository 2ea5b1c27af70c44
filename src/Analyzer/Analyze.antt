-- ===== src/Analyzer/Analyze.antt =====
-- `analyze` of src/analyzer.rs: traces and capture messages are read side by side.
pub mod Rounds
pub mod Total
use pgr.Prelude.{
  ℕ, zero, suc, ◌+◌, Bool, true, false, not, ◌&&◌, Option, none, some, Bytes, length, add32, leb,
  ◌==◌, if◌then◌else◌, [],
}
use pgr.Prelude.Panic.{◌>>=◌}
use pgr.Prelude.Maps.{Map, entry, insert, ℕ_key}
use pgr.Prelude.Io.{IoError, unexpected_eof, invalid_data, Result, ok, err}
use pgr.Capture.{ClientId, CaptureMessage}
use pgr.Capture.Reader.{CaptureReader, read_event}
use pgr.Trace
use pgr.Trace.{TraceData}
use pgr.Analyzer.{F32, StorageWriter}
use pgr.Analyzer.Storage.{finish}
use pgr.Analyzer.Client
use pgr.Analyzer.Client.{AnalyzeClient, on_capture, on_trace}

-- The variables of `analyze`. The two counts are i32, by their bits.
pub record Analysis (F : F32) : Type 0 where
  pub clients : Map ClientId AnalyzeClient
  pub capture : CaptureReader
  pub traces : Bytes
  pub writer : StorageWriter F
  pub start_ts : ℕ
  pub capture_eof : Bool
  pub traces_total : ℕ
  pub traces_processed : ℕ

module _ (F : F32) (hash : Bytes → ℕ) where
  -- `clients.entry(id).or_insert_with(..)`
  unfoldable pub client_of : Analysis F → ClientId → AnalyzeClient
  client_of a id = entry id (Client.new id a.start_ts) a.clients

  abbrev pub store : Analysis F → ClientId → AnalyzeClient × StorageWriter F → Analysis F
  store a id (c, w) = record a { clients = insert id c a.clients; writer = w }

  -- A trace whose frame the client has reached.
  unfoldable pub process : Analysis F → TraceData → Option (Analysis F)
  process a d = do
    cw ← on_trace F (client_of a d.id, a.writer) d
    some (record (store a d.id cw) { traces_processed = add32 a.traces_processed 1 })

  -- A message of the capture goes to its client.
  unfoldable pub take_message : Analysis F → CaptureMessage → CaptureReader → Analysis F
  take_message a msg capture =
      record (store a msg.id (on_capture F hash (client_of a msg.id, a.writer) msg)) {
        capture = capture;
      }

  abbrev pub reached : Analysis F → ClientId → TraceData → Bool
  reached a id d = (id == d.id) && leb d.frame_index (client_of a id).frame_index

  abbrev pub done : Option (Analysis F) → Option (Result (Analysis F))
  done none = none
  done (some a) = some (ok a)

  -- A round of the loop over the capture, and how the loop goes on.
  abbrev pub capture_round :
      Result (Option (CaptureMessage × CaptureReader))
      → Analysis F
      → TraceData
      → (Analysis F → Option (Result (Analysis F)))
      → Option (Result (Analysis F))
  capture_round (ok (some (msg, capture))) a d again =
      let a' = take_message a msg capture in
      if reached a' msg.id d then done (process a' d) else again a'
  capture_round (ok none) a d again = some (ok (record a { capture_eof = true }))
  capture_round (err e) a d again = some (err e)

  -- The loop over the capture until the client of the trace reaches the frame. Each round takes at
  -- least one byte of the capture or ends the loop; without fuel the result is `none`, as for a panic.
  unfoldable pub capture_loop : ℕ → Analysis F → TraceData → Option (Result (Analysis F))
  capture_loop zero a d = none
  capture_loop (suc fuel) a d =
      if a.capture_eof
      then some (ok a)
      else capture_round (read_event a.capture) a d (λ a'. capture_loop fuel a' d)

  -- One trace, with the fuel for the capture.
  unfoldable pub on_trace_data : ℕ → Analysis F → TraceData → Option (Result (Analysis F))
  on_trace_data fuel a d =
      let a' = record a { clients = insert d.id (client_of a d.id) a.clients } in
      if leb d.frame_index (client_of a d.id).frame_index
      then done (process a' d)
      else capture_loop fuel a' d

  abbrev pub count_trace : Option (Result (Analysis F)) → Option (Result (Analysis F))
  count_trace (some (ok a)) = some (ok (record a { traces_total = add32 a.traces_total 1 }))
  count_trace r = r

  abbrev pub proceed :
      Option (Result (Analysis F))
      → (Analysis F → Option (Result (Analysis F)))
      → Option (Result (Analysis F))
  proceed (some (ok a)) k = k a
  proceed r k = r

  -- The loop over the traces, of which each takes 13 bytes.
  unfoldable pub trace_loop : ℕ → ℕ → Analysis F → Option (Result (Analysis F))
  trace_loop zero fuel a = none
  trace_loop (suc traces) fuel a = elim (Trace.next a.traces) [
    | err unexpected_eof ↦ some (ok a)
    | err invalid_data ↦ some (err invalid_data)
    | ok (d, left) ↦
        proceed (count_trace (on_trace_data fuel (record a { traces = left }) d))
          (trace_loop traces fuel)
  ]

  abbrev pub close_analysis : Option (Result (Analysis F)) → Option (Result (Analysis F × Bytes))
  close_analysis none = none
  close_analysis (some (err e)) = some (err e)
  close_analysis (some (ok a)) = some (ok (a, finish F a.writer))

  -- The variables at the start.
  unfoldable pub start : CaptureReader → Bytes → StorageWriter F → Analysis F
  start capture_reader trace_file writer = record {
    clients = [];
    capture = capture_reader;
    traces = trace_file;
    writer = writer;
    start_ts = capture_reader.start_ts;
    capture_eof = false;
    traces_total = 0;
    traces_processed = 0;
  }

  -- What the analysis ends with, and the file of the chunks. Both loops have one round more than their
  -- file has bytes.
  unfoldable pub analyze :
      CaptureReader → Bytes → StorageWriter F → Option (Result (Analysis F × Bytes))
  analyze capture_reader trace_file writer = close_analysis (
      trace_loop (suc (length trace_file)) (suc (length capture_reader.buf))
        (start capture_reader trace_file writer))
