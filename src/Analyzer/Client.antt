-- ===== src/Analyzer/Client.antt =====
-- `AnalyzeClient` of src/analyzer.rs: the frames of one client that the traces may refer to. What is
-- only logged is left out.
pub mod Queue
pub mod Order
use pgr.Prelude.{
  ℕ, ◌+◌, Option, none, some, List, [], ◌∷◌, ◌++◌, Bytes, add32, saturating_sub, ltb, if◌then◌else◌,
}
use pgr.Prelude.Panic.{◌>>=◌}
use pgr.Prelude.Maps.{Map, lookup, insert, Bytes_key}
use pgr.Capture.{
  ClientId, BindParam, ClientEvent, simple_query, parse, bind, execute, CaptureMessage,
}
use pgr.Trace.{TraceData}
use pgr.Analyzer.{F32, TraceRow, StorageWriter, no_params}
use pgr.Analyzer.Storage.{map_query, write_params, write_trace}

pub record QueryInfo : Type 0 where
  pub index : ℕ
  pub offset : ℕ
  pub params_offset : ℕ
  pub ts : ℕ

pub record AnalyzeClient : Type 0 where
  pub id : ClientId
  pub start_ts : ℕ
  pub frame_index : ℕ
  pub queries : List QueryInfo
  pub statements : Map Bytes ℕ
  pub portals : Map Bytes (ℕ × ℕ)

unfoldable pub new : ClientId → ℕ → AnalyzeClient
new id start_ts = record {
  id = id;
  start_ts = start_ts;
  frame_index = 0;
  queries = [];
  statements = [];
  portals = [];
}

-- `self.frame_index += 1`
unfoldable pub next_frame : AnalyzeClient → AnalyzeClient
next_frame c = record c { frame_index = add32 c.frame_index 1 }

-- `self.queries.push_back(..)` with the current index.
unfoldable pub push_info : AnalyzeClient → ℕ → ℕ → ℕ → AnalyzeClient
push_info c offset params_offset ts = record c {
  queries =
      c.queries
      ++ (record { index = c.frame_index; offset = offset; params_offset = params_offset; ts = ts }
          ∷ []);
}

module _ (F : F32) where
  abbrev pub World : Type 0
  World = AnalyzeClient × StorageWriter F

  abbrev pub bind_to : Option ℕ → World → Bytes → List BindParam → List ℕ → ℕ → World
  bind_to none w portal params result_formats ts = w
  bind_to (some query_offset) (c, w) portal params result_formats ts =
      let (params_offset, w') = write_params F w query_offset params result_formats in
      (
        push_info (record c { portals = insert portal (query_offset, params_offset) c.portals })
            query_offset params_offset ts,
        w',
      )

  abbrev pub execute_on : Option (ℕ × ℕ) → World → ℕ → World
  execute_on none w ts = w
  execute_on (some (query_offset, params_offset)) (c, w) ts =
      (push_info c query_offset params_offset ts, w)

  module _ (hash : Bytes → ℕ) where
    unfoldable pub on_simple_query : World → Bytes → ℕ → World
    on_simple_query (c, w) text ts =
        let (query_offset, w') = map_query F hash w text [] in
        (push_info (next_frame c) query_offset no_params ts, w')

    unfoldable pub on_parse : World → Bytes → Bytes → List ℕ → ℕ → World
    on_parse (c, w) name query param_types ts =
        let (query_offset, w') = map_query F hash w query param_types in
        (
          push_info (record (next_frame c) { statements = insert name query_offset c.statements })
              query_offset no_params ts,
          w',
        )

    -- The match of `on_capture`, with the time since the start.
    unfoldable pub on_event : World → ClientEvent → ℕ → World
    on_event cw (simple_query text) ts = on_simple_query cw text ts
    on_event cw (parse name query param_types) ts = on_parse cw name query param_types ts
    on_event (c, w) (bind portal statement result_formats params) ts =
        bind_to (lookup statement c.statements) (next_frame c, w) portal params result_formats ts
    on_event (c, w) (execute portal max_rows) ts =
        execute_on (lookup portal c.portals) (next_frame c, w) ts
    on_event cw _ ts = cw

    unfoldable pub on_capture : World → CaptureMessage → World
    on_capture (c, w) msg = on_event (c, w) msg.event (saturating_sub msg.ts c.start_ts)

  unfoldable pub trace_row : ClientId → QueryInfo → TraceData → TraceRow F
  trace_row id info d = record {
    client_id = id;
    query_offset = info.offset;
    params_offset = info.params_offset;
    ts_secs = F.div_1e6 info.ts;
    event_type = d.event_type;
    duration_ms = F.div_1e3 d.duration_us;
  }

  -- The loop of `on_trace` over the queue: what it leaves of it. The entry of the trace stays.
  unfoldable pub on_trace_loop :
      List QueryInfo
      → ClientId
      → TraceData
      → StorageWriter F
      → Option (List QueryInfo × StorageWriter F)
  on_trace_loop [] id d w = some ([], w)
  on_trace_loop (info ∷ queries) id d w =
      let later = on_trace_loop queries id d w in
      if ltb info.index d.frame_index
      then later
      else if ltb d.frame_index info.index
      then some (info ∷ queries, w)
      else (write_trace F w (trace_row id info d) >>= λ w'. some (info ∷ queries, w'))

  unfoldable pub on_trace : World → TraceData → Option World
  on_trace (c, w) d = do
    (queries, w') ← on_trace_loop c.queries c.id d w
    some (record c { queries = queries }, w')
