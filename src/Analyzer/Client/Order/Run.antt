-- ===== src/Analyzer/Client/Order/Run.antt =====
-- Any run of messages and traces through a client of src/analyzer.rs.
use pgr.Prelude.{
  ℕ, ◌+◌, ◌≤◌, ◌<◌, ◌^◌, refl, subst, Option, none, some, List, [], ◌∷◌, arith, Bytes,
}
use pgr.Prelude.Panic.{◌>>=◌, Returns, Returns-bind, Returns-map}
use pgr.Prelude.Maps.{lookup, Bytes_key}
use pgr.Analyzer.Client.Queue.{info_at, row_for, on_trace-info_at}
use pgr.Capture.{
  ClientEvent, lsn, connect, disconnect, simple_query, parse, bind, execute, sync, tx_end, close,
  CaptureMessage, ClientId,
}
use pgr.Trace.{TraceData}
use pgr.Analyzer.{F32, StorageWriter}
use pgr.Analyzer.Storage.Secs.{
  HasSecs, SmallChunks, map_query-HasSecs, write_params-HasSecs, write_trace-HasSecs,
}
use pgr.Analyzer.Client
use pgr.Analyzer.Client.{
  QueryInfo, AnalyzeClient, World, next_frame, push_info, on_simple_query, on_parse, on_event,
  on_capture, trace_row, on_trace_loop, on_trace, bind_to, execute_on,
}
use pgr.Analyzer.Client.Order.{
  counts, Counted, on_event-Counted, add_assoc, add_none, zero_add, from_index-All,
  from_index-Rises,
}

module _ (F : F32) (hash : Bytes → ℕ) where
  -- What a client is given: a message of the capture, or a trace.
  pub data Input : Type 0 where
    message : CaptureMessage → Input
    trace : TraceData → Input

  unfoldable pub step : World F → Input → Option (World F)
  step cw (message msg) = some (on_capture F hash cw msg)
  step cw (trace d) = on_trace F cw d

  abbrev pub run : World F → List Input → Option (World F)
  run cw [] = some cw
  run cw (i ∷ is') = step cw i >>= λ cw'. run cw' is'

  abbrev counts_in : Input → ℕ
  counts_in (message msg) = counts msg.event
  counts_in (trace d) = 0

  -- The frames that some inputs count.
  abbrev pub frames : List Input → ℕ
  frames [] = 0
  frames (i ∷ is') = counts_in i + frames is'

  module _ (secs : F.Carrier) (small : SmallChunks F secs) where
    abbrev pub After : ℕ → World F → Type 0
    After n cw = Counted n cw.0 × HasSecs F secs cw.1

    pub on_event-HasSecs :
        (c : AnalyzeClient) (w : StorageWriter F) (e : ClientEvent) (ts : ℕ)
        → HasSecs F secs w
        → HasSecs F secs (on_event F hash (c, w) e ts).1
    unfolding on_event on_simple_query on_parse
    on_event-HasSecs c w (simple_query text) ts h = map_query-HasSecs F secs hash w text [] h
    on_event-HasSecs c w (parse name query types) ts h =
        map_query-HasSecs F secs hash w query types h
    on_event-HasSecs c w (bind portal statement formats params) ts h =
        by_statement (lookup statement c.statements)
      where
        by_statement :
            (o : Option ℕ)
            → HasSecs F secs (bind_to F o (next_frame c, w) portal params formats ts).1
        by_statement none = h
        by_statement (some o) = write_params-HasSecs F secs w o params formats h
    on_event-HasSecs c w (execute portal max_rows) ts h = by_portal (lookup portal c.portals)
      where
        by_portal : (o : Option (ℕ × ℕ)) → HasSecs F secs (execute_on F o (next_frame c, w) ts).1
        by_portal none = h
        by_portal (some o) = h
    on_event-HasSecs c w (lsn l) ts h = h
    on_event-HasSecs c w (connect s) ts h = h
    on_event-HasSecs c w disconnect ts h = h
    on_event-HasSecs c w sync ts h = h
    on_event-HasSecs c w (tx_end b x l) ts h = h
    on_event-HasSecs c w (close kind name) ts h = h

    on_trace-After :
        (n : ℕ) (cw : World F) (d : TraceData) → After n cw → Returns (After n) (on_trace F cw d)
    on_trace-After n (c, w) d ((e, (r, u)), s) = rw (on_trace-info_at F c w d r) (
        Returns-bind (HasSecs F secs) (After n)
          (row_for F (info_at d.frame_index c.queries) c.id d w) _
          (by_info (info_at d.frame_index c.queries))
          (λ w' s'. (
            (
              e,
              (
                from_index-Rises d.frame_index c.queries r,
                from_index-All (λ i. i.index ≤ c.frame_index) d.frame_index c.queries u,
              ),
            ),
            s',
          )))
      where
        by_info : (o : Option QueryInfo) → Returns (HasSecs F secs) (row_for F o c.id d w)
        by_info none = s
        by_info (some info) = write_trace-HasSecs F secs w (trace_row F c.id info d) small s

    step-After :
        (n : ℕ) (cw : World F) (i : Input)
        → n + counts_in i < 2 ^ 32
        → After n cw
        → Returns (After (n + counts_in i)) (step cw i)
    unfolding step on_capture
    step-After n (c, w) (message msg) l (h, s) =
        (on_event-Counted F hash n c w msg.event _ l h, on_event-HasSecs c w msg.event _ s)
    step-After n cw (trace d) l h = rw (add_none n) (on_trace-After n cw d h)

    run-After :
        (n : ℕ) (cw : World F) (is' : List Input)
        → n + frames is' < 2 ^ 32
        → After n cw
        → Returns (After (n + frames is')) (run cw is')
    run-After n cw [] l h = rw (add_none n) h
    run-After n cw (i ∷ is') l h =
        Returns-bind (After (n + counts_in i)) (After (n + frames (i ∷ is'))) (step cw i)
          (λ cw'. run cw' is') (step-After n cw i (omega arith) h)
          (λ cw' h'.
            subst (λ m. Returns (After m) (run cw' is')) (add_assoc n (counts_in i) (frames is'))
              (run-After (n + counts_in i) cw' is' (omega arith) h'))

    -- A new client that takes messages and traces in any order does not panic. It counts the
    -- messages that are frames, and the indices of its queue rise up to that count. There are fewer
    -- than 2^32 frames, and each time's chunk fits a usize.
    pub run-Counted :
        (id : ClientId) (t : ℕ) (w : StorageWriter F) (is' : List Input)
        → HasSecs F secs w
        → frames is' < 2 ^ 32
        → Returns (λ cw. Counted (frames is') cw.0) (run (Client.new id t, w) is')
    unfolding Client.new
    run-Counted id t w is' s l =
        Returns-map (After (0 + frames is')) (λ cw. Counted (frames is') cw.0)
          (run (Client.new id t, w) is')
          (run-After 0 (Client.new id t, w) is' (omega arith) ((refl, (tt, tt)), s))
          (λ cw h. subst (λ m. Counted m cw.0) (zero_add (frames is')) h.0)
