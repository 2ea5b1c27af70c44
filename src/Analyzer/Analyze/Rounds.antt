-- ===== src/Analyzer/Analyze/Rounds.antt =====
-- The rounds of the loops of `analyze` of src/analyzer.rs.
use pgr.Prelude.{
  ℕ, zero, suc, ◌+◌, ◌*◌, ◌≤◌, ◌<◌, ◌^◌, ◌≡◌, refl, ap, Bool, true, false, Option, none, some, [],
  ◌∷◌, List, arith, Bytes, add32, length, leb, ltb, if◌then◌else◌, inl, inr, Bool-cases,
}
use pgr.Prelude.Panic.{Returns, Returns-bind}
use pgr.Prelude.Maps.{insert, ℕ_key}
use pgr.Prelude.Io.{Result, ok, err, Settled}
use pgr.Capture.{ClientId, CaptureMessage}
use pgr.Capture.Reader.{CaptureReader, read_event}
use pgr.Capture.Truncation.{read_event-shorter, read_event-error}
use pgr.Trace.{TraceData}
use pgr.Analyzer.{F32, StorageWriter}
use pgr.Analyzer.Storage.{write_trace}
use pgr.Analyzer.Storage.Secs.{HasSecs, SmallChunks, write_trace-HasSecs}
use pgr.Analyzer.Client.{QueryInfo, World, on_capture, on_trace, on_trace_loop, trace_row}
use pgr.Analyzer.Client.Order.Run.{on_event-HasSecs}
use pgr.Analyzer.Analyze.{
  Analysis, client_of, process, take_message, reached, done, capture_round, capture_loop,
  on_trace_data, count_trace,
}

module _ (F : F32) (hash : Bytes → ℕ) (secs : F.Carrier) (small : SmallChunks F secs)
    (whole fuel : ℕ) (few : whole < 13 * 2 ^ 31) where
  loop-HasSecs :
      (queries : List QueryInfo) (id : ClientId) (d : TraceData) (w : StorageWriter F)
      → HasSecs F secs w
      → Returns
          (λ (r : List QueryInfo × StorageWriter F). HasSecs F secs r.1)
          (on_trace_loop F queries id d w)
  unfolding on_trace_loop
  loop-HasSecs [] id d w h = h
  loop-HasSecs (info ∷ queries) id d w h = elim (Bool-cases (ltb info.index d.frame_index)) [
    | inl before ↦ rw before (loop-HasSecs queries id d w h)
    | inr x ↦ rw x (elim (Bool-cases (ltb d.frame_index info.index)) [
      | inl behind ↦ rw behind h
      | inr y ↦ rw y (
          Returns-bind (HasSecs F secs)
            (λ (r : List QueryInfo × StorageWriter F). HasSecs F secs r.1)
            (write_trace F w (trace_row F id info d)) _
            (write_trace-HasSecs F secs w (trace_row F id info d) small h) (λ w' h'. h'))
    ])
  ]

  -- Processing a trace counts it as processed, before it is counted.
  abbrev Processed : Analysis F → Analysis F → Type 0
  Processed a a' =
      HasSecs F secs a'.writer
      × (a'.capture ≡ a.capture)
      × (a'.traces ≡ a.traces)
      × (a'.traces_total ≡ a.traces_total)
      × (a'.traces_processed ≡ add32 a.traces_processed 1)

  process-Processed :
      (a : Analysis F) (d : TraceData)
      → HasSecs F secs a.writer
      → Returns (Processed a) (process F hash a d)
  unfolding process on_trace
  process-Processed a d h =
      let c = client_of F hash a d.id in
      Returns-bind (λ (cw : World F). HasSecs F secs cw.1) (Processed a)
        (on_trace F (c, a.writer) d) _
        (Returns-bind (λ (r : List QueryInfo × StorageWriter F). HasSecs F secs r.1)
          (λ (cw : World F). HasSecs F secs cw.1) (on_trace_loop F c.queries c.id d a.writer) _
          (loop-HasSecs c.queries c.id d a.writer h) (λ r h'. h'))
        (λ cw h'. (h', refl, refl, refl, refl))

  module _ (seen : ℕ) where
    -- What every round keeps: `seen` traces were taken from a file of `whole` bytes, `due` of them are
    -- not counted yet, and the capture has less than `fuel` bytes.
    pub record Keeps (due : ℕ) (a : Analysis F) : Type 0 where
      pub secs_eq : HasSecs F secs a.writer
      pub short : length a.capture.buf < fuel
      pub counts : a.traces_total + due ≡ seen
      pub taken : seen * 13 + length a.traces ≡ whole
      pub processed : a.traces_processed ≤ a.traces_total

    -- A trace that is taken, and processed or not.
    process-Keeps :
        (a : Analysis F) (d : TraceData)
        → Keeps 1 a
        → Returns
            (Settled (λ a'. Keeps 0 a'))
            (count_trace F hash (done F hash (process F hash a d)))
    process-Keeps a d h = go (process F hash a d) (process-Processed a d h.secs_eq)
      where
        go :
            (o : Option (Analysis F))
            → Returns (Processed a) o
            → Returns (Settled (λ a'. Keeps 0 a')) (count_trace F hash (done F hash o))
        go none k = absurd k
        go (some a') (s, c, t, n, p) = record {
          secs_eq = s;
          short = rw c h.short;
          counts = omega (arith, h.counts, h.taken);
          taken = omega (arith, h.taken, ap length t);
          processed = omega (arith, h.counts, h.taken, h.processed);
        }

    take-Keeps :
        (a : Analysis F) (msg : CaptureMessage) (r : CaptureReader)
        → length r.buf < fuel
        → Keeps 1 a
        → Keeps 1 (take_message F hash a msg r)
    unfolding take_message on_capture
    take-Keeps a msg r l h = record {
      secs_eq =
          on_event-HasSecs F hash secs small (client_of F hash a msg.id) a.writer msg.event _
            h.secs_eq;
      short = l;
      counts = h.counts;
      taken = h.taken;
      processed = h.processed;
    }

    counts_one :
        (b : Bool) (a : Analysis F)
        → Keeps 1 a
        → Keeps 0 (record a { capture_eof = b; traces_total = add32 a.traces_total 1 })
    counts_one b a h = record {
      secs_eq = h.secs_eq;
      short = h.short;
      counts = omega (arith, h.counts, h.taken);
      taken = h.taken;
      processed = omega (arith, h.counts, h.taken, h.processed);
    }

    capture_loop-Keeps :
        (n : ℕ) (a : Analysis F) (d : TraceData)
        → length a.capture.buf < n
        → Keeps 1 a
        → Returns (Settled (λ a'. Keeps 0 a')) (count_trace F hash (capture_loop F hash n a d))
    unfolding capture_loop take_message
    capture_loop-Keeps zero a d l h = absurd (omega arith)
    capture_loop-Keeps (suc n) a d l h =
        by_eof (λ a' s k. capture_loop-Keeps n a' d s k) a.capture_eof
      where
        Again : Type 0
        Again =
            (a' : Analysis F)
            → length a'.capture.buf < n
            → Keeps 1 a'
            → Returns (Settled (λ a''. Keeps 0 a''))
                (count_trace F hash (capture_loop F hash n a' d))

        by_reached :
            Again
            → (b : Bool) (a' : Analysis F) → Keeps 1 a'
            → length a'.capture.buf < n
            → Returns (Settled (λ a'. Keeps 0 a')) (
                count_trace F hash
                  (if b then done F hash (process F hash a' d) else capture_loop F hash n a' d))
        by_reached again true a' k s = process-Keeps a' d k
        by_reached again false a' k s = again a' s k

        by_read :
            Again
            → (x : Result (Option (CaptureMessage × CaptureReader))) → read_event a.capture ≡ x
            → Returns
                (Settled (λ a'. Keeps 0 a'))
                (count_trace F hash (capture_round F hash x a d (λ a'. capture_loop F hash n a' d)))
        by_read again (ok (some (msg, r))) e =
            by_reached again (reached F hash (take_message F hash a msg r) msg.id d)
              (take_message F hash a msg r)
              (take-Keeps a msg r (omega (arith, h.short, read_event-shorter a.capture msg r e)) h)
              (omega (arith, read_event-shorter a.capture msg r e))
        by_read again (ok none) e = counts_one true a h
        by_read again (err x) e = read_event-error a.capture x e

        by_eof :
            Again
            → (b : Bool)
            → Returns (Settled (λ a'. Keeps 0 a')) (
                count_trace F hash (
                  if b
                  then some (ok a)
                  else capture_round F hash
                      (read_event a.capture)
                      a
                      d
                      (λ a'. capture_loop F hash n a' d)))
        by_eof again true = counts_one a.capture_eof a h
        by_eof again false = by_read again (read_event a.capture) refl

    pub on_trace_data-Keeps :
        (a : Analysis F) (d : TraceData)
        → Keeps 1 a
        → Returns (Settled (λ a'. Keeps 0 a')) (count_trace F hash (on_trace_data F hash fuel a d))
    unfolding on_trace_data
    on_trace_data-Keeps a d h = by_test (leb d.frame_index (client_of F hash a d.id).frame_index)
      where
        a0 : Analysis F
        a0 = record a { clients = insert d.id (client_of F hash a d.id) a.clients }

        a0-Keeps : Keeps 1 a0
        a0-Keeps = record {
          secs_eq = h.secs_eq;
          short = h.short;
          counts = h.counts;
          taken = h.taken;
          processed = h.processed;
        }

        by_test :
            (b : Bool)
            → Returns (Settled (λ a'. Keeps 0 a')) (
                count_trace F hash
                  (if b then done F hash (process F hash a0 d) else capture_loop F hash fuel a0 d))
        by_test true = process-Keeps a0 d a0-Keeps
        by_test false = capture_loop-Keeps fuel a0 d h.short a0-Keeps
