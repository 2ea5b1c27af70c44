-- ===== src/Analyzer/Analyze/Total.antt =====
-- The loops of `analyze` of src/analyzer.rs end, and what they count.
use pgr.Prelude.{
  ℕ, zero, suc, ◌+◌, ◌*◌, ◌/◌, ◌≤◌, ◌<◌, ◌^◌, ◌≡◌, Option, none, some, arith, Bytes, length, ltb,
  inl, inr, Bool-cases, ltb→lt, ltb-false,
}
use pgr.Prelude.Panic.{Returns}
use pgr.Prelude.Maps.{ℕ_key}
use pgr.Prelude.Io.{Result, ok, err, Settled}
use pgr.Capture.Reader.{CaptureReader}
use pgr.Trace
use pgr.Trace.{TraceData}
use pgr.Trace.RoundTrip.{next-short, next-long}
use pgr.Analyzer.{F32, StorageWriter}
use pgr.Analyzer.Storage.Secs.{HasSecs, SmallChunks}
use pgr.Analyzer.Analyze.{Analysis, proceed, trace_loop, close_analysis, start, analyze}
use pgr.Analyzer.Analyze.Rounds.{Keeps, on_trace_data-Keeps}

module _ (F : F32) (hash : Bytes → ℕ) (secs : F.Carrier) (small : SmallChunks F secs)
    (whole fuel : ℕ) (few : whole < 13 * 2 ^ 31) where
  -- At the end fewer bytes than a record are left.
  abbrev pub Ended : Analysis F → Type 0
  Ended a = (a.traces_total ≡ whole / 13) × (a.traces_processed ≤ a.traces_total)

  trace_loop-Ended :
      (n seen : ℕ) (a : Analysis F)
      → length a.traces < n
      → Keeps F hash secs small whole fuel few seen 0 a
      → Returns (Settled Ended) (trace_loop F hash n fuel a)
  unfolding trace_loop
  trace_loop-Ended zero seen a l h = absurd (omega arith)
  trace_loop-Ended (suc n) seen a l h = elim (Bool-cases (ltb (length a.traces) 13)) [
    | inl short ↦
        rw (trace_loop, next-short a.traces (ltb→lt (length a.traces) 13 short))
          (omega (arith, h.counts, h.taken, ltb→lt (length a.traces) 13 short), h.processed)
    | inr long ↦
        by_record (λ a' s k. trace_loop-Ended n (suc seen) a' s k)
          (next-long a.traces (ltb-false (length a.traces) 13 long))
  ]
    where
      Again : Type 0
      Again =
          (a' : Analysis F)
          → length a'.traces < n
          → Keeps F hash secs small whole fuel few (suc seen) 0 a'
          → Returns (Settled Ended) (trace_loop F hash n fuel a')

      by_result :
          Again
          → (o : Option (Result (Analysis F)))
          → Returns (Settled (λ a'. Keeps F hash secs small whole fuel few (suc seen) 0 a')) o
          → Returns (Settled Ended) (proceed F hash o (trace_loop F hash n fuel))
      by_result again none k = absurd k
      by_result again (some (ok a')) k = again a' (omega (arith, h.taken, k.taken)) k
      by_result again (some (err e)) k = k

      by_record :
          Again
          → (d : TraceData) × (t : Bytes) × (Trace.next a.traces ≡ ok (d, t))
            × (length t + 13 ≡ length a.traces)
          → Returns (Settled Ended) (trace_loop F hash (suc n) fuel a)
      by_record again (d, t, e, f) =
          rw (trace_loop, e)
            (by_result again _ (
              on_trace_data-Keeps F hash secs small whole fuel few (suc seen)
                (record a { traces = t }) d
                record {
                  secs_eq = h.secs_eq;
                  short = h.short;
                  counts = omega (arith, h.counts);
                  taken = omega (arith, h.taken);
                  processed = h.processed;
                }))

-- `analyze` returns: with the report of bad data in the capture, or after it has counted every whole
-- record of the trace file, of which it has processed at most that many. Each time's chunk fits a
-- usize, and the records are fewer than 2^31.
pub analyze-Returns :
    (F : F32) (hash : Bytes → ℕ) (secs : F.Carrier)
    → SmallChunks F secs
    → (reader : CaptureReader) (trace_file : Bytes) (writer : StorageWriter F)
    → HasSecs F secs writer
    → length trace_file < 13 * 2 ^ 31
    → Returns
        (Settled (λ (r : Analysis F × Bytes).
          (r.0.traces_total ≡ length trace_file / 13) × (r.0.traces_processed ≤ r.0.traces_total)))
        (analyze F hash reader trace_file writer)
unfolding analyze start
analyze-Returns F hash secs small reader trace_file writer h few = by_result _ (
    trace_loop-Ended F hash secs small (length trace_file) (suc (length reader.buf)) few
      (suc (length trace_file)) 0 (start F hash reader trace_file writer) (omega arith)
      record {
        secs_eq = h;
        short = omega arith;
        counts = omega arith;
        taken = omega arith;
        processed = omega arith;
      })
  where
    by_result :
        (o : Option (Result (Analysis F)))
        → Returns
            (Settled (λ a.
              (a.traces_total ≡ length trace_file / 13) × (a.traces_processed ≤ a.traces_total)))
            o
        → Returns
            (Settled (λ (r : Analysis F × Bytes).
              (r.0.traces_total ≡ length trace_file / 13)
              × (r.0.traces_processed ≤ r.0.traces_total)))
            (close_analysis F hash o)
    by_result none k = k
    by_result (some (err e)) k = k
    by_result (some (ok a)) k = k
