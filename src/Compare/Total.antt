-- ===== src/Compare/Total.antt =====
-- `compare` of src/compare.rs ends, and its two counts.
use pgr.Prelude.{
  ℕ, suc, zero, ◌+◌, ◌*◌, ◌/◌, ◌≤◌, ◌<◌, ◌^◌, ◌≡◌, refl, ap, ◌∙◌, ◌⊎◌, inl, inr, Bool, true, false,
  Option, none, some, arith, Bytes, length, take, drop, length-drop, ltb, if◌then◌else◌, Bool-cases,
  ltb→lt, ltb-false,
}
use pgr.Prelude.Panic.{Returns}
use pgr.Prelude.Maps.{ℕ_key}
use pgr.Prelude.Io.{Result, ok, err, Settled, read_exact}
use pgr.Capture.{ClientId, CaptureMessage}
use pgr.Capture.Reader.{CaptureReader, read_event}
use pgr.Capture.Truncation.{read_event-shorter, read_event-error}
use pgr.Compare
use pgr.Compare.{
  TimingData, ClientStats, default_stats, Pair, drain, event_code, timing_of, timing_result,
}
use pgr.Compare.Loop.{
  Comparison, client_of, drain_client, push_timing, push_code, push_capture, capture_round,
  capture_loop, continue_with, timing_loop, sort, reported, start, compare, is_empty,
}
use pgr.Compare.Sum.{sum, push_timing-sum, push_code-sum, sort-sum, totals-sum}

-- The records of the timing file.
next-cases :
    (file : Bytes)
    → ((length file < 13) × (Compare.next file ≡ ok none))
      ⊎ ((t : TimingData) × (Compare.next file ≡ ok (some (t, drop 13 file))) × (13 ≤ length file))
unfolding Compare.next read_exact
next-cases file = elim (Bool-cases (ltb (length file) 13)) [
  | inl short ↦ inl (ltb→lt (length file) 13 short, rw short)
  | inr long ↦ inr (timing_of (take 13 file), rw long, ltb-false (length file) 13 long)
]

module _ (whole fuel : ℕ) (fits : whole < 2 ^ 64) where
  -- What each round keeps, after `seen` records of a file of `whole` bytes.
  record Keeps (seen : ℕ) (s : Comparison) : Type 0 where
    records : sum s.clients ≡ seen
    taken : seen * 13 + length s.timing ≡ whole
    short : length s.capture.buf < fuel

  drain_client-rest :
      (s : Comparison) (id : ClientId) (c : ClientStats)
      → ((drain_client s id c).timing ≡ s.timing) × ((drain_client s id c).capture ≡ s.capture)
  unfolding drain_client
  drain_client-rest s id c = (refl, refl)

  push_code-rest :
      (o : Option ℕ) (s : Comparison) (msg : CaptureMessage)
      → ((push_code o s msg).timing ≡ s.timing) × ((push_code o s msg).capture ≡ s.capture)
  push_code-rest none s msg = (refl, refl)
  push_code-rest (some code) s msg = drain_client-rest s msg.id _

  push_capture-capture :
      (s : Comparison) (msg : CaptureMessage) → (push_capture s msg).capture ≡ s.capture
  unfolding push_capture
  push_capture-capture s msg = (push_code-rest (event_code msg.event) s msg).1

  push_capture-Keeps :
      (seen : ℕ) (s : Comparison) (msg : CaptureMessage)
      → Keeps seen s
      → Keeps seen (push_capture s msg)
  unfolding push_capture
  push_capture-Keeps seen s msg h = record {
    records =
        push_code-sum (event_code msg.event) s msg (omega (arith, h.records, h.taken)) ∙ h.records;
    taken = omega (arith, h.taken, ap length (push_code-rest (event_code msg.event) s msg).0);
    short = omega (
      arith,
      h.short,
      ap (λ (r : CaptureReader). length r.buf) (push_code-rest (event_code msg.event) s msg).1,
    );
  }

  capture_loop-Keeps :
      (n seen : ℕ) (s : Comparison) (id : ClientId)
      → length s.capture.buf < n
      → Keeps seen s
      → Returns (Settled (Keeps seen)) (capture_loop n s id)
  unfolding capture_loop
  capture_loop-Keeps zero seen s id l h = absurd (omega arith)
  capture_loop-Keeps (suc n) seen s id l h =
      by_tests (λ s' l' h'. capture_loop-Keeps n seen s' id l' h') s.capture_eof
        (is_empty (client_of s id).tim)
    where
      Again : Type 0
      Again =
          (s' : Comparison)
          → length s'.capture.buf < n
          → Keeps seen s'
          → Returns (Settled (Keeps seen)) (capture_loop n s' id)

      by_read :
          Again
          → (x : Result (Option (CaptureMessage × CaptureReader))) → read_event s.capture ≡ x
          → Returns (Settled (Keeps seen)) (capture_round x s (λ s'. capture_loop n s' id))
      by_read again (ok none) e = record { records = h.records; taken = h.taken; short = h.short }
      by_read again (err x) e = read_event-error s.capture x e
      by_read again (ok (some (msg, r))) e =
          let shorter = read_event-shorter s.capture msg r e in
          let k =
            push_capture-Keeps seen (record s { capture = r }) msg
              record {
                records = h.records;
                taken = h.taken;
                short = omega (arith, h.short, shorter);
              } in
          again (push_capture (record s { capture = r }) msg)
            (omega (
              arith,
              shorter,
              ap (λ (x : CaptureReader). length x.buf)
                  (push_capture-capture (record s { capture = r }) msg),
            ))
            k

      by_tests :
          Again
          → (eof empty : Bool)
          → Returns (Settled (Keeps seen)) (
              if eof
              then some (ok s)
              else if empty
              then some (ok s)
              else capture_round (read_event s.capture) s (λ s'. capture_loop n s' id))
      by_tests again true empty = h
      by_tests again false true = h
      by_tests again false false = by_read again (read_event s.capture) refl

  push_timing-Keeps :
      (seen : ℕ) (s : Comparison) (t : TimingData)
      → 13 ≤ length s.timing
      → Keeps seen s
      → Keeps (suc seen) (push_timing (record s { timing = drop 13 s.timing }) t)
  unfolding push_timing drain_client
  push_timing-Keeps seen s t l h =
      let s0 = record s { timing = drop 13 s.timing } in
      record {
        records = push_timing-sum s0 t (omega (arith, h.records, h.taken)) ∙ ap suc h.records;
        taken = omega (arith, h.taken, length-drop 13 s.timing);
        short = h.short;
      }

  timing_loop-sum :
      (n seen : ℕ) (s : Comparison)
      → length s.timing < n
      → Keeps seen s
      → Returns (Settled (λ s'. sum s'.clients ≡ whole / 13)) (timing_loop n fuel s)
  unfolding timing_loop
  timing_loop-sum zero seen s l h = absurd (omega arith)
  timing_loop-sum (suc n) seen s l h =
      by_next (λ s' l' h'. timing_loop-sum n (suc seen) s' l' h') (next-cases s.timing)
    where
      Again : Type 0
      Again =
          (s' : Comparison)
          → length s'.timing < n
          → Keeps (suc seen) s'
          → Returns (Settled (λ s''. sum s''.clients ≡ whole / 13)) (timing_loop n fuel s')

      by_result :
          Again
          → 13 ≤ length s.timing
          → (o : Option (Result Comparison)) → Returns (Settled (Keeps (suc seen))) o
          → Returns
              (Settled (λ s'. sum s'.clients ≡ whole / 13))
              (continue_with o (λ s'. timing_loop n fuel s'))
      by_result again long none k = k
      by_result again long (some (err e)) k = k
      by_result again long (some (ok s')) k = again s' (omega (arith, h.taken, k.taken)) k

      by_next :
          Again
          → ((length s.timing < 13) × (Compare.next s.timing ≡ ok none))
            ⊎ ((t : TimingData) × (Compare.next s.timing ≡ ok (some (t, drop 13 s.timing)))
                × (13 ≤ length s.timing))
          → Returns (Settled (λ s'. sum s'.clients ≡ whole / 13)) (timing_loop (suc n) fuel s)
      by_next again (inl (short, e)) = rw (timing_loop, e) (omega (arith, h.records, h.taken))
      by_next again (inr (t, e, long)) =
          let s1 = push_timing (record s { timing = drop 13 s.timing }) t in
          let k = push_timing-Keeps seen s t long h in
          rw (timing_loop, e)
            (by_result again long (capture_loop fuel s1 t.id)
              (capture_loop-Keeps fuel (suc seen) s1 t.id k.short k))

-- `compare` returns: with the report of bad data in the capture, or with two counts that together
-- count every whole record of the timing file. The file is smaller than 2^64 bytes.
pub compare-Returns :
    (reader : CaptureReader) (timing_file : Bytes)
    → length timing_file < 2 ^ 64
    → Returns
        (Settled (λ (r : ℕ × ℕ). r.0 + r.1 ≡ length timing_file / 13))
        (compare reader timing_file)
unfolding compare start
compare-Returns reader timing_file h = by_result _ (
    timing_loop-sum (length timing_file) (suc (length reader.buf)) h (suc (length timing_file)) 0
      (start reader timing_file) (omega arith)
      record { records = refl; taken = omega arith; short = omega arith })
  where
    by_result :
        (o : Option (Result Comparison))
        → Returns (Settled (λ s'. sum s'.clients ≡ length timing_file / 13)) o
        → Returns (Settled (λ (r : ℕ × ℕ). r.0 + r.1 ≡ length timing_file / 13)) (reported o)
    by_result none k = k
    by_result (some (err e)) k = k
    by_result (some (ok s)) k =
        totals-sum (sort s.clients) s.origin 0 0 (omega (arith, k, sort-sum s.clients))
        ∙ omega (arith, k, sort-sum s.clients)
