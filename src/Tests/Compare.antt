-- ===== src/Tests/Compare.antt =====
-- Tests of src/compare.rs and src/capture_dump.rs.
use pgr.Prelude.{
  ℕ, ◌+◌, ◌/◌, ◌≡◌, refl, Bool, false, some, none, List, [], ◌∷◌, ◌++◌, arith, Bytes, length, codes,
  to_le,
}
use pgr.Prelude.Panic.{Returns}
use pgr.Prelude.Io.{Settled}
use pgr.Utf8.{from_utf8_lossy, IsUtf8-ascii}
use pgr.Capture.{CaptureMessage, disconnect, connect}
use pgr.Capture.Format.{encode, encode_all, Fits}
use pgr.Capture.Reader.{CaptureReader}
use pgr.Compare.{ClientStats, default_stats, drain}
use pgr.Compare.Pairing.{done, take_code, pass_code, drain-Within, drain-more, more_cap, more_tim}
use pgr.Compare.Counts.{drain-conserves}
use pgr.Compare.Loop.{compare}
use pgr.Compare.Total.{compare-Returns}
use pgr.Dump.{text}
use pgr.Dump.Text.{unquote, text-unquote}

-- Three messages, and records for the first and the last.
abbrev waiting : ClientStats
waiting = record default_stats {
  cap = (2, 100, false) ∷ (8, 130, false) ∷ (4, 150, false) ∷ [];
  tim = (2, 1000) ∷ (4, 1090) ∷ [];
}

drain-Within_example : (drain (waiting, none)).0.tim ≡ []
drain-Within_example = drain-Within waiting none (take_code (pass_code (take_code done)))

abbrev more : List (ℕ × ℕ × Bool)
more = (3, 170, false) ∷ []

abbrev later : List (ℕ × ℕ)
later = (3, 1120) ∷ []

drain-more_example :
    (drain (more_cap (drain (waiting, none)) more) ≡ drain (more_cap (waiting, none) more))
    × (drain (more_tim (drain (waiting, none)) later) ≡ drain (more_tim (waiting, none) later))
drain-more_example = drain-more (waiting, none) more later

drain-conserves_example :
    let c' = (drain (waiting, none)).0 in
    (c'.matched + length c'.tim ≡ 2) × (c'.matched + c'.skipped + length c'.cap ≡ 3)
drain-conserves_example = drain-conserves waiting none (omega arith) (omega arith)

abbrev connected : CaptureMessage
connected = record { id = 7; ts = 1000; event = connect (b'"' ∷ b's' ∷ []) }

abbrev left : CaptureMessage
left = record { id = 7; ts = 2000; event = disconnect }

abbrev reader : CaptureReader
reader = record { buf = encode_all encode (connected ∷ left ∷ []) ++ []; lsn = 1; start_ts = 500 }

abbrev timing_file : Bytes
timing_file = to_le 4 7 ++ 2 ∷ to_le 8 5000

compare-Returns_example :
    Returns
      (Settled (λ (r : ℕ × ℕ). r.0 + r.1 ≡ length timing_file / 13))
      (compare reader timing_file)
unfolding to_le
compare-Returns_example = compare-Returns reader timing_file (omega arith)

connected-Fits : Fits connected
connected-Fits = record {
  id = omega arith;
  ts = omega arith;
  event = (IsUtf8-ascii (b'"' ∷ b's' ∷ []) (omega arith), omega arith);
}

left-Fits : Fits left
left-Fits = record { id = omega arith; ts = omega arith; event = tt }

text-unquote_example :
    (body : Bytes) × (text (b'"' ∷ b's' ∷ []) ≡ some (codes ",\"" ++ body))
    × (unquote (body ++ b',' ∷ []) ≡ some (from_utf8_lossy (b'"' ∷ b's' ∷ []), b',' ∷ []))
text-unquote_example = text-unquote (b'"' ∷ b's' ∷ []) (b',' ∷ []) refl
