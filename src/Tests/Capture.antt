-- ===== src/Tests/Capture.antt =====
-- Tests of src/capture.rs.
use pgr.Prelude.{suc, ◌≡◌, refl, inr, none, some, [], ◌∷◌, ◌++◌, arith, Bytes, length, to_le}
use pgr.Prelude.Io.{ok, err, invalid_data}
use pgr.Utf8.{IsUtf8-ascii}
use pgr.Capture.{CaptureMessage, bind, sync}
use pgr.Capture.Format.{encode, encode_all, Fits}
use pgr.Capture.Reader.{CaptureReader, read_event}
use pgr.Capture.Reader
use pgr.Capture.RoundTrip.{read_event-encode}
use pgr.Capture.Truncation.{read_event-cut}
use pgr.Capture.File.{messages, start_message, open_and_read, open_without_start}

abbrev bound : CaptureMessage
bound = record {
  id = 7;
  ts = 1000;
  event = bind [] (b's' ∷ []) (1 ∷ []) (
      record { type_oid = 23; value = some (b'4' ∷ b'2' ∷ []) }
      ∷ record { type_oid = 25; value = none }
      ∷ []);
}

bound-Fits : Fits bound
bound-Fits = record {
  id = omega arith;
  ts = omega arith;
  event = (
    (IsUtf8-ascii [] tt, omega arith),
    (IsUtf8-ascii (b's' ∷ []) (omega arith), omega arith),
    omega arith,
    omega arith,
    omega arith,
    omega arith,
  );
}

read_event-encode_example :
    read_event (record { buf = encode bound ++ 8 ∷ []; lsn = 1; start_ts = 2 })
    ≡ ok (some (bound, record { buf = 8 ∷ []; lsn = 1; start_ts = 2 }))
read_event-encode_example = read_event-encode bound (8 ∷ []) 1 2 bound-Fits

abbrev ready : CaptureMessage
ready = record { id = 7; ts = 1001; event = sync }

ready-Fits : Fits ready
ready-Fits = record { id = omega arith; ts = omega arith; event = tt }

-- The first nine bytes of the thirteen.
abbrev cut_bytes : Bytes
cut_bytes = 8 ∷ 7 ∷ 0 ∷ 0 ∷ 0 ∷ 0xe9 ∷ 3 ∷ 0 ∷ 0 ∷ []

encode-ready : encode ready ≡ cut_bytes ++ 0 ∷ 0 ∷ 0 ∷ 0 ∷ []
unfolding to_le
encode-ready = refl

read_event-cut_example : read_event (record { buf = cut_bytes; lsn = 1; start_ts = 2 }) ≡ ok none
read_event-cut_example =
    read_event-cut ready cut_bytes (0 ∷ 0 ∷ 0 ∷ 0 ∷ []) 1 2 ready-Fits encode-ready (λ e. cc)

start-Fits : Fits (start_message 0 500 4096)
start-Fits = record { id = omega arith; ts = omega arith; event = omega arith }

open_and_read_example :
    let rest = encode_all encode (bound ∷ []) ++ cut_bytes in
    (Reader.new (encode (start_message 0 500 4096) ++ rest)
      ≡ ok (record { buf = rest; lsn = 4096; start_ts = 500 }))
    × (messages (suc (length rest)) (record { buf = rest; lsn = 4096; start_ts = 500 })
        ≡ some (ok (bound ∷ [])))
open_and_read_example =
    open_and_read 0 500 4096 (bound ∷ []) cut_bytes start-Fits (bound-Fits, tt)
      (inr (ready, 0 ∷ 0 ∷ 0 ∷ 0 ∷ [], ready-Fits, encode-ready, λ e. cc))

open_without_start_example : Reader.new (encode ready ++ []) ≡ err invalid_data
open_without_start_example = open_without_start ready [] ready-Fits (λ l e. cc)
