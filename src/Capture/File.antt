-- ===== src/Capture/File.antt =====
-- A whole capture file through `CaptureReader::new` and repeated `read_event`, as the callers of the
-- reader use it.
use pgr.Prelude.{
  length-append, ◌≤◌, ℕ, zero, suc, ◌<◌, ◌≡◌, refl, ap, ◌≢◌, ◌⊎◌, inl, inr, Option, none, some,
  List, [], ◌∷◌, ◌++◌, arith, Bytes, All, length, append_assoc,
}
use pgr.Prelude.Io.{Result, ok, err, invalid_data}
use pgr.Capture.{CaptureMessage, ClientEvent, lsn}
use pgr.Capture.Format.{encode, encode_all, Fits}
use pgr.Capture.Reader.{CaptureReader, new, read_event, start_with}
use pgr.Capture.RoundTrip.{read_event-encode}
use pgr.Capture.Truncation.{read_event-shorter, read_event-cut}

abbrev prepend :
    CaptureMessage → Option (Result (List CaptureMessage)) → Option (Result (List CaptureMessage))
prepend m none = none
prepend m (some (ok ms)) = some (ok (m ∷ ms))
prepend m (some (err e)) = some (err e)

prepend-ne-none :
    (m : CaptureMessage) (x : Option (Result (List CaptureMessage))) → x ≢ none → prepend m x ≢ none
prepend-ne-none m none h = h
prepend-ne-none m (some (ok ms)) h = λ e. cc
prepend-ne-none m (some (err x)) h = λ e. cc

-- `while let Some(m) = reader.read_event()?`, at most `fuel` rounds: `none` if they do not suffice.
pub messages : ℕ → CaptureReader → Option (Result (List CaptureMessage))
messages zero r = none
messages (suc fuel) r = elim (read_event r) [
  | ok none ↦ some (ok [])
  | ok (some (m, r')) ↦ prepend m (messages fuel r')
  | err e ↦ some (err e)
]

-- The loop that reads events until there is none ends on any bytes, within one round more than
-- there are bytes.
pub messages-ne-none : (fuel : ℕ) (r : CaptureReader) → length r.buf < fuel → messages fuel r ≢ none
unfolding messages
messages-ne-none zero r h = elim h [ ]
messages-ne-none (suc fuel) r h = outcome (messages-ne-none fuel) (read_event r) refl
  where
    outcome :
        ((r' : CaptureReader) → length r'.buf < fuel → messages fuel r' ≢ none)
        → (x : Result (Option (CaptureMessage × CaptureReader))) → read_event r ≡ x
        → messages (suc fuel) r ≢ none
    outcome later (ok none) e = rw (e, messages) (λ p. cc)
    outcome later (ok (some (m, r'))) e =
        rw (e, messages)
          (prepend-ne-none m (messages fuel r')
            (later r' (omega (arith, read_event-shorter r m r' e))))
    outcome later (err x) e = rw (e, messages) (λ p. cc)

-- The bytes behind the last whole message: nothing, or a message that is cut off.
abbrev pub IsCut : Bytes → Type 0
IsCut p = (p ≡ []) ⊎ ((m : CaptureMessage) × (q : Bytes) × Fits m × (encode m ≡ p ++ q) × (q ≢ []))

pub read_event-end :
    (p : Bytes) (l t : ℕ)
    → IsCut p
    → read_event (record { buf = p; lsn = l; start_ts = t }) ≡ ok none
read_event-end p l t (inl e) = rw e (unfold read_event in refl)
read_event-end p l t (inr (m, q, h, e, ne)) = read_event-cut m p q l t h e ne

messages-encode :
    (ms : List CaptureMessage) (cut : Bytes) (l t fuel : ℕ)
    → All Fits ms
    → IsCut cut
    → length ms < fuel
    → messages fuel (record { buf = encode_all encode ms ++ cut; lsn = l; start_ts = t })
      ≡ some (ok ms)
unfolding messages
messages-encode ms cut l t zero h c k = elim k [ ]
messages-encode [] cut l t (suc fuel) h c k = rw (read_event-end cut l t c, messages)
messages-encode (m ∷ ms) cut l t (suc fuel) (h, hs) c k = rw (
  append_assoc (encode m) (encode_all encode ms) cut,
  read_event-encode m (encode_all encode ms ++ cut) l t h,
  messages,
  messages-encode ms cut l t fuel hs c (omega arith),
)

pub length-encode_all : (ms : List CaptureMessage) → length ms ≤ length (encode_all encode ms)
length-encode_all [] = omega arith
length-encode_all (m ∷ ms) =
    omega (arith, length-encode_all ms, length-append (encode m) (encode_all encode ms))

-- The first message of a file, with the log position and the time of the start.
abbrev pub start_message : ℕ → ℕ → ℕ → CaptureMessage
start_message id ts l = record { id = id; ts = ts; event = lsn l }

-- A file that starts with a log position (an Lsn message that fits the format) and goes on with
-- messages that fit the format, and then nothing or a cut-off message, opens with that position
-- and start time, and reading it to its end returns exactly the whole messages in order, within
-- one round for each byte and one more.
pub open_and_read :
    (id ts l : ℕ) (ms : List CaptureMessage) (cut : Bytes)
    → Fits (start_message id ts l)
    → All Fits ms
    → IsCut cut
    → let rest = encode_all encode ms ++ cut in
      (new (encode (start_message id ts l) ++ rest)
        ≡ ok (record { buf = rest; lsn = l; start_ts = ts }))
      × (messages (suc (length rest)) (record { buf = rest; lsn = l; start_ts = ts })
          ≡ some (ok ms))
unfolding new
open_and_read id ts l ms cut h hs c = (
  ap start_with (read_event-encode (start_message id ts l) (encode_all encode ms ++ cut) 0 0 h),
  messages-encode ms cut l ts _ hs c
      (omega (arith, length-encode_all ms, length-append (encode_all encode ms) cut)),
)

-- A file whose first message fits the format and is no Lsn message is refused as invalid data.
pub open_without_start :
    (m : CaptureMessage) (rest : Bytes)
    → Fits m
    → ((l : ℕ) → m.event ≢ lsn l)
    → new (encode m ++ rest) ≡ err invalid_data
unfolding new
open_without_start m rest h ne = rw (read_event-encode m rest 0 0 h) (refuse m.event ne)
  where
    refuse :
        (e : ClientEvent)
        → ((l : ℕ) → e ≢ lsn l)
        → start_with
            (ok (some (record m { event = e }, record { buf = rest; lsn = 0; start_ts = 0 })))
          ≡ err invalid_data
    refuse (lsn l) ne = absurd (ne l refl)
    refuse _ ne = refl
