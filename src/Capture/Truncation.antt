-- ===== src/Capture/Truncation.antt =====
-- A capture file that ends inside a message.
use pgr.Prelude.{
  to_le, ℕ, ◌<◌, ◌≡◌, refl, ◌≢◌, [], ◌∷◌, ◌++◌, arith, Bytes, append-nil, some, none, length,
}
use pgr.Prelude.Io.{IoError, Result, ok, err, unexpected_eof, invalid_data}
use pgr.Prelude.Io.Stable.{IsStable, IsStable-read_exact, stable_rules}
use pgr.Capture.{CaptureMessage}
use pgr.Capture.Format.{tag, encode_fields, encode, Fits}
use pgr.Capture.Reader.{
  CaptureReader, raw, read_u8, read_u16, read_u32, read_u64, read_bytes, read_string, read_param,
  read_parse, read_bind, read_fields, read_body, read_event, finish, next_message,
}
use pgr.Capture.RoundTrip.{read_body-append}

IsStable-raw : (n : ℕ) → IsStable (raw n)
unfolding raw
IsStable-raw n = IsStable-read_exact n

IsStable-u8 : IsStable read_u8
unfolding read_u8
IsStable-u8 = search (stable_rules, IsStable-raw)

IsStable-u16 : IsStable read_u16
unfolding read_u16
IsStable-u16 = search (stable_rules, IsStable-raw)

IsStable-u32 : IsStable read_u32
unfolding read_u32
IsStable-u32 = search (stable_rules, IsStable-raw)

IsStable-u64 : IsStable read_u64
unfolding read_u64
IsStable-u64 = search (stable_rules, IsStable-raw)

IsStable-string : IsStable read_string
unfolding read_string read_bytes
IsStable-string = search (stable_rules, IsStable-raw, IsStable-u32)

IsStable-param : IsStable read_param
unfolding read_param
IsStable-param = search (stable_rules, IsStable-raw, IsStable-u32)

ruleset field_rules = (
  stable_rules, IsStable-u8, IsStable-u16, IsStable-u32, IsStable-u64, IsStable-string,
  IsStable-param,
)

IsStable-parse : IsStable read_parse
unfolding read_parse
IsStable-parse = search field_rules depth 12

IsStable-bind_message : IsStable read_bind
unfolding read_bind
IsStable-bind_message = search field_rules depth 12

IsStable-fields : (t : ℕ) → IsStable (read_fields t)
unfolding read_fields
IsStable-fields t = search (field_rules, IsStable-parse, IsStable-bind_message) depth 20

IsStable-body : (t : ℕ) → IsStable (read_body t)
unfolding read_body
IsStable-body t = search (field_rules, IsStable-fields) depth 8

-- Bad data is the only error.
pub read_event-error : (r : CaptureReader) (e : IoError) → read_event r ≡ err e → e ≡ invalid_data
unfolding read_event
read_event-error r e h = by_bytes r.buf h
  where
    by_result : (x : Result (CaptureMessage × Bytes)) → finish r x ≡ err e → e ≡ invalid_data
    by_result (ok (m, rest)) k = cc
    by_result (err unexpected_eof) k = cc
    by_result (err invalid_data) k = cc

    by_bytes : (s : Bytes) → next_message r s ≡ err e → e ≡ invalid_data
    by_bytes [] k = cc
    by_bytes (t ∷ rest) k = by_result _ k

-- What a message leaves of the bytes that it is read from.
pub read_event-shorter :
    (r : CaptureReader) (m : CaptureMessage) (r' : CaptureReader)
    → read_event r ≡ ok (some (m, r'))
    → length r'.buf < length r.buf
unfolding read_event
read_event-shorter r m r' h = go r.buf h
  where
    go : (s : Bytes) → next_message r s ≡ ok (some (m, r')) → length r'.buf < length s
    go [] h = cc
    go (t ∷ s) h = outcome (read_body t s) refl h
      where
        outcome :
            (x : Result (CaptureMessage × Bytes))
            → read_body t s ≡ x
            → finish r x ≡ ok (some (m, r'))
            → length r'.buf < length (t ∷ s)
        outcome (ok (m', rest)) e h = ground (arith, (IsStable-body t).shrinks s m' rest e)
        outcome (err unexpected_eof) e h = cc
        outcome (err invalid_data) e h = cc

abbrev pub body : CaptureMessage → Bytes
body m = to_le 4 m.id ++ to_le 8 m.ts ++ encode_fields m.event

append-ne : (t q : Bytes) → q ≢ [] → t ++ q ≢ []
append-ne [] q ne = ne
append-ne (x ∷ t) q ne = λ e. cc

read_body-cut :
    (m : CaptureMessage) (p q : Bytes)
    → Fits m
    → body m ≡ p ++ q
    → q ≢ []
    → read_body (tag m.event) p ≡ err unexpected_eof
read_body-cut m p q h e ne = outcome (read_body (tag m.event) p) refl
  where
    full : read_body (tag m.event) (p ++ q) ≡ ok (m, [])
    full = rw (← e, ← append-nil (body m)) (read_body-append m [] h)

    outcome :
        (x : Result (CaptureMessage × Bytes))
        → read_body (tag m.event) p ≡ x
        → x ≡ err unexpected_eof
    outcome (ok (m', t)) k =
        absurd (append-ne t q ne (cc (full, (IsStable-body (tag m.event)).on_ok p q m' t k)))
    outcome (err unexpected_eof) k = refl
    outcome (err invalid_data) k = cc (full, (IsStable-body (tag m.event)).on_err p q k)

-- On a proper prefix of the encoding of a message that fits the format, read_event reports the end
-- of the file and no error.
pub read_event-cut :
    (m : CaptureMessage) (p q : Bytes) (l t : ℕ)
    → Fits m
    → encode m ≡ p ++ q
    → q ≢ []
    → read_event (record { buf = p; lsn = l; start_ts = t }) ≡ ok none
unfolding read_event
read_event-cut m [] q l t h e ne = refl
read_event-cut m (b ∷ p) q l t h e ne =
    let first : tag m.event ≡ b = cc in rw (← first, read_body-cut m p q h (cc) ne)
