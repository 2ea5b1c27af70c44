-- ===== src/Capture/RoundTrip.antt =====
-- The reader reads back every message of the format.
use pgr.Prelude.{
  lt→==-false, ℕ, ◌<◌, ◌^◌, ◌≡◌, refl, true, false, Option, none, some, List, [], ◌∷◌, ◌++◌, arith,
  Bytes, to_le, u32_max, length, All, from_le-to_le, length-to_le, append_assoc,
}
use pgr.Prelude.Io.{ok, Reader, ◌>>=◌, repeat, read_exact-append}
use pgr.Utf8.{from_utf8_lossy-eq}
use pgr.Capture.{
  BindParam, ClientEvent, lsn, connect, disconnect, simple_query, parse, bind, execute, sync,
  tx_end, close, CaptureMessage,
}
use pgr.Capture.Format.{
  sized, encode_all, encode_value, encode_param, tag, encode_fields, encode, FitsText, FitsParam,
  FitsEvent, Fits,
}
use pgr.Capture.Reader.{
  raw, read_u8, read_u16, read_u32, read_u64, read_bytes, read_string, read_param, read_parse,
  read_bind, read_fields, read_body, read_event,
}

raw-append : (n : ℕ) (v rest : Bytes) → length v ≡ n → raw n (v ++ rest) ≡ ok (v, rest)
unfolding raw
raw-append n v rest h = read_exact-append n v rest h

raw-to_le : (k n : ℕ) (rest : Bytes) → raw k (to_le k n ++ rest) ≡ ok (to_le k n, rest)
raw-to_le k n rest = raw-append k (to_le k n) rest (length-to_le k n)

read_u8-append : (n : ℕ) (rest : Bytes) → n < 256 → read_u8 (to_le 1 n ++ rest) ≡ ok (n, rest)
unfolding read_u8
read_u8-append n rest h = rw (raw-to_le 1 n rest, ◌>>=◌, from_le-to_le 1 n h)

read_u16-append : (n : ℕ) (rest : Bytes) → n < 2 ^ 16 → read_u16 (to_le 2 n ++ rest) ≡ ok (n, rest)
unfolding read_u16
read_u16-append n rest h = rw (raw-to_le 2 n rest, ◌>>=◌, from_le-to_le 2 n h)

read_u32-append : (n : ℕ) (rest : Bytes) → n < 2 ^ 32 → read_u32 (to_le 4 n ++ rest) ≡ ok (n, rest)
unfolding read_u32
read_u32-append n rest h = rw (raw-to_le 4 n rest, ◌>>=◌, from_le-to_le 4 n h)

read_u64-append : (n : ℕ) (rest : Bytes) → n < 2 ^ 64 → read_u64 (to_le 8 n ++ rest) ≡ ok (n, rest)
unfolding read_u64
read_u64-append n rest h = rw (raw-to_le 8 n rest, ◌>>=◌, from_le-to_le 8 n h)

read_string-append : (s rest : Bytes) → FitsText s → read_string (sized s ++ rest) ≡ ok (s, rest)
unfolding read_string read_bytes sized
read_string-append s rest (v, h) = rw (
  append_assoc (to_le 4 (length s)) s rest,
  read_u32-append (length s) (s ++ rest) h,
  raw-append (length s) s rest refl,
  from_utf8_lossy-eq s v,
  ◌>>=◌,
)

u32_max-fits : u32_max < 2 ^ 32
u32_max-fits = omega arith

abbrev param : ℕ → Option Bytes → BindParam
param oid value = record { type_oid = oid; value = value }

param-append :
    (oid : ℕ) (value : Option Bytes) (rest : Bytes)
    → FitsParam (param oid value)
    → read_param (encode_param (param oid value) ++ rest) ≡ ok (param oid value, rest)
unfolding read_param encode_param encode_value sized
param-append oid none rest (h, k) = rw (
  append_assoc (to_le 4 oid) (to_le 4 u32_max) rest,
  read_u32-append oid (to_le 4 u32_max ++ rest) h,
  ◌>>=◌,
  read_u32-append u32_max rest u32_max-fits,
  ◌>>=◌,
)
param-append oid (some v) rest (h, k) = rw (
  append_assoc (to_le 4 oid) (sized v) rest,
  read_u32-append oid (sized v ++ rest) h,
  ◌>>=◌,
  append_assoc (to_le 4 (length v)) v rest,
  read_u32-append (length v) (v ++ rest) (omega arith),
  ◌>>=◌,
  lt→==-false (length v) u32_max k,
  raw-append (length v) v rest refl,
  ◌>>=◌,
)

repeat-append :
    {A : Type 0} (P : A → Type 0) (encode_one : A → Bytes) (m : Reader A)
    → ((a : A) (rest : Bytes) → P a → m (encode_one a ++ rest) ≡ ok (a, rest))
    → (as' : List A) (rest : Bytes) → All P as'
    → repeat (length as') m (encode_all encode_one as' ++ rest) ≡ ok (as', rest)
unfolding repeat
repeat-append P encode_one m reads [] rest h = refl
repeat-append P encode_one m reads (a ∷ as') rest (h, hs) = rw (
  append_assoc (encode_one a) (encode_all encode_one as') rest,
  reads a (encode_all encode_one as' ++ rest) h,
  repeat-append P encode_one m reads as' rest hs,
  ◌>>=◌,
)

zero_fits : 0 < 256
zero_fits = omega arith

one_fits : 1 < 256
one_fits = omega arith

read_parse-append :
    (name query : Bytes) (types : List ℕ) (rest : Bytes)
    → FitsEvent (parse name query types)
    → read_parse (encode_fields (parse name query types) ++ rest)
      ≡ ok (parse name query types, rest)
unfolding read_parse
read_parse-append name query types rest (hn, hq, hl, ht) = simp (
  append_assoc,
  read_string-append name _ hn,
  read_string-append query _ hq,
  read_u16-append (length types) _ hl,
  repeat-append (λ t. t < 2 ^ 32) (to_le 4) read_u32 read_u32-append types rest ht,
  ◌>>=◌,
)

read_bind-append :
    (portal statement : Bytes) (formats : List ℕ) (params : List BindParam) (rest : Bytes)
    → FitsEvent (bind portal statement formats params)
    → read_bind (encode_fields (bind portal statement formats params) ++ rest)
      ≡ ok (bind portal statement formats params, rest)
unfolding read_bind
read_bind-append portal statement formats params rest (hp, hs, hl, hf, hn, hv) = simp (
  append_assoc,
  read_string-append portal _ hp,
  read_string-append statement _ hs,
  read_u16-append (length formats) _ hl,
  repeat-append (λ f. f < 2 ^ 16) (to_le 2) read_u16 read_u16-append formats _ hf,
  read_u16-append (length params) _ hn,
  repeat-append FitsParam encode_param read_param (λ p. param-append p.type_oid p.value) params rest
      hv,
  ◌>>=◌,
)

read_fields-append :
    (e : ClientEvent) (rest : Bytes)
    → FitsEvent e
    → read_fields (tag e) (encode_fields e ++ rest) ≡ ok (e, rest)
unfolding read_fields
read_fields-append (lsn l) rest h = rw (read_u64-append l rest h, ◌>>=◌)
read_fields-append (connect s) rest h = rw (read_string-append s rest h, ◌>>=◌)
read_fields-append disconnect rest h = refl
read_fields-append (simple_query s) rest h = rw (read_string-append s rest h, ◌>>=◌)
read_fields-append (parse name query types) rest h = read_parse-append name query types rest h
read_fields-append (bind portal statement formats params) rest h =
    read_bind-append portal statement formats params rest h
read_fields-append (execute portal max_rows) rest (h, k) =
    simp (append_assoc, read_string-append portal _ h, read_u64-append max_rows rest k, ◌>>=◌)
read_fields-append sync rest h = refl
read_fields-append (tx_end true xid l) rest (h, k) = simp (
  append_assoc,
  read_u8-append 1 _ one_fits,
  read_u32-append xid _ h,
  read_u64-append l rest k,
  ◌>>=◌,
)
read_fields-append (tx_end false xid l) rest (h, k) = simp (
  append_assoc,
  read_u8-append 0 _ zero_fits,
  read_u32-append xid _ h,
  read_u64-append l rest k,
  ◌>>=◌,
)
read_fields-append (close kind name) rest (h, k) =
    simp (append_assoc, read_u8-append kind _ h, read_string-append name rest k, ◌>>=◌)

pub read_body-append :
    (m : CaptureMessage) (rest : Bytes)
    → Fits m
    → read_body (tag m.event) ((to_le 4 m.id ++ to_le 8 m.ts ++ encode_fields m.event) ++ rest)
      ≡ ok (m, rest)
unfolding read_body
read_body-append m rest h = simp (
  append_assoc,
  read_u32-append m.id _ h.id,
  read_u64-append m.ts _ h.ts,
  read_fields-append m.event rest h.event,
  ◌>>=◌,
)

-- From a file that goes on with the encoding of a message that fits the format, read_event returns
-- that message and leaves the bytes behind it.
pub read_event-encode :
    (m : CaptureMessage) (rest : Bytes) (l t : ℕ)
    → Fits m
    → read_event (record { buf = encode m ++ rest; lsn = l; start_ts = t })
      ≡ ok (some (m, record { buf = rest; lsn = l; start_ts = t }))
unfolding read_event
read_event-encode m rest l t h = rw (read_body-append m rest h)
