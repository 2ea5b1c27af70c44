-- ===== src/Capture/Reader.antt =====
-- `CaptureReader` of src/capture.rs.
use pgr.Prelude.{ℕ, not, Option, none, some, [], ◌∷◌, Bytes, from_le, u32_max, ◌==◌, if◌then◌else◌}
use pgr.Prelude.Io.{
  unexpected_eof, invalid_data, Result, ok, err, Reader, ◌>>=◌, pure, fail, read_exact, repeat,
}
use pgr.Utf8.{from_utf8_lossy}
use pgr.Capture.{
  BindParam, ClientEvent, lsn, connect, disconnect, simple_query, parse, bind, execute, sync,
  tx_end, close, CaptureMessage, msg_lsn, msg_connect, msg_disconnect, msg_simple_query, msg_parse,
  msg_bind, msg_execute, msg_sync, msg_tx_end, msg_close,
}

-- `buf` holds the bytes that are not yet read.
pub record CaptureReader : Type 0 where
  pub buf : Bytes
  pub lsn : ℕ
  pub start_ts : ℕ

unfoldable pub raw : ℕ → Reader Bytes
raw n = read_exact n

unfoldable pub read_u8 : Reader ℕ
read_u8 = do v ← raw 1; pure (from_le v)

unfoldable pub read_u16 : Reader ℕ
read_u16 = do v ← raw 2; pure (from_le v)

unfoldable pub read_u32 : Reader ℕ
read_u32 = do v ← raw 4; pure (from_le v)

unfoldable pub read_u64 : Reader ℕ
read_u64 = do v ← raw 8; pure (from_le v)

-- `bytes()` and `string()`
unfoldable pub read_bytes : Reader Bytes
read_bytes = do n ← read_u32; raw n

unfoldable pub read_string : Reader Bytes
read_string = do v ← read_bytes; pure (from_utf8_lossy v)

-- One round of the loop over a message's parameters.
unfoldable pub read_param : Reader BindParam
read_param = do
  type_oid ← read_u32
  len ← read_u32
  if len == u32_max
      then pure (record { type_oid = type_oid; value = none })
      else (do v ← raw len; pure (record { type_oid = type_oid; value = some v }))

unfoldable pub read_parse : Reader ClientEvent
read_parse = do
  name ← read_string
  query ← read_string
  n ← read_u16
  param_types ← repeat n read_u32
  pure (parse name query param_types)

unfoldable pub read_bind : Reader ClientEvent
read_bind = do
  portal ← read_string
  statement ← read_string
  nrf ← read_u16
  result_formats ← repeat nrf read_u16
  np ← read_u16
  params ← repeat np read_param
  pure (bind portal statement result_formats params)

-- The match of `read_body` on the tag.
unfoldable pub read_fields : ℕ → Reader ClientEvent
read_fields t =
    if t == msg_lsn
    then (do l ← read_u64; pure (lsn l))
    else if t == msg_connect
    then (do session_id ← read_string; pure (connect session_id))
    else if t == msg_disconnect
    then pure disconnect
    else if t == msg_simple_query
    then (do text ← read_string; pure (simple_query text))
    else if t == msg_parse
    then read_parse
    else if t == msg_bind
    then read_bind
    else if t == msg_execute
    then (do portal ← read_string; max_rows ← read_u64; pure (execute portal max_rows))
    else if t == msg_sync
    then pure sync
    else if t == msg_tx_end
    then (do
      committed ← read_u8
      xid ← read_u32
      l ← read_u64
      pure (tx_end (not (committed == 0)) xid l))
    else if t == msg_close
    then (do kind ← read_u8; name ← read_string; pure (close kind name))
    else fail invalid_data

unfoldable pub read_body : ℕ → Reader CaptureMessage
read_body t = do
  id ← read_u32
  ts ← read_u64
  event ← read_fields t
  pure (record { id = id; ts = ts; event = event })

-- The end of the file, also inside a message, is no message.
abbrev pub finish :
    CaptureReader
    → Result (CaptureMessage × Bytes)
    → Result (Option (CaptureMessage × CaptureReader))
finish r (ok (m, rest)) = ok (some (m, record r { buf = rest }))
finish r (err unexpected_eof) = ok none
finish r (err invalid_data) = err invalid_data

abbrev pub next_message : CaptureReader → Bytes → Result (Option (CaptureMessage × CaptureReader))
next_message r [] = ok none
next_message r (t ∷ rest) = finish r (read_body t rest)

unfoldable pub read_event : CaptureReader → Result (Option (CaptureMessage × CaptureReader))
read_event r = next_message r r.buf

abbrev pub start_with : Result (Option (CaptureMessage × CaptureReader)) → Result CaptureReader
start_with (ok none) = err invalid_data
start_with (err e) = err e
start_with (ok (some (m, r))) = elim m.event [
  | lsn l ↦ ok (record r { lsn = l; start_ts = m.ts })
  | _ ↦ err invalid_data
]

-- A capture starts with the position in the write-ahead log.
unfoldable pub new : Bytes → Result CaptureReader
new file = start_with (read_event (record { buf = file; lsn = 0; start_ts = 0 }))
