-- ===== src/Capture.antt =====
-- src/capture.rs: the messages of a capture file.
pub mod Reader
pub mod Format
pub mod RoundTrip
pub mod Truncation
pub mod File
use pgr.Prelude.{ℕ, Bool, Option, List, Bytes}

-- `ClientId`, a u32.
abbrev pub ClientId : Type 0
ClientId = ℕ

-- The tags of the messages, `MSG_LSN` to `MSG_CLOSE`.
abbrev pub msg_lsn : ℕ
msg_lsn = 1

abbrev pub msg_connect : ℕ
msg_connect = 2

abbrev pub msg_disconnect : ℕ
msg_disconnect = 3

abbrev pub msg_simple_query : ℕ
msg_simple_query = 4

abbrev pub msg_parse : ℕ
msg_parse = 5

abbrev pub msg_bind : ℕ
msg_bind = 6

abbrev pub msg_execute : ℕ
msg_execute = 7

abbrev pub msg_sync : ℕ
msg_sync = 8

abbrev pub msg_tx_end : ℕ
msg_tx_end = 9

abbrev pub msg_close : ℕ
msg_close = 10

pub record BindParam : Type 0 where
  pub type_oid : ℕ
  pub value : Option Bytes

-- A string is its UTF-8 bytes, and `max_rows`, an i64, its 64 bits.
pub data ClientEvent : Type 0 where
  lsn : (lsn : ℕ) → ClientEvent
  connect : (session_id : Bytes) → ClientEvent
  disconnect : ClientEvent
  simple_query : (text : Bytes) → ClientEvent
  parse : (name query : Bytes) (param_types : List ℕ) → ClientEvent
  bind :
      (portal statement : Bytes) (result_formats : List ℕ) (params : List BindParam) → ClientEvent
  execute : (portal : Bytes) (max_rows : ℕ) → ClientEvent
  sync : ClientEvent
  tx_end : (committed : Bool) (xid lsn : ℕ) → ClientEvent
  close : (kind : ℕ) (name : Bytes) → ClientEvent

pub record CaptureMessage : Type 0 where
  pub id : ClientId
  pub ts : ℕ
  pub event : ClientEvent
