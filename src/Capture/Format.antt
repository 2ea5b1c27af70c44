-- ===== src/Capture/Format.antt =====
-- The format of a capture file, independent of the code that writes and reads it: the bytes of each
-- message, and the messages that have such bytes.
use pgr.Prelude.{
  ℕ, ◌<◌, ◌^◌, Bool, true, false, Option, none, some, List, [], ◌∷◌, ◌++◌, Bytes, to_le, u32_max,
  length, All,
}
use pgr.Utf8.{IsUtf8}
use pgr.Capture.{
  BindParam, ClientEvent, lsn, connect, disconnect, simple_query, parse, bind, execute, sync,
  tx_end, close, CaptureMessage, msg_lsn, msg_connect, msg_disconnect, msg_simple_query, msg_parse,
  msg_bind, msg_execute, msg_sync, msg_tx_end, msg_close,
}

unfoldable pub sized : Bytes → Bytes
sized s = to_le 4 (length s) ++ s

abbrev pub encode_all {ℓ} : {A : Type ℓ} → (A → Bytes) → List A → Bytes
encode_all encode [] = []
encode_all encode (a ∷ as') = encode a ++ encode_all encode as'

unfoldable pub encode_value : Option Bytes → Bytes
encode_value none = to_le 4 u32_max
encode_value (some v) = sized v

unfoldable pub encode_param : BindParam → Bytes
encode_param p = to_le 4 p.type_oid ++ encode_value p.value

abbrev flag : Bool → ℕ
flag true = 1
flag false = 0

abbrev pub tag : ClientEvent → ℕ
tag (lsn _) = msg_lsn
tag (connect _) = msg_connect
tag disconnect = msg_disconnect
tag (simple_query _) = msg_simple_query
tag (parse _ _ _) = msg_parse
tag (bind _ _ _ _) = msg_bind
tag (execute _ _) = msg_execute
tag sync = msg_sync
tag (tx_end _ _ _) = msg_tx_end
tag (close _ _) = msg_close

abbrev pub encode_fields : ClientEvent → Bytes
encode_fields (lsn l) = to_le 8 l
encode_fields (connect session_id) = sized session_id
encode_fields disconnect = []
encode_fields (simple_query text) = sized text
encode_fields (parse name query types) =
    sized name ++ sized query ++ to_le 2 (length types) ++ encode_all (to_le 4) types
encode_fields (bind portal statement formats params) =
    sized portal
    ++ sized statement
    ++ to_le 2 (length formats)
    ++ encode_all (to_le 2) formats
    ++ to_le 2 (length params)
    ++ encode_all encode_param params
encode_fields (execute portal max_rows) = sized portal ++ to_le 8 max_rows
encode_fields sync = []
encode_fields (tx_end committed xid l) = to_le 1 (flag committed) ++ to_le 4 xid ++ to_le 8 l
encode_fields (close kind name) = to_le 1 kind ++ sized name

abbrev pub encode : CaptureMessage → Bytes
encode m = tag m.event ∷ to_le 4 m.id ++ to_le 8 m.ts ++ encode_fields m.event

-- What a field of the format can hold.
abbrev pub FitsText : Bytes → Type 0
FitsText s = IsUtf8 s × (length s < 2 ^ 32)

abbrev pub FitsValue : Option Bytes → Type 0
FitsValue none = Unit
FitsValue (some v) = length v < u32_max

abbrev pub FitsParam : BindParam → Type 0
FitsParam p = (p.type_oid < 2 ^ 32) × FitsValue p.value

abbrev pub FitsEvent : ClientEvent → Type 0
FitsEvent (lsn l) = l < 2 ^ 64
FitsEvent (connect session_id) = FitsText session_id
FitsEvent disconnect = Unit
FitsEvent (simple_query text) = FitsText text
FitsEvent (parse name query types) =
    FitsText name × FitsText query × (length types < 2 ^ 16) × All (λ t. t < 2 ^ 32) types
FitsEvent (bind portal statement formats params) =
    FitsText portal
    × FitsText statement
    × (length formats < 2 ^ 16)
    × All (λ f. f < 2 ^ 16) formats
    × (length params < 2 ^ 16)
    × All FitsParam params
FitsEvent (execute portal max_rows) = FitsText portal × (max_rows < 2 ^ 64)
FitsEvent sync = Unit
FitsEvent (tx_end committed xid l) = (xid < 2 ^ 32) × (l < 2 ^ 64)
FitsEvent (close kind name) = (kind < 256) × FitsText name

pub record Fits (m : CaptureMessage) : Type 0 where
  pub id : m.id < 2 ^ 32
  pub ts : m.ts < 2 ^ 64
  pub event : FitsEvent m.event
