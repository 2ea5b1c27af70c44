-- ===== src/Manager.antt =====
-- src/manager.rs: captured messages become commands with the frames of the protocol. The channel to
-- the replay loop and the waker come from packages; they are an interface here.
pub mod Encode
pub mod Channel
pub mod Replay
use pgr.Prelude.{
  ℕ, zero, suc, ◌+◌, ◌-◌, ◌%◌, ◌^◌, min, Bool, true, false, Option, none, some, List, [], ◌∷◌, ◌++◌,
  Bytes, length, to_be, codes, ltb, ◌==◌, if◌then◌else◌,
}
use pgr.Prelude.Panic.{◌>>=◌}
use pgr.Capture.{
  BindParam, ClientEvent, lsn, connect, disconnect, simple_query, parse, bind, execute, sync,
  tx_end, close,
}
use pgr.Proto.{f_query, f_parse, f_bind, f_execute, f_sync, f_close, f_terminate, terminate_msg}

-- `begin` reserves the four bytes of the length; its capacity is a hint only.
unfoldable pub begin : ℕ → Bytes
begin tag = tag ∷ 0 ∷ 0 ∷ 0 ∷ 0 ∷ []

-- `v[1..5].copy_from_slice(..)`, which panics on a shorter vector; `begin` has made the five bytes.
unfoldable pub end : Bytes → Option Bytes
end (tag ∷ a ∷ b ∷ c ∷ d ∷ body) = some (tag ∷ to_be 4 ((4 + length body) % 2 ^ 32) ++ body)
end _ = none

unfoldable pub cstr : Bytes → Bytes → Bytes
cstr v s = v ++ (s ++ 0 ∷ [])

unfoldable pub query_frame : Bytes → Option Bytes
unfolding begin cstr
query_frame q = end (cstr (begin f_query) q)

-- `replace('\'', "''")`
unfoldable pub double_quotes : Bytes → Bytes
double_quotes [] = []
double_quotes (b ∷ bs) = if b == 0x27 then 0x27 ∷ 0x27 ∷ double_quotes bs else b ∷ double_quotes bs

unfoldable pub restore_query : Bytes → Bytes
restore_query session_id = codes "SELECT pgr.srestore('" ++ (double_quotes session_id ++ codes "')")

-- The loops over the parameters and the formats.
unfoldable pub push_types : Bytes → List ℕ → Bytes
push_types v [] = v
push_types v (t ∷ types) = push_types (v ++ to_be 4 t) types

unfoldable pub push_value : Bytes → Option Bytes → Bytes
push_value v (some b) = v ++ (to_be 4 (length b % 2 ^ 32) ++ b)
push_value v none = v ++ to_be 4 (2 ^ 32 - 1)

unfoldable pub push_values : Bytes → List BindParam → Bytes
push_values v [] = v
push_values v (p ∷ params) = push_values (push_value v p.value) params

unfoldable pub push_formats : Bytes → List ℕ → Bytes
push_formats v [] = v
push_formats v (f ∷ formats) = push_formats (v ++ to_be 2 f) formats

-- A count as an i16.
unfoldable pub push_count : Bytes → ℕ → Bytes
push_count v n = v ++ to_be 2 (n % 2 ^ 16)

unfoldable pub parse_frame : Bytes → Bytes → List ℕ → Option Bytes
parse_frame name query types =
    end (push_types (push_count (cstr (cstr (begin f_parse) name) query) (length types)) types)

unfoldable pub bind_frame : Bytes → Bytes → List ℕ → List BindParam → Option Bytes
bind_frame portal statement formats params =
    let names = push_count (cstr (cstr (begin f_bind) portal) statement) 0 in
    let values = push_values (push_count names (length params)) params in
    end (push_formats (push_count values (length formats)) formats)

-- `max_rows.clamp(0, i32::MAX as i64) as i32`, of the 64 bits of an i64.
unfoldable pub clamp_rows : ℕ → ℕ
clamp_rows max_rows = if ltb max_rows (2 ^ 63) then min max_rows (2 ^ 31 - 1) else 0

unfoldable pub execute_frame : Bytes → ℕ → Option Bytes
execute_frame portal max_rows = end (cstr (begin f_execute) portal ++ to_be 4 (clamp_rows max_rows))

unfoldable pub close_frame : ℕ → Bytes → Option Bytes
close_frame kind name = end (cstr (begin f_close ++ kind ∷ []) name)

abbrev pub with_tag : ℕ → Option Bytes → Option (Option (ℕ × Bytes))
with_tag tag none = none
with_tag tag (some v) = some (some (tag, v))

-- The match of `emit`: what is to be sent for an event, if anything. A new connection first gets the
-- command to connect, and then only a session that was saved is restored.
unfoldable pub event_frame : ClientEvent → Option (Option (ℕ × Bytes))
event_frame (lsn _) = some none
event_frame (tx_end _ _ _) = some none
event_frame (connect []) = some none
event_frame (connect (b ∷ session_id)) =
    with_tag f_query (query_frame (restore_query (b ∷ session_id)))
event_frame disconnect = some (some (f_terminate, terminate_msg))
event_frame (simple_query text) = with_tag f_query (query_frame text)
event_frame (parse name query types) = with_tag f_parse (parse_frame name query types)
event_frame (bind portal statement formats params) =
    with_tag f_bind (bind_frame portal statement formats params)
event_frame (execute portal max_rows) = with_tag f_execute (execute_frame portal max_rows)
event_frame sync = with_tag f_sync (end (begin f_sync))
event_frame (close kind name) = with_tag f_close (close_frame kind name)
