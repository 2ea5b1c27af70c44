-- ===== src/Client.antt =====
-- src/client.rs: one replayed connection. The counters are shared by all clients, so each method
-- takes and returns them; a method that panics (`none`) slices out of range. What is only logged,
-- such as the time since the connection, is left out. The digest MD5 comes from a package: `md5_hex`
-- gives its hexadecimal form.
pub mod Reading
pub mod Session
pub mod Login
use pgr.Prelude.{
  ℕ, zero, suc, ◌+◌, Bool, true, false, Option, none, some, List, [], ◌∷◌, ◌++◌, Bytes, length,
  slice, codes, add32, ◌==◌, if◌then◌else◌,
}
use pgr.Prelude.Decimal.{decimal}
use pgr.Prelude.Panic.{◌>>=◌}
use pgr.Utils.Stream
use pgr.Utils.Stream.{Stream}
use pgr.Utils.Stats
use pgr.Utils.Stats.{ReplayStats, log_send, log_recv}
use pgr.Capture.{ClientId}
use pgr.Proto
use pgr.Proto.{
  Authentication, auth_ok, cleartext, md5, unsupported, BackendMessage, authentication,
  ready_for_query, parse_message, try_read_frame, encode_startup, encode_password,
  hash_md5_password, terminate_msg, f_terminate,
}

-- An address: its bytes (4 or 16) and the port.
pub record SocketAddr : Type 0 where
  pub ip : Bytes
  pub port : ℕ

-- The fields that the client reads; `speed` and `catchup` are those of the loop and the manager.
pub record ReplayConfig : Type 0 where
  pub server : SocketAddr
  pub user : Bytes
  pub password : Option Bytes
  pub dbname : Bytes
  pub application_name : Bytes

pub data ClientState : Type 0 where
  connecting normal dead : ClientState

pub record ReplayClient : Type 0 where
  pub id : ClientId
  pub config : ReplayConfig
  pub addr : SocketAddr
  pub parse_stream : Stream
  pub outbox : Stream
  pub state : ClientState
  pub sent_terminate : Bool
  pub rfq : Bool
  pub req_index : ℕ
  pub resp_index : ℕ

-- A client with the counters that it shares.
abbrev pub World : Type 0
World = ReplayClient × ReplayStats

abbrev pub is_dead : ClientState → Bool
is_dead dead = true
is_dead _ = false

unfoldable pub send_frame : World → Bytes → World
send_frame (c, stats) bytes = (
  record c { outbox = Stream.write c.outbox bytes; req_index = add32 c.req_index 1 },
  log_send stats,
)

unfoldable pub queue_startup : World → World
queue_startup (c, stats) =
    send_frame (c, stats)
      (encode_startup (
        (codes "application_name", c.config.application_name)
        ∷ (codes "user", c.config.user)
        ∷ (codes "database", c.config.dbname)
        ∷ (codes "pgr.client_id", decimal c.id)
        ∷ []))

-- The client that `connect` makes; opening the socket is left to the loop's environment.
unfoldable pub connect : ClientId → ReplayConfig → ReplayStats → World
connect id config stats = queue_startup (
  record {
    id = id;
    config = config;
    addr = config.server;
    parse_stream = Stream.new 65536;
    outbox = Stream.new 65536;
    state = connecting;
    sent_terminate = false;
    rfq = false;
    req_index = 0;
    resp_index = 0;
  },
  stats,
)

unfoldable pub read_outbox : ReplayClient → Option Bytes
read_outbox c = Stream.unread c.outbox

unfoldable pub clear_outbox : ReplayClient → Option ReplayClient
clear_outbox c = do outbox ← Stream.mark_read_all c.outbox; some (record c { outbox = outbox })

unfoldable pub on_connected : ReplayClient → SocketAddr → ReplayClient
on_connected c local_addr = record c { addr = local_addr }

unfoldable pub on_eof : ReplayClient → ReplayClient
on_eof c = record c { state = dead }

unfoldable pub on_io_error : ReplayClient → ReplayClient
on_io_error c = record c { state = dead }

abbrev pub mark_terminate : ℕ → ReplayClient → ReplayClient
mark_terminate tag c = if tag == f_terminate then record c { sent_terminate = true } else c

abbrev pub replay_in : ClientState → World → ℕ → Bytes → World
replay_in normal (c, stats) tag bytes = send_frame (mark_terminate tag c, stats) bytes
replay_in _ w tag bytes = w

-- Frames are sent only in the normal state.
unfoldable pub replay_frame : World → ℕ → Bytes → World
replay_frame (c, stats) tag bytes = replay_in c.state (c, stats) tag bytes

unfoldable pub on_replay_end : World → World
on_replay_end (c, stats) =
    if c.sent_terminate then (c, stats) else replay_frame (c, stats) f_terminate terminate_msg

module _ (md5_hex : Bytes → Bytes) where
  abbrev answer : World → Option Bytes → (Bytes → Bytes) → World
  answer (c, stats) none secret = (record c { state = dead }, stats)
  answer w (some pass) secret = send_frame w (encode_password (secret pass))

  unfoldable pub handle_auth : World → Authentication → World
  handle_auth w auth_ok = w
  handle_auth (c, stats) cleartext = answer (c, stats) c.config.password (λ pass. pass)
  handle_auth (c, stats) (md5 salt) =
      answer (c, stats) c.config.password
        (λ pass. hash_md5_password md5_hex c.config.user pass salt)
  handle_auth (c, stats) (unsupported code) = (record c { state = dead }, stats)

  -- A message before the first `ReadyForQuery`; an error is only logged.
  unfoldable pub connecting_message : World → Option BackendMessage → World
  connecting_message w (some (authentication auth)) = handle_auth w auth
  connecting_message (c, stats) (some ready_for_query) =
      (record c { state = normal; rfq = true }, stats)
  connecting_message w _ = w

  unfoldable pub normal_message : World → Option BackendMessage → World
  normal_message (c, stats) (some ready_for_query) = (record c { rfq = true }, log_recv stats)
  normal_message (c, stats) _ = (c, log_recv stats)

  abbrev pub count_response : World → World
  count_response (c, stats) = (record c { resp_index = add32 c.resp_index 1 }, stats)

  abbrev pub dispatch : ClientState → World → ℕ → Bytes → World
  dispatch dead w tag body = w
  dispatch connecting w tag body = count_response (connecting_message w (parse_message tag body))
  dispatch normal w tag body = count_response (normal_message w (parse_message tag body))

  -- The match on the state, with the bytes of the body.
  unfoldable pub handle_message : World → ℕ → Bytes → World
  handle_message (c, stats) tag body = dispatch c.state (c, stats) tag body

  unfoldable pub handle_frame : World → ℕ → ℕ → ℕ → Option World
  handle_frame (c, stats) tag offset len = do
    unread ← Stream.unread c.parse_stream
    body ← slice unread offset len
    some (handle_message (c, stats) tag body)

  -- The end of a round of the loop of `on_read`.
  unfoldable pub consume : World → ℕ → Option World
  consume (c, stats) frame_len = do
    parse_stream ← Stream.mark_read c.parse_stream frame_len
    some (record c { parse_stream = parse_stream }, stats)

  -- The loop of `on_read`. A round reads at least one byte, so `on_read` gives it one round more than
  -- the buffer has bytes.
  unfoldable pub read_loop : ℕ → World → Option World
  read_loop zero w = some w
  read_loop (suc fuel) (c, stats) = Stream.unread c.parse_stream >>= λ unread.
      elim (try_read_frame unread) [
        | none ↦ some (c, stats)
        | some (tag, frame_len) ↦ handle_frame (c, stats) tag 5 frame_len >>= λ w.
            consume w frame_len >>= λ w'. elim (is_dead w'.0.state) [
              | true ↦ some w'
              | false ↦ read_loop fuel w'
            ]
      ]

  unfoldable pub on_read : World → Bytes → Option World
  on_read (c, stats) bytes =
      let stream = Stream.write c.parse_stream bytes in
      read_loop (suc (length stream.buf)) (record c { parse_stream = stream }, stats)
