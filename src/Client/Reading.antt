-- ===== src/Client/Reading.antt =====
-- How a client takes the server's bytes apart: what it becomes depends on the bytes alone, not on how
-- they arrive in pieces.
mod Scan
pub mod Chunks
pub mod Frames
use pgr.Prelude.{
  ℕ, zero, suc, ◌≡◌, refl, Bool, true, false, Option, none, some, List, [], ◌∷◌, ◌++◌, Bytes, drop,
  slice, if◌then◌else◌,
}
use pgr.Prelude.Panic.{◌>>=◌}
use pgr.Utils.Stream
use pgr.Utils.Stream.{Stream}
use pgr.Proto.{
  try_read_frame, Authentication, auth_ok, cleartext, md5, unsupported, BackendMessage,
  authentication, parse_message, ready_for_query, hash_md5_password, encode_password,
  error_response, parameter_status, backend_key_data, notice_response, other,
}
use pgr.Client.{
  World, ReplayClient, is_dead, handle_message, dispatch, connecting, normal, dead, ClientState,
  connecting_message, normal_message, handle_auth, send_frame, on_read, answer,
}

-- A client, but for the stream of the server's bytes.
abbrev pub with_stream : Stream → World → World
with_stream s (c, stats) = (record c { parse_stream = s }, stats)

module _ (md5_hex : Bytes → Bytes) where
  -- The loop of `on_read` over the bytes that are pending: the client, and the bytes left.
  pub scan : ℕ → World → Bytes → Option (World × Bytes)
  scan zero w p = some (w, p)
  scan (suc fuel) w p = elim (try_read_frame p) [
    | none ↦ some (w, p)
    | some (tag, n) ↦ slice p 5 n >>= λ body.
        let w' = handle_message md5_hex w tag body in
        if is_dead w'.0.state then some (w', drop n p) else scan fuel w' (drop n p)
  ]

  answer-stream :
      (s : Stream) (w : World) (o : Option Bytes) (secret : Bytes → Bytes)
      → answer md5_hex (with_stream s w) o secret ≡ with_stream s (answer md5_hex w o secret)
  unfolding send_frame
  answer-stream s w none secret = refl
  answer-stream s w (some pass) secret = refl

  auth-stream :
      (s : Stream) (w : World) (a : Authentication)
      → handle_auth md5_hex (with_stream s w) a ≡ with_stream s (handle_auth md5_hex w a)
  unfolding handle_auth
  auth-stream s w auth_ok = refl
  auth-stream s w cleartext = answer-stream s w w.0.config.password (λ pass. pass)
  auth-stream s w (md5 salt) = answer-stream s w w.0.config.password _
  auth-stream s w (unsupported code) = refl

  connecting-stream :
      (s : Stream) (w : World) (m : Option BackendMessage)
      → connecting_message md5_hex (with_stream s w) m
        ≡ with_stream s (connecting_message md5_hex w m)
  unfolding connecting_message
  connecting-stream s w (some (authentication a)) = auth-stream s w a
  connecting-stream s w _ = refl

  normal-stream :
      (s : Stream) (w : World) (m : Option BackendMessage)
      → normal_message md5_hex (with_stream s w) m ≡ with_stream s (normal_message md5_hex w m)
  unfolding normal_message
  normal-stream s w (some ready_for_query) = refl
  normal-stream s w _ = refl

  -- Handling a message neither reads nor changes the stream of the server's bytes.
  pub handle_message-stream :
      (s : Stream) (w : World) (tag : ℕ) (body : Bytes)
      → handle_message md5_hex (with_stream s w) tag body
        ≡ with_stream s (handle_message md5_hex w tag body)
  unfolding handle_message
  handle_message-stream s w tag body = on_state w.0.state
    where
      on_state :
          (state : ClientState)
          → dispatch md5_hex state (with_stream s w) tag body
            ≡ with_stream s (dispatch md5_hex state w tag body)
      on_state dead = refl
      on_state connecting = rw (connecting-stream s w (parse_message tag body))
      on_state normal = rw (normal-stream s w (parse_message tag body))
