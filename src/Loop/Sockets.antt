-- ===== src/Loop/Sockets.antt =====
-- `read_conn` and `flush_conn` of src/loop.rs. The loop of `read_conn` has as many rounds as it is given,
-- and no result where they do not suffice, which is so where the peer sends without a pause; that of
-- `flush_conn` has one more than there are bytes to be sent and interruptions.
pub mod Received
pub mod Flush
use pgr.Prelude.{
  ℕ, zero, suc, ◌+◌, length, Bool, true, false, Option, none, some, List, [], ◌∷◌, Bytes,
  if◌then◌else◌,
}
use pgr.Prelude.Panic.{◌>>=◌}
use pgr.Utils.Stream
use pgr.Utils.Stats.{ReplayStats}
use pgr.Capture.{ClientId}
use pgr.Client.{is_dead, read_outbox, clear_outbox, on_eof, on_io_error, on_read}
use pgr.Loop.Env.{Env, ReadResult, got, WriteResult, wrote}
use pgr.Loop.Slots.{Connection}

module _ (md5_hex : Bytes → Bytes) (env : Env) where
  open env use {State, read, write, interruptions}

  -- A connection with the counters and the environment.
  abbrev pub Live : Type 0
  Live = Connection × ReplayStats × State

  -- The match on what `read` returned; `later` is the next round.
  abbrev pub on_read_result :
      Connection → ReplayStats → ReadResult × State → (Live → Option Live) → Option Live
  on_read_result conn stats (got [], s) later =
      some (record conn { client = on_eof conn.client }, stats, s)
  on_read_result conn stats (got (b ∷ bs), s) later =
      on_read md5_hex (conn.client, stats) (b ∷ bs) >>= λ w.
      later (record conn { client = w.0 }, w.1, s)
  on_read_result conn stats (ReadResult.would_block, s) later = some (conn, stats, s)
  on_read_result conn stats (ReadResult.interrupted, s) later = later (conn, stats, s)
  on_read_result conn stats (ReadResult.failed, s) later =
      some (record conn { client = on_io_error conn.client }, stats, s)

  unfoldable pub read_conn_loop : ℕ → ClientId → Live → Option Live
  read_conn_loop zero id live = none
  read_conn_loop (suc fuel) id (conn, stats, s) =
      if is_dead conn.client.state
      then some (conn, stats, s)
      else on_read_result conn stats (read s id) (read_conn_loop fuel id)

  unfoldable pub read_conn : ℕ → ClientId → Live → Option Live
  read_conn rounds id live = read_conn_loop rounds id live

  -- The match on what `write` returned.
  abbrev pub on_write_result :
      Connection → ReplayStats → WriteResult × State → (Live → Option Live) → Option Live
  on_write_result conn stats (wrote zero, s) later = some (conn, stats, s)
  on_write_result conn stats (wrote (suc n), s) later =
      Stream.mark_read conn.write_stream (suc n) >>= λ stream.
      later (record conn { write_stream = stream }, stats, s)
  on_write_result conn stats (WriteResult.would_block, s) later = some (conn, stats, s)
  on_write_result conn stats (WriteResult.interrupted, s) later = later (conn, stats, s)
  on_write_result conn stats (WriteResult.failed, s) later =
      some (record conn { client = on_io_error conn.client }, stats, s)

  -- The test of `buf.is_empty()`.
  abbrev pub unless_empty : Live → Bytes → Option Live → Option Live
  unless_empty live [] more = some live
  unless_empty live (b ∷ bs) more = more

  unfoldable pub flush_loop : ℕ → ClientId → Live → Option Live
  flush_loop zero id live = none
  flush_loop (suc fuel) id (conn, stats, s) = Stream.unread conn.write_stream >>= λ buf.
      unless_empty (conn, stats, s) buf
        (on_write_result conn stats (write s id buf) (flush_loop fuel id))

  -- The client's outbox goes to the write stream.
  unfoldable pub move_outbox : Connection → Option Connection
  move_outbox conn = do
    bytes ← read_outbox conn.client
    client ← clear_outbox conn.client
    some (record conn { client = client; write_stream = Stream.write conn.write_stream bytes })

  -- Each round sends a byte, is interrupted, or is the last.
  abbrev pub enough : Connection → State → ℕ
  enough conn s = suc (length conn.write_stream.buf + interruptions s)

  unfoldable pub flush_conn : ClientId → Live → Option Live
  flush_conn id (conn, stats, s) =
      if conn.connected
      then (move_outbox conn >>= λ conn'. flush_loop (enough conn' s) id (conn', stats, s))
      else some (conn, stats, s)
