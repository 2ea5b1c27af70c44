-- ===== src/Loop/Dispatch/Safe.antt =====
-- What the streams of a connection in src/loop.rs have room for.
pub mod Execute
pub mod Elsewhere
pub mod Loops
pub mod Ready
use pgr.Prelude.{
  ℕ, zero, suc, ◌+◌, ◌-◌, ◌≤◌, ◌<◌, ◌^◌, ◌≡◌, refl, ap, sym, ◌∙◌, ◌⊎◌, inl, inr, Bool, true, false,
  Option, none, some, List, [], ◌∷◌, ◌++◌, arith, Bytes, length, codes, length-append, ◌==◌,
  if◌then◌else◌, Bool-cases,
}
use pgr.Prelude.Decimal.{decimal}
use pgr.Prelude.Panic.{◌>>=◌, Returns, Returns-bind, Returns-map}
use pgr.Utils.Stream
use pgr.Utils.Stream.{Stream}
use pgr.Utils.Stream.Refine.{IsValid, pending, length-pending, new-IsValid, write_refines}
use pgr.Utils.Stats.{ReplayStats}
use pgr.Capture.{ClientId}
use pgr.Proto.{encode_startup, f_terminate, terminate_msg}
use pgr.Client
use pgr.Client.{
  ReplayConfig, queue_startup, ClientState, connecting, normal, dead, World, replay_in,
  mark_terminate, replay_frame, on_replay_end, send_frame,
}
use pgr.Loop.{CmdKind, connect, send, end, ConnCommand, read_buf_size}
use pgr.Loop.Env.{Env}
use pgr.Loop.Slots.{Connection, Slot}
use pgr.Loop.Sockets.{flush_conn}
use pgr.Loop.Sockets.Flush.{Sent, flush_conn-Sent, flush_conn-waiting}

-- The most bytes that a command can add to what is sent.
abbrev pub size : CmdKind → ℕ
size connect = 0
size (send tag bytes) = length bytes
size end = 5

abbrev pub queue_size : List ConnCommand → ℕ
queue_size [] = 0
queue_size (c ∷ cs) = size c.kind + queue_size cs

-- The streams are valid and can take `n` more bytes.
pub record Room (n : ℕ) (out ws : Stream) : Type 0 where
  pub outbox : IsValid out
  pub stream : IsValid ws
  pub outbox_room : out.committed_offset + n < 2 ^ 64
  pub stream_room : ws.committed_offset + length (pending out) + n < 2 ^ 64

-- A client after something that sends at most `n` bytes.
write-Room :
    (n m : ℕ) (outbox stream : Stream) (bs : Bytes)
    → length bs ≤ n
    → Room (n + m) outbox stream
    → Room m (Stream.write outbox bs) stream
write-Room n m outbox stream bs h r =
    let (valid, bytes, total) = write_refines bs r.outbox (omega (arith, h, r.outbox_room)) in
    record {
      outbox = valid;
      stream = r.stream;
      outbox_room = omega (arith, total, h, r.outbox_room);
      stream_room =
          omega (arith, ap length bytes, length-append (pending outbox) bs, h, r.stream_room);
    }

pub Room-le : (n m : ℕ) (out ws : Stream) → m ≤ n → Room n out ws → Room m out ws
Room-le n m out ws h r = record {
  outbox = r.outbox;
  stream = r.stream;
  outbox_room = omega (arith, r.outbox_room);
  stream_room = omega (arith, r.stream_room);
}

less-Room : (n m : ℕ) (outbox stream : Stream) → Room (n + m) outbox stream → Room m outbox stream
less-Room n m outbox stream r = record {
  outbox = r.outbox;
  stream = r.stream;
  outbox_room = omega (arith, r.outbox_room);
  stream_room = omega (arith, r.stream_room);
}

pub replay_frame-Room :
    (m : ℕ) (w : World) (stream : Stream) (tag : ℕ) (bs : Bytes)
    → Room (length bs + m) w.0.outbox stream
    → Room m (replay_frame w tag bs).0.outbox stream
unfolding replay_frame send_frame
replay_frame-Room m w stream tag bs r = by_state w.0.state
  where
    marked :
        (b : Bool) → (if b then record w.0 { sent_terminate = true } else w.0).outbox ≡ w.0.outbox
    marked true = refl
    marked false = refl

    by_state : (s : ClientState) → Room m (replay_in s w tag bs).0.outbox stream
    by_state connecting = less-Room (length bs) m w.0.outbox stream r
    by_state dead = less-Room (length bs) m w.0.outbox stream r
    by_state normal =
        rw (marked (tag == f_terminate))
          (write-Room (length bs) m w.0.outbox stream bs (omega arith) r)

pub on_replay_end-Room :
    (m : ℕ) (w : World) (stream : Stream)
    → Room (5 + m) w.0.outbox stream
    → Room m (on_replay_end w).0.outbox stream
unfolding on_replay_end
on_replay_end-Room m w stream r = by_flag w.0.sent_terminate
  where
    by_flag :
        (b : Bool)
        → Room m (if b then w else replay_frame w f_terminate terminate_msg).0.outbox stream
    by_flag true = less-Room 5 m w.0.outbox stream r
    by_flag false = replay_frame-Room m w stream f_terminate terminate_msg r

module _ (md5_hex : Bytes → Bytes) (env : Env) (id : ClientId) where
  -- After `flush_conn`, whether the connection is made or not.
  pub flush_conn-Room :
      (m : ℕ) (conn : Connection) (stats : ReplayStats) (s : env.State)
      → Room m conn.client.outbox conn.write_stream
      → Returns
          (λ live. Room m live.0.client.outbox live.0.write_stream)
          (flush_conn md5_hex env id (conn, stats, s))
  flush_conn-Room m conn stats s r = elim (Bool-cases conn.connected) [
    | inl made ↦
        Returns-map (Sent md5_hex env id conn s)
          (λ live. Room m live.0.client.outbox live.0.write_stream)
          (flush_conn md5_hex env id (conn, stats, s))
          (flush_conn-Sent md5_hex env id conn stats s made r.stream r.outbox
            (omega (arith, r.stream_room)))
          (λ live f. record {
            outbox = f.outbox;
            stream = f.stream;
            outbox_room = omega (arith, f.total, r.outbox_room);
            stream_room = omega (arith, f.received, ap length f.empty, r.stream_room);
          })
    | inr waiting ↦ rw (flush_conn-waiting md5_hex env id conn stats s waiting) r
  ]

-- The startup message of a client.
abbrev pub startup : ClientId → ReplayConfig → Bytes
startup id config = encode_startup (
    (codes "application_name", config.application_name)
    ∷ (codes "user", config.user)
    ∷ (codes "database", config.dbname)
    ∷ (codes "pgr.client_id", decimal id)
    ∷ [])

-- A new connection with its startup message.
pub connect-Room :
    (m : ℕ) (id : ClientId) (config : ReplayConfig) (stats : ReplayStats)
    → length (startup id config) + m < 2 ^ 64
    → Room m (Client.connect id config stats).0.outbox (Stream.new read_buf_size)
unfolding Client.connect queue_startup send_frame Stream.new pending
connect-Room m id config stats h =
    write-Room (length (startup id config)) m (Stream.new 65536) (Stream.new read_buf_size)
      (startup id config) (omega arith)
      (record {
        outbox = new-IsValid 65536;
        stream = new-IsValid read_buf_size;
        outbox_room = omega (arith, h);
        stream_room = omega (arith, h);
      })
