-- ===== src/Loop/Sockets/Flush.antt =====
-- The bytes that `flush_conn` of src/loop.rs hands to the socket.
use pgr.Prelude.{
  ℕ, zero, suc, ◌+◌, ◌≤◌, ◌<◌, ◌^◌, ◌≡◌, ◌≢◌, refl, ap, sym, ◌∙◌, Bool, true, false, Option, none,
  some, [], ◌∷◌, ◌++◌, arith, Bytes, length, take, drop, take-append-drop, length-drop, ◌-◌,
  append_assoc, append-nil, if◌then◌else◌,
}
use pgr.Prelude.Panic.{◌>>=◌, Returns, Returns-bind, Returns-map}
use pgr.Utils.Stream
use pgr.Utils.Stream.{Stream}
use pgr.Utils.Stream.Refine.{
  IsValid, Leaves, pending, length-pending, unread-eq-pending, write_refines, mark_read_refines,
  mark_read_all_refines,
}
use pgr.Utils.Stats.{ReplayStats}
use pgr.Capture.{ClientId}
use pgr.Client.{ReplayClient, read_outbox, clear_outbox, on_io_error}
use pgr.Loop.Env.{Env, WriteResult, wrote}
use pgr.Loop.Slots.{Connection}
use pgr.Loop.Sockets.{
  Live, on_write_result, unless_empty, flush_loop, move_outbox, enough, flush_conn,
}

pending-buf : (s : Stream) → length (pending s) ≤ length s.buf
unfolding pending
pending-buf s = omega (arith, length-drop (s.read_offset - s.data_offset) s.buf)

module _ (md5_hex : Bytes → Bytes) (env : Env) (id : ClientId) where
  open env use {State, write, written, interruptions}

  -- Of the bytes `out`, the socket has taken a first part, and the write stream holds the rest.
  pub record Flushed (out : Bytes) (outbox : Stream) (total : ℕ) (live : Live md5_hex env)
      : Type 0 where
    pub valid : IsValid live.0.write_stream
    pub order : written live.2 id ++ pending live.0.write_stream ≡ out
    pub same : live.0.client.outbox ≡ outbox
    pub received : live.0.write_stream.committed_offset ≡ total

  -- A socket that has taken nothing, and perhaps a client that has failed.
  refused-Flushed :
      (conn : Connection) (stats : ReplayStats) (s s' : State) (client : ReplayClient)
      → IsValid conn.write_stream
      → written s' id ≡ written s id
      → client.outbox ≡ conn.client.outbox
      → Flushed
          (written s id ++ pending conn.write_stream)
          conn.client.outbox
          conn.write_stream.committed_offset
          (record conn { client = client }, stats, s')
  refused-Flushed conn stats s s' client v e o = record {
    valid = v;
    order = rw e;
    same = o;
    received = refl;
  }

  abbrev Goal : Connection → State → Live md5_hex env → Type 0
  Goal conn s =
      Flushed (written s id ++ pending conn.write_stream) conn.client.outbox
        conn.write_stream.committed_offset

  -- What the socket has taken when `write` reports `n` bytes.
  took :
      (s s' : State) (buf : Bytes) (n : ℕ)
      → write s id buf ≡ (wrote n, s')
      → (n ≤ length buf) × (written s' id ≡ written s id ++ take n buf)
  took s s' buf n e =
      let answer : (write s id buf).0 ≡ wrote n = ap (λ (x : WriteResult × State). x.0) e in
      let state : (write s id buf).1 ≡ s' = ap (λ (x : WriteResult × State). x.1) e in
      (env.write_size s id buf n answer, rw state at (env.write_appends s id buf n answer))

  goes_on :
      (s s' : State) (buf : Bytes) (n : ℕ)
      → write s id buf ≡ (wrote n, s')
      → interruptions s' ≤ interruptions s
  goes_on s s' buf n e =
      let answer : (write s id buf).0 ≡ wrote n = ap (λ (x : WriteResult × State). x.0) e in
      let state : (write s id buf).1 ≡ s' = ap (λ (x : WriteResult × State). x.1) e in
      rw state at (env.write_goes_on s id buf n answer)

  fewer :
      (s s' : State) (buf : Bytes)
      → write s id buf ≡ (WriteResult.interrupted, s')
      → interruptions s' < interruptions s
  fewer s s' buf e =
      let answer : (write s id buf).0 ≡ WriteResult.interrupted =
        ap (λ (x : WriteResult × State). x.0) e in
      let state : (write s id buf).1 ≡ s' = ap (λ (x : WriteResult × State). x.1) e in
      rw state at (env.write_interrupted s id buf answer)

  took_nothing :
      (s s' : State) (buf : Bytes) (r : WriteResult)
      → write s id buf ≡ (r, s')
      → ((n : ℕ) → r ≢ wrote n)
      → written s' id ≡ written s id
  took_nothing s s' buf r e refused =
      let answer : (write s id buf).0 ≡ r = ap (λ (x : WriteResult × State). x.0) e in
      let state : (write s id buf).1 ≡ s' = ap (λ (x : WriteResult × State). x.1) e in
      rw state at (env.write_refused s id buf (λ n p. refused n (sym answer ∙ p)))

  -- What a connection in a state of the environment has left to do.
  abbrev effort : Stream → State → ℕ
  effort stream s = length (pending stream) + interruptions s

  result-Flushed :
      (conn : Connection) (stats : ReplayStats) (s : State) (x : WriteResult × State)
      (later : Live md5_hex env → Option (Live md5_hex env))
      → IsValid conn.write_stream
      → write s id (pending conn.write_stream) ≡ x
      → ((stream : Stream) (s' : State)
          → IsValid stream
          → effort stream s' < effort conn.write_stream s
          → Returns
              (Goal (record conn { write_stream = stream }) s')
              (later (record conn { write_stream = stream }, stats, s')))
      → Returns (Goal conn s) (on_write_result md5_hex env conn stats x later)
  unfolding on_io_error
  result-Flushed conn stats s (wrote zero, s') later v e k =
      refused-Flushed conn stats s s' conn.client v
        ((took s s' (pending conn.write_stream) 0 e).1 ∙ append-nil (written s id)) refl
  result-Flushed conn stats s (wrote (suc n), s') later v e k =
      let p = pending conn.write_stream in
      let (small, all) = took s s' p (suc n) e in
      Returns-bind (Leaves conn.write_stream (drop (suc n) p)) (Goal conn s) _ _
        (mark_read_refines (suc n) v
          (omega (arith, small, length-pending conn.write_stream v, v.committed_in, v.small)))
        (λ stream l.
          Returns-map (Goal (record conn { write_stream = stream }) s') (Goal conn s)
            (later (record conn { write_stream = stream }, stats, s'))
            (k stream s' l.valid (
              omega
                (arith, ap length l.bytes, length-drop (suc n) p, small, goes_on s s' p (suc n) e)))
            (λ live f. record {
              valid = f.valid;
              order =
                  f.order
                  ∙ rw (
                    l.bytes,
                    all,
                    append_assoc (written s id) (take (suc n) p) (drop (suc n) p),
                    take-append-drop (suc n) p,
                  );
              same = f.same;
              received = f.received ∙ l.total;
            }))
  result-Flushed conn stats s (WriteResult.would_block, s') later v e k =
      refused-Flushed conn stats s s' conn.client v
        (took_nothing s s' (pending conn.write_stream) WriteResult.would_block e (λ n p. cc p)) refl
  result-Flushed conn stats s (WriteResult.interrupted, s') later v e k =
      rw (took_nothing s s' (pending conn.write_stream) WriteResult.interrupted e (λ n p. cc p)) at
        (k conn.write_stream s' v (omega (arith, fewer s s' (pending conn.write_stream) e)))
  result-Flushed conn stats s (WriteResult.failed, s') later v e k =
      refused-Flushed conn stats s s' _ v
        (took_nothing s s' (pending conn.write_stream) WriteResult.failed e (λ n p. cc p)) refl

  loop-Flushed :
      (fuel : ℕ) (conn : Connection) (stats : ReplayStats) (s : State)
      → IsValid conn.write_stream
      → effort conn.write_stream s < fuel
      → Returns (Goal conn s) (flush_loop md5_hex env fuel id (conn, stats, s))
  unfolding flush_loop
  loop-Flushed zero conn stats s v f = absurd (omega arith)
  loop-Flushed (suc fuel) conn stats s v f = rw (unread-eq-pending v) (
      by_bytes (pending conn.write_stream) (
        result-Flushed conn stats s (write s id (pending conn.write_stream))
          (flush_loop md5_hex env fuel id) v refl
          (λ stream s' v' less.
            loop-Flushed fuel (record conn { write_stream = stream }) stats s' v'
              (omega (arith, less, f)))))
    where
      by_bytes :
          (buf : Bytes)
          → Returns (Goal conn s) (
              on_write_result md5_hex env conn stats
                (write s id buf)
                (flush_loop md5_hex env fuel id))
          → Returns (Goal conn s) (
              unless_empty md5_hex env
                (conn, stats, s)
                buf
                (on_write_result md5_hex env conn stats
                  (write s id buf)
                  (flush_loop md5_hex env fuel id)))
      by_bytes [] later = refused-Flushed conn stats s s conn.client v refl refl
      by_bytes (b ∷ bs) later = later

  -- The outbox has moved behind what the write stream held.
  record Moved (conn conn' : Connection) : Type 0 where
    valid : IsValid conn'.write_stream
    bytes : pending conn'.write_stream ≡ pending conn.write_stream ++ pending conn.client.outbox
    received :
        conn'.write_stream.committed_offset
        ≡ conn.write_stream.committed_offset + length (pending conn.client.outbox)
    outbox : Leaves conn.client.outbox [] conn'.client.outbox

  move_outbox-Moved :
      (conn : Connection)
      → IsValid conn.write_stream
      → IsValid conn.client.outbox
      → conn.write_stream.committed_offset + length (pending conn.client.outbox) < 2 ^ 64
      → Returns (Moved conn) (move_outbox md5_hex env conn)
  unfolding move_outbox read_outbox clear_outbox
  move_outbox-Moved conn v w h =
      rw (unread-eq-pending w)
        (cleared (Stream.mark_read_all conn.client.outbox) (mark_read_all_refines w))
    where
      cleared :
          (o : Option Stream)
          → Returns (Leaves conn.client.outbox []) o
          → Returns (Moved conn) (
              o >>= (λ outbox. some (record conn.client { outbox = outbox })) >>= (λ client.
                some (record conn {
                  client = client;
                  write_stream = Stream.write conn.write_stream (pending conn.client.outbox);
                })))
      cleared none l = absurd l
      cleared (some outbox) l =
          let (valid, bytes, received) = write_refines (pending conn.client.outbox) v h in
          record { valid = valid; bytes = bytes; received = received; outbox = l }

  -- What `flush_conn` leaves of a connection: the outbox is empty, and what the socket has taken and
  -- the write stream holds is what they were before, and then the outbox.
  pub record Sent (conn : Connection) (s : State) (live : Live md5_hex env) : Type 0 where
    pub stream : IsValid live.0.write_stream
    pub outbox : IsValid live.0.client.outbox
    pub empty : pending live.0.client.outbox ≡ []
    pub order :
        written live.2 id ++ pending live.0.write_stream
        ≡ written s id ++ (pending conn.write_stream ++ pending conn.client.outbox)
    pub received :
        live.0.write_stream.committed_offset
        ≡ conn.write_stream.committed_offset + length (pending conn.client.outbox)
    pub total : live.0.client.outbox.committed_offset ≡ conn.client.outbox.committed_offset

  -- On a connection that is made, with valid streams and fewer than 2^64 bytes, `flush_conn` does not
  -- panic and empties the outbox; whatever the socket takes, refuses or interrupts, what it has taken and
  -- what the write stream still holds are together what they were before, followed by the outbox: no
  -- byte is lost, sent twice or overtaken.
  pub flush_conn-Sent :
      (conn : Connection) (stats : ReplayStats) (s : State)
      → conn.connected ≡ true
      → IsValid conn.write_stream
      → IsValid conn.client.outbox
      → conn.write_stream.committed_offset + length (pending conn.client.outbox) < 2 ^ 64
      → Returns (Sent conn s) (flush_conn md5_hex env id (conn, stats, s))
  unfolding flush_conn
  flush_conn-Sent conn stats s made v w h = by_flag conn.connected made
    where
      by_flag :
          (b : Bool)
          → b ≡ true
          → Returns (Sent conn s) (
              if b
              then (move_outbox md5_hex env conn >>= λ conn'.
                  flush_loop md5_hex env (enough md5_hex env conn' s) id (conn', stats, s))
              else some (conn, stats, s))
      by_flag false e = absurd (cc e)
      by_flag true e =
          Returns-bind (Moved conn) (Sent conn s) (move_outbox md5_hex env conn) _
            (move_outbox-Moved conn v w h)
            (λ conn' m.
              Returns-map (Goal conn' s) (Sent conn s)
                (flush_loop md5_hex env (enough md5_hex env conn' s) id (conn', stats, s))
                (loop-Flushed (enough md5_hex env conn' s) conn' stats s m.valid
                  (omega (arith, pending-buf conn'.write_stream)))
                (λ live f. record {
                  stream = f.valid;
                  outbox = rw f.same m.outbox.valid;
                  empty = rw f.same m.outbox.bytes;
                  order = rw m.bytes at f.order;
                  received = f.received ∙ m.received;
                  total = rw f.same m.outbox.total;
                }))

  -- Before the connection is made, nothing happens.
  pub flush_conn-waiting :
      (conn : Connection) (stats : ReplayStats) (s : State)
      → conn.connected ≡ false
      → flush_conn md5_hex env id (conn, stats, s) ≡ some (conn, stats, s)
  unfolding flush_conn
  flush_conn-waiting conn stats s e =
      ap
        (λ b.
          if b
          then (move_outbox md5_hex env conn >>= λ conn'.
              flush_loop md5_hex env (enough md5_hex env conn' s) id (conn', stats, s))
          else some (conn, stats, s))
        e
