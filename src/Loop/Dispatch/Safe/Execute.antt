-- ===== src/Loop/Dispatch/Safe/Execute.antt =====
-- `execute` of src/loop.rs on streams that have room.
use pgr.Prelude.{
  ℕ, ◌+◌, ◌<◌, ◌^◌, ◌≡◌, refl, Bool, true, false, Option, none, some, arith, Bytes, length,
  if◌then◌else◌,
}
use pgr.Prelude.Panic.{◌>>=◌, Returns}
use pgr.Capture.{ClientId}
use pgr.Client
use pgr.Client.{ReplayConfig, replay_frame, on_replay_end}
use pgr.Loop.{CmdKind, connect, send, end}
use pgr.Loop.Env.{Env}
use pgr.Loop.Slots.{Connection, Slot, get, set, remove, get-set, get-remove}
use pgr.Loop.Sockets.{Live}
use pgr.Loop.State.{ReplayLoop}
use pgr.Loop.Dispatch.{
  drop_found, drop_slot, dead_slot, remove_if_dead, opened, open_with, open_conn, fill_slot, place,
  connect_client, put_conn, sent, send_on, send_to, end_on, end_to, execute_kind,
}
use pgr.Loop.Dispatch.Safe.{
  size, queue_size, Room, replay_frame-Room, on_replay_end-Room, Room-le, flush_conn-Room, startup,
  connect-Room,
}

module _ (md5_hex : Bytes → Bytes) (env : Env) (id : ClientId) (config : ReplayConfig) where
  abbrev pub ConnRoom : Option Connection → ℕ → Type 0
  ConnRoom none n = Unit
  ConnRoom (some conn) n = Room n conn.client.outbox conn.write_stream

  -- The streams, and those of a new connection, have room for `n` more bytes.
  abbrev pub HasRoom : Option Connection → ℕ → Type 0
  HasRoom c n = ConnRoom c n × (length (startup id config) + n < 2 ^ 64)

  abbrev pub SlotRoom : Option Slot → ℕ → Type 0
  SlotRoom none n = Unit
  SlotRoom (some slot) n = HasRoom slot.conn (queue_size slot.queue + n)

  -- The client's slot, if there is one, has room for its queue and `n` more bytes.
  pub record Safe (n : ℕ) (l : ReplayLoop env) : Type 0 where
    pub same : l.config ≡ config
    pub room : SlotRoom (get id l.slots) n

  set-Safe :
      (n : ℕ) (l l' : ReplayLoop env) (slot : Slot)
      → l'.config ≡ config
      → l'.slots ≡ set id slot l.slots
      → HasRoom slot.conn (queue_size slot.queue + n)
      → Safe n l'
  set-Safe n l l' slot c e h = record { same = c; room = rw (e, get-set id slot l.slots) h }

  drop_slot-Safe :
      (n : ℕ) (l : ReplayLoop env) → l.config ≡ config → Safe n (drop_slot md5_hex env l id)
  unfolding drop_slot
  drop_slot-Safe n l c = by_slot (get id l.slots) refl
    where
      by_slot : (o : Option Slot) → get id l.slots ≡ o → Safe n (drop_found md5_hex env l id o)
      by_slot none e = record { same = c; room = rw e tt }
      by_slot (some slot) e = by_conn slot.conn
        where
          by_conn :
              (o : Option Connection)
              → Safe n (elim o as (λ _. ReplayLoop env) [
                | none ↦ record l { slots = remove id l.slots }
                | some conn ↦ record l {
                  slots = remove id l.slots;
                  env_state = env.deregister l.env_state id;
                }
              ])
          by_conn none = record { same = c; room = rw (get-remove id l.slots) tt }
          by_conn (some conn) = record { same = c; room = rw (get-remove id l.slots) tt }

  remove_if_dead-Safe :
      (n : ℕ) (l : ReplayLoop env) → Safe n l → Safe n (remove_if_dead md5_hex env l id).1
  unfolding remove_if_dead
  remove_if_dead-Safe n l s = by_flag (dead_slot md5_hex env (get id l.slots))
    where
      by_flag : (b : Bool) → Safe n (if b then drop_slot md5_hex env l id else l)
      by_flag true = drop_slot-Safe n l s.same
      by_flag false = s

  connect_client-Safe :
      (n : ℕ) (l : ReplayLoop env) → Safe n l → Safe n (connect_client md5_hex env l id)
  unfolding connect_client open_conn
  connect_client-Safe n l safe = with_socket (env.new_socket l.env_state)
    where
      filled :
          (l' : ReplayLoop env) (conn : Connection) (o : Option Slot)
          → l'.config ≡ config
          → get id l'.slots ≡ o
          → SlotRoom o n
          → ((m : ℕ)
              → length (startup id config) + m < 2 ^ 64
              → Room m conn.client.outbox conn.write_stream)
          → Safe n (fill_slot md5_hex env l' id conn o)
      filled l' conn none c e r h = record { same = c; room = rw e tt }
      filled l' conn (some slot) c e r h =
          set-Safe n l' _ (record slot { conn = some conn; awaiting = true }) c refl
            (h (queue_size slot.queue + n) r.1, r.1)

      connected :
          (x : Bool × env.State)
          → Safe n (
              place md5_hex env id (
                let (conn, stats, s) = opened md5_hex env (Client.connect id l.config l.stats, x) in
                (conn, record l { stats = stats; env_state = s })))
      connected (true, s) =
          filled _ _ (get id l.slots) safe.same refl safe.room
            (λ m h. connect-Room m id l.config l.stats (rw safe.same h))
      connected (false, s) = drop_slot-Safe n _ safe.same

      with_socket :
          (x : Bool × env.State)
          → Safe n (
              place md5_hex env id (
                let (conn, stats, s) = open_with md5_hex env l id x in
                (conn, record l { stats = stats; env_state = s })))
      with_socket (true, s) = connected (env.start_connect s id)
      with_socket (false, s) = drop_slot-Safe n _ safe.same

  less-Safe : (n : ℕ) (l : ReplayLoop env) → Safe n l → Safe 0 l
  less-Safe n l s = record { same = s.same; room = by_slot (get id l.slots) s.room }
    where
      by_conn : (c : Option Connection) (q : ℕ) → HasRoom c (q + n) → HasRoom c (q + 0)
      by_conn none q (r, h) = (tt, omega arith)
      by_conn (some conn) q (r, h) = (
        Room-le (q + n) (q + 0) conn.client.outbox conn.write_stream (omega arith) r,
        omega arith,
      )

      by_slot : (o : Option Slot) → SlotRoom o n → SlotRoom o 0
      by_slot none r = tt
      by_slot (some slot) r = by_conn slot.conn (queue_size slot.queue) r

  -- A flushed connection goes back into a slot with the same queue.
  flushed-Safe :
      (l : ReplayLoop env) (slot : Slot) (conn : Connection) (o : Option (Live md5_hex env))
      → l.config ≡ config
      → length (startup id config) + queue_size slot.queue + 0 < 2 ^ 64
      → Returns
          (λ live. Room (queue_size slot.queue + 0) live.0.client.outbox live.0.write_stream)
          o
      → Returns (Safe 0) (o >>= λ live. some (put_conn md5_hex env l id slot live))
  flushed-Safe l slot conn none c h r = r
  flushed-Safe l slot conn (some (conn', stats, s)) c h r =
      set-Safe 0 l _ (record slot { conn = some conn' }) c refl (r, omega (arith, h))

  send_to-Safe :
      (l : ReplayLoop env) (tag : ℕ) (bytes : Bytes) (o : Option Slot)
      → get id l.slots ≡ o
      → Safe (length bytes) l
      → SlotRoom o (length bytes)
      → Returns (Safe 0) (send_to md5_hex env l id tag bytes o)
  send_to-Safe l tag bytes none e safe r = less-Safe (length bytes) l safe
  send_to-Safe l tag bytes (some slot) e safe (r, h) = by_conn slot.conn r
    where
      by_conn :
          (c : Option Connection)
          → ConnRoom c (queue_size slot.queue + length bytes)
          → Returns (Safe 0) (send_on md5_hex env l id tag bytes slot c)
      by_conn none r = less-Safe (length bytes) l safe
      by_conn (some conn) r =
          flushed-Safe l (sent md5_hex env tag slot) conn _ safe.same (omega (arith, h)) (
            flush_conn-Room md5_hex env id (queue_size slot.queue + 0) _ _ l.env_state (
              replay_frame-Room (queue_size slot.queue + 0) (conn.client, l.stats) conn.write_stream
                tag bytes
                (Room-le (queue_size slot.queue + length bytes)
                  (length bytes + (queue_size slot.queue + 0)) conn.client.outbox conn.write_stream
                  (omega arith) r)))

  end_to-Safe :
      (l : ReplayLoop env) (o : Option Slot)
      → get id l.slots ≡ o
      → Safe 5 l
      → SlotRoom o 5
      → Returns (Safe 0) (end_to md5_hex env l id o)
  end_to-Safe l none e safe r = less-Safe 5 l safe
  end_to-Safe l (some slot) e safe (r, h) = by_conn slot.conn r
    where
      by_conn :
          (c : Option Connection)
          → ConnRoom c (queue_size slot.queue + 5)
          → Returns (Safe 0) (end_on md5_hex env l id slot c)
      by_conn none r = less-Safe 5 l safe
      by_conn (some conn) r = flushed-Safe l slot conn _ safe.same (omega (arith, h)) (
          flush_conn-Room md5_hex env id (queue_size slot.queue + 0) _ _ l.env_state (
            on_replay_end-Room (queue_size slot.queue + 0) (conn.client, l.stats) conn.write_stream
              (Room-le (queue_size slot.queue + 5) (5 + (queue_size slot.queue + 0))
                conn.client.outbox conn.write_stream (omega arith) r)))

  removed-Safe :
      (o : Option (ReplayLoop env))
      → Returns (Safe 0) o
      → Returns (Safe 0) (o >>= λ l. some (remove_if_dead md5_hex env l id).1)
  removed-Safe none s = s
  removed-Safe (some l) s = remove_if_dead-Safe 0 l s

  pub kind-Safe :
      (l : ReplayLoop env) (kind : CmdKind)
      → Safe (size kind) l
      → Returns (Safe 0) (execute_kind md5_hex env l id kind)
  kind-Safe l connect safe = connect_client-Safe 0 l safe
  kind-Safe l (send tag bytes) safe =
      removed-Safe _ (send_to-Safe l tag bytes (get id l.slots) refl safe safe.room)
  kind-Safe l end safe = removed-Safe _ (end_to-Safe l (get id l.slots) refl safe safe.room)
