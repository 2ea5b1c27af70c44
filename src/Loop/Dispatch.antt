-- ===== src/Loop/Dispatch.antt =====
-- The part of `ReplayLoop` of src/loop.rs that sends: `dispatch_ready`, `try_dispatch`, `execute`, and
-- how connections are made and dropped.
pub mod Events
pub mod Order
pub mod Timing
pub mod Safe
use pgr.Prelude.{
  ℕ, zero, suc, ◌-◌, max, Bool, true, false, ◌&&◌, ◌||◌, not, Option, none, some, List, [], ◌∷◌,
  Bytes, add64, saturating_sub, ltb, ◌==◌, length, if◌then◌else◌,
}
use pgr.Prelude.Panic.{◌>>=◌}
use pgr.Utils.Stream
use pgr.Utils.Stats.{ReplayStats}
use pgr.Capture.{ClientId}
use pgr.Client
use pgr.Client.{World, ReplayClient, is_dead, replay_frame, on_replay_end}
use pgr.Proto.{f_query, f_sync}
use pgr.Loop.{CmdKind, connect, send, end, ConnCommand, read_buf_size}
use pgr.Loop.Env.{Env}
use pgr.Loop.Slots.{Connection, Slot, Slots, blocked, get, set, remove, push_timer}
use pgr.Loop.Sockets.{Live, flush_conn}
use pgr.Loop.State.{ReplayLoop, now_us, catch_up}

module _ (md5_hex : Bytes → Bytes) (env : Env) where
  open env use {State, new_socket, start_connect, deregister}

  abbrev pub drop_found : ReplayLoop env → ClientId → Option Slot → ReplayLoop env
  drop_found l id (some slot) = elim slot.conn [
    | none ↦ record l { slots = remove id l.slots }
    | some conn ↦ record l { slots = remove id l.slots; env_state = deregister l.env_state id }
  ]
  drop_found l id none = l

  unfoldable pub drop_slot : ReplayLoop env → ClientId → ReplayLoop env
  drop_slot l id = drop_found l id (get id l.slots)

  abbrev dead_conn : Option Connection → Bool
  dead_conn none = false
  dead_conn (some conn) = is_dead conn.client.state

  abbrev pub dead_slot : Option Slot → Bool
  dead_slot none = false
  dead_slot (some slot) = dead_conn slot.conn

  unfoldable pub remove_if_dead : ReplayLoop env → ClientId → Bool × ReplayLoop env
  remove_if_dead l id =
      let dead = dead_slot (get id l.slots) in (dead, if dead then drop_slot l id else l)

  abbrev pub opened : World × (Bool × State) → Option Connection × ReplayStats × State
  opened ((client, stats), (true, s)) = (
    some (record { client = client; write_stream = Stream.new read_buf_size; connected = false }),
    stats,
    s,
  )
  opened ((client, stats), (false, s)) = (none, stats, s)

  -- `open`: the client is made, and counts its startup frame, when it has a socket. `none` is an error.
  abbrev pub open_with :
      ReplayLoop env → ClientId → Bool × State → Option Connection × ReplayStats × State
  open_with l id (false, s) = (none, l.stats, s)
  open_with l id (true, s) = opened (Client.connect id l.config l.stats, start_connect s id)

  unfoldable pub open_conn : ReplayLoop env → ClientId → Option Connection × ReplayLoop env
  open_conn l id =
      let (conn, stats, s) = open_with l id (new_socket l.env_state) in
      (conn, record l { stats = stats; env_state = s })

  abbrev pub fill_slot : ReplayLoop env → ClientId → Connection → Option Slot → ReplayLoop env
  fill_slot l id conn none = l
  fill_slot l id conn (some slot) = record l {
    slots = set id (record slot { conn = some conn; awaiting = true }) l.slots;
  }

  abbrev pub place : ClientId → Option Connection × ReplayLoop env → ReplayLoop env
  place id (none, l) = drop_slot l id
  place id (some conn, l) = fill_slot l id conn (get id l.slots)

  unfoldable pub connect_client : ReplayLoop env → ClientId → ReplayLoop env
  connect_client l id = place id (open_conn l id)

  -- The connection of a slot, with the counters and the environment, goes back into the loop.
  abbrev pub put_conn : ReplayLoop env → ClientId → Slot → Live md5_hex env → ReplayLoop env
  put_conn l id slot (conn, stats, s) = record l {
    slots = set id (record slot { conn = some conn }) l.slots;
    stats = stats;
    env_state = s;
  }

  -- What `execute` does on the client of the connection before it flushes it.
  abbrev pub on_client : ReplayLoop env → Connection → (World → World) → Live md5_hex env
  on_client l conn f =
      let (client, stats) = f (conn.client, l.stats) in
      (record conn { client = client }, stats, l.env_state)

  abbrev pub is_blocking : ℕ → Bool
  is_blocking tag = (tag == f_query) || (tag == f_sync)

  abbrev pub sent : ℕ → Slot → Slot
  sent tag slot =
      let blocking = is_blocking tag in
      record slot { awaiting = blocking || slot.awaiting; burst = not blocking }

  abbrev pub send_on :
      ReplayLoop env → ClientId → ℕ → Bytes → Slot → Option Connection → Option (ReplayLoop env)
  send_on l id tag bytes slot none = some l
  send_on l id tag bytes slot (some conn) =
      flush_conn md5_hex env id (on_client l conn (λ w. replay_frame w tag bytes)) >>= λ live.
      some (put_conn l id (sent tag slot) live)

  abbrev pub send_to : ReplayLoop env → ClientId → ℕ → Bytes → Option Slot → Option (ReplayLoop env)
  send_to l id tag bytes none = some l
  send_to l id tag bytes (some slot) = send_on l id tag bytes slot slot.conn

  abbrev pub end_on : ReplayLoop env → ClientId → Slot → Option Connection → Option (ReplayLoop env)
  end_on l id slot none = some l
  end_on l id slot (some conn) =
      flush_conn md5_hex env id (on_client l conn on_replay_end) >>= λ live.
      some (put_conn l id slot live)

  abbrev pub end_to : ReplayLoop env → ClientId → Option Slot → Option (ReplayLoop env)
  end_to l id none = some l
  end_to l id (some slot) = end_on l id slot slot.conn

  abbrev pub execute_kind : ReplayLoop env → ClientId → CmdKind → Option (ReplayLoop env)
  execute_kind l id connect = some (connect_client l id)
  execute_kind l id (send tag bytes) =
      send_to l id tag bytes (get id l.slots) >>= λ l'. some (remove_if_dead l' id).1
  execute_kind l id end = end_to l id (get id l.slots) >>= λ l'. some (remove_if_dead l' id).1

  unfoldable pub execute : ReplayLoop env → ClientId → ConnCommand → Option (ReplayLoop env)
  execute l id cmd = execute_kind l id cmd.kind

  -- The first command after an answer moves the clock, so that it is not due before the answer.
  abbrev pub rebases : Slot → Bool
  rebases slot = slot.rebase && not slot.burst

  abbrev pub rebase_shift : Slot → ℕ → ReplayLoop env → ReplayLoop env
  rebase_shift slot ts l =
      let need = saturating_sub slot.ready_at ts in
      if rebases slot && ltb l.shift need
      then record l { shift = need; shift_max = max l.shift_max need }
      else l

  abbrev pub rebased : Slot → Slot
  rebased slot = if rebases slot then record slot { rebase = false } else slot

  -- A command of a burst is sent late on purpose.
  abbrev pub measured : Bool → ℕ → ReplayLoop env → ReplayLoop env
  measured true lag l = l
  measured false lag l = record l {
    lag_sum = add64 l.lag_sum lag;
    lag_n = add64 l.lag_n 1;
    lag_max = max l.lag_max lag;
  }

  -- A round of `try_dispatch`: it returns, or executes the command that it has taken from the queue.
  pub data Turn : Type 0 where
    stop : ReplayLoop env → Turn
    go : ConnCommand → ReplayLoop env → Turn

  -- The time at which a command is due.
  abbrev pub due_at : Slot → ReplayLoop env → ℕ → ℕ → ℕ
  due_at slot l ts now = if slot.burst then now else add64 ts l.shift

  abbrev pub turn_head : ReplayLoop env → ClientId → ℕ → Slot → List ConnCommand → Turn
  turn_head l id now slot [] = stop l
  turn_head l id now slot (head ∷ rest) =
      let l' = rebase_shift slot head.ts l in
      let at = due_at slot l' head.ts now in
      if ltb now at
      then stop (record l' {
        slots = set id (rebased slot) l.slots;
        timers = push_timer (head.ts, id) l.timers;
      })
      else go head (
          measured slot.burst (now - at)
            (record l' { slots = set id (record (rebased slot) { queue = rest }) l.slots }))

  abbrev pub turn_slot : ReplayLoop env → ClientId → ℕ → Option Slot → Turn
  turn_slot l id now none = stop l
  turn_slot l id now (some slot) =
      if blocked slot then stop l else turn_head l id now slot slot.queue

  unfoldable pub turn : ReplayLoop env → ClientId → ℕ → Turn
  turn l id now = turn_slot l id now (get id l.slots)

  abbrev pub after_turn :
      ClientId → Turn → (ReplayLoop env → Option (ReplayLoop env)) → Option (ReplayLoop env)
  after_turn id (stop l) later = some l
  after_turn id (go cmd l) later = execute l id cmd >>= later

  unfoldable pub try_dispatch_loop : ℕ → ReplayLoop env → ClientId → ℕ → Option (ReplayLoop env)
  try_dispatch_loop zero l id now = some l
  try_dispatch_loop (suc fuel) l id now =
      after_turn id (turn l id now) (λ l'. try_dispatch_loop fuel l' id now)

  abbrev pub queue_of : Option Slot → List ConnCommand
  queue_of none = []
  queue_of (some slot) = slot.queue

  -- A round for each command of the queue, and the last.
  unfoldable pub try_dispatch : ReplayLoop env → ClientId → ℕ → Option (ReplayLoop env)
  try_dispatch l id now = try_dispatch_loop (suc (length (queue_of (get id l.slots)))) l id now

  abbrev pub dispatch_head :
      ReplayLoop env
      → ℕ
      → List (ℕ × ClientId)
      → (ReplayLoop env → Option (ReplayLoop env))
      → Option (ReplayLoop env)
  dispatch_head l now [] later = some l
  dispatch_head l now ((ts, id) ∷ timers) later =
      if ltb now (add64 ts l.shift)
      then some l
      else (try_dispatch (record l { timers = timers }) id now >>= later)

  unfoldable pub dispatch_loop : ℕ → ReplayLoop env → ℕ → Option (ReplayLoop env)
  dispatch_loop zero l now = some l
  dispatch_loop (suc fuel) l now = dispatch_head l now l.timers (λ l'. dispatch_loop fuel l' now)

  -- A round for each timer, and the last.
  unfoldable pub dispatch_ready : ReplayLoop env → Option (ReplayLoop env)
  dispatch_ready l =
      let (now, l') = now_us env l in
      let l'' = catch_up env l' now in dispatch_loop (suc (length l''.timers)) l'' now
