-- ===== src/Loop/State.antt =====
-- The state of `ReplayLoop` of src/loop.rs, its clock, and how commands get into the queues. The
-- poll and the waker are left out, as is what is only logged at the end.
use pgr.Prelude.{
  ℕ, zero, suc, min, Bool, true, false, Option, none, some, List, [], ◌∷◌, ◌++◌, add64,
  saturating_sub, ltb, ◌==◌, length, if◌then◌else◌,
}
use pgr.Utils.Stats.{ReplayStats}
use pgr.Capture.{ClientId}
use pgr.Client.{ReplayConfig}
use pgr.Loop.{CmdKind, connect, ConnCommand, horizon_us, idle_poll_us}
use pgr.Loop.Env.{Env, Recv, received, empty, closed}
use pgr.Loop.Slots
use pgr.Loop.Slots.{Slot, Slots, Timers, blocked, get, set, keys, push_timer}

-- What the loop computes with the float `catchup`: `gain us` is `(us as f64 * catchup) as u64`, and
-- `wait us` is `(us as f64 / (1.0 + catchup)) as u64`.
pub record Catchup : Type 0 where
  pub gain : ℕ → ℕ
  pub wait : ℕ → ℕ

module _ (env : Env) where
  open env use {State, start_clock, elapsed, try_recv}

  pub record ReplayLoop : Type 0 where
    pub config : ReplayConfig
    pub env_state : State
    pub stats : ReplayStats
    pub started : Bool
    pub lookahead : Option ConnCommand
    pub rx_closed : Bool
    pub ended : Bool
    pub last_ts : ℕ
    pub slots : Slots
    pub timers : Timers
    pub catchup : Catchup
    pub shift : ℕ
    pub last_tick : ℕ
    pub lag_sum : ℕ
    pub lag_max : ℕ
    pub lag_n : ℕ
    pub shift_max : ℕ

  unfoldable pub new : ReplayConfig → Catchup → ReplayStats → State → ReplayLoop
  new config catchup stats s = record {
    config = config;
    env_state = s;
    stats = stats;
    started = false;
    lookahead = none;
    rx_closed = false;
    ended = false;
    last_ts = 0;
    slots = [];
    timers = [];
    catchup = catchup;
    shift = 0;
    last_tick = 0;
    lag_sum = 0;
    lag_max = 0;
    lag_n = 0;
    shift_max = 0;
  }

  abbrev pub with_clock : ReplayLoop → ℕ × State → ℕ × ReplayLoop
  with_clock l (now, s) = (now, record l { env_state = s })

  unfoldable pub now_us : ReplayLoop → ℕ × ReplayLoop
  now_us l = if l.started then with_clock l (elapsed l.env_state) else (0, l)

  unfoldable pub catch_up : ReplayLoop → ℕ → ReplayLoop
  catch_up l now =
      let d = l.catchup.gain (saturating_sub now l.last_tick) in
      if l.shift == 0
      then record l { last_tick = now }
      else if ltb 0 d
      then record l { shift = saturating_sub l.shift d; last_tick = now }
      else l

  abbrev at_most : Option ℕ → ℕ → Option ℕ
  at_most none d = some d
  at_most (some t) d = some (min t d)

  abbrev timer_wait : Catchup → ℕ → ℕ → Timers → Option ℕ
  timer_wait c shift now [] = none
  timer_wait c shift now ((ts, id) ∷ timers) = some (c.wait (saturating_sub (add64 ts shift) now))

  abbrev lookahead_wait : Option ConnCommand → ℕ → Option ℕ → Option ℕ
  lookahead_wait none now t = t
  lookahead_wait (some c) now t = at_most t (saturating_sub (saturating_sub c.ts horizon_us) now)

  -- In microseconds; `none` is to wait without a limit.
  unfoldable pub next_timeout : ReplayLoop → Option ℕ × ReplayLoop
  next_timeout l =
      let (now, l') = now_us l in
      let t = lookahead_wait l.lookahead now (timer_wait l.catchup l.shift now l.timers) in
      (if l.rx_closed then t else at_most t idle_poll_us, l')

  abbrev pub head_timer : Slot → ClientId → List ConnCommand → Timers → Timers
  head_timer slot id [] timers = timers
  head_timer slot id (head ∷ queue) timers =
      push_timer (if slot.burst then 0 else head.ts, id) timers

  abbrev pub schedule_slot : ReplayLoop → ClientId → Option Slot → ReplayLoop
  schedule_slot l id none = l
  schedule_slot l id (some slot) =
      if blocked slot then l else record l { timers = head_timer slot id slot.queue l.timers }

  unfoldable pub schedule : ReplayLoop → ClientId → ReplayLoop
  schedule l id = schedule_slot l id (get id l.slots)

  -- `push_back`, and the test whether the command is the only one.
  unfoldable pub push_command : ReplayLoop → ClientId → Slot → ConnCommand → ReplayLoop
  push_command l id slot cmd =
      let queue = slot.queue ++ cmd ∷ [] in
      let l' = record l { slots = set id (record slot { queue = queue }) l.slots } in
      if length queue == 1 then schedule l' id else l'

  abbrev pub enqueue_new : ReplayLoop → ConnCommand → CmdKind → ReplayLoop
  enqueue_new l cmd connect = push_command l cmd.id Slots.new cmd
  enqueue_new l cmd _ = l

  abbrev pub enqueue_in : ReplayLoop → ConnCommand → Option Slot → ReplayLoop
  enqueue_in l cmd none = enqueue_new l cmd cmd.kind
  enqueue_in l cmd (some slot) = push_command l cmd.id slot cmd

  -- A client without a slot gets one for a command to connect only.
  unfoldable pub enqueue : ReplayLoop → ConnCommand → ReplayLoop
  enqueue l cmd = enqueue_in l cmd (get cmd.id l.slots)

  abbrev pub from_rx : ReplayLoop → Recv × State → Option ConnCommand × ReplayLoop
  from_rx l (received cmd, s) = (some cmd, record l { env_state = s })
  from_rx l (empty, s) = (none, record l { env_state = s })
  from_rx l (closed, s) = (none, record l { env_state = s; rx_closed = true })

  -- The next command: the one that was put back, or one from the channel.
  abbrev pub next_command : ReplayLoop → Option ConnCommand → Option ConnCommand × ReplayLoop
  next_command l (some cmd) = (some cmd, record l { lookahead = none })
  next_command l none = from_rx l (try_recv l.env_state)

  abbrev pub ensure_started : ReplayLoop → ReplayLoop
  ensure_started l =
      if l.started then l else record l { started = true; env_state = start_clock l.env_state }

  -- The end of a round: a command past the horizon is put back.
  abbrev pub pull_command :
      ConnCommand → ℕ × ReplayLoop → (ReplayLoop → Option ReplayLoop) → Option ReplayLoop
  pull_command cmd (now, l) later = elim (ltb (add64 now horizon_us) cmd.ts) [
    | true ↦ some (record l { lookahead = some cmd })
    | false ↦ later (enqueue (record l { last_ts = cmd.ts }) cmd)
  ]

  abbrev pub pull_next :
      Option ConnCommand × ReplayLoop → (ReplayLoop → Option ReplayLoop) → Option ReplayLoop
  pull_next (none, l) later = some l
  pull_next (some cmd, l) later = pull_command cmd (now_us (ensure_started l)) later

  -- A round takes a command or ends the loop.
  unfoldable pub pull_loop : ℕ → ReplayLoop → Option ReplayLoop
  pull_loop zero l = none
  pull_loop (suc fuel) l = pull_next (next_command l l.lookahead) (pull_loop fuel)

  -- There is no result where the rounds do not suffice, which is so where the sender keeps up with the
  -- loop.
  unfoldable pub pull : ℕ → ReplayLoop → Option ReplayLoop
  pull rounds l = pull_loop rounds l

  abbrev end_slot : ReplayLoop → ClientId → ℕ → Option Slot → ReplayLoop
  end_slot l id ts none = l
  end_slot l id ts (some slot) =
      push_command l id slot (record { id = id; ts = ts; kind = CmdKind.end })

  unfoldable pub finish_loop : ReplayLoop → ℕ → List ClientId → ReplayLoop
  finish_loop l ts [] = l
  finish_loop l ts (id ∷ ids) = finish_loop (end_slot l id ts (get id l.slots)) ts ids

  unfoldable pub finish_clients : ReplayLoop → ReplayLoop
  finish_clients l = finish_loop (record l { ended = true }) l.last_ts (keys l.slots)
