-- ===== src/Loop/Dispatch/Order.antt =====
-- One round of `try_dispatch` of src/loop.rs: which command is taken, or why none is.
pub mod Execute
pub mod Runs
pub mod Requests
use pgr.Prelude.{
  ℕ, zero, suc, ◌-◌, ◌≤◌, ◌<◌, ◌≡◌, refl, ap, sym, ◌∙◌, ◌⊎◌, inl, inr, Bool, true, false, Option,
  none, some, List, [], ◌∷◌, ◌++◌, arith, add64, ltb, ltb→lt, ltb-false, max, ◌&&◌, Bytes, length,
  if◌then◌else◌, Bool-cases, Option-cases,
}
use pgr.Prelude.Panic.{◌>>=◌}
use pgr.Capture.{ClientId}
use pgr.Loop.{ConnCommand}
use pgr.Loop.Env.{Env}
use pgr.Loop.Slots.{Slot, blocked, get, set, get-set, push_timer}
use pgr.Loop.State.{ReplayLoop}
use pgr.Loop.Dispatch.{
  Turn, stop, go, turn, turn_slot, turn_head, after_turn, execute, try_dispatch_loop, try_dispatch,
  queue_of, due_at, rebase_shift, rebases, rebased, measured,
}

module _ (md5_hex : Bytes → Bytes) (env : Env) (id : ClientId) (now : ℕ) where
  -- A command is taken from the front of the queue of a slot that is not blocked, in a burst or when
  -- its time with the shift has come. After an answer the shift is at least what the slot was late.
  pub record Taken (l : ReplayLoop env) (cmd : ConnCommand) (l' : ReplayLoop env) : Type 0 where
    pub slot : Slot
    pub found : get id l.slots ≡ some slot
    pub free : blocked slot ≡ false
    pub rest : List ConnCommand
    pub front : slot.queue ≡ cmd ∷ rest
    pub left : get id l'.slots ≡ some (record (rebased md5_hex env slot) { queue = rest })
    pub changed : l'.slots ≡ set id (record (rebased md5_hex env slot) { queue = rest }) l.slots
    pub due : (slot.burst ≡ true) ⊎ (add64 cmd.ts l'.shift ≤ now)
    pub shifted : l'.shift ≡ (rebase_shift md5_hex env slot cmd.ts l).shift
    pub timers : l'.timers ≡ l.timers
    pub config : l'.config ≡ l.config

  -- Why no command is taken: there is no slot, it waits for an answer, its queue is empty, or the
  -- first command is not yet due and has a timer again.
  pub data Stopped : ReplayLoop env → ReplayLoop env → Type 0 where
    no_slot : (l : ReplayLoop env) → get id l.slots ≡ none → Stopped l l
    waiting :
        (l : ReplayLoop env) (slot : Slot)
        → get id l.slots ≡ some slot
        → blocked slot ≡ true
        → Stopped l l
    idle :
        (l : ReplayLoop env) (slot : Slot)
        → get id l.slots ≡ some slot
        → slot.queue ≡ []
        → Stopped l l
    early :
        (l l' : ReplayLoop env) (slot : Slot) (cmd : ConnCommand) (rest : List ConnCommand)
        → get id l.slots ≡ some slot
        → slot.burst ≡ false
        → slot.queue ≡ cmd ∷ rest
        → now < add64 cmd.ts l'.shift
        → l'.shift ≡ (rebase_shift md5_hex env slot cmd.ts l).shift
        → l'.timers ≡ push_timer (cmd.ts, id) l.timers
        → l'.slots ≡ set id (rebased md5_hex env slot) l.slots
        → l'.config ≡ l.config
        → Stopped l l'

  abbrev pub Outcome : ReplayLoop env → Turn md5_hex env → Type 0
  Outcome l (stop l') = Stopped l l'
  Outcome l (go cmd l') = Taken l cmd l'

  rebase_shift-timers :
      (slot : Slot) (ts : ℕ) (l : ReplayLoop env)
      → (rebase_shift md5_hex env slot ts l).timers ≡ l.timers
  rebase_shift-timers slot ts l =
      go_on (rebases md5_hex env slot && ltb l.shift (slot.ready_at - ts))
    where
      go_on :
          (b : Bool)
          → (if b
              then record l {
                shift = slot.ready_at - ts;
                shift_max = max l.shift_max (slot.ready_at - ts);
              }
              else l).timers
            ≡ l.timers
      go_on true = refl
      go_on false = refl

  rebase_shift-config :
      (slot : Slot) (ts : ℕ) (l : ReplayLoop env)
      → (rebase_shift md5_hex env slot ts l).config ≡ l.config
  rebase_shift-config slot ts l =
      go_on (rebases md5_hex env slot && ltb l.shift (slot.ready_at - ts))
    where
      go_on :
          (b : Bool)
          → (if b
              then record l {
                shift = slot.ready_at - ts;
                shift_max = max l.shift_max (slot.ready_at - ts);
              }
              else l).config
            ≡ l.config
      go_on true = refl
      go_on false = refl

  measured-Taken :
      (b : Bool) (lag : ℕ) (l : ReplayLoop env) (cmd : ConnCommand) (l' : ReplayLoop env)
      → Taken l cmd l'
      → Taken l cmd (measured md5_hex env b lag l')
  measured-Taken true lag l cmd l' t = t
  measured-Taken false lag l cmd l' t = record {
    slot = t.slot;
    found = t.found;
    free = t.free;
    rest = t.rest;
    front = t.front;
    left = t.left;
    changed = t.changed;
    due = t.due;
    shifted = t.shifted;
    timers = t.timers;
    config = t.config;
  }

  due_now :
      (slot : Slot) (l : ReplayLoop env) (ts : ℕ)
      → ltb now (due_at md5_hex env slot l ts now) ≡ false
      → (slot.burst ≡ true) ⊎ (add64 ts l.shift ≤ now)
  due_now slot l ts e = elim (Bool-cases slot.burst) [
    | inl b ↦ inl b
    | inr b ↦ inr (ltb-false now (add64 ts l.shift) (rw b at e))
  ]

  not_due :
      (slot : Slot) (l : ReplayLoop env) (ts : ℕ)
      → ltb now (due_at md5_hex env slot l ts now) ≡ true
      → (slot.burst ≡ false) × (now < add64 ts l.shift)
  not_due slot l ts e = elim (Bool-cases slot.burst) [
    | inl b ↦ absurd (omega (arith, ltb→lt now now (rw b at e)))
    | inr b ↦ (b, ltb→lt now (add64 ts l.shift) (rw b at e))
  ]

  head-Outcome :
      (l : ReplayLoop env) (slot : Slot) (q : List ConnCommand)
      → get id l.slots ≡ some slot
      → blocked slot ≡ false
      → slot.queue ≡ q
      → Outcome l (turn_head md5_hex env l id now slot q)
  head-Outcome l slot [] found free e = idle l slot found e
  head-Outcome l slot (head ∷ rest) found free e =
      let l' = rebase_shift md5_hex env slot head.ts l in
      elim (Bool-cases (ltb now (due_at md5_hex env slot l' head.ts now))) [
        | inl later ↦ rw later (
            early l _ slot head rest found (not_due slot l' head.ts later).0 e
              (not_due slot l' head.ts later).1 refl refl refl (rebase_shift-config slot head.ts l))
        | inr ready ↦ rw ready (
            measured-Taken slot.burst _ l head _ (record {
              slot = slot;
              found = found;
              free = free;
              rest = rest;
              front = e;
              left = get-set id _ l.slots;
              changed = refl;
              due = due_now slot l' head.ts ready;
              shifted = refl;
              timers = rebase_shift-timers slot head.ts l;
              config = rebase_shift-config slot head.ts l;
            }))
      ]

  slot-Outcome :
      (l : ReplayLoop env) (o : Option Slot)
      → get id l.slots ≡ o
      → Outcome l (turn_slot md5_hex env l id now o)
  slot-Outcome l none found = no_slot l found
  slot-Outcome l (some slot) found = elim (Bool-cases (blocked slot)) [
    | inl b ↦ rw b (waiting l slot found b)
    | inr f ↦ rw f (head-Outcome l slot slot.queue found f refl)
  ]

  pub turn-Outcome : (l : ReplayLoop env) → Outcome l (turn md5_hex env l id now)
  unfolding turn
  turn-Outcome l = slot-Outcome l (get id l.slots) refl
