-- ===== src/Loop/Dispatch/Safe/Loops.antt =====
-- `try_dispatch` of src/loop.rs on streams that have room.
use pgr.Prelude.{
  ℕ, zero, suc, ◌+◌, ◌≡◌, refl, ap, subst, ◌∙◌, Bool, true, false, Option, none, some, List, arith,
  Bytes, length, if◌then◌else◌,
}
use pgr.Prelude.Panic.{◌>>=◌, Returns}
use pgr.Capture.{ClientId}
use pgr.Client.{ReplayConfig}
use pgr.Loop.{ConnCommand}
use pgr.Loop.Env.{Env}
use pgr.Loop.Slots.{Slot, get, get-set}
use pgr.Loop.State.{ReplayLoop}
use pgr.Loop.Dispatch.{
  Turn, stop, go, turn, after_turn, execute, try_dispatch_loop, try_dispatch, queue_of, rebased,
  rebases,
}
use pgr.Loop.Dispatch.Order.{Taken, Stopped, no_slot, waiting, idle, early, Outcome, turn-Outcome}
use pgr.Loop.Dispatch.Safe.Elsewhere.{
  Elsewhere, Elsewhere-refl, Elsewhere-trans, Stopped-Elsewhere, executed-Elsewhere,
}
use pgr.Loop.Dispatch.Order.Runs.{Runs, Fifo, try_dispatch-Order}
use pgr.Loop.Dispatch.Safe.Execute.{HasRoom, Safe, kind-Safe}
use pgr.Loop.Dispatch.Safe.{size, queue_size}

module _ (md5_hex : Bytes → Bytes) (env : Env) (id : ClientId) (config : ReplayConfig) where
  rebased-conn : (slot : Slot) → (rebased md5_hex env slot).conn ≡ slot.conn
  rebased-conn slot = by_flag (rebases md5_hex env slot)
    where
      by_flag : (b : Bool) → (if b then record slot { rebase = false } else slot).conn ≡ slot.conn
      by_flag true = refl
      by_flag false = refl

  -- The command that is taken no longer counts for the queue.
  Taken-Safe :
      (now : ℕ) (l l' : ReplayLoop env) (cmd : ConnCommand)
      → Taken md5_hex env id now l cmd l'
      → Safe md5_hex env id config 0 l
      → Safe md5_hex env id config (size cmd.kind) l'
  Taken-Safe now l l' cmd t safe =
      let before : HasRoom md5_hex env id config t.slot.conn (queue_size t.slot.queue + 0) =
        rw t.found at safe.room in
      record {
        same = t.config ∙ safe.same;
        room =
            rw (t.left, rebased-conn t.slot)
              (subst (HasRoom md5_hex env id config t.slot.conn)
                (omega (arith, ap queue_size t.front)) before);
      }

  rebased-HasRoom :
      (slot : Slot)
      → HasRoom md5_hex env id config slot.conn (queue_size slot.queue + 0)
      → HasRoom md5_hex env id config
          (rebased md5_hex env slot).conn
          (queue_size (rebased md5_hex env slot).queue + 0)
  rebased-HasRoom slot r = by_flag (rebases md5_hex env slot)
    where
      by_flag :
          (b : Bool)
          → HasRoom md5_hex env id config
              (if b then record slot { rebase = false } else slot).conn
              (queue_size (if b then record slot { rebase = false } else slot).queue + 0)
      by_flag true = r
      by_flag false = r

  Stopped-Safe :
      (now : ℕ) (l l' : ReplayLoop env)
      → Stopped md5_hex env id now l l'
      → Safe md5_hex env id config 0 l
      → Safe md5_hex env id config 0 l'
  Stopped-Safe now l l' (no_slot _ found) safe = safe
  Stopped-Safe now l l' (waiting _ slot found b) safe = safe
  Stopped-Safe now l l' (idle _ slot found e) safe = safe
  Stopped-Safe now l l' (early _ _ slot cmd rest found b q late s t changed c) safe =
      let before : HasRoom md5_hex env id config slot.conn (queue_size slot.queue + 0) =
        rw found at safe.room in
      record {
        same = c ∙ safe.same;
        room =
            rw (changed, get-set id (rebased md5_hex env slot) l.slots)
              (rebased-HasRoom slot before);
      }

  -- The call returns, the client's streams still have room, and the other slots are untouched.
  abbrev pub Reaches : ReplayLoop env → Option (ReplayLoop env) → Type 0
  Reaches l r =
      (l' : ReplayLoop env) × (r ≡ some l')
      × Safe md5_hex env id config 0 l'
      × Elsewhere md5_hex env id l l'

  loop-Reaches :
      (fuel now : ℕ) (l : ReplayLoop env)
      → Safe md5_hex env id config 0 l
      → Reaches l (try_dispatch_loop md5_hex env fuel l id now)
  unfolding try_dispatch_loop
  loop-Reaches zero now l safe = (l, refl, safe, Elsewhere-refl md5_hex env id l)
  loop-Reaches (suc fuel) now l safe =
      by_turn (turn md5_hex env l id now) (turn-Outcome md5_hex env id now l)
        (λ l2 s2. loop-Reaches fuel now l2 s2)
    where
      Later : Type 0
      Later =
          (l2 : ReplayLoop env)
          → Safe md5_hex env id config 0 l2
          → Reaches l2 (try_dispatch_loop md5_hex env fuel l2 id now)

      executed :
          (r : Option (ReplayLoop env))
          → Returns (Safe md5_hex env id config 0) r
          → ((l2 : ReplayLoop env) → r ≡ some l2 → Elsewhere md5_hex env id l l2)
          → Later
          → Reaches l (r >>= λ l2. try_dispatch_loop md5_hex env fuel l2 id now)
      executed none s others later = absurd s
      executed (some l2) s others later =
          let (l', e, safe', rest) = later l2 s in
          (l', e, safe', Elsewhere-trans md5_hex env id l l2 l' (others l2 refl) rest)

      by_turn :
          (t : Turn md5_hex env)
          → Outcome md5_hex env id now l t
          → Later
          → Reaches l
              (after_turn md5_hex env id t (λ l2. try_dispatch_loop md5_hex env fuel l2 id now))
      by_turn (stop l') o later =
          (l', refl, Stopped-Safe now l l' o safe, Stopped-Elsewhere md5_hex env id now l l' o)
      by_turn (go cmd l1) o later =
          executed (execute md5_hex env l1 id cmd)
            (unfold execute in
              kind-Safe md5_hex env id config l1 cmd.kind (Taken-Safe now l l1 cmd o safe))
            (λ l2 e. executed-Elsewhere md5_hex env id now l l1 l2 cmd o e) later

  pub try_dispatch-Reaches :
      (now : ℕ) (l : ReplayLoop env)
      → Safe md5_hex env id config 0 l
      → Reaches l (try_dispatch md5_hex env l id now)
  unfolding try_dispatch
  try_dispatch-Reaches now l safe =
      loop-Reaches (suc (length (queue_of md5_hex env (get id l.slots)))) now l safe

  -- If the client's streams, and those of a new connection, are valid and have room for the commands of
  -- its queue below 2^64 bytes, `try_dispatch` does not panic. The commands that it executes are the
  -- first ones of the client's queue, in their order; the rest is still queued, or the slot was dropped.
  -- Each is taken from a slot that waits for no answer, in a burst or when its time with the shift has
  -- come, and no further one could be taken.
  pub try_dispatch-Fifo :
      (now : ℕ) (l : ReplayLoop env)
      → Safe md5_hex env id config 0 l
      → (l' : ReplayLoop env) × (try_dispatch md5_hex env l id now ≡ some l')
        × (cs : List ConnCommand) × Runs md5_hex env id now l cs l'
        × Fifo md5_hex env id now (queue_of md5_hex env (get id l.slots)) cs l'
  try_dispatch-Fifo now l safe =
      let (l', e, _, _) = try_dispatch-Reaches now l safe in
      let (cs, runs, fifo) = try_dispatch-Order md5_hex env id now l l' e in (l', e, cs, runs, fifo)
