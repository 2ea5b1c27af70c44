-- ===== src/Loop/Dispatch/Order/Runs.antt =====
-- `try_dispatch` of src/loop.rs as a relation between the loop before and after it.
use pgr.Prelude.{
  ℕ, zero, suc, ◌<◌, ◌≡◌, refl, ap, sym, ◌∙◌, ◌⊎◌, inl, inr, Bool, true, false, Option, none, some,
  List, [], ◌∷◌, ◌++◌, arith, Bytes, length, if◌then◌else◌,
}
use mathlib.Core.Option.{some-injective}
use pgr.Prelude.Panic.{◌>>=◌}
use pgr.Capture.{ClientId}
use pgr.Loop.{ConnCommand}
use pgr.Loop.Env.{Env}
use pgr.Loop.Slots.{Slot, get, get-set}
use pgr.Loop.State.{ReplayLoop}
use pgr.Loop.Dispatch.{
  Turn, stop, go, turn, after_turn, execute, try_dispatch_loop, try_dispatch, queue_of, rebases,
  rebased,
}
use pgr.Loop.Dispatch.Order.{Taken, Stopped, no_slot, waiting, idle, early, Outcome, turn-Outcome}
use pgr.Loop.Dispatch.Order.Execute.{execute-Keeps}

module _ (md5_hex : Bytes → Bytes) (env : Env) (id : ClientId) (now : ℕ) where
  -- The commands are taken and executed one after the other, until none is taken.
  pub data Runs : ReplayLoop env → List ConnCommand → ReplayLoop env → Type 0 where
    stopped : (l l' : ReplayLoop env) → Stopped md5_hex env id now l l' → Runs l [] l'
    ran :
        (l l1 l2 l3 : ReplayLoop env) (cmd : ConnCommand) (cs : List ConnCommand)
        → Taken md5_hex env id now l cmd l1
        → execute md5_hex env l1 id cmd ≡ some l2
        → Runs l2 cs l3
        → Runs l (cmd ∷ cs) l3

  abbrev queue : ReplayLoop env → List ConnCommand
  queue l = queue_of md5_hex env (get id l.slots)

  Taken-queue :
      (l l' : ReplayLoop env) (cmd : ConnCommand)
      → Taken md5_hex env id now l cmd l'
      → queue l ≡ cmd ∷ queue l'
  Taken-queue l l' cmd t = rw (t.found, t.left) t.front

  -- The queue of the loop after a round is shorter.
  execute-shorter :
      (l l1 l2 : ReplayLoop env) (cmd : ConnCommand)
      → Taken md5_hex env id now l cmd l1
      → execute md5_hex env l1 id cmd ≡ some l2
      → length (queue l2) < length (queue l)
  execute-shorter l l1 l2 cmd t e =
      let k = execute-Keeps md5_hex env id l1 l2 cmd e in
      let one : length (queue l) ≡ suc (length (queue l1)) = ap length (Taken-queue l l1 cmd t) in
      elim k.queue [
        | inl q ↦ omega (arith, one, ap length q)
        | inr gone ↦ omega (arith, one, ap (λ o. length (queue_of md5_hex env o)) gone)
      ]

  loop-Runs :
      (fuel : ℕ) (l l3 : ReplayLoop env)
      → length (queue l) < fuel
      → try_dispatch_loop md5_hex env fuel l id now ≡ some l3
      → (cs : List ConnCommand) × Runs l cs l3
  unfolding try_dispatch_loop
  loop-Runs zero l l3 h e = elim h [ ]
  loop-Runs (suc fuel) l l3 h e =
      by_turn (turn md5_hex env l id now) (turn-Outcome md5_hex env id now l)
        (λ l2 k. loop-Runs fuel l2 l3 k) e
    where
      by_turn :
          (t : Turn md5_hex env)
          → Outcome md5_hex env id now l t
          → ((l2 : ReplayLoop env)
              → length (queue l2) < fuel
              → try_dispatch_loop md5_hex env fuel l2 id now ≡ some l3
              → (cs : List ConnCommand) × Runs l2 cs l3)
          → after_turn md5_hex env id t (λ l'. try_dispatch_loop md5_hex env fuel l' id now)
            ≡ some l3
          → (cs : List ConnCommand) × Runs l cs l3
      by_turn (stop l') o later e = ([], stopped l l3 (rw (some-injective l' l3 e) at o))
      by_turn (go cmd l1) o later e = executed cmd l1 (execute md5_hex env l1 id cmd) refl o later e
        where
          executed :
              (cmd : ConnCommand) (l1 : ReplayLoop env) (r : Option (ReplayLoop env))
              → execute md5_hex env l1 id cmd ≡ r
              → Taken md5_hex env id now l cmd l1
              → ((l2 : ReplayLoop env)
                  → length (queue l2) < fuel
                  → try_dispatch_loop md5_hex env fuel l2 id now ≡ some l3
                  → (cs : List ConnCommand) × Runs l2 cs l3)
              → (r >>= λ l'. try_dispatch_loop md5_hex env fuel l' id now) ≡ some l3
              → (cs : List ConnCommand) × Runs l cs l3
          executed cmd l1 none x t later e = absurd (cc e)
          executed cmd l1 (some l2) x t later e =
              let (cs, runs) = later l2 (omega (arith, execute-shorter l l1 l2 cmd t x)) e in
              (cmd ∷ cs, ran l l1 l2 l3 cmd cs t x runs)

  pub try_dispatch-Runs :
      (l l' : ReplayLoop env)
      → try_dispatch md5_hex env l id now ≡ some l'
      → (cs : List ConnCommand) × Runs l cs l'
  unfolding try_dispatch
  try_dispatch-Runs l l' e = loop-Runs (suc (length (queue l))) l l' (omega arith) e

  rebased-queue : (slot : Slot) → (rebased md5_hex env slot).queue ≡ slot.queue
  rebased-queue slot = go_on (rebases md5_hex env slot)
    where
      go_on : (b : Bool) → (if b then record slot { rebase = false } else slot).queue ≡ slot.queue
      go_on true = refl
      go_on false = refl

  Stopped-queue : (l l' : ReplayLoop env) → Stopped md5_hex env id now l l' → queue l' ≡ queue l
  Stopped-queue l l' (no_slot _ found) = refl
  Stopped-queue l l' (waiting _ slot found b) = refl
  Stopped-queue l l' (idle _ slot found e) = refl
  Stopped-queue l l' (early _ _ slot cmd rest found b e due s t left c) =
      rw (left, get-set id (rebased md5_hex env slot) l.slots, found) (rebased-queue slot)

  -- What is left in the queue of the client, or was dropped with its slot.
  pub record Fifo (before cs : List ConnCommand) (l' : ReplayLoop env) : Type 0 where
    pub left : List ConnCommand
    pub order : before ≡ cs ++ left
    pub kept : (queue l' ≡ left) ⊎ (get id l'.slots ≡ none)

  -- Nothing runs for a client without a slot.
  Runs-gone :
      (l l' : ReplayLoop env) (cs : List ConnCommand)
      → get id l.slots ≡ none
      → Runs l cs l'
      → (cs ≡ []) × (get id l'.slots ≡ none)
  Runs-gone l l' cs gone (stopped _ _ (no_slot _ found)) = (refl, gone)
  Runs-gone l l' cs gone (stopped _ _ (waiting _ slot found b)) = absurd (cc (found, gone))
  Runs-gone l l' cs gone (stopped _ _ (idle _ slot found e)) = absurd (cc (found, gone))
  Runs-gone l l' cs gone (stopped _ _ (early _ _ slot cmd rest found b e due s t left c)) =
      absurd (cc (found, gone))
  Runs-gone l l' cs gone (ran _ l1 l2 _ cmd cs' t x runs) = absurd (cc (t.found, gone))

  Runs-Fifo : (l l' : ReplayLoop env) (cs : List ConnCommand) → Runs l cs l' → Fifo (queue l) cs l'
  Runs-Fifo l l' cs (stopped _ _ s) = record {
    left = queue l;
    order = refl;
    kept = inl (Stopped-queue l l' s);
  }
  Runs-Fifo l l' cs (ran _ l1 l2 _ cmd cs' t x runs) =
      let later = Runs-Fifo l2 l' cs' runs in
      let k = execute-Keeps md5_hex env id l1 l2 cmd x in
      elim k.queue [
        | inl same ↦ record {
          left = later.left;
          order = Taken-queue l l1 cmd t ∙ ap (λ q. cmd ∷ q) (sym same ∙ later.order);
          kept = later.kept;
        }
        | inr gone ↦
            let (nothing, still_gone) = Runs-gone l2 l' cs' gone runs in
            record {
              left = queue l1;
              order = Taken-queue l l1 cmd t ∙ ap (λ q. cmd ∷ (q ++ queue l1)) (sym nothing);
              kept = inr still_gone;
            }
      ]

  pub try_dispatch-Order :
      (l l' : ReplayLoop env)
      → try_dispatch md5_hex env l id now ≡ some l'
      → (cs : List ConnCommand) × Runs l cs l' × Fifo (queue l) cs l'
  try_dispatch-Order l l' e =
      let (cs, runs) = try_dispatch-Runs l l' e in (cs, runs, Runs-Fifo l l' cs runs)
