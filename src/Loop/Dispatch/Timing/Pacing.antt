-- ===== src/Loop/Dispatch/Timing/Pacing.antt =====
-- `try_dispatch` of src/loop.rs and the clock.
use pgr.Prelude.{
  ℕ, ◌-◌, ◌≤◌, ◌<◌, ◌^◌, ◌≡◌, refl, ◌⊎◌, inl, inr, Bool, true, false, ◌&&◌, some, List, arith,
  add64, ltb, ltb→lt, max, Bytes, if◌then◌else◌,
}
use pgr.Capture.{ClientId}
use pgr.Loop.{ConnCommand}
use pgr.Loop.Env.{Env}
use pgr.Loop.Slots.{Slot, push_timer}
use pgr.Loop.State.{ReplayLoop}
use pgr.Loop.Dispatch.{rebases, rebased, rebase_shift, try_dispatch}
use pgr.Loop.Dispatch.Order.{Stopped, no_slot, waiting, idle, early}
use pgr.Loop.Dispatch.Order.Execute.{execute-Keeps}
use pgr.Loop.Dispatch.Order.Runs.{Runs, stopped, ran, try_dispatch-Runs}
use pgr.Loop.Dispatch.Timing.Bounds.{
  Bounded, AllBounded, set-AllBounded, get-Bounded, execute-Bounded,
}

module _ (md5_hex : Bytes → Bytes) (env : Env) (id : ClientId) (now : ℕ) where
  pub record Paced (l l' : ReplayLoop env) : Type 0 where
    pub slots : AllBounded l'.slots
    pub grows : l.shift ≤ l'.shift
    pub shift : l'.shift < 2 ^ 63
    pub timers :
        (l'.timers ≡ l.timers)
        ⊎ ((ts : ℕ) × (l'.timers ≡ push_timer (ts, id) l.timers)
            × (now < add64 ts l'.shift)
            × (ts < 2 ^ 63))

  rebase_shift-grows :
      (slot : Slot) (ts : ℕ) (l : ReplayLoop env)
      → slot.ready_at < 2 ^ 63
      → l.shift < 2 ^ 63
      → let l' = rebase_shift md5_hex env slot ts l in (l.shift ≤ l'.shift) × (l'.shift < 2 ^ 63)
  rebase_shift-grows slot ts l b h =
      by_test (rebases md5_hex env slot) (ltb l.shift (slot.ready_at - ts)) refl
    where
      by_test :
          (r t : Bool)
          → ltb l.shift (slot.ready_at - ts) ≡ t
          → let l' =
              if r && t
              then record l {
                shift = slot.ready_at - ts;
                shift_max = max l.shift_max (slot.ready_at - ts);
              }
              else l in
            (l.shift ≤ l'.shift) × (l'.shift < 2 ^ 63)
      by_test true true e = (omega (arith, ltb→lt l.shift (slot.ready_at - ts) e), omega arith)
      by_test true false e = (omega arith, h)
      by_test false true e = (omega arith, h)
      by_test false false e = (omega arith, h)

  rebased-Bounded : (slot : Slot) → Bounded slot → Bounded (rebased md5_hex env slot)
  rebased-Bounded slot b = go_on (rebases md5_hex env slot)
    where
      go_on : (r : Bool) → Bounded (if r then record slot { rebase = false } else slot)
      go_on true = b
      go_on false = b

  rebased-ready_at : (slot : Slot) → (rebased md5_hex env slot).ready_at ≡ slot.ready_at
  rebased-ready_at slot = go_on (rebases md5_hex env slot)
    where
      go_on :
          (r : Bool) → (if r then record slot { rebase = false } else slot).ready_at ≡ slot.ready_at
      go_on true = refl
      go_on false = refl

  Stopped-Paced :
      (l l' : ReplayLoop env)
      → AllBounded l.slots
      → l.shift < 2 ^ 63
      → Stopped md5_hex env id now l l'
      → Paced l l'
  Stopped-Paced l l' b h (no_slot _ found) = record {
    slots = b;
    grows = omega arith;
    shift = h;
    timers = inl refl;
  }
  Stopped-Paced l l' b h (waiting _ slot found w) = record {
    slots = b;
    grows = omega arith;
    shift = h;
    timers = inl refl;
  }
  Stopped-Paced l l' b h (idle _ slot found e) = record {
    slots = b;
    grows = omega arith;
    shift = h;
    timers = inl refl;
  }
  Stopped-Paced l l' b h (early _ _ slot cmd rest found burst front late s t changed c) =
      let ok = get-Bounded id slot l.slots b found in
      let (grows, small) = rebase_shift-grows slot cmd.ts l ok.0 h in
      record {
        slots = rw changed (set-AllBounded id _ l.slots (rebased-Bounded slot ok) b);
        grows = rw s grows;
        shift = rw s small;
        timers = inr (cmd.ts, t, late, (rw front at ok.1).0);
      }

  Runs-Paced :
      (l l' : ReplayLoop env) (cs : List ConnCommand)
      → AllBounded l.slots
      → l.shift < 2 ^ 63
      → Runs md5_hex env id now l cs l'
      → Paced l l'
  Runs-Paced l l' cs b h (stopped _ _ s) = Stopped-Paced l l' b h s
  Runs-Paced l l' cs b h (ran _ l1 l2 _ cmd cs' t x runs) =
      let ok = get-Bounded id t.slot l.slots b t.found in
      let (grows, small) = rebase_shift-grows t.slot cmd.ts l ok.0 h in
      let k = execute-Keeps md5_hex env id l1 l2 cmd x in
      let first : AllBounded l1.slots = rw t.changed (
        set-AllBounded id _ l.slots (rw (rebased-ready_at t.slot) ok.0, (rw t.front at ok.1).1)
          b) in
      let p =
        Runs-Paced l2 l' cs' (execute-Bounded md5_hex env id l1 l2 cmd first x)
          (rw (k.shift, t.shifted) small) runs in
      record {
        slots = p.slots;
        grows = omega (arith, grows, p.grows, k.shift, t.shifted);
        shift = p.shift;
        timers = rw (k.timers, t.timers) at p.timers;
      }

  pub try_dispatch-Paced :
      (l l' : ReplayLoop env)
      → AllBounded l.slots
      → l.shift < 2 ^ 63
      → try_dispatch md5_hex env l id now ≡ some l'
      → Paced l l'
  try_dispatch-Paced l l' b h e =
      let (cs, runs) = try_dispatch-Runs md5_hex env id now l l' e in Runs-Paced l l' cs b h runs
