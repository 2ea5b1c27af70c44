-- ===== src/Loop/Dispatch/Safe/Ready.antt =====
-- `dispatch_ready` of src/loop.rs on streams that have room.
use pgr.Prelude.{
  ℕ, zero, suc, ◌-◌, ◌≡◌, refl, subst, ◌∙◌, Bool, true, false, Option, some, [], ◌∷◌, Bytes, length,
  arith, add64, ltb, if◌then◌else◌, Bool-cases, inl, inr, ◌==◌,
}
use pgr.Prelude.Panic.{◌>>=◌}
use pgr.Capture.{ClientId}
use pgr.Client.{ReplayConfig}
use pgr.Loop.Env.{Env}
use pgr.Loop.Slots.{Timers}
use pgr.Loop.State.{ReplayLoop, now_us, catch_up}
use pgr.Loop.Dispatch.{dispatch_head, dispatch_loop, dispatch_ready}
use pgr.Loop.Dispatch.Timing.{InBounds, Settled, dispatch_ready-settles}
use pgr.Loop.Dispatch.Safe.Elsewhere.{Elsewhere}
use pgr.Loop.Dispatch.Safe.Execute.{Safe}
use pgr.Loop.Dispatch.Safe.Loops.{Reaches, try_dispatch-Reaches}

module _ (md5_hex : Bytes → Bytes) (env : Env) (config : ReplayConfig) where
  -- The streams of every client have room for the commands of its queue.
  abbrev pub AllSafe : ReplayLoop env → Type 0
  AllSafe l = (id : ClientId) → Safe md5_hex env id config 0 l

  same-AllSafe :
      (l l' : ReplayLoop env) → l'.config ≡ l.config → l'.slots ≡ l.slots → AllSafe l → AllSafe l'
  same-AllSafe l l' c e all id = record { same = c ∙ (all id).same; room = rw e ((all id).room) }

  -- Safe for one client after an operation that touches no other.
  after-AllSafe :
      (id : ClientId) (l l' : ReplayLoop env)
      → AllSafe l
      → Safe md5_hex env id config 0 l'
      → Elsewhere md5_hex env id l l'
      → AllSafe l'
  after-AllSafe id l l' all own others j = elim (Bool-cases (id == j)) [
    | inl same ↦ subst (λ k. Safe md5_hex env k config 0 l') (ground arith) own
    | inr other ↦ record {
      same = own.same;
      room = rw (others.slots j (ground arith)) ((all j).room);
    }
  ]

  loop-Returns :
      (fuel now : ℕ) (l : ReplayLoop env)
      → AllSafe l
      → (l' : ReplayLoop env) × (dispatch_loop md5_hex env fuel l now ≡ some l') × AllSafe l'
  unfolding dispatch_loop
  loop-Returns zero now l all = (l, refl, all)
  loop-Returns (suc fuel) now l all = by_head l.timers (λ l2 all2. loop-Returns fuel now l2 all2)
    where
      Later : Type 0
      Later =
          (l2 : ReplayLoop env)
          → AllSafe l2
          → (l' : ReplayLoop env) × (dispatch_loop md5_hex env fuel l2 now ≡ some l') × AllSafe l'

      dispatched :
          (id : ClientId) (timers : Timers) (r : Option (ReplayLoop env))
          → Reaches md5_hex env id config (record l { timers = timers }) r
          → Later
          → (l' : ReplayLoop env) × ((r >>= λ l2. dispatch_loop md5_hex env fuel l2 now) ≡ some l')
            × AllSafe l'
      dispatched id timers r (l2, e, own, others) later = rw e (
          later l2 (
            after-AllSafe id (record l { timers = timers }) l2
              (same-AllSafe l (record l { timers = timers }) refl refl all) own others))

      by_head :
          (timers : Timers)
          → Later
          → (l' : ReplayLoop env) × (dispatch_head md5_hex env l now timers
                (λ l2. dispatch_loop md5_hex env fuel l2 now)
              ≡ some l')
            × AllSafe l'
      by_head [] later = (l, refl, all)
      by_head ((ts, id) ∷ timers) later = elim (Bool-cases (ltb now (add64 ts l.shift))) [
        | inl wait ↦ rw wait (l, refl, all)
        | inr due ↦ rw due (
            dispatched id timers _
              (try_dispatch-Reaches md5_hex env id config now (record l { timers = timers })
                (same-AllSafe l (record l { timers = timers }) refl refl all id))
              later)
      ]

  catch_up-AllSafe : (l : ReplayLoop env) (now : ℕ) → AllSafe l → AllSafe (catch_up env l now)
  unfolding catch_up
  catch_up-AllSafe l now all = by_test (l.shift == 0) (ltb 0 (l.catchup.gain (now - l.last_tick)))
    where
      by_test :
          (z p : Bool)
          → AllSafe (
              if z
              then record l { last_tick = now }
              else if p
              then record l {
                shift = l.shift - l.catchup.gain (now - l.last_tick);
                last_tick = now;
              }
              else l)
      by_test true p = same-AllSafe l _ refl refl all
      by_test false true = same-AllSafe l _ refl refl all
      by_test false false = all

  now_us-AllSafe : (l : ReplayLoop env) → AllSafe l → AllSafe (now_us env l).1
  unfolding now_us
  now_us-AllSafe l all = by_test l.started (env.elapsed l.env_state)
    where
      by_test :
          (s : Bool) (r : ℕ × env.State)
          → AllSafe
              (if◌then◌else◌ {A = ℕ × ReplayLoop env} s
                (r.0, record l { env_state = r.1 })
                (0, l)).1
      by_test true r = same-AllSafe l _ refl refl all
      by_test false r = all

  -- If all times are below 2^63, and the streams of every client, and those of a new connection, are
  -- valid and have room for the commands of its queue below 2^64 bytes, `dispatch_ready` does not panic
  -- and its loop ends: all of this still holds, and the first timer, if any, is later than the time
  -- that it read.
  pub dispatch_ready-Settled :
      (l : ReplayLoop env)
      → InBounds md5_hex env l
      → AllSafe l
      → (l' : ReplayLoop env) × (dispatch_ready md5_hex env l ≡ some l')
        × AllSafe l'
        × InBounds md5_hex env l'
        × Settled md5_hex env (now_us env l).0 l'
  dispatch_ready-Settled l b all =
      let (now, l1) = now_us env l in
      let l2 = catch_up env l1 now in
      let (l', e, all') =
        loop-Returns (suc (length l2.timers)) now l2
          (catch_up-AllSafe l1 now (now_us-AllSafe l all)) in
      let e' : dispatch_ready md5_hex env l ≡ some l' = unfold dispatch_ready in e in
      let (b', settled) = dispatch_ready-settles md5_hex env l l' b e' in
      (l', e', all', b', settled)
