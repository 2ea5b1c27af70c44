-- ===== src/Loop/Dispatch/Timing.antt =====
-- The timers that `dispatch_ready` of src/loop.rs handles. The times are in microseconds; as long as
-- they are below 2^63, some 290,000 years, no sum wraps around.
pub mod Bounds
pub mod Pacing
use pgr.Prelude.{
  ℕ, zero, suc, ◌+◌, ◌-◌, ◌≤◌, ◌<◌, ◌^◌, ◌≡◌, refl, ap, sym, ◌∙◌, ◌⊎◌, inl, inr, Bool, true, false,
  Option, none, some, List, [], ◌∷◌, arith, All, add64, ltb, lt→ltb, ltb→lt, ltb-false, Bytes,
  length, ◌==◌, if◌then◌else◌, Bool-cases,
}
use mathlib.Core.Option.{some-injective}
use pgr.Prelude.Panic.{◌>>=◌}
use pgr.Capture.{ClientId}
use pgr.Loop.{ConnCommand}
use pgr.Loop.Env.{Env}
use pgr.Loop.Slots.{Timers, before, push_timer}
use pgr.Loop.State.{ReplayLoop, now_us, catch_up}
use pgr.Loop.Dispatch.Timing.Bounds.{AllBounded}
use pgr.Loop.Dispatch.Timing.Pacing.{Paced, try_dispatch-Paced}
use pgr.Loop.Dispatch.{try_dispatch, dispatch_head, dispatch_loop, dispatch_ready}

-- The timers that are due.
abbrev due_count : ℕ → ℕ → Timers → ℕ
due_count shift now [] = 0
due_count shift now ((ts, id) ∷ timers) =
    if ltb now (add64 ts shift)
    then due_count shift now timers
    else suc (due_count shift now timers)

abbrev pub TimersBounded : Timers → Type 0
TimersBounded timers = All (λ (t : ℕ × ClientId). t.0 < 2 ^ 63) timers

-- With a larger shift no more timers are due.
due_count-le :
    (shift shift' now : ℕ) (timers : Timers)
    → shift ≤ shift'
    → shift' < 2 ^ 63
    → TimersBounded timers
    → due_count shift' now timers ≤ due_count shift now timers
due_count-le shift shift' now [] h b t = omega arith
due_count-le shift shift' now ((ts, id) ∷ timers) h b (t, hs) =
    let later = due_count-le shift shift' now timers h b hs in ground (arith, later)

due_count-push :
    (shift now ts : ℕ) (id : ClientId) (timers : Timers)
    → now < add64 ts shift
    → due_count shift now (push_timer (ts, id) timers) ≡ due_count shift now timers
due_count-push shift now ts id [] h = rw (lt→ltb now (add64 ts shift) h)
due_count-push shift now ts id (u ∷ timers) h = elim (Bool-cases (before u (ts, id))) [
  | inl first ↦ rw (first, due_count-push shift now ts id timers h)
  | inr behind ↦ rw (behind, lt→ltb now (add64 ts shift) h)
]

due_count-length : (shift now : ℕ) (timers : Timers) → due_count shift now timers ≤ length timers
due_count-length shift now [] = omega arith
due_count-length shift now ((ts, id) ∷ timers) =
    let later = due_count-length shift now timers in ground (arith, later)

push_timer-Bounded :
    (ts : ℕ) (id : ClientId) (timers : Timers)
    → ts < 2 ^ 63
    → TimersBounded timers
    → TimersBounded (push_timer (ts, id) timers)
push_timer-Bounded ts id [] h b = (h, tt)
push_timer-Bounded ts id (u ∷ timers) h (b, bs) = elim (Bool-cases (before u (ts, id))) [
  | inl first ↦ rw first (b, push_timer-Bounded ts id timers h bs)
  | inr behind ↦ rw behind (h, (b, bs))
]

module _ (md5_hex : Bytes → Bytes) (env : Env) where
  -- All times are below 2^63.
  pub record InBounds (l : ReplayLoop env) : Type 0 where
    pub slots : AllBounded l.slots
    pub timers : TimersBounded l.timers
    pub shift : l.shift < 2 ^ 63

  -- The first timer, if there is one, is not due.
  abbrev Later : ℕ → ℕ → Timers → Type 0
  Later shift now [] = Unit
  Later shift now ((ts, id) ∷ timers) = now < add64 ts shift

  abbrev pub Settled : ℕ → ReplayLoop env → Type 0
  Settled now l = Later l.shift now l.timers

  -- After a timer that is due, fewer timers are due.
  after_timer :
      (l l' : ReplayLoop env) (now ts : ℕ) (id : ClientId) (timers : Timers)
      → InBounds l
      → TimersBounded timers
      → Paced md5_hex env id now (record l { timers = timers }) l'
      → InBounds l' × (due_count l'.shift now l'.timers ≤ due_count l.shift now timers)
  after_timer l l' now ts id timers b t p = elim p.timers [
    | inl same ↦ (
      record { slots = p.slots; timers = rw same t; shift = p.shift },
      rw same (due_count-le l.shift l'.shift now timers p.grows p.shift t),
    )
    | inr (ts', again, late, small) ↦ (
      record {
        slots = p.slots;
        timers = rw again (push_timer-Bounded ts' id timers small t);
        shift = p.shift;
      },
      rw (again, due_count-push l'.shift now ts' id timers late)
          (due_count-le l.shift l'.shift now timers p.grows p.shift t),
    )
  ]

  loop_settles :
      (fuel : ℕ) (l l' : ReplayLoop env) (now : ℕ)
      → InBounds l
      → due_count l.shift now l.timers < fuel
      → dispatch_loop md5_hex env fuel l now ≡ some l'
      → InBounds l' × Settled now l'
  unfolding dispatch_loop
  loop_settles zero l l' now b h e = elim h [ ]
  loop_settles (suc fuel) l l' now b h e =
      by_head l.timers b.timers refl h (λ l2 b2 h2 e2. loop_settles fuel l2 l' now b2 h2 e2) e
    where
      by_head :
          (timers : Timers)
          → TimersBounded timers
          → l.timers ≡ timers
          → due_count l.shift now timers < suc fuel
          → ((l2 : ReplayLoop env)
              → InBounds l2
              → due_count l2.shift now l2.timers < fuel
              → dispatch_loop md5_hex env fuel l2 now ≡ some l'
              → InBounds l' × Settled now l')
          → dispatch_head md5_hex env l now timers (λ l2. dispatch_loop md5_hex env fuel l2 now)
            ≡ some l'
          → InBounds l' × Settled now l'
      by_head [] t same h later e =
          let p : InBounds l × Settled now l = (b, rw same tt) in rw (some-injective l l' e) at p
      by_head ((ts, id) ∷ timers) t same h later e =
          elim (Bool-cases (ltb now (add64 ts l.shift))) [
            | inl wait ↦
                let p : InBounds l × Settled now l =
                  (b, rw same (ltb→lt now (add64 ts l.shift) wait)) in
                rw (some-injective l l' (rw wait at e)) at p
            | inr due ↦
                dispatched ts id timers t.1 (rw due at h)
                  (try_dispatch md5_hex env (record l { timers = timers }) id now) refl later
                  (rw due at e)
          ]
        where
          dispatched :
              (ts : ℕ) (id : ClientId) (timers : Timers)
              → TimersBounded timers
              → suc (due_count l.shift now timers) < suc fuel
              → (r : Option (ReplayLoop env))
              → try_dispatch md5_hex env (record l { timers = timers }) id now ≡ r
              → ((l2 : ReplayLoop env)
                  → InBounds l2
                  → due_count l2.shift now l2.timers < fuel
                  → dispatch_loop md5_hex env fuel l2 now ≡ some l'
                  → InBounds l' × Settled now l')
              → (r >>= λ l2. dispatch_loop md5_hex env fuel l2 now) ≡ some l'
              → InBounds l' × Settled now l'
          dispatched ts id timers t h none x later e = absurd (cc e)
          dispatched ts id timers t h (some l2) x later e =
              let p =
                try_dispatch-Paced md5_hex env id now (record l { timers = timers }) l2 b.slots
                  b.shift x in
              let (b2, fewer) = after_timer l l2 now ts id timers b t p in
              later l2 b2 (omega (arith, fewer, h)) e

  catch_up-InBounds : (l : ReplayLoop env) (now : ℕ) → InBounds l → InBounds (catch_up env l now)
  unfolding catch_up
  catch_up-InBounds l now b = by_test (l.shift == 0) (ltb 0 (l.catchup.gain (now - l.last_tick)))
    where
      by_test :
          (z p : Bool)
          → InBounds (
              if z
              then record l { last_tick = now }
              else if p
              then record l {
                shift = l.shift - l.catchup.gain (now - l.last_tick);
                last_tick = now;
              }
              else l)
      by_test true p = record { slots = b.slots; timers = b.timers; shift = b.shift }
      by_test false true = record {
        slots = b.slots;
        timers = b.timers;
        shift = omega (arith, b.shift);
      }
      by_test false false = b

  now_us-InBounds : (l : ReplayLoop env) → InBounds l → InBounds (now_us env l).1
  unfolding now_us
  now_us-InBounds l b = by_test l.started (env.elapsed l.env_state)
    where
      by_test :
          (s : Bool) (r : ℕ × env.State)
          → InBounds
              (if◌then◌else◌ {A = ℕ × ReplayLoop env} s
                (r.0, record l { env_state = r.1 })
                (0, l)).1
      by_test true r = record { slots = b.slots; timers = b.timers; shift = b.shift }
      by_test false r = b

  -- If all times are below 2^63 and `dispatch_ready` does not panic, its loop has ended: all times are
  -- still below 2^63, and the first timer, if any, is later than the time that it read.
  pub dispatch_ready-settles :
      (l l' : ReplayLoop env)
      → InBounds l
      → dispatch_ready md5_hex env l ≡ some l'
      → InBounds l' × Settled (now_us env l).0 l'
  unfolding dispatch_ready
  dispatch_ready-settles l l' b e =
      let (now, l1) = now_us env l in
      let l2 = catch_up env l1 now in
      loop_settles (suc (length l2.timers)) l2 l' now
        (catch_up-InBounds l1 now (now_us-InBounds l b))
        (omega (arith, due_count-length l2.shift now l2.timers)) e
