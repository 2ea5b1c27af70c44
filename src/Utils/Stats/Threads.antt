-- ===== src/Utils/Stats/Threads.antt =====
-- `ReplayStats` of src/utils.rs between the replay thread, which counts, and the reporting thread,
-- which reads: their atomic operations in any order that keeps that of each thread.
use pgr.Prelude.{ℕ, ◌+◌, ◌%◌, ◌^◌, ◌≡◌, refl, List, [], ◌∷◌, arith}
use pgr.Utils.Stats.{
  ReplayStats, new, add_total, add_delta, log_send, log_recv, read_total_sent, read_delta_sent,
  read_delta_recv,
}

-- The calls of the replay thread, and those of the reporting thread.
pub data Count : Type 0 where
  send recv : Count

pub data Read : Type 0 where
  total delta_sent delta_received : Read

-- The atomic operations.
pub data Atom : Type 0 where
  to_total to_delta to_received : Atom
  reading : Read → Atom

-- A call of `log_send` is two operations, and another thread can come between them.
abbrev pub count_atoms : List Count → List Atom
count_atoms [] = []
count_atoms (send ∷ cs) = to_total ∷ to_delta ∷ count_atoms cs
count_atoms (recv ∷ cs) = to_received ∷ count_atoms cs

abbrev pub read_atoms : List Read → List Atom
read_atoms [] = []
read_atoms (r ∷ rs) = reading r ∷ read_atoms rs

-- The third list is an interleaving of the first two.
pub data Interleaved : List Atom → List Atom → List Atom → Type 0 where
  done : Interleaved [] [] []
  left : (a : Atom) (xs ys zs : List Atom) → Interleaved xs ys zs → Interleaved (a ∷ xs) ys (a ∷ zs)
  right :
      (a : Atom) (xs ys zs : List Atom) → Interleaved xs ys zs → Interleaved xs (a ∷ ys) (a ∷ zs)

-- What the reporting thread has added up of its readings of the two deltas.
pub record Report : Type 0 where
  pub sent : ℕ
  pub received : ℕ

pub step : ReplayStats × Report → Atom → ReplayStats × Report
step (s, r) to_total = (add_total s, r)
step (s, r) to_delta = (add_delta s, r)
step (s, r) to_received = (log_recv s, r)
step (s, r) (reading total) = (s, r)
step (s, r) (reading delta_sent) =
    let (n, s') = read_delta_sent s in (s', record r { sent = r.sent + n })
step (s, r) (reading delta_received) =
    let (n, s') = read_delta_recv s in (s', record r { received = r.received + n })

pub run : ReplayStats × Report → List Atom → ReplayStats × Report
run w [] = w
run w (a ∷ as') = run (step w a) as'

abbrev pub sends : List Count → ℕ
sends [] = 0
sends (send ∷ cs) = 1 + sends cs
sends (recv ∷ cs) = sends cs

abbrev pub receipts : List Count → ℕ
receipts [] = 0
receipts (send ∷ cs) = receipts cs
receipts (recv ∷ cs) = 1 + receipts cs

-- How often each counter is still raised.
record Rises : Type 0 where
  totals : ℕ
  deltas : ℕ
  received : ℕ

abbrev rise : Atom → Rises → Rises
rise to_total n = record n { totals = 1 + n.totals }
rise to_delta n = record n { deltas = 1 + n.deltas }
rise to_received n = record n { received = 1 + n.received }
rise (reading _) n = n

abbrev rises : List Atom → Rises
rises [] = record { totals = 0; deltas = 0; received = 0 }
rises (a ∷ as') = rise a (rises as')

-- The counters and the report stand for these numbers of operations.
record Shows (n : Rises) (w : ReplayStats × Report) : Type 0 where
  totals : w.0.total_req ≡ n.totals % 2 ^ 64
  deltas : (w.1.sent + w.0.delta_req) % 2 ^ 64 ≡ n.deltas % 2 ^ 64
  received : (w.1.received + w.0.delta_recv) % 2 ^ 64 ≡ n.received % 2 ^ 64

step-Shows :
    (n : Rises) (w : ReplayStats × Report) (a : Atom) → Shows n w → Shows (rise a n) (step w a)
unfolding step add_total add_delta log_recv read_delta_sent read_delta_recv
step-Shows n (s, r) to_total h = record {
  totals = omega (arith, h.totals);
  deltas = h.deltas;
  received = h.received;
}
step-Shows n (s, r) to_delta h = record {
  totals = h.totals;
  deltas = omega (arith, h.deltas);
  received = h.received;
}
step-Shows n (s, r) to_received h = record {
  totals = h.totals;
  deltas = h.deltas;
  received = omega (arith, h.received);
}
step-Shows n (s, r) (reading total) h = h
step-Shows n (s, r) (reading delta_sent) h = record {
  totals = h.totals;
  deltas = omega (arith, h.deltas);
  received = h.received;
}
step-Shows n (s, r) (reading delta_received) h = record {
  totals = h.totals;
  deltas = h.deltas;
  received = omega (arith, h.received);
}

-- The numbers of operations of a run after others.
abbrev plus : Rises → Rises → Rises
plus m n = record {
  totals = m.totals + n.totals;
  deltas = m.deltas + n.deltas;
  received = m.received + n.received;
}

-- What two counts of operations have in common.
record Same (m n : Rises) : Type 0 where
  totals : m.totals ≡ n.totals
  deltas : m.deltas ≡ n.deltas
  received : m.received ≡ n.received

run-Shows :
    (n : Rises) (w : ReplayStats × Report) (as' : List Atom)
    → Shows n w
    → Shows (plus n (rises as')) (run w as')
unfolding run
run-Shows n w [] h = record {
  totals = omega (arith, h.totals);
  deltas = omega (arith, h.deltas);
  received = omega (arith, h.received);
}
run-Shows n w (a ∷ as') h = moved a (run-Shows (rise a n) (step w a) as' (step-Shows n w a h))
  where
    moved :
        (a : Atom)
        → Shows (plus (rise a n) (rises as')) (run (step w a) as')
        → Shows (plus n (rise a (rises as'))) (run (step w a) as')
    moved to_total k = record {
      totals = omega (arith, k.totals);
      deltas = k.deltas;
      received = k.received;
    }
    moved to_delta k = record {
      totals = k.totals;
      deltas = omega (arith, k.deltas);
      received = k.received;
    }
    moved to_received k = record {
      totals = k.totals;
      deltas = k.deltas;
      received = omega (arith, k.received);
    }
    moved (reading q) k = k

-- Readings raise no counter, so an interleaving raises what the replay thread raises.
rises-Interleaved :
    (xs ys zs : List Atom) → Interleaved xs ys zs → Same (rises zs) (plus (rises xs) (rises ys))
rises-Interleaved _ _ _ done = record { totals = refl; deltas = refl; received = refl }
rises-Interleaved _ _ _ (left a xs ys zs m) = raised a (rises-Interleaved xs ys zs m)
  where
    raised :
        (a : Atom)
        → Same (rises zs) (plus (rises xs) (rises ys))
        → Same (rise a (rises zs)) (plus (rise a (rises xs)) (rises ys))
    raised to_total h = record {
      totals = omega (arith, h.totals);
      deltas = h.deltas;
      received = h.received;
    }
    raised to_delta h = record {
      totals = h.totals;
      deltas = omega (arith, h.deltas);
      received = h.received;
    }
    raised to_received h = record {
      totals = h.totals;
      deltas = h.deltas;
      received = omega (arith, h.received);
    }
    raised (reading q) h = h
rises-Interleaved _ _ _ (right a xs ys zs m) = raised a (rises-Interleaved xs ys zs m)
  where
    raised :
        (a : Atom)
        → Same (rises zs) (plus (rises xs) (rises ys))
        → Same (rise a (rises zs)) (plus (rises xs) (rise a (rises ys)))
    raised to_total h = record {
      totals = omega (arith, h.totals);
      deltas = h.deltas;
      received = h.received;
    }
    raised to_delta h = record {
      totals = h.totals;
      deltas = omega (arith, h.deltas);
      received = h.received;
    }
    raised to_received h = record {
      totals = h.totals;
      deltas = h.deltas;
      received = omega (arith, h.received);
    }
    raised (reading q) h = h

count_atoms-rises :
    (cs : List Count)
    → Same
        (rises (count_atoms cs))
        (record { totals = sends cs; deltas = sends cs; received = receipts cs })
count_atoms-rises [] = record { totals = refl; deltas = refl; received = refl }
count_atoms-rises (send ∷ cs) =
    let h = count_atoms-rises cs in
    record {
      totals = omega (arith, h.totals);
      deltas = omega (arith, h.deltas);
      received = h.received;
    }
count_atoms-rises (recv ∷ cs) =
    let h = count_atoms-rises cs in
    record { totals = h.totals; deltas = h.deltas; received = omega (arith, h.received) }

read_atoms-rises :
    (rs : List Read)
    → Same (rises (read_atoms rs)) (record { totals = 0; deltas = 0; received = 0 })
read_atoms-rises [] = record { totals = refl; deltas = refl; received = refl }
read_atoms-rises (r ∷ rs) = read_atoms-rises rs

abbrev pub nothing_read : Report
nothing_read = record { sent = 0; received = 0 }

log_send-atoms :
    (s : ReplayStats) (r : Report) → run (s, r) (count_atoms (send ∷ [])) ≡ (log_send s, r)
unfolding run step log_send
log_send-atoms s r = refl

-- However the atomic operations of the replay thread's calls and of the reporting thread's readings
-- interleave, with readings between the two operations of one log_send too: from fresh counters, once
-- all have run, the total is the number of sent requests, the sent-deltas that were read and the
-- unread one add up to it, and so do the received-deltas to the number of answers, all modulo 2^64. A
-- call of log_send that nothing comes between is the same two operations.
pub counts_add_up :
    (cs : List Count) (rs : List Read) (zs : List Atom)
    → Interleaved (count_atoms cs) (read_atoms rs) zs
    → let (s, r) = run (new, nothing_read) zs in
      (read_total_sent s ≡ sends cs % 2 ^ 64)
      × ((r.sent + (read_delta_sent s).0) % 2 ^ 64 ≡ sends cs % 2 ^ 64)
      × ((r.received + (read_delta_recv s).0) % 2 ^ 64 ≡ receipts cs % 2 ^ 64)
      × (run (s, r) (count_atoms (send ∷ [])) ≡ (log_send s, r))
unfolding new read_total_sent read_delta_sent read_delta_recv
counts_add_up cs rs zs m =
    let h =
      run-Shows (record { totals = 0; deltas = 0; received = 0 }) (new, nothing_read) zs
        (record { totals = refl; deltas = refl; received = refl }) in
    let z = rises-Interleaved (count_atoms cs) (read_atoms rs) zs m in
    let c = count_atoms-rises cs in
    let q = read_atoms-rises rs in
    (
      omega (arith, h.totals, z.totals, c.totals, q.totals),
      omega (arith, h.deltas, z.deltas, c.deltas, q.deltas),
      omega (arith, h.received, z.received, c.received, q.received),
      log_send-atoms _ _,
    )
