-- ===== src/Compare/Sum.antt =====
-- The records that the clients of src/compare.rs hold together.
use pgr.Prelude.{
  ℕ, suc, ◌+◌, ◌≤◌, ◌<◌, ◌^◌, ◌≡◌, refl, ap, ◌∙◌, inl, inr, Bool, Option, none, some, List, [], ◌∷◌,
  ◌++◌, arith, add64, add64-eq, ◌==◌, length, length-append, leb, Bool-cases,
}
use pgr.Prelude.Maps.{Map, lookup, insert, entry, ℕ_key}
use pgr.Capture.{ClientId, CaptureMessage}
use pgr.Compare.{TimingData, ClientStats, default_stats, Pair, drain, event_code}
use pgr.Compare.Counts.{drain-records}
use pgr.Compare.Loop.{
  Comparison, client_of, drain_client, push_timing, push_code, push_capture, insert_by_id, sort,
  totals,
}

-- The records of a client that were paired or wait, and those of all clients.
abbrev pub weight : ClientStats → ℕ
weight c = c.matched + length c.tim

abbrev pub sum : Map ClientId ClientStats → ℕ
sum [] = 0
sum ((id, c) ∷ m) = weight c + sum m

sum-insert :
    (id : ClientId) (c : ClientStats) (m : Map ClientId ClientStats)
    → sum (insert id c m) + weight (entry id default_stats m) ≡ sum m + weight c
unfolding insert entry lookup
sum-insert id c [] = omega arith
sum-insert id c ((k, d) ∷ m) = elim (Bool-cases (id == k)) [
  | inl same ↦ rw same (omega arith)
  | inr other ↦ rw other (omega (arith, sum-insert id c m))
]

weight-entry_le :
    (id : ClientId) (m : Map ClientId ClientStats) → weight (entry id default_stats m) ≤ sum m
unfolding entry lookup
weight-entry_le id [] = omega arith
weight-entry_le id ((k, d) ∷ m) = elim (Bool-cases (id == k)) [
  | inl same ↦ rw same (omega arith)
  | inr other ↦ rw other (omega (arith, weight-entry_le id m))
]

drain_client-sum :
    (s : Comparison) (id : ClientId) (c : ClientStats)
    → weight c < 2 ^ 64
    → sum (drain_client s id c).clients + weight (client_of s id) ≡ sum s.clients + weight c
unfolding drain_client
drain_client-sum s id c h =
    sum-insert id (drain (c, s.origin)).0 s.clients
    ∙ ap (λ n. sum s.clients + n) (drain-records c s.origin h)

pub push_timing-sum :
    (s : Comparison) (t : TimingData)
    → suc (sum s.clients) < 2 ^ 64
    → sum (push_timing s t).clients ≡ suc (sum s.clients)
unfolding push_timing
push_timing-sum s t h =
    let c = client_of s t.id in
    let heavier = length-append c.tim ((t.event_type, t.ts) ∷ []) in
    omega (
      arith,
      heavier,
      weight-entry_le t.id s.clients,
      drain_client-sum s t.id (record c { tim = c.tim ++ (t.event_type, t.ts) ∷ [] })
          (omega (arith, heavier, weight-entry_le t.id s.clients)),
    )

push_cap-sum :
    (s : Comparison) (id : ClientId) (cap : List (ℕ × ℕ × Bool))
    → sum s.clients < 2 ^ 64
    → sum (drain_client s id (record (client_of s id) { cap = cap })).clients ≡ sum s.clients
push_cap-sum s id cap h = omega (
  arith,
  weight-entry_le id s.clients,
  drain_client-sum s id (record (client_of s id) { cap = cap })
      (omega (arith, weight-entry_le id s.clients)),
)

pub push_code-sum :
    (o : Option ℕ) (s : Comparison) (msg : CaptureMessage)
    → sum s.clients < 2 ^ 64
    → sum (push_code o s msg).clients ≡ sum s.clients
push_code-sum none s msg h = refl
push_code-sum (some code) s msg h = push_cap-sum s msg.id _ h

push_capture-sum :
    (s : Comparison) (msg : CaptureMessage)
    → sum s.clients < 2 ^ 64
    → sum (push_capture s msg).clients ≡ sum s.clients
unfolding push_capture
push_capture-sum s msg h = push_code-sum (event_code msg.event) s msg h

-- The end: the sort keeps the sum, and the two counts share it.
insert_by_id-sum :
    (e : ClientId × ClientStats) (m : Map ClientId ClientStats)
    → sum (insert_by_id e m) ≡ weight e.1 + sum m
insert_by_id-sum e [] = refl
insert_by_id-sum e (x ∷ m) = elim (Bool-cases (leb e.0 x.0)) [
  | inl first ↦ rw first
  | inr later ↦ rw later (omega (arith, insert_by_id-sum e m))
]

pub sort-sum : (m : Map ClientId ClientStats) → sum (sort m) ≡ sum m
unfolding sort
sort-sum [] = refl
sort-sum (e ∷ m) = omega (arith, insert_by_id-sum e (sort m), sort-sum m)

pub totals-sum :
    (m : Map ClientId ClientStats) (origin : Option Pair) (a b : ℕ)
    → a + b + sum m < 2 ^ 64
    → (totals m origin (a, b)).0 + (totals m origin (a, b)).1 ≡ a + b + sum m
unfolding totals
totals-sum [] origin a b h = omega arith
totals-sum ((id, c) ∷ m) origin a b h =
    let r = drain (c, origin) in
    let kept = drain-records c origin (omega arith) in
    let more = add64-eq a r.0.matched (omega (arith, kept)) in
    let less = add64-eq b (length r.0.tim) (omega (arith, kept)) in
    totals-sum m r.1 (add64 a r.0.matched) (add64 b (length r.0.tim))
      (omega (arith, kept, more, less))
    ∙ omega (arith, kept, more, less)
