-- ===== src/Compare/Counts.antt =====
-- What `drain` of src/compare.rs counts.
use pgr.Prelude.{
  ℕ, ◌+◌, ◌<◌, ◌^◌, ◌≡◌, refl, ap, ◌∙◌, inl, inr, Bool, true, false, Option, List, [], ◌∷◌, arith,
  add64, add64-eq, ◌==◌, length, Bool-cases,
}
use pgr.Compare.{
  ClientStats, World, Pair, record_pair, match_pair, skip, drain_loop, drain, add_deviation,
}

record_pair-counts :
    (w : World) (code : ℕ) (restore : Bool) (p : Pair)
    → ((record_pair w code restore p).0.matched ≡ w.0.matched)
      × ((record_pair w code restore p).0.skipped ≡ w.0.skipped)
unfolding record_pair add_deviation
record_pair-counts w code true p = (ground arith, ground arith)
record_pair-counts w code false p = (ground arith, ground arith)

match_pair-counts :
    (w : World) (code : ℕ) (restore : Bool) (p : Pair)
    → ((match_pair w code restore p).0.matched ≡ add64 w.0.matched 1)
      × ((match_pair w code restore p).0.skipped ≡ w.0.skipped)
unfolding match_pair
match_pair-counts w code restore p = (
  ap (λ n. add64 n 1) (record_pair-counts w code restore p).0,
  (record_pair-counts w code restore p).1,
)

-- Each record is counted as matched or still waits.
drain_loop-records :
    (cap : List (ℕ × ℕ × Bool)) (tim : List (ℕ × ℕ)) (w : World)
    → w.0.matched + length tim < 2 ^ 64
    → (drain_loop cap tim w).0.matched + length (drain_loop cap tim w).0.tim
      ≡ w.0.matched + length tim
unfolding drain_loop
drain_loop-records [] tim w h = refl
drain_loop-records (e ∷ cap) [] w h = refl
drain_loop-records ((ct, cts, restore) ∷ cap) ((tt', tts) ∷ tim) w h =
    let w1 = match_pair w ct restore (cts, tts) in
    let once =
      (match_pair-counts w ct restore (cts, tts)).0 ∙ add64-eq w.0.matched 1 (omega arith) in
    elim (Bool-cases (ct == tt')) [
      | inl same ↦
          rw same (drain_loop-records cap tim w1 (omega (arith, once)) ∙ omega (arith, once))
      | inr other ↦ rw other (drain_loop-records cap ((tt', tts) ∷ tim) (skip w) h)
    ]

-- Each message is counted as matched or skipped, or still waits.
drain_loop-messages :
    (cap : List (ℕ × ℕ × Bool)) (tim : List (ℕ × ℕ)) (w : World)
    → w.0.matched + w.0.skipped + length cap < 2 ^ 64
    → (drain_loop cap tim w).0.matched
        + (drain_loop cap tim w).0.skipped
        + length (drain_loop cap tim w).0.cap
      ≡ w.0.matched + w.0.skipped + length cap
unfolding drain_loop
drain_loop-messages [] tim w h = refl
drain_loop-messages (e ∷ cap) [] w h = refl
drain_loop-messages ((ct, cts, restore) ∷ cap) ((tt', tts) ∷ tim) w h =
    let w1 = match_pair w ct restore (cts, tts) in
    let counts = match_pair-counts w ct restore (cts, tts) in
    let once = counts.0 ∙ add64-eq w.0.matched 1 (omega arith) in
    let same_skipped = counts.1 in
    let skipped_one = add64-eq w.0.skipped 1 (omega arith) in
    elim (Bool-cases (ct == tt')) [
      | inl same ↦ rw same (
          drain_loop-messages cap tim w1 (omega (arith, once, same_skipped))
          ∙ omega (arith, once, same_skipped))
      | inr other ↦ rw other (
          drain_loop-messages cap ((tt', tts) ∷ tim) (skip w) (omega (arith, skipped_one))
          ∙ omega (arith, skipped_one))
    ]

-- `drain` loses nothing: each record is counted as matched or still waits, and each message is counted
-- as matched or skipped, or still waits. The counters do not overflow.
pub drain-conserves :
    (c : ClientStats) (origin : Option Pair)
    → c.matched + length c.tim < 2 ^ 64
    → c.matched + c.skipped + length c.cap < 2 ^ 64
    → let c' = (drain (c, origin)).0 in
      (c'.matched + length c'.tim ≡ c.matched + length c.tim)
      × (c'.matched + c'.skipped + length c'.cap ≡ c.matched + c.skipped + length c.cap)
unfolding drain
drain-conserves c origin h k =
    (drain_loop-records c.cap c.tim (c, origin) h, drain_loop-messages c.cap c.tim (c, origin) k)

pub drain-records :
    (c : ClientStats) (origin : Option Pair)
    → c.matched + length c.tim < 2 ^ 64
    → (drain (c, origin)).0.matched + length (drain (c, origin)).0.tim ≡ c.matched + length c.tim
unfolding drain
drain-records c origin h = drain_loop-records c.cap c.tim (c, origin) h
