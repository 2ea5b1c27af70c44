-- ===== src/Manager/Channel/Wake.antt =====
-- How many commands the sink of src/manager.rs leaves in the channel without waking the receiver.
use pgr.Prelude.{
  ℕ, ◌+◌, ◌<◌, ◌≡◌, refl, ap, ◌⊎◌, inl, inr, Bool, true, false, List, [], ◌∷◌, ◌++◌, arith, add32,
  leb, leb-false, ◌==◌, ==_iff, Bool-cases, length, length-append, append_assoc, append-nil,
}
use pgr.Loop.{ConnCommand}
use pgr.Manager.Channel.{
  TrySend, sent, full, disconnected, Channel, wake_batch, Sink, wake_up, push, woken, counted,
  after_send, after_try,
}

module _ (ch : Channel) where
  open ch use {accepted, announced, try_send, send, wake, State}

  -- The commands that have been put in since the receiver was last woken, of which there are as many
  -- as the sink has counted and fewer than `n`.
  record Unheard (n : ℕ) (k : Sink ch) : Type 0 where
    rest : List ConnCommand
    split : accepted k.chan ≡ announced k.chan ++ rest
    counted_eq : length rest ≡ k.unwoken
    few : k.unwoken < n

  -- The sink has given up, or fewer than a batch of commands have been put in since the receiver was
  -- last woken.
  abbrev pub Heard : Sink ch → Type 0
  Heard k =
      (k.ok ≡ false)
      ⊎ ((rest : List ConnCommand) × (accepted k.chan ≡ announced k.chan ++ rest)
          × (length rest ≡ k.unwoken)
          × (length rest < wake_batch))

  abbrev pub fresh : State → Sink ch
  fresh s = record { chan = s; unwoken = 0; ok = true }

  abbrev pub push_all : Sink ch → List ConnCommand → Sink ch
  push_all k [] = k
  push_all k (c ∷ cs) = push_all (push ch k c) cs

  abbrev Counts : ℕ → Sink ch → Type 0
  Counts n k = (k.ok ≡ false) ⊎ Unheard n k

  put_in :
      (xs ys rest : List ConnCommand) (c : ConnCommand)
      → xs ≡ ys ++ rest
      → xs ++ c ∷ [] ≡ ys ++ (rest ++ c ∷ [])
  put_in xs ys rest c e = rw (e, append_assoc ys rest (c ∷ []))

  -- Nothing is left unheard after a wake-up that succeeds, and one that fails gives up.
  woken-Counts : (k : Sink ch) (x : Bool × State) → wake k.chan ≡ x → Counts 1 (woken ch k x)
  woken-Counts k (false, s) e = inl refl
  woken-Counts k (true, s) e =
      let state : (wake k.chan).1 ≡ s = ap (λ (y : Bool × State). y.1) e in
      let heard : announced (wake k.chan).1 ≡ accepted k.chan =
        ch.wake_announced k.chan (ap (λ (y : Bool × State). y.0) e) in
      inr (record {
        rest = [];
        split = cc (state, heard, ch.wake_accepted k.chan, append-nil (announced s));
        counted_eq = refl;
        few = omega arith;
      })

  wake_up-Counts : (n : ℕ) (k : Sink ch) → Counts n k → Counts 1 (wake_up ch k)
  unfolding wake_up
  wake_up-Counts n k h = elim (Bool-cases (k.unwoken == 0)) [
    | inr some_unwoken ↦ rw some_unwoken (woken-Counts k (wake k.chan) refl)
    | inl none_unwoken ↦ rw none_unwoken (quiet ((==_iff k.unwoken 0).0 none_unwoken) h)
  ]
    where
      quiet : k.unwoken ≡ 0 → Counts n k → Counts 1 k
      quiet z (inl gave_up) = inl gave_up
      quiet z (inr u) = inr (record {
        rest = u.rest;
        split = u.split;
        counted_eq = u.counted_eq;
        few = omega (arith, z);
      })

  more-Counts : (k : Sink ch) → Counts 1 k → Counts wake_batch k
  more-Counts k (inl gave_up) = inl gave_up
  more-Counts k (inr u) = inr (record {
    rest = u.rest;
    split = u.split;
    counted_eq = u.counted_eq;
    few = omega (arith, u.few);
  })

  -- A command that was put in is counted; the channel is now in the state `s`.
  one_more :
      (n : ℕ) (k : Sink ch) (c : ConnCommand) (s : State)
      → n < 1000
      → accepted s ≡ accepted k.chan ++ c ∷ []
      → announced s ≡ announced k.chan
      → Counts n k
      → Counts (n + 1) (record k { chan = s; unwoken = add32 k.unwoken 1 })
  one_more n k c s b e a (inl gave_up) = inl gave_up
  one_more n k c s b e a (inr u) = inr (record {
    rest = u.rest ++ c ∷ [];
    split = rw (e, a) (put_in (accepted k.chan) (announced k.chan) u.rest c u.split);
    counted_eq = omega (arith, length-append u.rest (c ∷ []), u.counted_eq, u.few);
    few = omega (arith, u.few);
  })

  counted-Counts :
      (k : Sink ch)
      → Counts (wake_batch + 1) (record k { unwoken = add32 k.unwoken 1 })
      → Counts wake_batch (counted ch k)
  counted-Counts k h = elim (Bool-cases (leb wake_batch (add32 k.unwoken 1))) [
    | inl batch ↦ rw batch (
        more-Counts _
          (wake_up-Counts (wake_batch + 1) (record k { unwoken = add32 k.unwoken 1 }) h))
    | inr below ↦ rw below (still (leb-false wake_batch (add32 k.unwoken 1) below) h)
  ]
    where
      still :
          add32 k.unwoken 1 < wake_batch
          → Counts (wake_batch + 1) (record k { unwoken = add32 k.unwoken 1 })
          → Counts wake_batch (record k { unwoken = add32 k.unwoken 1 })
      still b (inl gave_up) = inl gave_up
      still b (inr u) =
          inr (record { rest = u.rest; split = u.split; counted_eq = u.counted_eq; few = b })

  -- A refused command leaves the counts.
  same-Counts :
      (n : ℕ) (k : Sink ch) (s : State)
      → accepted s ≡ accepted k.chan
      → announced s ≡ announced k.chan
      → Counts n k
      → Counts n (record k { chan = s })
  same-Counts n k s e a (inl gave_up) = inl gave_up
  same-Counts n k s e a (inr u) =
      inr (record {
        rest = u.rest;
        split = rw (e, a) u.split;
        counted_eq = u.counted_eq;
        few = u.few;
      })

  send-Counts :
      (k : Sink ch) (c : ConnCommand) (x : Bool × State)
      → send k.chan c ≡ x
      → Counts 1 k
      → Counts wake_batch (after_send ch k x)
  send-Counts k c (false, s) e h = inl refl
  send-Counts k c (true, s) e h =
      let answer : (send k.chan c).0 ≡ true = ap (λ (y : Bool × State). y.0) e in
      let state : (send k.chan c).1 ≡ s = ap (λ (y : Bool × State). y.1) e in
      below (
        one_more 1 k c s (omega arith) (rw state at (ch.send_ok k.chan c answer))
          (rw state at (ch.send_announced k.chan c)) h)
    where
      below :
          Counts 2 (record k { chan = s; unwoken = add32 k.unwoken 1 })
          → Counts wake_batch (record k { chan = s; unwoken = add32 k.unwoken 1 })
      below (inl gave_up) = inl gave_up
      below (inr u) = inr (record {
        rest = u.rest;
        split = u.split;
        counted_eq = u.counted_eq;
        few = omega (arith, u.few);
      })

  push-Counts :
      (k : Sink ch) (c : ConnCommand) → Counts wake_batch k → Counts wake_batch (push ch k c)
  unfolding push
  push-Counts k c h = by_answer (try_send k.chan c) refl
    where
      by_answer :
          (x : TrySend × State) → try_send k.chan c ≡ x → Counts wake_batch (after_try ch k c x)
      by_answer (disconnected, s) e = inl refl
      by_answer (sent, s) e =
          let answer : (try_send k.chan c).0 ≡ sent = ap (λ (y : TrySend × State). y.0) e in
          let state : (try_send k.chan c).1 ≡ s = ap (λ (y : TrySend × State). y.1) e in
          counted-Counts (record k { chan = s })
            (one_more wake_batch k c s (omega arith)
              (rw state at (ch.try_send_sent k.chan c answer))
              (rw state at (ch.try_send_announced k.chan c)) h)
      by_answer (full, s) e =
          let answer : (try_send k.chan c).0 ≡ full = ap (λ (y : TrySend × State). y.0) e in
          let state : (try_send k.chan c).1 ≡ s = ap (λ (y : TrySend × State). y.1) e in
          let k1 = wake_up ch (record k { chan = s }) in
          send-Counts k1 c (send k1.chan c) refl (
            wake_up-Counts wake_batch (record k { chan = s })
              (same-Counts wake_batch k s (rw state at (ch.try_send_refused k.chan c (λ same. cc)))
                (rw state at (ch.try_send_announced k.chan c)) h))

  push_all-Counts :
      (k : Sink ch) (cs : List ConnCommand)
      → Counts wake_batch k
      → Counts wake_batch (push_all k cs)
  push_all-Counts k [] h = h
  push_all-Counts k (c ∷ cs) h = push_all-Counts (push ch k c) cs (push-Counts k c h)

  -- After any commands are pushed into a fresh sink on an empty channel, whatever the channel and the
  -- waker answer, the sink has given up, or fewer than a batch of commands have been put into the
  -- channel since the receiver was last woken.
  pub push_all-Heard :
      (s : State) (cs : List ConnCommand)
      → accepted s ≡ []
      → announced s ≡ []
      → Heard (push_all (fresh s) cs)
  push_all-Heard s cs e a = seen (push_all-Counts (fresh s) cs start)
    where
      start : Counts wake_batch (fresh s)
      start =
          inr (record { rest = []; split = rw (e, a) refl; counted_eq = refl; few = omega arith })

      seen : Counts wake_batch (push_all (fresh s) cs) → Heard (push_all (fresh s) cs)
      seen (inl gave_up) = inl gave_up
      seen (inr u) = inr (u.rest, u.split, u.counted_eq, omega (arith, u.counted_eq, u.few))
