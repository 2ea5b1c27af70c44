-- ===== src/Manager/Channel/Sent.antt =====
-- What `push` puts into the channel.
use pgr.Prelude.{
  ◌≡◌, refl, ap, sym, ◌∙◌, ◌⊎◌, inl, inr, Bool, true, false, List, [], ◌∷◌, ◌++◌, add32, leb, ◌==◌,
  append_assoc, append-nil, Bool-cases,
}
use pgr.Loop.{ConnCommand}
use pgr.Manager.Channel.{
  TrySend, sent, full, disconnected, Channel, wake_batch, Sink, wake_up, push, woken, counted,
  after_send, after_try,
}

module _ (ch : Channel) where
  open ch use {accepted, connected, try_send, send, wake, State}

  -- The sink has put in the commands `before` and then a first part of `cs`; the rest is lost, and
  -- then the receiver is gone and the sink knows it.
  pub record Put (before cs : List ConnCommand) (k : Sink ch) : Type 0 where
    pub lost : List ConnCommand
    pub order : accepted k.chan ++ lost ≡ before ++ cs
    pub reason : (lost ≡ []) ⊎ ((connected k.chan ≡ false) × (k.ok ≡ false))

  woken-accepted :
      (k : Sink ch) (x : Bool × State)
      → wake k.chan ≡ x
      → accepted (woken ch k x).chan ≡ accepted k.chan
  woken-accepted k (true, s) e = cc (ch.wake_accepted k.chan, ap (λ (y : Bool × State). y.1) e)
  woken-accepted k (false, s) e = cc (ch.wake_accepted k.chan, ap (λ (y : Bool × State). y.1) e)

  pub wake_up-accepted : (k : Sink ch) → accepted (wake_up ch k).chan ≡ accepted k.chan
  unfolding wake_up
  wake_up-accepted k = elim (Bool-cases (k.unwoken == 0)) [
    | inl none_unwoken ↦ rw none_unwoken
    | inr some_unwoken ↦ rw some_unwoken (woken-accepted k (wake k.chan) refl)
  ]

  counted-accepted : (k : Sink ch) → accepted (counted ch k).chan ≡ accepted k.chan
  counted-accepted k = elim (Bool-cases (leb wake_batch (add32 k.unwoken 1))) [
    | inl batch ↦ rw batch (wake_up-accepted (record k { unwoken = add32 k.unwoken 1 }))
    | inr few ↦ rw few
  ]

  everything_in :
      (before cs : List ConnCommand) (k : Sink ch)
      → accepted k.chan ≡ before ++ cs
      → Put before cs k
  everything_in before cs k e = record {
    lost = [];
    order = append-nil (accepted k.chan) ∙ e;
    reason = inl refl;
  }

  one_more :
      (before cs : List ConnCommand) (c : ConnCommand) (xs : List ConnCommand)
      → xs ≡ before ++ cs
      → xs ++ c ∷ [] ≡ before ++ (cs ++ c ∷ [])
  one_more before cs c xs e = rw (e, append_assoc before cs (c ∷ []))

  one_lost :
      (before cs lost : List ConnCommand) (c : ConnCommand) (k : Sink ch) (xs : List ConnCommand)
      → xs ++ lost ≡ before ++ cs
      → accepted k.chan ≡ xs
      → connected k.chan ≡ false
      → k.ok ≡ false
      → Put before (cs ++ c ∷ []) k
  one_lost before cs lost c k xs e a gone not_ok = record {
    lost = lost ++ c ∷ [];
    order = rw (a, ← append_assoc xs lost (c ∷ [])) (one_more before cs c (xs ++ lost) e);
    reason = inr (gone, not_ok);
  }

  send-Put :
      (before cs : List ConnCommand) (c : ConnCommand) (k : Sink ch) (x : Bool × State)
      → send k.chan c ≡ x
      → accepted k.chan ≡ before ++ cs
      → Put before (cs ++ c ∷ []) (after_send ch k x)
  send-Put before cs c k (true, s) e a =
      let answer : (send k.chan c).0 ≡ true = ap (λ (y : Bool × State). y.0) e in
      let state : (send k.chan c).1 ≡ s = ap (λ (y : Bool × State). y.1) e in
      everything_in before (cs ++ c ∷ []) (after_send ch k (true, s))
        (rw state at (ch.send_ok k.chan c answer) ∙ one_more before cs c (accepted k.chan) a)
  send-Put before cs c k (false, s) e a =
      let answer : (send k.chan c).0 ≡ false = ap (λ (y : Bool × State). y.0) e in
      let state : (send k.chan c).1 ≡ s = ap (λ (y : Bool × State). y.1) e in
      let (same, gone) = ch.send_refused k.chan c answer in
      one_lost before cs [] c (after_send ch k (false, s)) (accepted k.chan)
        (append-nil (accepted k.chan) ∙ a) (rw state at same) (rw state at gone) refl

  try-Put :
      (before cs : List ConnCommand) (c : ConnCommand) (k : Sink ch) (x : TrySend × State)
      → try_send k.chan c ≡ x
      → accepted k.chan ≡ before ++ cs
      → Put before (cs ++ c ∷ []) (after_try ch k c x)
  try-Put before cs c k (sent, s) e a =
      let answer : (try_send k.chan c).0 ≡ sent = ap (λ (y : TrySend × State). y.0) e in
      let state : (try_send k.chan c).1 ≡ s = ap (λ (y : TrySend × State). y.1) e in
      everything_in before (cs ++ c ∷ []) (after_try ch k c (sent, s)) (
        counted-accepted (record k { chan = s })
        ∙ rw state at (ch.try_send_sent k.chan c answer)
        ∙ one_more before cs c (accepted k.chan) a)
  try-Put before cs c k (full, s) e a =
      let answer : (try_send k.chan c).0 ≡ full = ap (λ (y : TrySend × State). y.0) e in
      let state : (try_send k.chan c).1 ≡ s = ap (λ (y : TrySend × State). y.1) e in
      let k' = wake_up ch (record k { chan = s }) in
      send-Put before cs c k' (send k'.chan c) refl (
        wake_up-accepted (record k { chan = s })
        ∙ rw state at (ch.try_send_refused k.chan c (λ p. cc (answer, p)))
        ∙ a)
  try-Put before cs c k (disconnected, s) e a =
      let answer : (try_send k.chan c).0 ≡ disconnected = ap (λ (y : TrySend × State). y.0) e in
      let state : (try_send k.chan c).1 ≡ s = ap (λ (y : TrySend × State). y.1) e in
      one_lost before cs [] c (after_try ch k c (disconnected, s)) (accepted k.chan)
        (append-nil (accepted k.chan) ∙ a)
        (rw state at (ch.try_send_refused k.chan c (λ p. cc (answer, p))))
        (rw state at (ch.try_send_disconnected k.chan c answer)) refl

  gone-Put :
      (before cs lost : List ConnCommand) (c : ConnCommand) (k : Sink ch) (x : TrySend × State)
      → try_send k.chan c ≡ x
      → accepted k.chan ++ lost ≡ before ++ cs
      → connected k.chan ≡ false
      → Put before (cs ++ c ∷ []) (after_try ch k c x)
  gone-Put before cs lost c k (disconnected, s) e a gone =
      let answer = ch.try_send_gone k.chan c gone in
      let state : (try_send k.chan c).1 ≡ s = ap (λ (y : TrySend × State). y.1) e in
      one_lost before cs lost c (after_try ch k c (disconnected, s)) (accepted k.chan) a
        (rw state at (ch.try_send_refused k.chan c (λ p. cc (answer, p))))
        (rw state at (ch.try_send_disconnected k.chan c answer)) refl
  gone-Put before cs lost c k (sent, s) e a gone =
      absurd (cc (ch.try_send_gone k.chan c gone, ap (λ (y : TrySend × State). y.0) e))
  gone-Put before cs lost c k (full, s) e a gone =
      absurd (cc (ch.try_send_gone k.chan c gone, ap (λ (y : TrySend × State). y.0) e))

  -- Each command is put into the channel behind the others, or it and all later ones are lost, the
  -- receiver is gone and the sink knows it.
  pub push-Put :
      (before cs : List ConnCommand) (c : ConnCommand) (k : Sink ch)
      → Put before cs k
      → Put before (cs ++ c ∷ []) (push ch k c)
  unfolding push
  push-Put before cs c k p = elim p.reason [
    | inl all ↦
        try-Put before cs c k (try_send k.chan c) refl
          (sym (append-nil (accepted k.chan)) ∙ (rw all at p.order))
    | inr (gone, not_ok) ↦ gone-Put before cs p.lost c k (try_send k.chan c) refl p.order gone
  ]

  -- The sink after `wake`: nothing is put in, and a sink that has failed stays failed.
  woken-Put :
      (before cs : List ConnCommand) (k : Sink ch) (x : Bool × State)
      → wake k.chan ≡ x
      → Put before cs k
      → Put before cs (woken ch k x)
  woken-Put before cs k (true, s) e p =
      let state : (wake k.chan).1 ≡ s = ap (λ (y : Bool × State). y.1) e in
      record {
        lost = p.lost;
        order = rw (woken-accepted k (true, s) e) p.order;
        reason = elim p.reason [
          | inl all ↦ inl all
          | inr (gone, not_ok) ↦ inr (rw state at (ch.wake_connected k.chan ∙ gone), not_ok)
        ];
      }
  woken-Put before cs k (false, s) e p =
      let state : (wake k.chan).1 ≡ s = ap (λ (y : Bool × State). y.1) e in
      record {
        lost = p.lost;
        order = rw (woken-accepted k (false, s) e) p.order;
        reason = elim p.reason [
          | inl all ↦ inl all
          | inr (gone, not_ok) ↦ inr (rw state at (ch.wake_connected k.chan ∙ gone), refl)
        ];
      }

  pub wake_up-Put :
      (before cs : List ConnCommand) (k : Sink ch) → Put before cs k → Put before cs (wake_up ch k)
  unfolding wake_up
  wake_up-Put before cs k p = elim (Bool-cases (k.unwoken == 0)) [
    | inl none_unwoken ↦ rw none_unwoken p
    | inr some_unwoken ↦ rw some_unwoken (woken-Put before cs k (wake k.chan) refl p)
  ]
