-- ===== src/Manager/Channel.antt =====
-- The channel and the waker that the manager uses, as an interface with the behaviour that their
-- packages document, and `Sink` of src/manager.rs.
pub mod Sent
pub mod Wake
use pgr.Prelude.{
  ℕ, ◌≡◌, ◌≢◌, Bool, true, false, List, [], ◌∷◌, ◌++◌, add32, ltb, leb, ◌==◌, if◌then◌else◌,
}
use pgr.Loop.{ConnCommand}

-- The results of `try_send`.
pub data TrySend : Type 0 where
  sent full disconnected : TrySend

-- A bounded channel with its receiver's waker. `accepted` is what has been put into the channel so
-- far, and `announced` what of it was there when the receiver was last woken; a sender whose receiver
-- is gone stays without one.
pub record Channel : Type 1 where
  pub State : Type 0
  pub try_send : State → ConnCommand → TrySend × State
  pub send : State → ConnCommand → Bool × State
  pub wake : State → Bool × State
  pub accepted : State → List ConnCommand
  pub announced : State → List ConnCommand
  pub connected : State → Bool
  pub try_send_sent :
      (s : State) (c : ConnCommand)
      → (try_send s c).0 ≡ sent
      → accepted (try_send s c).1 ≡ accepted s ++ c ∷ []
  pub try_send_refused :
      (s : State) (c : ConnCommand)
      → (try_send s c).0 ≢ sent
      → accepted (try_send s c).1 ≡ accepted s
  pub try_send_disconnected :
      (s : State) (c : ConnCommand)
      → (try_send s c).0 ≡ disconnected
      → connected (try_send s c).1 ≡ false
  pub try_send_gone :
      (s : State) (c : ConnCommand) → connected s ≡ false → (try_send s c).0 ≡ disconnected
  pub send_ok :
      (s : State) (c : ConnCommand)
      → (send s c).0 ≡ true
      → accepted (send s c).1 ≡ accepted s ++ c ∷ []
  pub send_refused :
      (s : State) (c : ConnCommand)
      → (send s c).0 ≡ false
      → (accepted (send s c).1 ≡ accepted s) × (connected (send s c).1 ≡ false)
  pub try_send_announced : (s : State) (c : ConnCommand) → announced (try_send s c).1 ≡ announced s
  pub send_announced : (s : State) (c : ConnCommand) → announced (send s c).1 ≡ announced s
  pub wake_announced : (s : State) → (wake s).0 ≡ true → announced (wake s).1 ≡ accepted s
  pub wake_accepted : (s : State) → accepted (wake s).1 ≡ accepted s
  pub wake_connected : (s : State) → connected (wake s).1 ≡ connected s

abbrev pub wake_batch : ℕ
wake_batch = 128

-- `wake` is a name of the interface, so the method of the sink is `wake_up`.
module _ (ch : Channel) where
  open ch use {State, try_send, send, wake}

  pub record Sink : Type 0 where
    pub chan : State
    pub unwoken : ℕ
    pub ok : Bool

  -- What `wake` makes of the sink when the waker has answered.
  abbrev pub woken : Sink → Bool × State → Sink
  woken k (true, s) = record k { chan = s; unwoken = 0 }
  woken k (false, s) = record { chan = s; unwoken = 0; ok = false }

  unfoldable pub wake_up : Sink → Sink
  wake_up k = if k.unwoken == 0 then k else woken k (wake k.chan)

  abbrev pub counted : Sink → Sink
  counted k =
      let k' = record k { unwoken = add32 k.unwoken 1 } in
      if leb wake_batch k'.unwoken then wake_up k' else k'

  -- After a blocking `send`.
  abbrev pub after_send : Sink → Bool × State → Sink
  after_send k (true, s) = record k { chan = s; unwoken = add32 k.unwoken 1 }
  after_send k (false, s) = record k { chan = s; ok = false }

  abbrev pub after_try : Sink → ConnCommand → TrySend × State → Sink
  after_try k c (sent, s) = counted (record k { chan = s })
  after_try k c (disconnected, s) = record k { chan = s; ok = false }
  after_try k c (full, s) =
      let k' = wake_up (record k { chan = s }) in after_send k' (send k'.chan c)

  unfoldable pub push : Sink → ConnCommand → Sink
  push k c = after_try k c (try_send k.chan c)
