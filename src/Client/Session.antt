-- ===== src/Client/Session.antt =====
-- The session of a client of src/client.rs: the states that it goes through, and the end.
use pgr.Prelude.{
  ℕ, ◌≤◌, ◌≡◌, refl, ap, ap₂, sym, ◌∙◌, Bool, true, false, Option, some, List, [], ◌∷◌, arith,
  Bytes, Bool-cases, inl, inr, ◌==◌, if◌then◌else◌,
}
use pgr.Proto.{BackendMessage, ready_for_query, parse_message, terminate_msg, f_terminate}
use pgr.Client.{
  ClientState, connecting, normal, dead, World, send_frame, replay_frame, on_replay_end,
  normal_message, dispatch, handle_message, replay_in,
}

-- The states in the order in which a session goes through them.
abbrev pub rank : ClientState → ℕ
rank connecting = 0
rank normal = 1
rank dead = 2

-- What happens to a client: a message of the server, a captured frame, the end of the replay.
pub data Action : Type 0 where
  message : (tag : ℕ) (body : Bytes) → Action
  frame : (tag : ℕ) (bytes : Bytes) → Action
  finish : Action

module _ (md5_hex : Bytes → Bytes) where
  abbrev pub act : World → Action → World
  act w (message tag body) = handle_message md5_hex w tag body
  act w (frame tag bytes) = replay_frame w tag bytes
  act w finish = on_replay_end w

  abbrev pub run : World → List Action → World
  run w [] = w
  run w (a ∷ actions) = run (act w a) actions

  normal_message-state :
      (w : World) (m : Option BackendMessage) → (normal_message md5_hex w m).0.state ≡ w.0.state
  unfolding normal_message
  normal_message-state w (some ready_for_query) = refl
  normal_message-state w _ = refl

  message-forward :
      (w : World) (tag : ℕ) (body : Bytes)
      → rank w.0.state ≤ rank (handle_message md5_hex w tag body).0.state
  unfolding handle_message
  message-forward w tag body = by_state w.0.state refl
    where
      by_state :
          (s : ClientState) → w.0.state ≡ s → rank s ≤ rank (dispatch md5_hex s w tag body).0.state
      by_state connecting e = omega arith
      by_state normal e = rw (normal_message-state w (parse_message tag body), e) (omega arith)
      by_state dead e = rw e (omega arith)

  frame-state :
      (w : World) (tag : ℕ) (bytes : Bytes) → (replay_frame w tag bytes).0.state ≡ w.0.state
  unfolding replay_frame send_frame
  frame-state w tag bytes = by_state w.0.state
    where
      marked :
          (b : Bool) → (if b then record w.0 { sent_terminate = true } else w.0).state ≡ w.0.state
      marked true = refl
      marked false = refl

      by_state : (s : ClientState) → (replay_in s w tag bytes).0.state ≡ w.0.state
      by_state connecting = refl
      by_state dead = refl
      by_state normal = marked (tag == f_terminate)

  finish-state : (w : World) → (on_replay_end w).0.state ≡ w.0.state
  unfolding on_replay_end
  finish-state w = by_flag w.0.sent_terminate
    where
      by_flag :
          (b : Bool)
          → (if b then w else replay_frame w f_terminate terminate_msg).0.state ≡ w.0.state
      by_flag true = refl
      by_flag false = frame-state w f_terminate terminate_msg

  act-forward : (w : World) (a : Action) → rank w.0.state ≤ rank (act w a).0.state
  act-forward w (message tag body) = message-forward w tag body
  act-forward w (frame tag bytes) = rw (frame-state w tag bytes) (omega arith)
  act-forward w finish = rw (finish-state w) (omega arith)

  -- A dead client is changed by nothing.
  act-dead : (w : World) (a : Action) → w.0.state ≡ dead → act w a ≡ w
  unfolding handle_message replay_frame on_replay_end
  act-dead w (message tag body) e = ap (λ s. dispatch md5_hex s w tag body) e
  act-dead w (frame tag bytes) e = ap (λ s. replay_in s w tag bytes) e
  act-dead w finish e =
      ap (λ s. if w.0.sent_terminate then w else replay_in s w f_terminate terminate_msg) e
      ∙ either w.0.sent_terminate
    where
      either : (b : Bool) → (if b then w else w) ≡ w
      either true = refl
      either false = refl

  run-dead : (w : World) (actions : List Action) → w.0.state ≡ dead → run w actions ≡ w
  run-dead w [] e = refl
  run-dead w (a ∷ actions) e = rw (act-dead w a e) (run-dead w actions e)

  -- Over any sequence of messages of the server, captured frames and ends of the replay, a client goes
  -- through its states only forwards, from connecting over normal to dead; and a client that is dead,
  -- with the counters, is changed by no further sequence.
  pub run-forward :
      (w : World) (actions later : List Action)
      → (rank w.0.state ≤ rank (run w actions).0.state)
        × ((run w actions).0.state ≡ dead → run (run w actions) later ≡ run w actions)
  run-forward w [] later = (omega arith, run-dead w later)
  run-forward w (a ∷ actions) later =
      let (forward, final) = run-forward (act w a) actions later in
      (omega (arith, act-forward w a, forward), final)

  -- The end of the replay on the states of a client.
  on_replay_end-sent : (w : World) → w.0.sent_terminate ≡ true → on_replay_end w ≡ w
  unfolding on_replay_end
  on_replay_end-sent w h = ap (λ b. if b then w else replay_frame w f_terminate terminate_msg) h

  on_replay_end-open :
      (w : World) (s : ClientState)
      → w.0.state ≡ s
      → w.0.sent_terminate ≡ false
      → on_replay_end w ≡ replay_in s w f_terminate terminate_msg
  unfolding on_replay_end replay_frame
  on_replay_end-open w s e h =
      ap₂ (λ b t. if b then w else replay_in t w f_terminate terminate_msg) h e

  -- Ending the replay twice is ending it once: at most one message of termination is sent for it.
  pub on_replay_end_idem : (w : World) → on_replay_end (on_replay_end w) ≡ on_replay_end w
  unfolding send_frame
  on_replay_end_idem w = elim (Bool-cases w.0.sent_terminate) [
    | inl sent ↦ ap on_replay_end (on_replay_end-sent w sent)
    | inr unsent ↦ by_state w.0.state refl unsent
  ]
    where
      by_state :
          (s : ClientState)
          → w.0.state ≡ s
          → w.0.sent_terminate ≡ false
          → on_replay_end (on_replay_end w) ≡ on_replay_end w
      by_state connecting e h = ap on_replay_end (on_replay_end-open w connecting e h)
      by_state dead e h = ap on_replay_end (on_replay_end-open w dead e h)
      by_state normal e h =
          let once = on_replay_end-open w normal e h in
          ap on_replay_end once
          ∙ on_replay_end-sent (replay_in normal w f_terminate terminate_msg) refl
          ∙ sym once
