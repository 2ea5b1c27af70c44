-- ===== src/Manager/Replay/Deliver.antt =====
-- What `replay` puts into the channel for a capture file.
use pgr.Prelude.{
  ℕ, zero, suc, ◌<◌, ◌≡◌, refl, ap, ap₂, sym, ◌∙◌, ◌⊎◌, inl, inr, Bool, true, false, Option, none,
  some, List, [], ◌∷◌, ◌++◌, arith, All, Bytes, length, length-append, append_assoc, append-nil,
  Bool-cases, ◌==◌, if◌then◌else◌,
}
use pgr.Prelude.Panic.{◌>>=◌, Returns, Returns-bind}
use pgr.Prelude.Io.{ok}
use pgr.Capture.{ClientId, ClientEvent, connect, CaptureMessage}
use pgr.Capture.Format.{encode, encode_all, Fits}
use pgr.Capture.Reader.{CaptureReader, read_event}
use pgr.Capture.RoundTrip.{read_event-encode}
use pgr.Capture.File.{IsCut, read_event-end, length-encode_all}
use pgr.Proto.Frame.{FitsFrame}
use pgr.Loop.{ConnCommand, connect_command, send_command}
use pgr.Manager.Encode.{body, FitsCounts, request_tag, framed, event_frame-eq}
use pgr.Manager.Channel.{Channel, Sink, wake_up, woken}
use pgr.Manager.Channel.Sent.{Put, push-Put, wake_up-accepted}
use pgr.Manager.Replay.{push_connect, push_frame, emit, relative, while_ok, replay_loop, replay}

-- The commands that a message asks for.
abbrev connects : ClientEvent → ClientId → ℕ → List ConnCommand
connects (connect _) id ts = connect_command id ts ∷ []
connects _ id ts = []

abbrev sends : Option (ℕ × Bytes) → ClientId → ℕ → List ConnCommand
sends none id ts = []
sends (some (tag, bytes)) id ts = send_command id ts tag bytes ∷ []

abbrev pub message_commands : CaptureMessage → ℕ → List ConnCommand
message_commands m ts =
    connects m.event m.id ts ++ sends (framed (request_tag m.event) (body m.event)) m.id ts

-- The commands of a capture, in its order.
abbrev pub commands : (ℕ → ℕ) → ℕ → ℕ → List CaptureMessage → List ConnCommand
commands scaled base last [] = []
commands scaled base last (m ∷ ms) =
    let rel = relative scaled base last m.ts in
    message_commands m rel ++ commands scaled base rel ms

-- A message that fits both the capture's format and the protocol.
abbrev pub Replayable : CaptureMessage → Type 0
Replayable m = Fits m × FitsCounts m.event × FitsFrame (body m.event)

module _ (ch : Channel) where
  open ch use {accepted, State, wake}

  push_connect-Put :
      (cs : List ConnCommand) (e : ClientEvent) (id ts : ℕ) (k : Sink ch)
      → Put ch [] cs k
      → Put ch [] (cs ++ connects e id ts) (push_connect ch e id ts k)
  push_connect-Put cs (connect s) id ts k p = push-Put ch [] cs (connect_command id ts) k p
  push_connect-Put cs _ id ts k p = rw (append-nil cs) p

  push_frame-Put :
      (cs : List ConnCommand) (f : Option (ℕ × Bytes)) (id ts : ℕ) (k : Sink ch)
      → Put ch [] cs k
      → Put ch [] (cs ++ sends f id ts) (push_frame ch f id ts k)
  push_frame-Put cs none id ts k p = rw (append-nil cs) p
  push_frame-Put cs (some (tag, bytes)) id ts k p =
      push-Put ch [] cs (send_command id ts tag bytes) k p

  -- `emit` puts in the commands of its message.
  abbrev pub emitted : CaptureMessage → ℕ → Sink ch → Sink ch
  emitted m ts k =
      push_frame ch (framed (request_tag m.event) (body m.event)) m.id ts
        (push_connect ch m.event m.id ts k)

  emit-eq :
      (m : CaptureMessage) (ts : ℕ) (k : Sink ch)
      → Replayable m
      → emit ch m ts k ≡ some (emitted m ts k)
  unfolding emit
  emit-eq m ts k (f, c, s) = rw (event_frame-eq m.event c s)

  emitted-Put :
      (cs : List ConnCommand) (m : CaptureMessage) (ts : ℕ) (k : Sink ch)
      → Put ch [] cs k
      → Put ch [] (cs ++ message_commands m ts) (emitted m ts k)
  emitted-Put cs m ts k p = rw (← append_assoc cs (connects m.event m.id ts) _) (
      push_frame-Put _ (framed (request_tag m.event) (body m.event)) m.id ts _
        (push_connect-Put cs m.event m.id ts k p))

  -- The channel got a first part of the commands: all of them, or the sink reports a failure.
  pub record Delivered (cs : List ConnCommand) (k : Sink ch) : Type 0 where
    pub lost : List ConnCommand
    pub order : accepted k.chan ++ lost ≡ cs
    pub reason : (lost ≡ []) ⊎ (k.ok ≡ false)

  nothing_more : (cs : List ConnCommand) (k : Sink ch) → Put ch [] cs k → Delivered cs k
  nothing_more cs k p = record {
    lost = p.lost;
    order = p.order;
    reason = elim p.reason [ inl all ↦ inl all | inr (gone, not_ok) ↦ inr not_ok ];
  }

  rest_lost :
      (cs more : List ConnCommand) (k : Sink ch)
      → Put ch [] cs k
      → k.ok ≡ false
      → Delivered (cs ++ more) k
  rest_lost cs more k p not_ok = record {
    lost = p.lost ++ more;
    order = sym (append_assoc (accepted k.chan) p.lost more) ∙ ap (λ l. l ++ more) p.order;
    reason = inr not_ok;
  }

  -- How a round handles the message that it has read.
  abbrev later : ℕ → (ℕ → ℕ) → ℕ → ℕ → Sink ch → CaptureMessage → CaptureReader → Option (Sink ch)
  later fuel scaled base last k m r =
      let rel = relative scaled base last m.ts in
      emit ch m rel k >>= λ k'. replay_loop ch fuel scaled r base rel k'

  loop-failed :
      (fuel : ℕ) (scaled : ℕ → ℕ) (r : CaptureReader) (base last : ℕ) (k : Sink ch)
      → k.ok ≡ false
      → replay_loop ch (suc fuel) scaled r base last k ≡ some k
  unfolding replay_loop
  loop-failed fuel scaled r base last k e =
      ap (λ b. while_ok ch b k (read_event r) (later fuel scaled base last k)) e

  loop-end :
      (fuel : ℕ) (scaled : ℕ → ℕ) (r : CaptureReader) (base last : ℕ) (k : Sink ch)
      → k.ok ≡ true
      → read_event r ≡ ok none
      → replay_loop ch (suc fuel) scaled r base last k ≡ some k
  unfolding replay_loop
  loop-end fuel scaled r base last k e d =
      ap₂ (λ b x. while_ok ch b k x (later fuel scaled base last k)) e d

  loop-next :
      (fuel : ℕ) (scaled : ℕ → ℕ) (r : CaptureReader) (base last : ℕ) (k : Sink ch)
      (m : CaptureMessage) (r' : CaptureReader)
      → k.ok ≡ true
      → read_event r ≡ ok (some (m, r'))
      → Replayable m
      → let rel = relative scaled base last m.ts in
        replay_loop ch (suc fuel) scaled r base last k
        ≡ replay_loop ch fuel scaled r' base rel (emitted m rel k)
  unfolding replay_loop
  loop-next fuel scaled r base last k m r' e d h =
      ap₂ (λ b x. while_ok ch b k x (later fuel scaled base last k)) e d
      ∙ ap (λ o. o >>= λ k'. replay_loop ch fuel scaled r' base (relative scaled base last m.ts) k')
          (emit-eq m (relative scaled base last m.ts) k h)

  loop_delivers :
      (ms : List CaptureMessage) (cut : Bytes) (l t fuel : ℕ) (scaled : ℕ → ℕ) (base last : ℕ)
      (cs : List ConnCommand) (k : Sink ch)
      → All Replayable ms
      → IsCut cut
      → length ms < fuel
      → Put ch [] cs k
      → Returns (Delivered (cs ++ commands scaled base last ms)) (
          replay_loop ch fuel scaled
            (record { buf = encode_all encode ms ++ cut; lsn = l; start_ts = t })
            base
            last
            k)
  loop_delivers ms cut l t zero scaled base last cs k h c f p = elim f [ ]
  loop_delivers [] cut l t (suc fuel) scaled base last cs k h c f p = elim (Bool-cases k.ok) [
    | inl good ↦
        rw (loop-end fuel scaled _ base last k good (read_event-end cut l t c), append-nil cs)
          (nothing_more cs k p)
    | inr bad ↦ rw (loop-failed fuel scaled _ base last k bad) (rest_lost cs [] k p bad)
  ]
  loop_delivers (m ∷ ms) cut l t (suc fuel) scaled base last cs k (h, hs) c f p =
      elim (Bool-cases k.ok) [
        | inl good ↦
            let rel = relative scaled base last m.ts in
            rw
              (
                append_assoc (encode m) (encode_all encode ms) cut,
                loop-next fuel scaled _ base last k m _ good
                    (read_event-encode m (encode_all encode ms ++ cut) l t h.0) h,
                ← append_assoc cs (message_commands m rel) (commands scaled base rel ms),
              )
              (loop_delivers ms cut l t fuel scaled base rel (cs ++ message_commands m rel)
                (emitted m rel k) hs c (omega arith) (emitted-Put cs m rel k p))
        | inr bad ↦
            rw (loop-failed fuel scaled _ base last k bad)
              (rest_lost cs (commands scaled base last (m ∷ ms)) k p bad)
      ]

  still_failed : (k : Sink ch) → k.ok ≡ false → (wake_up ch k).ok ≡ false
  unfolding wake_up
  still_failed k e = go (k.unwoken == 0) (wake k.chan)
    where
      go : (b : Bool) (x : Bool × State) → (if b then k else woken ch k x).ok ≡ false
      go true x = e
      go false (true, s) = e
      go false (false, s) = refl

  wake_up-Delivered :
      (cs : List ConnCommand) (k : Sink ch) → Delivered cs k → Delivered cs (wake_up ch k)
  wake_up-Delivered cs k d = record {
    lost = d.lost;
    order = rw (wake_up-accepted ch k) d.order;
    reason = elim d.reason [ inl all ↦ inl all | inr not_ok ↦ inr (still_failed k not_ok) ];
  }

  -- Replaying a file of messages that fit, and then perhaps a cut-off one, into a fresh sink ends
  -- within a round for each byte and one more and does not panic; the channel gets a first part of the
  -- commands of the messages, in their order and with their times, and all of them unless the sink
  -- has failed.
  pub replay-Delivered :
      (ms : List CaptureMessage) (cut : Bytes) (l t : ℕ) (scaled : ℕ → ℕ) (s : State)
      → All Replayable ms
      → IsCut cut
      → accepted s ≡ []
      → let rest = encode_all encode ms ++ cut in
        Returns (Delivered (commands scaled t 0 ms)) (
          replay ch
            (suc (length rest))
            scaled
            (record { buf = rest; lsn = l; start_ts = t })
            (record { chan = s; unwoken = 0; ok = true }))
  unfolding replay
  replay-Delivered ms cut l t scaled s h c fresh =
      let goal = commands scaled t 0 ms in
      Returns-bind {B = Sink ch} (Delivered goal) (Delivered goal) _ _
        (loop_delivers ms cut l t (suc (length (encode_all encode ms ++ cut))) scaled t 0 []
          (record { chan = s; unwoken = 0; ok = true }) h c
          (omega (arith, length-encode_all ms, length-append (encode_all encode ms) cut))
          (record { lost = []; order = append-nil (accepted s) ∙ fresh; reason = inl refl }))
        (λ k d. wake_up-Delivered goal k d)
