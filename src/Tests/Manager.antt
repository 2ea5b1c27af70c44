-- ===== src/Tests/Manager.antt =====
-- Tests of src/manager.rs, with a small channel.
use pgr.Prelude.{
  ◌<◌, ℕ, zero, suc, ◌+◌, ◌^◌, ◌≡◌, ◌≢◌, refl, inl, Bool, true, false, Option, none, some, List, [],
  ◌∷◌, ◌++◌, arith, Bytes, All, length, codes,
}
use pgr.Prelude.Panic.{Returns}
use pgr.Utf8.{IsUtf8-ascii}
use pgr.Capture.{CaptureMessage, ClientEvent, connect, sync, parse}
use pgr.Capture.Format.{encode, encode_all}
use pgr.Loop.{ConnCommand, connect_command}
use pgr.Manager.{event_frame}
use pgr.Manager.Encode.{body, request_tag, framed, event_frame-eq}
use pgr.Manager.Channel.{TrySend, sent, full, disconnected, Channel, Sink, push}
use pgr.Manager.Channel.Wake.{Heard, fresh, push_all, push_all-Heard}
use pgr.Manager.Channel.Sent.{Put, push-Put}
use pgr.Manager.Replay.{replay}
use pgr.Manager.Replay.Deliver.{commands, Replayable, Delivered, replay-Delivered}

-- A channel with some room, and a receiver that makes room when a sender waits.
record Pipe : Type 0 where
  room : ℕ
  queue : List ConnCommand
  seen : List ConnCommand
  alive : Bool

abbrev added : Pipe → ConnCommand → ℕ → Pipe
added s c room = record s { room = room; queue = s.queue ++ c ∷ [] }

abbrev pipe_try : Pipe → ConnCommand → Bool → ℕ → TrySend × Pipe
pipe_try s c false room = (disconnected, s)
pipe_try s c true zero = (full, s)
pipe_try s c true (suc n) = (sent, added s c n)

abbrev pipe_send : Pipe → ConnCommand → Bool → Bool × Pipe
pipe_send s c false = (false, s)
pipe_send s c true = (true, added s c s.room)

try_sent :
    (s : Pipe) (c : ConnCommand) (b : Bool) (n : ℕ)
    → (pipe_try s c b n).0 ≡ sent
    → (pipe_try s c b n).1.queue ≡ s.queue ++ c ∷ []
try_sent s c false n e = absurd (cc e)
try_sent s c true zero e = absurd (cc e)
try_sent s c true (suc n) e = refl

try_refused :
    (s : Pipe) (c : ConnCommand) (b : Bool) (n : ℕ)
    → (pipe_try s c b n).0 ≢ sent
    → (pipe_try s c b n).1.queue ≡ s.queue
try_refused s c false n e = refl
try_refused s c true zero e = refl
try_refused s c true (suc n) e = absurd (e refl)

try_disconnected :
    (s : Pipe) (c : ConnCommand) (b : Bool) (n : ℕ)
    → s.alive ≡ b
    → (pipe_try s c b n).0 ≡ disconnected
    → (pipe_try s c b n).1.alive ≡ false
try_disconnected s c false n h e = h
try_disconnected s c true zero h e = absurd (cc e)
try_disconnected s c true (suc n) h e = absurd (cc e)

try_gone :
    (s : Pipe) (c : ConnCommand) (b : Bool) (n : ℕ)
    → b ≡ false
    → (pipe_try s c b n).0 ≡ disconnected
try_gone s c false n h = refl
try_gone s c true n h = absurd (cc h)

send_accepted :
    (s : Pipe) (c : ConnCommand) (b : Bool)
    → (pipe_send s c b).0 ≡ true
    → (pipe_send s c b).1.queue ≡ s.queue ++ c ∷ []
send_accepted s c false e = absurd (cc e)
send_accepted s c true e = refl

send_failed :
    (s : Pipe) (c : ConnCommand) (b : Bool)
    → s.alive ≡ b
    → (pipe_send s c b).0 ≡ false
    → ((pipe_send s c b).1.queue ≡ s.queue) × ((pipe_send s c b).1.alive ≡ false)
send_failed s c false h e = (refl, h)
send_failed s c true h e = absurd (cc e)

try_seen : (s : Pipe) (c : ConnCommand) (b : Bool) (n : ℕ) → (pipe_try s c b n).1.seen ≡ s.seen
try_seen s c false n = refl
try_seen s c true zero = refl
try_seen s c true (suc n) = refl

send_seen : (s : Pipe) (c : ConnCommand) (b : Bool) → (pipe_send s c b).1.seen ≡ s.seen
send_seen s c false = refl
send_seen s c true = refl

abbrev pipe : Channel
pipe = record {
  State = Pipe;
  try_send = λ s c. pipe_try s c s.alive s.room;
  send = λ s c. pipe_send s c s.alive;
  wake = λ s. (true, record s { seen = s.queue });
  accepted = λ s. s.queue;
  announced = λ s. s.seen;
  connected = λ s. s.alive;
  try_send_sent = λ s c. try_sent s c s.alive s.room;
  try_send_refused = λ s c. try_refused s c s.alive s.room;
  try_send_disconnected = λ s c. try_disconnected s c s.alive s.room refl;
  try_send_gone = λ s c. try_gone s c s.alive s.room;
  send_ok = λ s c. send_accepted s c s.alive;
  send_refused = λ s c. send_failed s c s.alive refl;
  try_send_announced = λ s c. try_seen s c s.alive s.room;
  send_announced = λ s c. send_seen s c s.alive;
  wake_announced = λ s e. refl;
  wake_accepted = λ s. refl;
  wake_connected = λ s. refl;
}

-- The channel has room for one command.
abbrev sink : Sink pipe
sink = record {
  chan = record { room = 0; queue = connect_command 7 0 ∷ []; seen = []; alive = true };
  unwoken = 1;
  ok = true;
}

push-Put_example :
    Put pipe []
      (connect_command 7 0 ∷ connect_command 8 5 ∷ [])
      (push pipe sink (connect_command 8 5))
push-Put_example =
    push-Put pipe [] (connect_command 7 0 ∷ []) (connect_command 8 5) sink
      (record { lost = []; order = refl; reason = inl refl })

abbrev parsing : ClientEvent
parsing = parse (codes "s") (codes "SELECT $1") (23 ∷ [])

event_frame-eq_example : event_frame parsing ≡ some (framed (request_tag parsing) (body parsing))
unfolding pgr.Prelude.to_be
event_frame-eq_example = event_frame-eq parsing (omega arith) (omega arith)

abbrev joined : CaptureMessage
joined = record { id = 7; ts = 1000; event = connect (codes "a'b") }

abbrev synced : CaptureMessage
synced = record { id = 7; ts = 900; event = sync }

joined-Replayable : Replayable joined
unfolding pgr.Manager.restore_query pgr.Manager.double_quotes
joined-Replayable = (
  record {
    id = omega arith;
    ts = omega arith;
    event = (IsUtf8-ascii (codes "a'b") (omega arith), omega arith);
  },
  tt,
  omega arith,
)

synced-Replayable : Replayable synced
synced-Replayable = (record { id = omega arith; ts = omega arith; event = tt }, tt, omega arith)

abbrev file : Bytes
file = encode_all encode (joined ∷ synced ∷ []) ++ []

replay-Delivered_example :
    Returns (Delivered pipe (commands (λ n. n) 500 0 (joined ∷ synced ∷ []))) (
      replay pipe
        (suc (length file))
        (λ n. n)
        (record { buf = file; lsn = 1; start_ts = 500 })
        (record {
          chan = record { room = 1; queue = []; seen = []; alive = true };
          unwoken = 0;
          ok = true;
        }))
replay-Delivered_example =
    replay-Delivered pipe (joined ∷ synced ∷ []) [] 1 500 (λ n. n)
      (record { room = 1; queue = []; seen = []; alive = true })
      (joined-Replayable, (synced-Replayable, tt)) (inl refl) refl

abbrev empty_pipe : Pipe
empty_pipe = record { room = 1; queue = []; seen = []; alive = true }

-- The second command meets a full channel.
abbrev two_commands : List ConnCommand
two_commands = connect_command 7 0 ∷ connect_command 8 5 ∷ []

push_all-Heard_example : Heard pipe (push_all pipe (fresh pipe empty_pipe) two_commands)
push_all-Heard_example = push_all-Heard pipe empty_pipe two_commands refl refl
