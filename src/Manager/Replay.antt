-- ===== src/Manager/Replay.antt =====
-- `emit` and the loop of `replay` of src/manager.rs. The thread that prints the counters and the
-- replay loop's thread are left out: the channel stands between them and this code.
pub mod Deliver
use pgr.Prelude.{
  ℕ, zero, suc, ◌-◌, max, Bool, true, false, Option, none, some, Bytes, if◌then◌else◌,
}
use pgr.Prelude.Panic.{◌>>=◌}
use pgr.Prelude.Io.{Result, ok, err}
use pgr.Capture.{ClientId, ClientEvent, connect, CaptureMessage}
use pgr.Capture.Reader.{CaptureReader, read_event}
use pgr.Loop.{connect_command, send_command}
use pgr.Manager.{event_frame}
use pgr.Manager.Channel.{Channel, Sink, wake_up, push}

-- The time of a message since the start of the capture, and never before the last one.
-- `scaled us` is `(us as f64 / speed) as u64`.
unfoldable pub relative : (ℕ → ℕ) → ℕ → ℕ → ℕ → ℕ
relative scaled base last ts = max (scaled (ts - base)) last

module _ (ch : Channel) where
  abbrev push_connect : ClientEvent → ClientId → ℕ → Sink ch → Sink ch
  push_connect (connect _) id ts out = push ch out (connect_command id ts)
  push_connect _ id ts out = out

  abbrev push_frame : Option (ℕ × Bytes) → ClientId → ℕ → Sink ch → Sink ch
  push_frame none id ts out = out
  push_frame (some (tag, bytes)) id ts out = push ch out (send_command id ts tag bytes)

  unfoldable pub emit : CaptureMessage → ℕ → Sink ch → Option (Sink ch)
  emit msg ts out = event_frame msg.event >>= λ f.
      some (push_frame f msg.id ts (push_connect msg.event msg.id ts out))

  -- A round of the loop: `later` handles the message and goes on.
  abbrev pub while_ok :
      Bool
      → Sink ch
      → Result (Option (CaptureMessage × CaptureReader))
      → (CaptureMessage → CaptureReader → Option (Sink ch))
      → Option (Sink ch)
  while_ok false out r later = some out
  while_ok true out (ok none) later = some out
  while_ok true out (err e) later = some out
  while_ok true out (ok (some (msg, reader))) later = later msg reader

  -- The loop of `replay`, with a round for each message that is read.
  unfoldable pub replay_loop : ℕ → (ℕ → ℕ) → CaptureReader → ℕ → ℕ → Sink ch → Option (Sink ch)
  replay_loop zero scaled reader base last out = some out
  replay_loop (suc fuel) scaled reader base last out =
      while_ok out.ok out (read_event reader) (λ msg reader'.
        let rel = relative scaled base last msg.ts in
        emit msg rel out >>= λ out'. replay_loop fuel scaled reader' base rel out')

  unfoldable pub replay : ℕ → (ℕ → ℕ) → CaptureReader → Sink ch → Option (Sink ch)
  replay fuel scaled reader out =
      replay_loop fuel scaled reader reader.start_ts 0 out >>= λ out'. some (wake_up ch out')
