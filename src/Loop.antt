-- ===== src/Loop.antt =====
-- src/loop.rs: the commands that the manager hands to the replay loop, and the loop.
pub mod Env
pub mod Slots
pub mod Sockets
pub mod State
pub mod Dispatch
use pgr.Prelude.{ℕ, ◌-◌, ◌^◌, Bytes}
use pgr.Capture.{ClientId}

pub data CmdKind : Type 0 where
  connect : CmdKind
  send : (tag : ℕ) (payload : Bytes) → CmdKind
  end : CmdKind

pub record ConnCommand : Type 0 where
  pub id : ClientId
  pub ts : ℕ
  pub kind : CmdKind

unfoldable pub connect_command : ClientId → ℕ → ConnCommand
connect_command id ts = record { id = id; ts = ts; kind = connect }

unfoldable pub send_command : ClientId → ℕ → ℕ → Bytes → ConnCommand
send_command id ts tag payload = record { id = id; ts = ts; kind = send tag payload }

abbrev pub horizon_us : ℕ
horizon_us = 1000000

abbrev pub idle_poll_us : ℕ
idle_poll_us = 5000

abbrev pub read_buf_size : ℕ
read_buf_size = 65536

-- The largest usize, which no client's number reaches.
abbrev pub waker_token : ℕ
waker_token = 2 ^ 64 - 1
