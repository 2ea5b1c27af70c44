-- ===== src/Utils/Stats.antt =====
-- `ReplayStats` of src/utils.rs: three shared counters. Each is changed by atomic operations,
-- and `log_send` is two of them.
pub mod Threads
use pgr.Prelude.{ℕ, add64}

pub record ReplayStats : Type 0 where
  pub total_req : ℕ
  pub delta_req : ℕ
  pub delta_recv : ℕ

unfoldable pub new : ReplayStats
new = record { total_req = 0; delta_req = 0; delta_recv = 0 }

-- `fetch_add` wraps around.
unfoldable pub add_total : ReplayStats → ReplayStats
add_total s = record s { total_req = add64 s.total_req 1 }

unfoldable pub add_delta : ReplayStats → ReplayStats
add_delta s = record s { delta_req = add64 s.delta_req 1 }

-- The two additions of `log_send`, where no other thread counts or reads between them.
unfoldable pub log_send : ReplayStats → ReplayStats
log_send s = add_delta (add_total s)

unfoldable pub log_recv : ReplayStats → ReplayStats
log_recv s = record s { delta_recv = add64 s.delta_recv 1 }

unfoldable pub read_total_sent : ReplayStats → ℕ
read_total_sent s = s.total_req

-- `swap(0)`
unfoldable pub read_delta_sent : ReplayStats → ℕ × ReplayStats
read_delta_sent s = (s.delta_req, record s { delta_req = 0 })

unfoldable pub read_delta_recv : ReplayStats → ℕ × ReplayStats
read_delta_recv s = (s.delta_recv, record s { delta_recv = 0 })
