-- ===== src/Analyzer.antt =====
-- src/analyzer.rs: the files of an analysed replay. The arithmetic of f32 is left open: `F32` holds
-- the operations that the code uses.
pub mod Storage
pub mod Client
pub mod Analyze
use pgr.Prelude.{ℕ, ◌-◌, ◌^◌, List, Bytes}
use pgr.Prelude.Maps.{Map}

-- The f32 operations: `(a / b) as usize`, `a.max(b)`, `to_le_bytes` (by the 32 bits), and an integer
-- divided by 1e6 or 1e3.
pub record F32 : Type 1 where
  pub Carrier : Type 0
  pub zero : Carrier
  pub bits : Carrier → ℕ
  pub div_as_usize : Carrier → Carrier → ℕ
  pub max : Carrier → Carrier → Carrier
  pub div_1e6 : ℕ → Carrier
  pub div_1e3 : ℕ → Carrier

-- `NO_PARAMS`
abbrev pub no_params : ℕ
no_params = 2 ^ 64 - 1

pub record TraceRow (F : F32) : Type 0 where
  pub query_offset : ℕ
  pub params_offset : ℕ
  pub ts_secs : F.Carrier
  pub client_id : ℕ
  pub duration_ms : F.Carrier
  pub event_type : ℕ

-- The three writers hold the bytes written so far. The folder is that of the files.
pub record StorageWriter (F : F32) : Type 0 where
  pub queries : Bytes
  pub params : Bytes
  pub traces : Bytes
  pub query_offset : ℕ
  pub params_offset : ℕ
  pub query_map : Map ℕ ℕ
  pub chunk_secs : F.Carrier
  pub chunks : List (F.Carrier × ℕ)
  pub trace_row_count : ℕ
