-- ===== src/Trace.antt =====
-- src/trace_reader.rs: the records of a trace file.
pub mod RoundTrip
use pgr.Prelude.{ℕ, ◌∷◌, [], Bytes, from_le}
use pgr.Prelude.Io.{Reader, ◌>>=◌, pure, read_exact}
use pgr.Capture.{ClientId}

pub record TraceData : Type 0 where
  pub id : ClientId
  pub frame_index : ℕ
  pub duration_us : ℕ
  pub event_type : ℕ

-- The reader is the bytes that are left; a buffer of one byte is that number.
unfoldable pub next : Reader TraceData
next = do
  id_buf ← read_exact 4
  index_buf ← read_exact 4
  duration_buf ← read_exact 4
  type_buf ← read_exact 1
  pure (record {
    id = from_le id_buf;
    frame_index = from_le index_buf;
    duration_us = from_le duration_buf;
    event_type = from_le type_buf;
  })
