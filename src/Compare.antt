-- ===== src/Compare.antt =====
-- src/compare.rs: the times of a capture against those of its replay. An i64 is its 64 bits. What is
-- only logged, such as averages as floating-point numbers, is left out.
pub mod Pairing
pub mod Counts
pub mod Loop
pub mod Sum
pub mod Total
use pgr.Prelude.{
  ℕ, suc, zero, ◌+◌, ◌-◌, ◌<◌, ◌^◌, Bool, true, false, not, Option, none, some, List, [], ◌∷◌, ◌++◌,
  Bytes, from_le, add64, sub64, max, ltb, ◌==◌, take, drop, length, leb, if◌then◌else◌,
}
use pgr.Prelude.Maps.{Map, entry, insert, ℕ_key}
use pgr.Prelude.Io.{
  IoError, unexpected_eof, invalid_data, Result, ok, err, Reader, ◌>>=◌, pure, read_exact,
}
use pgr.Capture.{
  ClientId, ClientEvent, lsn, connect, disconnect, simple_query, parse, bind, execute, sync, tx_end,
  close, CaptureMessage, msg_connect, msg_disconnect, msg_simple_query, msg_parse, msg_bind,
  msg_execute, msg_sync, msg_close,
}
use pgr.Capture.Reader.{CaptureReader, read_event}

pub record TimingData : Type 0 where
  pub id : ClientId
  pub event_type : ℕ
  pub ts : ℕ

-- The bytes of a record's buffer, taken apart.
abbrev pub timing_of : Bytes → TimingData
timing_of buf = record {
  id = from_le (take 4 buf);
  event_type = from_le (take 1 (drop 4 buf));
  ts = from_le (take 8 (drop 5 buf));
}

-- The end of the file, also inside a record, is no record.
abbrev pub timing_result : Result (Bytes × Bytes) → Result (Option (TimingData × Bytes))
timing_result (ok (buf, rest)) = ok (some (timing_of buf, rest))
timing_result (err unexpected_eof) = ok none
timing_result (err invalid_data) = err invalid_data

-- `TimingReader::next`; the reader is the bytes that are left.
unfoldable pub next : Bytes → Result (Option (TimingData × Bytes))
next file = timing_result (read_exact 13 file)

pub record Dev : Type 0 where
  pub count : ℕ
  pub sum_us : ℕ
  pub max_us : ℕ

abbrev no_dev : Dev
no_dev = record { count = 0; sum_us = 0; max_us = 0 }

unfoldable pub add : Dev → ℕ → Dev
add d v = record { count = add64 d.count 1; sum_us = add64 d.sum_us v; max_us = max d.max_us v }

-- A time of the capture and one of the replay.
abbrev pub Pair : Type 0
Pair = ℕ × ℕ

-- The fields of `TypeStats` stand in the client's statistics.
pub record ClientStats : Type 0 where
  pub cap : List (ℕ × ℕ × Bool)
  pub tim : List (ℕ × ℕ)
  pub anchor : Option Pair
  pub connect_us : Option ℕ
  pub disconnect : Option Pair
  pub early : Dev
  pub late : Dev
  pub matched : ℕ
  pub skipped : ℕ

-- `ClientStats::default`
abbrev pub default_stats : ClientStats
default_stats = record {
  cap = [];
  tim = [];
  anchor = none;
  connect_us = none;
  disconnect = none;
  early = no_dev;
  late = no_dev;
  matched = 0;
  skipped = 0;
}

-- How much longer the replay took between two pairs than the capture.
unfoldable pub dev : Pair → Pair → ℕ
dev p a = sub64 (sub64 p.1 a.1) (sub64 p.0 a.0)

unfoldable pub event_code : ClientEvent → Option ℕ
event_code (connect _) = some msg_connect
event_code disconnect = some msg_disconnect
event_code (simple_query _) = some msg_simple_query
event_code (parse _ _ _) = some msg_parse
event_code (bind _ _ _ _) = some msg_bind
event_code (execute _ _) = some msg_execute
event_code sync = some msg_sync
event_code (close _ _) = some msg_close
event_code (lsn _) = none
event_code (tx_end _ _ _) = none

-- A client with the first pair of connections, which all clients share.
abbrev pub World : Type 0
World = ClientStats × Option Pair

-- `get_or_insert`
abbrev or_insert : Option Pair → Pair → Pair
or_insert none p = p
or_insert (some o) p = o

-- A deviation counts as late or early by its sign.
unfoldable pub add_deviation : ClientStats → ℕ → ClientStats
add_deviation c d =
    if ltb d (2 ^ 63)
    then record c { late = add c.late d }
    else record c { early = add c.early (2 ^ 64 - d) }

-- The match on the code of a pair.
unfoldable pub record_pair : World → ℕ → Bool → Pair → World
record_pair (c, origin) code restore p =
    if code == msg_connect
    then (
      record c { connect_us = some (dev p (or_insert origin p)); anchor = some p },
      some (or_insert origin p),
    )
    else if code == msg_disconnect
    then (record c { disconnect = some p }, origin)
    else if restore
    then (record c { anchor = some p }, origin)
    else (
      add_deviation (record c { anchor = some (or_insert c.anchor p) })
          (dev p (or_insert c.anchor p)),
      origin,
    )

unfoldable pub match_pair : World → ℕ → Bool → Pair → World
match_pair w code restore p =
    let (c, origin) = record_pair w code restore p in
    (record c { matched = add64 c.matched 1 }, origin)

abbrev pub skip : World → World
skip (c, origin) = (record c { skipped = add64 c.skipped 1 }, origin)

-- The loop of `drain` over the two queues, which are put back into the client at its end.
abbrev pub put_back : World → List (ℕ × ℕ × Bool) → List (ℕ × ℕ) → World
put_back (c, origin) cap tim = (record c { cap = cap; tim = tim }, origin)

unfoldable pub drain_loop : List (ℕ × ℕ × Bool) → List (ℕ × ℕ) → World → World
drain_loop [] tim w = put_back w [] tim
drain_loop (e ∷ cap) [] w = put_back w (e ∷ cap) []
drain_loop ((ct, cts, restore) ∷ cap) ((tt', tts) ∷ tim) w =
    let skipped = drain_loop cap ((tt', tts) ∷ tim) (skip w) in
    let matched = drain_loop cap tim (match_pair w ct restore (cts, tts)) in
    if not (ct == tt') then skipped else matched

unfoldable pub drain : World → World
drain (c, origin) = drain_loop c.cap c.tim (c, origin)
