-- ===== src/Utils/Stream.antt =====
-- `Stream` of src/utils.rs: bytes are appended at the end and read from the front; a read prefix
-- is garbage until it is longer than the threshold. Offsets count from the first byte ever
-- written.
pub mod Refine
pub mod Queue
use pgr.Prelude.{
  ℕ, ◌+◌, Bool, Option, none, some, List, [], ◌++◌, Bytes, add64, sub64, length, take, drop, slice,
  min, ltb, leb, if◌then◌else◌,
}
use pgr.Prelude.Panic.{◌>>=◌}

-- `buf` is the field `data`.
pub record Stream : Type 0 where
  pub buf : Bytes
  pub compact_threshold : ℕ
  pub data_offset : ℕ
  pub read_offset : ℕ
  pub committed_offset : ℕ

unfoldable pub new : ℕ → Stream
new compact_threshold = record {
  buf = [];
  compact_threshold = compact_threshold;
  data_offset = 0;
  read_offset = 0;
  committed_offset = 0;
}

-- `v.copy_within(from.., 0)` panics if `from` is past the end.
unfoldable pub copy_to_front : Bytes → ℕ → Option Bytes
copy_to_front v from =
    if leb from (length v) then some (drop from v ++ drop (sub64 (length v) from) v) else none

unfoldable pub compact : Stream → Option Stream
unfolding copy_to_front
compact s =
    let garbage_size = sub64 s.read_offset s.data_offset in
    if ltb s.compact_threshold garbage_size
    then (do
      let remaining = sub64 (length s.buf) garbage_size
      moved ← copy_to_front s.buf garbage_size
      some (record s { buf = take remaining moved; data_offset = s.read_offset }))
    else some s

unfoldable pub mark_read : Stream → ℕ → Option Stream
unfolding compact
mark_read s n =
    compact
      (record s { read_offset = min (add64 s.read_offset n) (add64 s.data_offset (length s.buf)) })

unfoldable pub mark_read_all : Stream → Option Stream
unfolding compact
mark_read_all s = compact (record s { read_offset = s.committed_offset })

-- `data()`
unfoldable pub unread : Stream → Option Bytes
unread s = slice s.buf (sub64 s.read_offset s.data_offset) (sub64 s.committed_offset s.data_offset)

unfoldable pub write : Stream → Bytes → Stream
write s bytes = record s {
  buf = s.buf ++ bytes;
  committed_offset = add64 s.data_offset (length (s.buf ++ bytes));
}
