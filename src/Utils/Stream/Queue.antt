-- ===== src/Utils/Stream/Queue.antt =====
-- What a stream promises: a queue of bytes, with the calls that its owner makes and what each
-- shows.
use pgr.Prelude.{
  ℕ, ◌+◌, ◌<◌, ◌^◌, ◌≡◌, refl, Option, some, List, [], ◌∷◌, ◌++◌, arith, Bytes, length, drop,
}
use pgr.Prelude.Panic.{◌>>=◌, Returns-some}
use pgr.Utils.Stream.{Stream, mark_read, mark_read_all, unread, write}
use pgr.Utils.Stream.Refine.{
  IsValid, Leaves, pending, unread-eq-pending, write_refines, mark_read_refines,
  mark_read_all_refines,
}

pub data Op : Type 0 where
  write_bytes : Bytes → Op
  read_some : ℕ → Op
  read_all : Op
  show : Op

-- What the calls show of a queue: one block of bytes for each `show`.
unfoldable pub run_queue : Bytes → List Op → List Bytes
run_queue q [] = []
run_queue q (write_bytes bs ∷ ops) = run_queue (q ++ bs) ops
run_queue q (read_some n ∷ ops) = run_queue (drop n q) ops
run_queue q (read_all ∷ ops) = run_queue [] ops
run_queue q (show ∷ ops) = q ∷ run_queue q ops

-- The same calls of a stream.
unfoldable pub run_stream : Stream → List Op → Option (List Bytes)
run_stream s [] = some []
run_stream s (write_bytes bs ∷ ops) = run_stream (write s bs) ops
run_stream s (read_some n ∷ ops) = mark_read s n >>= λ s'. run_stream s' ops
run_stream s (read_all ∷ ops) = mark_read_all s >>= λ s'. run_stream s' ops
run_stream s (show ∷ ops) = do shown ← unread s; later ← run_stream s ops; some (shown ∷ later)

-- The bytes that the calls write and ask to read.
abbrev pub traffic : List Op → ℕ
traffic [] = 0
traffic (write_bytes bs ∷ ops) = length bs + traffic ops
traffic (read_some n ∷ ops) = n + traffic ops
traffic (_ ∷ ops) = traffic ops

-- As long as fewer than 2^64 bytes pass, every sequence of writes, partial reads, full reads and
-- looks at a valid stream shows what a queue of its pending bytes shows, and panics nowhere.
pub run_stream-eq-run_queue :
    (ops : List Op) (s : Stream)
    → IsValid s
    → s.committed_offset + traffic ops < 2 ^ 64
    → run_stream s ops ≡ some (run_queue (pending s) ops)
unfolding run_stream run_queue
run_stream-eq-run_queue [] s v h = refl
run_stream-eq-run_queue (write_bytes bs ∷ ops) s v h =
    let (v', e, t) = write_refines {s = s} bs v (omega arith) in
    rw (run_stream-eq-run_queue ops (write s bs) v' (omega (arith, t)), e)
run_stream-eq-run_queue (read_some n ∷ ops) s v h =
    let (s', e, l) =
      Returns-some (Leaves s (drop n (pending s))) (mark_read s n)
        (mark_read_refines n v (omega arith)) in
    rw (e, run_stream-eq-run_queue ops s' l.valid (omega (arith, l.total)), l.bytes)
run_stream-eq-run_queue (read_all ∷ ops) s v h =
    let (s', e, l) = Returns-some (Leaves s []) (mark_read_all s) (mark_read_all_refines v) in
    rw (e, run_stream-eq-run_queue ops s' l.valid (omega (arith, l.total)), l.bytes)
run_stream-eq-run_queue (show ∷ ops) s v h =
    rw (unread-eq-pending v, run_stream-eq-run_queue ops s v h)
