-- ===== src/Tests/Utils.antt =====
-- Tests of src/utils.rs and of the text conversion.
use pgr.Prelude.{◌%◌, ◌+◌, ◌^◌, ◌≡◌, refl, some, List, [], ◌∷◌, arith, drop}
use pgr.Prelude.Panic.{Returns}
use pgr.Utils.Stream
use pgr.Utils.Stream.{Stream, mark_read}
use pgr.Utils.Stream.Refine.{Leaves, pending, new-IsValid, mark_read_refines}
use pgr.Utils.Stream.Queue.{
  Op, write_bytes, read_some, read_all, show, run_stream, run_queue, run_stream-eq-run_queue,
}
use pgr.Utils.Stats
use pgr.Utils.Stats.{read_total_sent, read_delta_sent, read_delta_recv, log_send}
use pgr.Utils.Stats.Threads.{
  send, recv, delta_sent, to_total, to_delta, to_received, reading, Interleaved, done, left, right,
  count_atoms, read_atoms, run, nothing_read, counts_add_up,
}

-- The read of three bytes passes the threshold of two, so the stream is compacted.
abbrev script : List Op
script =
    write_bytes (1 ∷ 2 ∷ 3 ∷ 4 ∷ [])
    ∷ read_some 3
    ∷ show
    ∷ write_bytes (5 ∷ [])
    ∷ show
    ∷ read_all
    ∷ show
    ∷ []

shown : run_queue [] script ≡ (4 ∷ []) ∷ (4 ∷ 5 ∷ []) ∷ [] ∷ []
unfolding run_queue
shown = refl

run_stream-eq-run_queue_example :
    run_stream (Stream.new 2) script ≡ some (run_queue (pending (Stream.new 2)) script)
unfolding Stream.new
run_stream-eq-run_queue_example =
    run_stream-eq-run_queue script (Stream.new 2) (new-IsValid 2) (omega arith)

abbrev four_bytes : Stream
four_bytes = record {
  buf = 1 ∷ 2 ∷ 3 ∷ 4 ∷ [];
  compact_threshold = 2;
  data_offset = 0;
  read_offset = 0;
  committed_offset = 4;
}

mark_read_refines_example :
    Returns (Leaves four_bytes (drop 3 (pending four_bytes))) (mark_read four_bytes 3)
mark_read_refines_example = mark_read_refines {s = four_bytes} 3 (omega arith) (omega arith)

-- A reading comes between the two additions of the first request.
torn-Interleaved :
    Interleaved
      (count_atoms (send ∷ recv ∷ send ∷ []))
      (read_atoms (delta_sent ∷ []))
      (to_total ∷ reading delta_sent ∷ to_delta ∷ to_received ∷ to_total ∷ to_delta ∷ [])
torn-Interleaved =
    left _ _ _ _ (right _ _ _ _ (left _ _ _ _ (left _ _ _ _ (left _ _ _ _ (left _ _ _ _ done)))))

counts_add_up_example :
    let (s, r) =
      run
        (Stats.new, nothing_read)
        (to_total ∷ reading delta_sent ∷ to_delta ∷ to_received ∷ to_total ∷ to_delta ∷ []) in
    (read_total_sent s ≡ 2 % 2 ^ 64)
    × ((r.sent + (read_delta_sent s).0) % 2 ^ 64 ≡ 2 % 2 ^ 64)
    × ((r.received + (read_delta_recv s).0) % 2 ^ 64 ≡ 1 % 2 ^ 64)
    × (run (s, r) (count_atoms (send ∷ [])) ≡ (log_send s, r))
counts_add_up_example = counts_add_up (send ∷ recv ∷ send ∷ []) (delta_sent ∷ []) _ torn-Interleaved
