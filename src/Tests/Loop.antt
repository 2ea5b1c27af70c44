-- ===== src/Tests/Loop.antt =====
-- Tests of the sockets of src/loop.rs.
use pgr.Prelude.{◌+◌, ◌<◌, ◌^◌, refl, true, [], ◌∷◌, arith, length}
use pgr.Utils.Stream
use pgr.Utils.Stats
use pgr.Loop.Slots.{Connection}
use pgr.Prelude.Panic.{Returns}
use pgr.Utils.Stream.Refine.{IsValid, pending}
use pgr.Loop.Sockets.Flush.{Sent, flush_conn-Sent}
use pgr.Loop.Sockets.Received.{Pauses, now, later, Received, read_conn-Received}
use pgr.Loop.Sockets.{flush_conn, read_conn}
use pgr.Tests.Sim.{give, Sim, sim, hex, client}

-- A server's byte that is pending, and room for two writes.
abbrev busy : Sim
busy = record { clock = 0; incoming = []; bytes = b'Z' ∷ []; writes = 2; handed = []; written = [] }

abbrev live_conn : Connection
live_conn = record {
  client = client;
  write_stream = Stream.write (Stream.new 4) (1 ∷ 2 ∷ []);
  connected = true;
}

-- The socket gives a byte and then none.
busy-Pauses : Pauses hex sim 7 1 busy
busy-Pauses = later 0 busy (now 0 (give busy busy.bytes).1 tt)

read_conn-Received_example :
    Received hex sim 7 live_conn Stats.new busy (read_conn hex sim 2 7 (live_conn, Stats.new, busy))
read_conn-Received_example =
    read_conn-Received hex sim 7 2 1 live_conn Stats.new busy busy-Pauses (omega arith)

-- A connection with bytes in its write stream and in its outbox, and room for one write.
abbrev full_conn : Connection
full_conn = record {
  client = record client { outbox = Stream.write (Stream.new 4) (3 ∷ []) };
  write_stream = Stream.write (Stream.new 4) (1 ∷ 2 ∷ []);
  connected = true;
}

full_conn-IsValid :
    IsValid full_conn.write_stream
    × IsValid full_conn.client.outbox
    × (full_conn.write_stream.committed_offset + length (pending full_conn.client.outbox) < 2 ^ 64)
unfolding Stream.write Stream.new pending
full_conn-IsValid = (omega arith, omega arith, omega arith)

flush_conn-Sent_example :
    Returns (Sent hex sim 7 full_conn busy) (flush_conn hex sim 7 (full_conn, Stats.new, busy))
flush_conn-Sent_example =
    flush_conn-Sent hex sim 7 full_conn Stats.new busy refl full_conn-IsValid.0 full_conn-IsValid.1
      full_conn-IsValid.2
