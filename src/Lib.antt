-- ===== src/Lib.antt =====
-- pgr replays captured load on a PostgreSQL server: it reads a capture file, turns its events into the
-- messages of the protocol, and sends these from one thread over one connection for each captured
-- client, at the captured times, but never before the server has answered.
--
-- The parts, in the order in which data goes through them, with the Rust files that they model:
--   Utf8, Prelude   what the code uses of the standard library: lossy UTF-8, words, decimal numbers,
--                   reading a file, code that may panic (an Option; none is the panic)
--   Capture         src/capture.rs: CaptureReader (Capture/Reader). Capture/Format describes the file
--                   format on its own; RoundTrip, Truncation and File are about whole messages,
--                   cut-off ones, and whole files
--   Manager         src/manager.rs: the frames of emit (Manager), the Sink over a channel
--                   (Manager/Channel), emit and the loop of replay (Manager/Replay)
--   Loop            src/loop.rs: the slots and timers (Loop/Slots), read_conn and flush_conn
--                   (Loop/Sockets), ReplayLoop with pull, enqueue, schedule and finish_clients
--                   (Loop/State), dispatch_ready, try_dispatch and execute (Loop/Dispatch),
--                   handle_event and a round of run (Loop/Dispatch/Events)
--   Client          src/client.rs: ReplayClient; Client/Reading is about the bytes of the server,
--                   Client/Session about the states, Client/Login about the log-in
--   Proto           src/proto.rs: frames and messages of the protocol
--   Analyzer        src/analyzer.rs: StorageWriter (Analyzer/Storage), AnalyzeClient (Analyzer/Client)
--                   and analyze (Analyzer/Analyze)
--   Trace           src/trace_reader.rs: TraceReader
--   Viewer          src/viewer.rs: the handlers over the files that the analyzer writes
--   Compare         src/compare.rs: drain (Compare), compare (Compare/Loop)
--   Dump            src/capture_dump.rs: the capture as comma-separated values
--   Commands        src/main.rs: the commands dump, compare and lsn
--   Utils           src/utils.rs: Stream (Utils/Stream) and ReplayStats (Utils/Stats);
--                   Utils/Stats/Threads has the threads that share these counters
--   Tests           runs and examples
--
-- The manager hands the commands to the loop through a channel; Manager/Channel has the sending end as
-- an interface, Loop/Env the receiving end, the clock and the sockets. The laws of these two records
-- are what the packages document and that signals interrupt a write finitely often, and Tests fills
-- both. The loop calls the client with the bytes that its socket gives and the frames that are due,
-- and writes what the client has put into its outbox.
--
-- After a replay, analyze reads the capture and the trace that the server has written, side by side, and
-- writes four files; the viewer serves pieces of them. Compare and dump read a capture on their own;
-- Commands opens and creates the files that these read and write.
-- Analyzer takes the operations on f32 as a record of functions and the hash of a text, which a package
-- computes, as a function.
--
-- Strings are their UTF-8 bytes. Unsigned integers are natural numbers with their wrap-around written
-- out, as release builds compute them; i32 and i64 are their bits. The map of slots is an association
-- list, the heap of timers a sorted list. What the code computes with floats is a function on
-- microseconds: the speed of the replay (Manager/Replay) and the catching up (Loop/State).
--
-- Loops have fuel: reading a file a round for each byte and one more; the loop of on_read one round
-- more than the buffer has bytes; try_dispatch one more than the queue is long; dispatch_ready one
-- more than there are timers; flush_conn one for each byte to be sent and each interruption by a
-- signal, and one more, as signals are taken to interrupt a write finitely often. In the source
-- read_conn and pull go on for as long as the peer or the manager does: they get a number of rounds,
-- and have no result (none) where it does not suffice. The loops of analyze, compare and dump have a
-- round for each byte of the file that they read, and one more.
--
-- Left out: logging, and averages in floating point that are only logged; threads and the reports of the
-- counters; polling; buffering of files; the web framework around the handlers of src/viewer.rs; of
-- src/main.rs the parsing of arguments and the commands replay, analyze and view, which start threads or
-- a server; the extension of the server, which is written in C. Which file a path leads to, by links or
-- other spellings, is a function of the disk. A dump that overwrites its own input is not modelled as
-- such: a file is read as it stood when it was opened.
pub mod Prelude
pub mod Utils
pub mod Utf8
pub mod Capture
pub mod Proto
pub mod Analyzer
pub mod Client
pub mod Commands
pub mod Compare
pub mod Dump
pub mod Loop
pub mod Manager
pub mod Trace
pub mod Viewer
pub mod Tests
