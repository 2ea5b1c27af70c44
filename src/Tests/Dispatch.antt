-- ===== src/Tests/Dispatch.antt =====
-- Tests of the dispatching of src/loop.rs.
use pgr.Prelude.{
  to_be, ◌≢◌, ap, sym, take, take-all, ℕ, zero, suc, ◌+◌, ◌-◌, ◌≤◌, ◌<◌, ◌^◌, ◌≡◌, refl, inl, inr,
  Bool, true, false, Option, none, some, List, [], ◌∷◌, ◌++◌, arith, Bytes, length, codes,
}
use pgr.Utils.Stream
use pgr.Client.{replay_frame, send_frame, read_outbox, clear_outbox}
use pgr.Loop.{ConnCommand, connect_command, send_command}
use pgr.Loop.Slots.{Slot, get, blocked}
use pgr.Loop.State.{pull_loop, ReplayLoop, now_us, catch_up}
use pgr.Loop.State
use pgr.Loop.Dispatch.{
  dispatch_ready, dispatch_loop, try_dispatch, try_dispatch_loop, turn, execute, remove_if_dead,
  drop_slot,
}
use pgr.Loop.Dispatch.Order.{waiting}
use pgr.Loop.Dispatch.Order.Runs.{Runs, stopped, ran, Fifo}
use pgr.Loop.Dispatch.Safe.Execute.{Safe}
use pgr.Loop.Dispatch.Safe.Loops.{try_dispatch-Fifo}
use pgr.Loop.Dispatch.Order.Requests.{requests_wait}
use pgr.Loop.Dispatch.Timing.{InBounds, Settled}
use pgr.Loop.Dispatch.Safe.Ready.{AllSafe, dispatch_ready-Settled}
use pgr.Prelude.{Bool-cases, ◌==◌, subst, inl}
use pgr.Utils.Stream.Refine.{new-IsValid, pending}
use pgr.Loop.Sockets.{flush_conn, move_outbox, flush_loop}
use pgr.Tests.Sim.{sim, hex, config, sync_command, query_command, slot, start}

abbrev or_start : Option (ReplayLoop sim) → ReplayLoop sim
or_start none = start
or_start (some l) = l

abbrev after : ReplayLoop sim
after = or_start (try_dispatch hex sim start 7 100)

after-try : try_dispatch hex sim start 7 100 ≡ some after
unfolding try_dispatch try_dispatch_loop turn execute flush_conn move_outbox flush_loop
    remove_if_dead drop_slot replay_frame send_frame read_outbox clear_outbox connect_command
    send_command blocked State.new Stream.unread pgr.Prelude.slice Stream.write Stream.new
    Stream.mark_read_all Stream.mark_read
after-try = refl

start-Safe : Safe hex sim 7 config 0 start
unfolding State.new Stream.new pending connect_command send_command pgr.Proto.encode_startup
    pgr.Proto.startup_params to_be pgr.Prelude.Decimal.decimal
start-Safe = record {
  same = refl;
  room = (
    record {
      outbox = new-IsValid 65536;
      stream = new-IsValid 65536;
      outbox_room = omega arith;
      stream_room = omega arith;
    },
    omega arith,
  );
}

try_dispatch-Fifo_example :
    (l' : ReplayLoop sim) × (try_dispatch hex sim start 7 100 ≡ some l')
    × (cs : List ConnCommand) × Runs hex sim 7 100 start cs l'
    × Fifo hex sim 7 100 slot.queue cs l'
try_dispatch-Fifo_example = try_dispatch-Fifo hex sim 7 config 100 start start-Safe

-- The same client when the sync is the first command.
abbrev sync_slot : Slot
sync_slot = record slot { queue = sync_command ∷ query_command ∷ [] }

abbrev sync_start : ReplayLoop sim
sync_start = record start { slots = (7, sync_slot) ∷ [] }

abbrev taken_slot : Slot
taken_slot = record sync_slot { queue = query_command ∷ []; rebase = false }

abbrev sync_taken : ReplayLoop sim
sync_taken = record sync_start { slots = (7, taken_slot) ∷ []; shift = 28; shift_max = 28 }

-- The connection after the sync.
abbrev sync_sent : ReplayLoop sim
sync_sent = or_start (execute hex sim sync_taken 7 sync_command)

abbrev or_slot : Option Slot → Slot
or_slot none = slot
or_slot (some s) = s

abbrev waiting_slot : Slot
waiting_slot = or_slot (get 7 sync_sent.slots)

sync-Runs : Runs hex sim 7 100 sync_start (sync_command ∷ []) sync_sent
unfolding try_dispatch try_dispatch_loop turn execute flush_conn move_outbox flush_loop
    remove_if_dead drop_slot replay_frame send_frame read_outbox clear_outbox connect_command
    send_command blocked State.new Stream.unread pgr.Prelude.slice Stream.write Stream.new
    Stream.mark_read_all Stream.mark_read
sync-Runs =
    ran sync_start sync_taken sync_sent sync_sent sync_command []
      (record {
        slot = sync_slot;
        found = refl;
        free = refl;
        rest = query_command ∷ [];
        front = refl;
        left = refl;
        changed = refl;
        due = inr (omega arith);
        shifted = refl;
        timers = refl;
        config = refl;
      })
      refl (stopped sync_sent sync_sent (waiting sync_sent waiting_slot refl refl))

requests_wait_example : ◌≡◌ {A = List ConnCommand} [] []
unfolding try_dispatch try_dispatch_loop turn execute flush_conn move_outbox flush_loop
    remove_if_dead drop_slot replay_frame send_frame read_outbox clear_outbox connect_command
    send_command blocked State.new Stream.unread pgr.Prelude.slice Stream.write Stream.new
    Stream.mark_read_all Stream.mark_read
requests_wait_example =
    requests_wait hex sim 7 100 sync_start sync_sent sync_slot sync_command [] refl refl sync-Runs

abbrev settled : ReplayLoop sim
settled = or_start (dispatch_ready hex sim start)

dispatched : dispatch_ready hex sim start ≡ some settled
unfolding try_dispatch try_dispatch_loop turn execute flush_conn move_outbox flush_loop
    remove_if_dead drop_slot replay_frame send_frame read_outbox clear_outbox connect_command
    send_command blocked State.new Stream.unread pgr.Prelude.slice Stream.write Stream.new
    Stream.mark_read_all Stream.mark_read dispatch_ready dispatch_loop now_us catch_up
dispatched = refl

start-InBounds : InBounds hex sim start
unfolding try_dispatch try_dispatch_loop turn execute flush_conn move_outbox flush_loop
    remove_if_dead drop_slot replay_frame send_frame read_outbox clear_outbox connect_command
    send_command blocked State.new Stream.unread pgr.Prelude.slice Stream.write Stream.new
    Stream.mark_read_all Stream.mark_read
start-InBounds = record {
  slots = ((omega arith, (omega arith, (omega arith, (omega arith, tt)))), tt);
  timers = (omega arith, tt);
  shift = omega arith;
}

start-AllSafe : AllSafe hex sim config start
start-AllSafe id = elim (Bool-cases (7 == id)) [
  | inl same ↦ subst (λ j. Safe hex sim j config 0 start) (ground arith) start-Safe
  | inr other ↦ record { same = start-Safe.same; room = rw other tt }
]

dispatch_ready-Settled_example :
    (l' : ReplayLoop sim) × (dispatch_ready hex sim start ≡ some l')
    × AllSafe hex sim config l'
    × InBounds hex sim l'
    × Settled hex sim (now_us sim start).0 l'
dispatch_ready-Settled_example =
    dispatch_ready-Settled hex sim config start start-InBounds start-AllSafe
