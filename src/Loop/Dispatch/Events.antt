-- ===== src/Loop/Dispatch/Events.antt =====
-- `handle_event` and a round of `run` of src/loop.rs. `poll` and its interruptions are left to the
-- caller: a round is given the events that it returned.
use pgr.Prelude.{
  ℕ, ◌%◌, ◌^◌, Bool, true, false, ◌&&◌, ◌||◌, not, Option, none, some, List, [], ◌∷◌, Bytes, ◌==◌,
  if◌then◌else◌,
}
use pgr.Prelude.Panic.{◌>>=◌}
use pgr.Capture.{ClientId}
use pgr.Client.{SocketAddr, on_connected}
use pgr.Loop.{waker_token}
use pgr.Loop.Env.{Env, PeerResult, peer, not_connected, unknown}
use pgr.Loop.Slots.{Connection, Slot, Slots, get}
use pgr.Loop.Sockets.{Live, read_conn, flush_conn}
use pgr.Loop.State.{ReplayLoop, now_us, catch_up, pull, next_timeout, finish_clients}
use pgr.Loop.Dispatch.{put_conn, drop_slot, remove_if_dead, try_dispatch, dispatch_ready}

-- The token, `Token(id as usize)`, and the flags of an event.
pub record Event : Type 0 where
  pub token : ℕ
  pub writable : Bool
  pub error : Bool
  pub write_closed : Bool

module _ (md5_hex : Bytes → Bytes) (env : Env) where
  open env use {State, take_error, peer_addr, local_addr}

  -- Whether the socket has connected: not yet, or a failure, or the connection.
  pub data Connecting : Type 0 where
    pending : State → Connecting
    failed : State → Connecting
    done : Connection → State → Connecting

  abbrev address : SocketAddr → Option SocketAddr → SocketAddr
  address fallback none = fallback
  address fallback (some addr) = addr

  abbrev finish_connect : Connection → SocketAddr → Option SocketAddr × State → Connecting
  finish_connect conn fallback (addr, s) =
      done
        (record conn {
          client = on_connected conn.client (address fallback addr);
          connected = true;
        })
        s

  abbrev with_peer : ClientId → Connection → SocketAddr → PeerResult × State → Connecting
  with_peer id conn fallback (peer, s) = finish_connect conn fallback (local_addr s id)
  with_peer id conn fallback (not_connected, s) = pending s
  with_peer id conn fallback (unknown, s) = failed s

  abbrev with_error : ClientId → Connection → SocketAddr → Bool × State → Connecting
  with_error id conn fallback (true, s) = failed s
  with_error id conn fallback (false, s) = with_peer id conn fallback (peer_addr s id)

  unfoldable pub check_connect : Event → ClientId → Connection → SocketAddr → State → Connecting
  check_connect event id conn fallback s =
      if conn.connected
      then done conn s
      else if event.writable || (event.error || event.write_closed)
      then with_error id conn fallback (take_error s id)
      else pending s

  -- An answer to the client's request frees its queue.
  abbrev answered : ReplayLoop env → ClientId → ℕ → Slot → Live md5_hex env → ReplayLoop env
  answered l id now slot (conn, stats, s) =
      if conn.client.rfq
      then put_conn md5_hex env l id
          (record slot { awaiting = false; rebase = true; ready_at = now })
          (record conn { client = record conn.client { rfq = false } }, stats, s)
      else put_conn md5_hex env l id slot (conn, stats, s)

  abbrev go_on : ClientId → ℕ → Bool × ReplayLoop env → Option (ReplayLoop env)
  go_on id now (true, l) = some l
  go_on id now (false, l) = try_dispatch md5_hex env l id now

  abbrev serve : ℕ → ReplayLoop env → ClientId → ℕ → Slot → Connecting → Option (ReplayLoop env)
  serve rounds l id now slot (pending s) = some (record l { env_state = s })
  serve rounds l id now slot (failed s) =
      some (drop_slot md5_hex env (record l { env_state = s }) id)
  serve rounds l id now slot (done conn s) =
      read_conn md5_hex env rounds id (conn, l.stats, s) >>= λ live.
      flush_conn md5_hex env id live >>= λ live'.
      go_on id now (remove_if_dead md5_hex env (answered l id now slot live') id)

  abbrev event_slot :
      ℕ → ReplayLoop env → Event → ClientId → ℕ → Option Slot → Option (ReplayLoop env)
  event_slot rounds l event id now none = some l
  event_slot rounds l event id now (some slot) = elim slot.conn [
    | none ↦ some l
    | some conn ↦
        serve rounds l id now slot (check_connect event id conn l.config.server l.env_state)
  ]

  unfoldable pub handle_event : ℕ → ReplayLoop env → Event → Option (ReplayLoop env)
  handle_event rounds l event =
      let (now, l') = now_us env l in
      let l'' = catch_up env l' now in
      if event.token == waker_token
      then some l
      else (let id = event.token % 2 ^ 32 in event_slot rounds l'' event id now (get id l''.slots))

  unfoldable pub handle_events : ℕ → ReplayLoop env → List Event → Option (ReplayLoop env)
  handle_events rounds l [] = some l
  handle_events rounds l (event ∷ events) =
      handle_event rounds l event >>= λ l'. handle_events rounds l' events

  abbrev finished : ReplayLoop env → Bool
  finished l = l.rx_closed && (elim l.lookahead [ none ↦ true | some c ↦ false ] && not l.ended)

  abbrev no_slots : Slots → Bool
  no_slots [] = true
  no_slots (s ∷ slots) = false

  -- The loop that a round of `run` leaves, and whether the round is the last one. `rounds` is how often
  -- the loops over the channel and over a socket go on.
  unfoldable pub run_round : ℕ → ReplayLoop env → List Event → Option (Bool × ReplayLoop env)
  run_round rounds l events = pull env rounds l >>= λ l0.
      handle_events rounds (next_timeout env l0).1 events >>= λ l1. pull env rounds l1 >>= λ l1'.
      dispatch_ready md5_hex env l1' >>= λ l2.
      let l3 = if finished l2 then finish_clients env l2 else l2 in
      some (l3.ended && no_slots l3.slots, l3)
