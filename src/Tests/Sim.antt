-- ===== src/Tests/Sim.antt =====
-- A small environment for the tests of src/loop.rs, and a loop with one client.
use pgr.Prelude.{
  ◌≢◌, ap, sym, take, take-all, ℕ, zero, suc, ◌≤◌, ◌<◌, ◌≡◌, refl, true, false, none, some, List,
  [], ◌∷◌, ◌++◌, arith, Bytes, length, codes,
}
use pgr.Utils.Stream
use pgr.Utils.Stats
use pgr.Client.{ReplayConfig, ReplayClient, normal}
use pgr.Loop.{ConnCommand, send_command}
use pgr.Loop.Env.{Env, Recv, received, empty, ReadResult, got, WriteResult, wrote, peer}
use pgr.Loop.Slots.{Slot}
use pgr.Loop.State.{pull_loop, ReplayLoop, now_us, catch_up}
use pgr.Loop.State

-- A clock that stands, a channel that holds some commands, and sockets that give single bytes and take
-- all that is written while `writes` lasts.
pub record Sim : Type 0 where
  pub clock : ℕ
  pub incoming : List ConnCommand
  pub bytes : List ℕ
  pub writes : ℕ
  pub handed : Bytes
  pub written : Bytes

abbrev pub receive : Sim → List ConnCommand → Recv × Sim
receive s [] = (empty, s)
receive s (c ∷ cs) = (received c, record s { incoming = cs })

abbrev pub give : Sim → List ℕ → ReadResult × Sim
give s [] = (ReadResult.would_block, s)
give s (b ∷ bs) = (got (b ∷ []), record s { bytes = bs; handed = s.handed ++ b ∷ [] })

abbrev pub accept : Sim → Bytes → ℕ → WriteResult × Sim
accept s bs zero = (WriteResult.would_block, s)
accept s bs (suc n) = (wrote (length bs), record s { writes = n; written = s.written ++ bs })

pub give_size : (s : Sim) (bs : Bytes) (q : List ℕ) → (give s q).0 ≡ got bs → length bs ≤ 65536
give_size s [] q e = omega arith
give_size s (b ∷ []) q e = omega arith
give_size s (b ∷ c ∷ bs) [] e = absurd (cc e)
give_size s (b ∷ c ∷ bs) (x ∷ q) e = absurd (cc e)

first_bytes : Bytes → ReadResult → Bytes
first_bytes d (got bs) = bs
first_bytes d _ = d

pub give_gives :
    (s : Sim) (bs : Bytes) (q : List ℕ)
    → (give s q).0 ≡ got bs
    → (give s q).1.handed ≡ s.handed ++ bs
unfolding first_bytes
give_gives s bs [] e = absurd (cc e)
give_gives s bs (b ∷ q) e = ap (λ (l : Bytes). s.handed ++ l) (ap (first_bytes []) e)

pub give_refused :
    (s : Sim) (q : List ℕ) → ((bs : Bytes) → (give s q).0 ≢ got bs) → (give s q).1.handed ≡ s.handed
give_refused s [] h = refl
give_refused s (b ∷ q) h = absurd (h (b ∷ []) refl)

pub accept-interrupted :
    (s : Sim) (bs : Bytes) (n : ℕ) → (accept s bs n).0 ≡ WriteResult.interrupted → 0 < 0
accept-interrupted s bs zero e = absurd (cc e)
accept-interrupted s bs (suc n) e = absurd (cc e)

pub accept_size : (s : Sim) (bs : Bytes) (m n : ℕ) → (accept s bs n).0 ≡ wrote m → m ≤ length bs
accept_size s bs m zero e = absurd (cc e)
accept_size s bs m (suc n) e = omega (arith, ap size e)
  where
    size : WriteResult → ℕ
    size (wrote k) = k
    size _ = 0

pub accept_appends :
    (s : Sim) (bs : Bytes) (m n : ℕ)
    → (accept s bs n).0 ≡ wrote m
    → (accept s bs n).1.written ≡ s.written ++ take m bs
accept_appends s bs m zero e = absurd (cc e)
accept_appends s bs m (suc n) e =
    ap (λ k. s.written ++ k) (sym (take-all bs m (omega (arith, ap size e))))
  where
    size : WriteResult → ℕ
    size (wrote k) = k
    size _ = 0

pub accept_refused :
    (s : Sim) (bs : Bytes) (n : ℕ)
    → ((m : ℕ) → (accept s bs n).0 ≢ wrote m)
    → (accept s bs n).1.written ≡ s.written
accept_refused s bs zero h = refl
accept_refused s bs (suc n) h = absurd (h (length bs) refl)

abbrev pub sim : Env
sim = record {
  State = Sim;
  start_clock = λ s. s;
  elapsed = λ s. (s.clock, s);
  try_recv = λ s. receive s s.incoming;
  new_socket = λ s. (true, s);
  start_connect = λ s id. (true, s);
  deregister = λ s id. s;
  take_error = λ s id. (false, s);
  peer_addr = λ s id. (peer, s);
  local_addr = λ s id. (none, s);
  read = λ s id. give s s.bytes;
  write = λ s id bs. accept s bs s.writes;
  written = λ s id. s.written;
  write_size = λ s id bs n. accept_size s bs n s.writes;
  write_appends = λ s id bs n. accept_appends s bs n s.writes;
  write_refused = λ s id bs. accept_refused s bs s.writes;
  read_size = λ s id bs. give_size s bs s.bytes;
  given = λ s id. s.handed;
  interruptions = λ s. 0;
  read_gives = λ s id bs. give_gives s bs s.bytes;
  read_refused = λ s id. give_refused s s.bytes;
  write_goes_on = λ s id bs n e. omega arith;
  write_interrupted = λ s id bs. accept-interrupted s bs s.writes;
}

abbrev pub hex : Bytes → Bytes
hex bs = bs

abbrev pub config : ReplayConfig
config = record {
  server = record { ip = 127 ∷ 0 ∷ 0 ∷ 1 ∷ []; port = 5432 };
  user = codes "u";
  password = none;
  dbname = codes "d";
  application_name = codes "pgr";
}

-- A client that has logged in, and whose startup message has been sent.
abbrev pub client : ReplayClient
client = record {
  id = 7;
  config = config;
  addr = config.server;
  parse_stream = Stream.new 65536;
  outbox = Stream.new 65536;
  state = normal;
  sent_terminate = false;
  rfq = false;
  req_index = 1;
  resp_index = 3;
}

-- A parse and a sync that are due, and a query that has to wait for the answer to the sync.
abbrev pub parse_command : ConnCommand
parse_command = send_command 7 10 b'P' (1 ∷ 2 ∷ [])

abbrev pub sync_command : ConnCommand
sync_command = send_command 7 12 b'S' (3 ∷ [])

abbrev pub query_command : ConnCommand
query_command = send_command 7 15 b'Q' (4 ∷ [])

abbrev pub slot : Slot
slot = record {
  queue = parse_command ∷ sync_command ∷ query_command ∷ [];
  awaiting = false;
  rebase = true;
  burst = false;
  ready_at = 40;
  conn = some (record { client = client; write_stream = Stream.new 65536; connected = true });
}

abbrev pub start : ReplayLoop sim
start =
    record (State.new sim config (record { gain = λ n. n; wait = λ n. n }) Stats.new
      (record { clock = 100; incoming = []; bytes = []; writes = 5; handed = []; written = [] })) {
        slots = (7, slot) ∷ [];
        timers = (10, 7) ∷ [];
        started = true;
      }
