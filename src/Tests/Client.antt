-- ===== src/Tests/Client.antt =====
-- Tests of src/client.rs.
use pgr.Prelude.{
  ◌+◌, length, ◌<◌, ◌^◌, ◌≤◌, ◌≡◌, refl, true, false, none, some, List, [], ◌∷◌, ◌++◌, arith, Bytes,
  codes, to_be,
}
use pgr.Utils.Stream
use pgr.Utils.Stats
use pgr.Utils.Stream.Refine.{IsValid, new-IsValid, pending}
use pgr.Proto.{try_read_frame}
use pgr.Client.{
  ReplayConfig, World, is_dead, connect, on_read, queue_startup, send_frame, normal, dead,
}
use pgr.Client.Reading.Chunks.{observe, observed, read_chunks, chunks_invariant}
use pgr.Client.Reading.Frames.{feed, read_chunks-feed, on_read-runt}
use pgr.Client.Login.{parameters, startup_message, password_message, digest, login, feed-md5_login}
use pgr.Client.Session.{Action, message, finish, rank, run, run-forward}

abbrev hex : Bytes → Bytes
hex bs = bs

abbrev config : ReplayConfig
config = record {
  server = record { ip = 127 ∷ 0 ∷ 0 ∷ 1 ∷ []; port = 5432 };
  user = codes "u";
  password = some (codes "pw");
  dbname = codes "d";
  application_name = codes "pgr";
}

abbrev start : World
start = connect 7 config Stats.new

start-IsValid : IsValid start.0.parse_stream
unfolding connect queue_startup send_frame
start-IsValid = new-IsValid 65536

start-empty : pending start.0.parse_stream ≡ []
unfolding connect queue_startup send_frame pending Stream.new
start-empty = refl

start-none : try_read_frame (pending start.0.parse_stream) ≡ none
unfolding try_read_frame
start-none = rw start-empty

-- The acceptance and the first `ReadyForQuery`, in two and in three pieces.
abbrev two_pieces : List Bytes
two_pieces = (b'R' ∷ 0 ∷ 0 ∷ 0 ∷ 8 ∷ 0 ∷ 0 ∷ 0 ∷ 0 ∷ []) ∷ (b'Z' ∷ 0 ∷ 0 ∷ 0 ∷ 5 ∷ b'I' ∷ []) ∷ []

abbrev three_pieces : List Bytes
three_pieces =
    (b'R' ∷ 0 ∷ 0 ∷ []) ∷ (0 ∷ 8 ∷ 0 ∷ 0 ∷ 0 ∷ 0 ∷ b'Z' ∷ 0 ∷ 0 ∷ []) ∷ (0 ∷ 5 ∷ b'I' ∷ []) ∷ []

received : start.0.parse_stream.committed_offset ≡ 0
unfolding connect queue_startup send_frame Stream.new
received = refl

alive : is_dead start.0.state ≡ false
unfolding connect queue_startup send_frame
alive = refl

chunks_invariant_example :
    observed (read_chunks hex start two_pieces) ≡ observed (read_chunks hex start three_pieces)
chunks_invariant_example =
    chunks_invariant hex start two_pieces three_pieces start-IsValid alive start-none
      (omega (arith, received)) refl

read_chunks-feed_example :
    observed (read_chunks hex start three_pieces)
    ≡ some (feed hex (observe start) ((b'R', 0 ∷ 0 ∷ 0 ∷ 0 ∷ []) ∷ (b'Z', b'I' ∷ []) ∷ []))
unfolding to_be try_read_frame
read_chunks-feed_example =
    read_chunks-feed hex start three_pieces ((b'R', 0 ∷ 0 ∷ 0 ∷ 0 ∷ []) ∷ (b'Z', b'I' ∷ []) ∷ []) []
      start-IsValid alive start-none (omega (arith, received)) (omega arith, (omega arith, tt)) refl
      (rw start-empty)

on_read-runt_example : on_read hex start (b'Z' ∷ 0 ∷ 0 ∷ 0 ∷ 3 ∷ b'I' ∷ []) ≡ none
unfolding to_be
on_read-runt_example =
    on_read-runt hex start (b'Z' ∷ 0 ∷ 0 ∷ 0 ∷ 3 ∷ b'I' ∷ []) b'Z' 3 (b'I' ∷ []) start-IsValid
      (omega (arith, received)) (omega arith) (rw start-empty)

abbrev script : List Action
script = message b'Z' (b'I' ∷ []) ∷ finish ∷ message b'R' (0 ∷ 0 ∷ 0 ∷ 7 ∷ []) ∷ []

run-forward_example :
    (rank start.0.state ≤ rank (run hex start script).0.state)
    × ((run hex start script).0.state ≡ dead
        → run hex (run hex start script) (finish ∷ []) ≡ run hex start script)
run-forward_example = run-forward hex start script (finish ∷ [])

-- A digest of no bytes.
abbrev no_digest : Bytes → Bytes
no_digest bs = []

parameters-small : 8 + length (parameters 7 config) < 2 ^ 32
unfolding pgr.Prelude.Decimal.decimal
parameters-small = omega arith

feed-md5_login_example :
    let w' = login no_digest 7 config Stats.new (codes "pw") 1 2 3 4 (b'I' ∷ []) in
    (w'.0.state ≡ normal)
    × (w'.0.rfq ≡ true)
    × (pending w'.0.outbox
        ≡ startup_message 7 config
          ++ password_message (digest no_digest config.user (codes "pw") (1 ∷ 2 ∷ 3 ∷ 4 ∷ [])))
feed-md5_login_example =
    feed-md5_login no_digest 7 config Stats.new (codes "pw") 1 2 3 4 (b'I' ∷ []) refl
      parameters-small (omega arith)
