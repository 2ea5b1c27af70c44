-- ===== src/Loop/Env.antt =====
-- What the replay loop of src/loop.rs uses of its environment: the clock, the receiving end of the
-- channel, and the sockets, one for each client. They come from packages and the operating system, so
-- they are an interface, with one state that every call may change.
use pgr.Prelude.{◌≢◌, ◌++◌, take, ℕ, ◌≤◌, ◌<◌, ◌≡◌, Bool, Option, Bytes, length}
use pgr.Capture.{ClientId}
use pgr.Client.{SocketAddr}
use pgr.Loop.{ConnCommand, read_buf_size}

-- `try_recv`
pub data Recv : Type 0 where
  received : ConnCommand → Recv
  empty closed : Recv

-- `read`: at the end of the stream there are no bytes.
pub data ReadResult : Type 0 where
  got : Bytes → ReadResult
  would_block interrupted failed : ReadResult

-- `write`
pub data WriteResult : Type 0 where
  wrote : ℕ → WriteResult
  would_block interrupted failed : WriteResult

-- `peer_addr`
pub data PeerResult : Type 0 where
  peer not_connected unknown : PeerResult

-- `new_socket` is all that `ReplayClient::connect` does before it makes the client, and
-- `start_connect` also registers the socket with the poll. `given` is what the socket of a client has
-- handed out so far and `written` what it has taken. Signals come finitely often: `interruptions`
-- bounds how often they still interrupt a write.
pub record Env : Type 1 where
  pub State : Type 0
  pub start_clock : State → State
  pub elapsed : State → ℕ × State
  pub try_recv : State → Recv × State
  pub new_socket : State → Bool × State
  pub start_connect : State → ClientId → Bool × State
  pub deregister : State → ClientId → State
  pub take_error : State → ClientId → Bool × State
  pub peer_addr : State → ClientId → PeerResult × State
  pub local_addr : State → ClientId → Option SocketAddr × State
  pub read : State → ClientId → ReadResult × State
  pub write : State → ClientId → Bytes → WriteResult × State
  pub given : State → ClientId → Bytes
  pub written : State → ClientId → Bytes
  pub interruptions : State → ℕ
  pub read_size :
      (s : State) (id : ClientId) (bs : Bytes) → (read s id).0 ≡ got bs → length bs ≤ read_buf_size
  pub read_gives :
      (s : State) (id : ClientId) (bs : Bytes)
      → (read s id).0 ≡ got bs
      → given (read s id).1 id ≡ given s id ++ bs
  pub read_refused :
      (s : State) (id : ClientId)
      → ((bs : Bytes) → (read s id).0 ≢ got bs)
      → given (read s id).1 id ≡ given s id
  pub write_goes_on :
      (s : State) (id : ClientId) (bs : Bytes) (n : ℕ)
      → (write s id bs).0 ≡ wrote n
      → interruptions (write s id bs).1 ≤ interruptions s
  pub write_interrupted :
      (s : State) (id : ClientId) (bs : Bytes)
      → (write s id bs).0 ≡ WriteResult.interrupted
      → interruptions (write s id bs).1 < interruptions s
  pub write_size :
      (s : State) (id : ClientId) (bs : Bytes) (n : ℕ) → (write s id bs).0 ≡ wrote n → n ≤ length bs
  pub write_appends :
      (s : State) (id : ClientId) (bs : Bytes) (n : ℕ)
      → (write s id bs).0 ≡ wrote n
      → written (write s id bs).1 id ≡ written s id ++ take n bs
  pub write_refused :
      (s : State) (id : ClientId) (bs : Bytes)
      → ((n : ℕ) → (write s id bs).0 ≢ wrote n)
      → written (write s id bs).1 id ≡ written s id
