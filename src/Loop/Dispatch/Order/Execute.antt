-- ===== src/Loop/Dispatch/Order/Execute.antt =====
-- What `execute` of src/loop.rs does to the queues, the timers and the clock.
use pgr.Prelude.{
  ℕ, ◌≡◌, refl, ap, sym, ◌∙◌, ◌⊎◌, inl, inr, Bool, true, false, Option, none, some, Bytes,
  if◌then◌else◌,
}
use pgr.Prelude.Panic.{◌>>=◌}
use pgr.Utils.Stats.{ReplayStats}
use pgr.Capture.{ClientId}
use pgr.Loop.{CmdKind, connect, send, end, ConnCommand}
use pgr.Loop.Env.{Env}
use pgr.Loop.Slots.{Connection, Slot, get, get-set, get-remove, remove}
use pgr.Loop.Sockets.{Live}
use pgr.Loop.State.{ReplayLoop}
use pgr.Loop.Dispatch.{
  drop_found, drop_slot, dead_slot, remove_if_dead, open_with, open_conn, fill_slot, place,
  connect_client, put_conn, sent, send_on, send_to, end_on, end_to, execute_kind, execute, queue_of,
}

module _ (md5_hex : Bytes → Bytes) (env : Env) (id : ClientId) where
  -- The slot's queue is what it was, or the slot is gone; timers and clock are what they were.
  pub record Keeps (l l' : ReplayLoop env) : Type 0 where
    pub queue :
        (queue_of md5_hex env (get id l'.slots) ≡ queue_of md5_hex env (get id l.slots))
        ⊎ (get id l'.slots ≡ none)
    pub timers : l'.timers ≡ l.timers
    pub shift : l'.shift ≡ l.shift

  Keeps-refl : (l : ReplayLoop env) → Keeps l l
  Keeps-refl l = record { queue = inl refl; timers = refl; shift = refl }

  drop_slot-Keeps : (l : ReplayLoop env) → Keeps l (drop_slot md5_hex env l id)
  unfolding drop_slot
  drop_slot-Keeps l = go (get id l.slots)
    where
      go : (o : Option Slot) → Keeps l (drop_found md5_hex env l id o)
      go none = Keeps-refl l
      go (some slot) = by_conn slot.conn
        where
          by_conn :
              (c : Option Connection)
              → Keeps l (elim c [
                | none ↦ record l { slots = remove id l.slots }
                | some conn ↦ record l {
                  slots = remove id l.slots;
                  env_state = env.deregister l.env_state id;
                }
              ])
          by_conn none = record { queue = inr (get-remove id l.slots); timers = refl; shift = refl }
          by_conn (some conn) = record {
            queue = inr (get-remove id l.slots);
            timers = refl;
            shift = refl;
          }

  remove_if_dead-Keeps : (l : ReplayLoop env) → Keeps l (remove_if_dead md5_hex env l id).1
  unfolding remove_if_dead
  remove_if_dead-Keeps l = go (dead_slot md5_hex env (get id l.slots))
    where
      go : (b : Bool) → Keeps l (if b then drop_slot md5_hex env l id else l)
      go true = drop_slot-Keeps l
      go false = Keeps-refl l

  -- Changes after which the slot of the client has the same queue.
  record Same (l l' : ReplayLoop env) : Type 0 where
    queue : queue_of md5_hex env (get id l'.slots) ≡ queue_of md5_hex env (get id l.slots)
    timers : l'.timers ≡ l.timers
    shift : l'.shift ≡ l.shift

  Same-Keeps : (l l' l'' : ReplayLoop env) → Same l l' → Keeps l' l'' → Keeps l l''
  Same-Keeps l l' l'' s k = record {
    queue = elim k.queue [ inl q ↦ inl (q ∙ s.queue) | inr gone ↦ inr gone ];
    timers = k.timers ∙ s.timers;
    shift = k.shift ∙ s.shift;
  }

  connect_client-Keeps : (l : ReplayLoop env) → Keeps l (connect_client md5_hex env l id)
  unfolding connect_client open_conn
  connect_client-Keeps l = go (open_with md5_hex env l id (env.new_socket l.env_state))
    where
      filled :
          (conn : Connection) (l' : ReplayLoop env)
          → l'.slots ≡ l.slots
          → l'.timers ≡ l.timers
          → l'.shift ≡ l.shift
          → (o : Option Slot) → get id l'.slots ≡ o
          → Keeps l (fill_slot md5_hex env l' id conn o)
      filled conn l' e t s none found = record {
        queue = inl (ap (λ x. queue_of md5_hex env (get id x)) e);
        timers = t;
        shift = s;
      }
      filled conn l' e t s (some slot) found = record {
        queue = inl (
            ap (queue_of md5_hex env)
              (get-set id (record slot { conn = some conn; awaiting = true }) l'.slots)
            ∙ sym (ap (queue_of md5_hex env) found)
            ∙ ap (λ x. queue_of md5_hex env (get id x)) e);
        timers = t;
        shift = s;
      }

      go :
          (r : Option Connection × ReplayStats × env.State)
          → Keeps l (place md5_hex env id (r.0, record l { stats = r.1; env_state = r.2 }))
      go (none, stats, s) =
          Same-Keeps l _ _ (record { queue = refl; timers = refl; shift = refl })
            (drop_slot-Keeps (record l { stats = stats; env_state = s }))
      go (some conn, stats, s) =
          filled conn (record l { stats = stats; env_state = s }) refl refl refl (get id l.slots)
            refl

  put_conn-Same :
      (l : ReplayLoop env) (slot slot' : Slot) (live : Live md5_hex env)
      → get id l.slots ≡ some slot
      → slot'.queue ≡ slot.queue
      → Same l (put_conn md5_hex env l id slot' live)
  put_conn-Same l slot slot' (conn, stats, s) found e = record {
    queue =
        ap (queue_of md5_hex env) (get-set id (record slot' { conn = some conn }) l.slots)
        ∙ e
        ∙ sym (ap (queue_of md5_hex env) found);
    timers = refl;
    shift = refl;
  }

  -- After a call that may panic, the connection goes back into the slot.
  abbrev WhenReturns : ReplayLoop env → Option (ReplayLoop env) → Type 0
  WhenReturns l none = Unit
  WhenReturns l (some l') = Same l l'

  flushed-Same :
      (l : ReplayLoop env) (slot slot' : Slot) (o : Option (Live md5_hex env))
      → get id l.slots ≡ some slot
      → slot'.queue ≡ slot.queue
      → WhenReturns l (o >>= λ live. some (put_conn md5_hex env l id slot' live))
  flushed-Same l slot slot' none found e = tt
  flushed-Same l slot slot' (some live) found e = put_conn-Same l slot slot' live found e

  nothing-Same : (l : ReplayLoop env) → Same l l
  nothing-Same l = record { queue = refl; timers = refl; shift = refl }

  send_to-Same :
      (l : ReplayLoop env) (tag : ℕ) (bytes : Bytes) (o : Option Slot)
      → get id l.slots ≡ o
      → WhenReturns l (send_to md5_hex env l id tag bytes o)
  send_to-Same l tag bytes none found = nothing-Same l
  send_to-Same l tag bytes (some slot) found = go slot.conn
    where
      go : (c : Option Connection) → WhenReturns l (send_on md5_hex env l id tag bytes slot c)
      go none = nothing-Same l
      go (some conn) = flushed-Same l slot (sent md5_hex env tag slot) _ found refl

  end_to-Same :
      (l : ReplayLoop env) (o : Option Slot)
      → get id l.slots ≡ o
      → WhenReturns l (end_to md5_hex env l id o)
  end_to-Same l none found = nothing-Same l
  end_to-Same l (some slot) found = go slot.conn
    where
      go : (c : Option Connection) → WhenReturns l (end_on md5_hex env l id slot c)
      go none = nothing-Same l
      go (some conn) = flushed-Same l slot slot _ found refl

  abbrev WhenKept : ReplayLoop env → Option (ReplayLoop env) → Type 0
  WhenKept l none = Unit
  WhenKept l (some l') = Keeps l l'

  removed-Keeps :
      (l : ReplayLoop env) (o : Option (ReplayLoop env))
      → WhenReturns l o
      → WhenKept l (o >>= λ l'. some (remove_if_dead md5_hex env l' id).1)
  removed-Keeps l none h = tt
  removed-Keeps l (some l') h = Same-Keeps l l' _ h (remove_if_dead-Keeps l')

  kind-Keeps :
      (l : ReplayLoop env) (kind : CmdKind) → WhenKept l (execute_kind md5_hex env l id kind)
  kind-Keeps l connect = connect_client-Keeps l
  kind-Keeps l (send tag bytes) =
      removed-Keeps l (send_to md5_hex env l id tag bytes (get id l.slots))
        (send_to-Same l tag bytes (get id l.slots) refl)
  kind-Keeps l end =
      removed-Keeps l (end_to md5_hex env l id (get id l.slots))
        (end_to-Same l (get id l.slots) refl)

  pub execute-Keeps :
      (l l' : ReplayLoop env) (cmd : ConnCommand)
      → execute md5_hex env l id cmd ≡ some l'
      → Keeps l l'
  unfolding execute
  execute-Keeps l l' cmd e = rw e at (kind-Keeps l cmd.kind)
