-- ===== src/Loop/Dispatch/Order/Requests.antt =====
-- Requests and their answers in `try_dispatch` of src/loop.rs.
use pgr.Prelude.{
  ℕ, ◌≡◌, refl, ap, sym, ◌∙◌, ◌⊎◌, inl, inr, Bool, true, false, Option, none, some, List, [], ◌∷◌,
  Bytes, if◌then◌else◌,
}
use mathlib.Core.Option.{some-injective}
use pgr.Prelude.Panic.{◌>>=◌}
use pgr.Utils.Stats.{ReplayStats}
use pgr.Capture.{ClientId}
use pgr.Loop.{CmdKind, connect, send, end, ConnCommand}
use pgr.Loop.Env.{Env}
use pgr.Loop.Slots.{Connection, Slot, blocked, get, set, remove, get-set, get-remove}
use pgr.Loop.Sockets.{Live}
use pgr.Loop.State.{ReplayLoop}
use pgr.Loop.Dispatch.{
  drop_found, drop_slot, dead_slot, remove_if_dead, open_with, open_conn, place, connect_client,
  put_conn, sent, send_on, send_to, is_blocking, execute_kind, execute, rebases, rebased,
}
use pgr.Loop.Dispatch.Order.Runs.{Runs, stopped, ran}

module _ (md5_hex : Bytes → Bytes) (env : Env) (id : ClientId) where
  -- The client has no slot any more, or waits for an answer.
  abbrev Waits : ReplayLoop env → Type 0
  Waits l =
      (get id l.slots ≡ none)
      ⊎ ((slot : Slot) × (get id l.slots ≡ some slot) × (blocked slot ≡ true))

  drop_slot-gone : (l : ReplayLoop env) → get id (drop_slot md5_hex env l id).slots ≡ none
  unfolding drop_slot
  drop_slot-gone l = go (get id l.slots) refl
    where
      go :
          (o : Option Slot)
          → get id l.slots ≡ o
          → get id (drop_found md5_hex env l id o).slots ≡ none
      go none e = e
      go (some slot) e = by_conn slot.conn
        where
          by_conn :
              (c : Option Connection)
              → get id
                  (elim c as (λ _. ReplayLoop env) [
                    | none ↦ record l { slots = remove id l.slots }
                    | some conn ↦ record l {
                      slots = remove id l.slots;
                      env_state = env.deregister l.env_state id;
                    }
                  ]).slots
                ≡ none
          by_conn none = get-remove id l.slots
          by_conn (some conn) = get-remove id l.slots

  remove_if_dead-Waits : (l : ReplayLoop env) → Waits l → Waits (remove_if_dead md5_hex env l id).1
  unfolding remove_if_dead
  remove_if_dead-Waits l w = go (dead_slot md5_hex env (get id l.slots))
    where
      go : (b : Bool) → Waits (if b then drop_slot md5_hex env l id else l)
      go true = inl (drop_slot-gone l)
      go false = w

  -- A slot with a connection that awaits an answer.
  set-Waits :
      (l l' : ReplayLoop env) (slot : Slot)
      → l'.slots ≡ set id slot l.slots
      → blocked slot ≡ true
      → Waits l'
  set-Waits l l' slot e b = inr (slot, ap (get id) e ∙ get-set id slot l.slots, b)

  connect_client-Waits :
      (l : ReplayLoop env) (slot : Slot)
      → get id l.slots ≡ some slot
      → Waits (connect_client md5_hex env l id)
  unfolding connect_client open_conn blocked
  connect_client-Waits l slot found = go (open_with md5_hex env l id (env.new_socket l.env_state))
    where
      go :
          (r : Option Connection × ReplayStats × env.State)
          → Waits (place md5_hex env id (r.0, record l { stats = r.1; env_state = r.2 }))
      go (none, stats, s) = inl (drop_slot-gone (record l { stats = stats; env_state = s }))
      go (some conn, stats, s) = rw found (
          inr (
            record slot { conn = some conn; awaiting = true },
            get-set id (record slot { conn = some conn; awaiting = true }) l.slots,
            refl,
          ))

  send_to-Waits :
      (l l' : ReplayLoop env) (slot : Slot) (conn : Connection) (tag : ℕ) (bytes : Bytes)
      → get id l.slots ≡ some slot
      → slot.conn ≡ some conn
      → is_blocking md5_hex env tag ≡ true
      → send_to md5_hex env l id tag bytes (some slot) ≡ some l'
      → Waits l'
  unfolding blocked
  send_to-Waits l l' slot conn tag bytes found has b e = by_conn slot.conn has e
    where
      flushed :
          (o : Option (Live md5_hex env))
          → (o >>= λ live. some (put_conn md5_hex env l id (sent md5_hex env tag slot) live))
            ≡ some l'
          → Waits l'
      flushed none e = absurd (cc e)
      flushed (some (conn', stats, s)) e =
          set-Waits l l' (record (sent md5_hex env tag slot) { conn = some conn' })
            (ap (λ (x : ReplayLoop env). x.slots) (sym (some-injective _ l' e))) (rw b refl)

      by_conn :
          (c : Option Connection)
          → c ≡ some conn
          → send_on md5_hex env l id tag bytes slot c ≡ some l'
          → Waits l'
      by_conn none h e = absurd (cc h)
      by_conn (some conn2) h e = flushed _ e

  -- A command that has the client wait for an answer: to connect, or a query or a sync on a connection.
  abbrev pub IsRequest : CmdKind → Option Connection → Type 0
  IsRequest connect c = Unit
  IsRequest (send tag bytes) (some conn) = is_blocking md5_hex env tag ≡ true
  IsRequest (send tag bytes) none = ⊥
  IsRequest end c = ⊥

  kind-Waits :
      (l l' : ReplayLoop env) (slot : Slot) (kind : CmdKind) (c : Option Connection)
      → get id l.slots ≡ some slot
      → slot.conn ≡ c
      → IsRequest kind c
      → execute_kind md5_hex env l id kind ≡ some l'
      → Waits l'
  kind-Waits l l' slot connect c found has r e =
      rw (some-injective _ l' e) at (connect_client-Waits l slot found)
  kind-Waits l l' slot (send tag bytes) none found has r e = absurd r
  kind-Waits l l' slot (send tag bytes) (some conn) found has r e =
      removed (send_to md5_hex env l id tag bytes (some slot)) refl (rw found at e)
    where
      removed :
          (o : Option (ReplayLoop env))
          → send_to md5_hex env l id tag bytes (some slot) ≡ o
          → (o >>= λ l1. some (remove_if_dead md5_hex env l1 id).1) ≡ some l'
          → Waits l'
      removed none h e = absurd (cc e)
      removed (some l1) h e =
          rw (some-injective _ l' e) at
            (remove_if_dead-Waits l1 (send_to-Waits l l1 slot conn tag bytes found has r h))
  kind-Waits l l' slot end c found has r e = absurd r

  rebased-conn : (slot : Slot) → (rebased md5_hex env slot).conn ≡ slot.conn
  rebased-conn slot = go_on (rebases md5_hex env slot)
    where
      go_on : (b : Bool) → (if b then record slot { rebase = false } else slot).conn ≡ slot.conn
      go_on true = refl
      go_on false = refl

  Waits-nothing :
      (now : ℕ) (l l' : ReplayLoop env) (cs : List ConnCommand)
      → Waits l
      → Runs md5_hex env id now l cs l'
      → cs ≡ []
  Waits-nothing now l l' cs w (stopped _ _ s) = refl
  Waits-nothing now l l' cs (inl gone) (ran _ l1 l2 _ cmd cs' t x runs) =
      absurd (cc (t.found, gone))
  Waits-nothing now l l' cs (inr (slot, found, b)) (ran _ l1 l2 _ cmd cs' t x runs) =
      let same : t.slot ≡ slot = some-injective _ _ (sym t.found ∙ found) in
      absurd (cc (ap blocked same, b, t.free))

  -- A command to connect, and a query or a sync that a connection sends, is the last that one call of
  -- `try_dispatch` executes: nothing more is taken before the answer.
  pub requests_wait :
      (now : ℕ) (l l' : ReplayLoop env) (slot : Slot) (cmd : ConnCommand) (cs : List ConnCommand)
      → get id l.slots ≡ some slot
      → IsRequest cmd.kind slot.conn
      → Runs md5_hex env id now l (cmd ∷ cs) l'
      → cs ≡ []
  unfolding execute
  requests_wait now l l' slot cmd cs found r (ran _ l1 l2 _ _ _ t x runs) =
      let same : t.slot ≡ slot = some-injective _ _ (sym t.found ∙ found) in
      Waits-nothing now l2 l' cs
        (kind-Waits l1 l2 (record (rebased md5_hex env t.slot) { queue = t.rest }) cmd.kind
          slot.conn t.left (rebased-conn t.slot ∙ ap (λ (s : Slot). s.conn) same) r x)
        runs
