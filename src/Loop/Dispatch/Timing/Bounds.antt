-- ===== src/Loop/Dispatch/Timing/Bounds.antt =====
-- Bounds on the times in the slots, for `execute` of src/loop.rs.
use pgr.Prelude.{
  ℕ, ◌<◌, ◌^◌, ◌≡◌, refl, inl, inr, Bool, true, false, Option, none, some, [], ◌∷◌, All, ◌==◌,
  Bytes, if◌then◌else◌, Bool-cases,
}
use mathlib.Core.Option.{some-injective}
use pgr.Prelude.Panic.{◌>>=◌}
use pgr.Utils.Stats.{ReplayStats}
use pgr.Capture.{ClientId}
use pgr.Loop.{CmdKind, connect, send, end, ConnCommand}
use pgr.Loop.Env.{Env}
use pgr.Loop.Slots.{Connection, Slot, Slots, get, set, remove}
use pgr.Loop.Sockets.{Live}
use pgr.Loop.State.{ReplayLoop}
use pgr.Loop.Dispatch.{
  drop_found, drop_slot, dead_slot, remove_if_dead, open_with, open_conn, fill_slot, place,
  connect_client, put_conn, sent, send_on, send_to, end_on, end_to, execute_kind, execute,
}

abbrev pub Bounded : Slot → Type 0
Bounded slot = (slot.ready_at < 2 ^ 63) × All (λ (c : ConnCommand). c.ts < 2 ^ 63) slot.queue

abbrev pub AllBounded : Slots → Type 0
AllBounded slots = All (λ (e : ClientId × Slot). Bounded e.1) slots

pub set-AllBounded :
    (id : ClientId) (slot : Slot) (slots : Slots)
    → Bounded slot
    → AllBounded slots
    → AllBounded (set id slot slots)
set-AllBounded id slot [] b h = (b, tt)
set-AllBounded id slot ((key, old) ∷ slots) b (h, hs) = elim (Bool-cases (key == id)) [
  | inl same ↦ rw same (b, hs)
  | inr other ↦ rw other (h, set-AllBounded id slot slots b hs)
]

remove-AllBounded :
    (id : ClientId) (slots : Slots) → AllBounded slots → AllBounded (remove id slots)
remove-AllBounded id [] h = tt
remove-AllBounded id ((key, slot) ∷ slots) (h, hs) = elim (Bool-cases (key == id)) [
  | inl same ↦ rw same (remove-AllBounded id slots hs)
  | inr other ↦ rw other (h, remove-AllBounded id slots hs)
]

pub get-Bounded :
    (id : ClientId) (slot : Slot) (slots : Slots)
    → AllBounded slots
    → get id slots ≡ some slot
    → Bounded slot
get-Bounded id slot [] h e = absurd (cc e)
get-Bounded id slot ((key, old) ∷ slots) (h, hs) e = elim (Bool-cases (key == id)) [
  | inl same ↦ rw (some-injective old slot (rw same at e)) at h
  | inr other ↦ get-Bounded id slot slots hs (rw other at e)
]

module _ (md5_hex : Bytes → Bytes) (env : Env) (id : ClientId) where
  drop_slot-Bounded :
      (l : ReplayLoop env) → AllBounded l.slots → AllBounded (drop_slot md5_hex env l id).slots
  unfolding drop_slot
  drop_slot-Bounded l h = go (get id l.slots)
    where
      go : (o : Option Slot) → AllBounded (drop_found md5_hex env l id o).slots
      go none = h
      go (some slot) = by_conn slot.conn
        where
          by_conn :
              (c : Option Connection)
              → AllBounded
                  (elim c as (λ _. ReplayLoop env) [
                    | none ↦ record l { slots = remove id l.slots }
                    | some conn ↦ record l {
                      slots = remove id l.slots;
                      env_state = env.deregister l.env_state id;
                    }
                  ]).slots
          by_conn none = remove-AllBounded id l.slots h
          by_conn (some conn) = remove-AllBounded id l.slots h

  remove_if_dead-Bounded :
      (l : ReplayLoop env)
      → AllBounded l.slots
      → AllBounded (remove_if_dead md5_hex env l id).1.slots
  unfolding remove_if_dead
  remove_if_dead-Bounded l h = go (dead_slot md5_hex env (get id l.slots))
    where
      go : (b : Bool) → AllBounded (if b then drop_slot md5_hex env l id else l).slots
      go true = drop_slot-Bounded l h
      go false = h

  connect_client-Bounded :
      (l : ReplayLoop env) → AllBounded l.slots → AllBounded (connect_client md5_hex env l id).slots
  unfolding connect_client open_conn
  connect_client-Bounded l h = go (open_with md5_hex env l id (env.new_socket l.env_state))
    where
      filled :
          (conn : Connection) (l' : ReplayLoop env) (o : Option Slot)
          → AllBounded l'.slots
          → get id l'.slots ≡ o
          → AllBounded (fill_slot md5_hex env l' id conn o).slots
      filled conn l' none b found = b
      filled conn l' (some slot) b found =
          set-AllBounded id _ l'.slots (get-Bounded id slot l'.slots b found) b

      go :
          (r : Option Connection × ReplayStats × env.State)
          → AllBounded (place md5_hex env id (r.0, record l { stats = r.1; env_state = r.2 })).slots
      go (none, stats, s) = drop_slot-Bounded (record l { stats = stats; env_state = s }) h
      go (some conn, stats, s) =
          filled conn (record l { stats = stats; env_state = s }) (get id l.slots) h refl

  abbrev WhenBounded : Option (ReplayLoop env) → Type 0
  WhenBounded none = Unit
  WhenBounded (some l) = AllBounded l.slots

  flushed-Bounded :
      (l : ReplayLoop env) (slot : Slot) (o : Option (Live md5_hex env))
      → AllBounded l.slots
      → Bounded slot
      → WhenBounded (o >>= λ live. some (put_conn md5_hex env l id slot live))
  flushed-Bounded l slot none h b = tt
  flushed-Bounded l slot (some (conn, stats, s)) h b = set-AllBounded id _ l.slots b h

  send_to-Bounded :
      (l : ReplayLoop env) (tag : ℕ) (bytes : Bytes) (o : Option Slot)
      → AllBounded l.slots
      → get id l.slots ≡ o
      → WhenBounded (send_to md5_hex env l id tag bytes o)
  send_to-Bounded l tag bytes none h found = h
  send_to-Bounded l tag bytes (some slot) h found = go slot.conn
    where
      go : (c : Option Connection) → WhenBounded (send_on md5_hex env l id tag bytes slot c)
      go none = h
      go (some conn) =
          flushed-Bounded l (sent md5_hex env tag slot) _ h (get-Bounded id slot l.slots h found)

  end_to-Bounded :
      (l : ReplayLoop env) (o : Option Slot)
      → AllBounded l.slots
      → get id l.slots ≡ o
      → WhenBounded (end_to md5_hex env l id o)
  end_to-Bounded l none h found = h
  end_to-Bounded l (some slot) h found = go slot.conn
    where
      go : (c : Option Connection) → WhenBounded (end_on md5_hex env l id slot c)
      go none = h
      go (some conn) = flushed-Bounded l slot _ h (get-Bounded id slot l.slots h found)

  removed-Bounded :
      (o : Option (ReplayLoop env))
      → WhenBounded o
      → WhenBounded (o >>= λ l. some (remove_if_dead md5_hex env l id).1)
  removed-Bounded none h = tt
  removed-Bounded (some l) h = remove_if_dead-Bounded l h

  kind-Bounded :
      (l : ReplayLoop env) (kind : CmdKind)
      → AllBounded l.slots
      → WhenBounded (execute_kind md5_hex env l id kind)
  kind-Bounded l connect h = connect_client-Bounded l h
  kind-Bounded l (send tag bytes) h =
      removed-Bounded (send_to md5_hex env l id tag bytes (get id l.slots))
        (send_to-Bounded l tag bytes (get id l.slots) h refl)
  kind-Bounded l end h =
      removed-Bounded (end_to md5_hex env l id (get id l.slots))
        (end_to-Bounded l (get id l.slots) h refl)

  pub execute-Bounded :
      (l l' : ReplayLoop env) (cmd : ConnCommand)
      → AllBounded l.slots
      → execute md5_hex env l id cmd ≡ some l'
      → AllBounded l'.slots
  unfolding execute
  execute-Bounded l l' cmd h e = rw e at (kind-Bounded l cmd.kind h)
