-- ===== src/Loop/Dispatch/Safe/Elsewhere.antt =====
-- What `try_dispatch` of src/loop.rs does not touch: the slots of the other clients.
use pgr.Prelude.{
  ℕ, ◌≡◌, ◌≢◌, refl, ◌∙◌, Bool, true, false, Option, none, some, [], ◌∷◌, Bytes, arith,
  if◌then◌else◌, Bool-cases, inl, inr, ◌==◌, ne→==-false,
}
use pgr.Prelude.Panic.{◌>>=◌}
use pgr.Capture.{ClientId}
use pgr.Loop.{CmdKind, connect, send, end, ConnCommand}
use pgr.Loop.Env.{Env}
use pgr.Loop.Slots.{Connection, Slot, Slots, get, set, remove}
use pgr.Loop.Sockets.{Live}
use pgr.Loop.State.{ReplayLoop}
use pgr.Loop.Dispatch.{
  drop_found, drop_slot, dead_slot, remove_if_dead, open_with, open_conn, fill_slot, place,
  connect_client, put_conn, sent, send_on, send_to, end_on, end_to, execute_kind, execute, rebased,
}
use pgr.Loop.Dispatch.Order.{Taken, Stopped, no_slot, waiting, idle, early}

get-set_other :
    (id j : ClientId) (slot : Slot) (slots : Slots)
    → id ≢ j
    → get j (set id slot slots) ≡ get j slots
get-set_other id j slot [] h = rw (ne→==-false id j h)
get-set_other id j slot ((key, old) ∷ slots) h = elim (Bool-cases (key == id)) [
  | inl same ↦ rw (same, ne→==-false id j h, ne→==-false key j (λ e. h (ground arith)))
  | inr other ↦ rw (other, get-set_other id j slot slots h)
]

get-remove_other :
    (id j : ClientId) (slots : Slots) → id ≢ j → get j (remove id slots) ≡ get j slots
get-remove_other id j [] h = refl
get-remove_other id j ((key, old) ∷ slots) h = elim (Bool-cases (key == id)) [
  | inl same ↦ rw (same, ne→==-false key j (λ e. h (ground arith)), get-remove_other id j slots h)
  | inr other ↦ rw (other, get-remove_other id j slots h)
]

module _ (md5_hex : Bytes → Bytes) (env : Env) (id : ClientId) where
  -- The configuration and the slots of the other clients are what they were.
  pub record Elsewhere (l l' : ReplayLoop env) : Type 0 where
    pub config : l'.config ≡ l.config
    pub slots : (j : ClientId) → id ≢ j → get j l'.slots ≡ get j l.slots

  pub Elsewhere-refl : (l : ReplayLoop env) → Elsewhere l l
  Elsewhere-refl l = record { config = refl; slots = λ j h. refl }

  pub Elsewhere-trans :
      (l l' l'' : ReplayLoop env) → Elsewhere l l' → Elsewhere l' l'' → Elsewhere l l''
  Elsewhere-trans l l' l'' a b = record {
    config = b.config ∙ a.config;
    slots = λ j h. b.slots j h ∙ a.slots j h;
  }

  set-Elsewhere :
      (l l' : ReplayLoop env) (slot : Slot)
      → l'.config ≡ l.config
      → l'.slots ≡ set id slot l.slots
      → Elsewhere l l'
  set-Elsewhere l l' slot c e = record {
    config = c;
    slots = λ j h. rw e (get-set_other id j slot l.slots h);
  }

  drop_slot-Elsewhere : (l : ReplayLoop env) → Elsewhere l (drop_slot md5_hex env l id)
  unfolding drop_slot
  drop_slot-Elsewhere l = by_slot (get id l.slots)
    where
      by_conn :
          (c : Option Connection)
          → Elsewhere l (elim c as (λ _. ReplayLoop env) [
            | none ↦ record l { slots = remove id l.slots }
            | some conn ↦ record l {
              slots = remove id l.slots;
              env_state = env.deregister l.env_state id;
            }
          ])
      by_conn none = record { config = refl; slots = λ j h. get-remove_other id j l.slots h }
      by_conn (some conn) = record { config = refl; slots = λ j h. get-remove_other id j l.slots h }

      by_slot : (o : Option Slot) → Elsewhere l (drop_found md5_hex env l id o)
      by_slot none = Elsewhere-refl l
      by_slot (some slot) = by_conn slot.conn

  remove_if_dead-Elsewhere : (l : ReplayLoop env) → Elsewhere l (remove_if_dead md5_hex env l id).1
  unfolding remove_if_dead
  remove_if_dead-Elsewhere l = by_flag (dead_slot md5_hex env (get id l.slots))
    where
      by_flag : (b : Bool) → Elsewhere l (if b then drop_slot md5_hex env l id else l)
      by_flag true = drop_slot-Elsewhere l
      by_flag false = Elsewhere-refl l

  connect_client-Elsewhere : (l : ReplayLoop env) → Elsewhere l (connect_client md5_hex env l id)
  unfolding connect_client open_conn
  connect_client-Elsewhere l = placed (open_with md5_hex env l id (env.new_socket l.env_state))
    where
      filled :
          (l' : ReplayLoop env) (conn : Connection) (o : Option Slot)
          → Elsewhere l' (fill_slot md5_hex env l' id conn o)
      filled l' conn none = Elsewhere-refl l'
      filled l' conn (some slot) = set-Elsewhere l' _ _ refl refl

      placed :
          (x : Option Connection × pgr.Utils.Stats.ReplayStats × env.State)
          → Elsewhere l (
              place md5_hex env id
                (let (conn, stats, s) = x in (conn, record l { stats = stats; env_state = s })))
      placed (none, stats, s) =
          Elsewhere-trans l (record l { stats = stats; env_state = s }) _
            (record { config = refl; slots = λ j h. refl }) (drop_slot-Elsewhere _)
      placed (some conn, stats, s) =
          Elsewhere-trans l (record l { stats = stats; env_state = s }) _
            (record { config = refl; slots = λ j h. refl })
            (filled (record l { stats = stats; env_state = s }) conn (get id l.slots))

  -- Of what an operation returns, if it returns.
  abbrev Then : ReplayLoop env → Option (ReplayLoop env) → Type 0
  Then l none = Unit
  Then l (some l') = Elsewhere l l'

  put-Elsewhere :
      (l : ReplayLoop env) (slot : Slot) (o : Option (Live md5_hex env))
      → Then l (o >>= λ live. some (put_conn md5_hex env l id slot live))
  put-Elsewhere l slot none = tt
  put-Elsewhere l slot (some (conn, stats, s)) =
      set-Elsewhere l _ (record slot { conn = some conn }) refl refl

  removed-Elsewhere :
      (l : ReplayLoop env) (o : Option (ReplayLoop env))
      → Then l o
      → Then l (o >>= λ l'. some (remove_if_dead md5_hex env l' id).1)
  removed-Elsewhere l none h = tt
  removed-Elsewhere l (some l') h = Elsewhere-trans l l' _ h (remove_if_dead-Elsewhere l')

  send_to-Elsewhere :
      (l : ReplayLoop env) (tag : ℕ) (bytes : Bytes) (o : Option Slot)
      → Then l (send_to md5_hex env l id tag bytes o)
  send_to-Elsewhere l tag bytes none = Elsewhere-refl l
  send_to-Elsewhere l tag bytes (some slot) = by_conn slot.conn
    where
      by_conn : (c : Option Connection) → Then l (send_on md5_hex env l id tag bytes slot c)
      by_conn none = Elsewhere-refl l
      by_conn (some conn) = put-Elsewhere l (sent md5_hex env tag slot) _

  end_to-Elsewhere : (l : ReplayLoop env) (o : Option Slot) → Then l (end_to md5_hex env l id o)
  end_to-Elsewhere l none = Elsewhere-refl l
  end_to-Elsewhere l (some slot) = by_conn slot.conn
    where
      by_conn : (c : Option Connection) → Then l (end_on md5_hex env l id slot c)
      by_conn none = Elsewhere-refl l
      by_conn (some conn) = put-Elsewhere l slot _

  kind-Elsewhere :
      (l : ReplayLoop env) (kind : CmdKind) → Then l (execute_kind md5_hex env l id kind)
  kind-Elsewhere l connect = connect_client-Elsewhere l
  kind-Elsewhere l (send tag bytes) =
      removed-Elsewhere l _ (send_to-Elsewhere l tag bytes (get id l.slots))
  kind-Elsewhere l end = removed-Elsewhere l _ (end_to-Elsewhere l (get id l.slots))

  pub Stopped-Elsewhere :
      (now : ℕ) (l l' : ReplayLoop env) → Stopped md5_hex env id now l l' → Elsewhere l l'
  Stopped-Elsewhere now l l' (no_slot _ found) = Elsewhere-refl l
  Stopped-Elsewhere now l l' (waiting _ slot found b) = Elsewhere-refl l
  Stopped-Elsewhere now l l' (idle _ slot found e) = Elsewhere-refl l
  Stopped-Elsewhere now l l' (early _ _ slot cmd rest found b q late s t changed c) =
      set-Elsewhere l l' (rebased md5_hex env slot) c changed

  pub executed-Elsewhere :
      (now : ℕ) (l l1 l2 : ReplayLoop env) (cmd : ConnCommand)
      → Taken md5_hex env id now l cmd l1
      → execute md5_hex env l1 id cmd ≡ some l2
      → Elsewhere l l2
  unfolding execute
  executed-Elsewhere now l l1 l2 cmd t e =
      let k : Then l1 (execute_kind md5_hex env l1 id cmd.kind) = kind-Elsewhere l1 cmd.kind in
      Elsewhere-trans l l1 l2 (set-Elsewhere l l1 _ t.config t.changed) (rw e at k)
