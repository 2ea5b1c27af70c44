-- ===== src/Loop/Slots.antt =====
-- `Connection` and `Slot` of src/loop.rs, the map of slots as an association list, and the heap of
-- timers as a list with the earliest first. The socket of a connection is in the environment, and its
-- read buffer only holds what the last `read` returned.
use pgr.Prelude.{
  ℕ, Bool, true, false, ◌&&◌, ◌||◌, Option, none, some, List, [], ◌∷◌, ltb, ◌==◌, if◌then◌else◌,
  ◌≡◌, refl, Bool-cases, inl, inr, arith,
}
use pgr.Utils.Stream.{Stream}
use pgr.Capture.{ClientId}
use pgr.Client.{ReplayClient}
use pgr.Loop.{ConnCommand}

pub record Connection : Type 0 where
  pub client : ReplayClient
  pub write_stream : Stream
  pub connected : Bool

pub record Slot : Type 0 where
  pub queue : List ConnCommand
  pub awaiting : Bool
  pub rebase : Bool
  pub burst : Bool
  pub ready_at : ℕ
  pub conn : Option Connection

unfoldable pub new : Slot
new = record {
  queue = [];
  awaiting = false;
  rebase = false;
  burst = false;
  ready_at = 0;
  conn = none;
}

abbrev is_some : Option Connection → Bool
is_some none = false
is_some (some c) = true

unfoldable pub blocked : Slot → Bool
blocked slot = is_some slot.conn && slot.awaiting

abbrev pub Slots : Type 0
Slots = List (ClientId × Slot)

abbrev pub get : ClientId → Slots → Option Slot
get id [] = none
get id ((key, slot) ∷ slots) = if key == id then some slot else get id slots

-- Writes to the slot of a client that has one, and inserts it otherwise.
abbrev pub set : ClientId → Slot → Slots → Slots
set id slot [] = (id, slot) ∷ []
set id slot ((key, old) ∷ slots) =
    if key == id then (id, slot) ∷ slots else (key, old) ∷ set id slot slots

abbrev pub remove : ClientId → Slots → Slots
remove id [] = []
remove id ((key, slot) ∷ slots) =
    if key == id then remove id slots else (key, slot) ∷ remove id slots

-- The slots in the order of the list; the order of the map is not specified.
abbrev pub keys : Slots → List ClientId
keys [] = []
keys ((key, slot) ∷ slots) = key ∷ keys slots

-- `Reverse((ts, id))` on the heap.
abbrev pub Timers : Type 0
Timers = List (ℕ × ClientId)

abbrev pub before : ℕ × ClientId → ℕ × ClientId → Bool
before (t, a) (u, b) = ltb t u || ((t == u) && ltb a b)

abbrev pub push_timer : ℕ × ClientId → Timers → Timers
push_timer t [] = t ∷ []
push_timer t (u ∷ timers) = if before u t then u ∷ push_timer t timers else t ∷ u ∷ timers

pub get-set : (id : ClientId) (slot : Slot) (slots : Slots) → get id (set id slot slots) ≡ some slot
get-set id slot [] = ground arith
get-set id slot ((key, old) ∷ slots) = elim (Bool-cases (key == id)) [
  | inl same ↦ rw same (ground arith)
  | inr other ↦ rw (other, other) (get-set id slot slots)
]

pub get-remove : (id : ClientId) (slots : Slots) → get id (remove id slots) ≡ none
get-remove id [] = refl
get-remove id ((key, slot) ∷ slots) = elim (Bool-cases (key == id)) [
  | inl same ↦ rw same (get-remove id slots)
  | inr other ↦ rw (other, other) (get-remove id slots)
]
