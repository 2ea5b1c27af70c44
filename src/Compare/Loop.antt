-- ===== src/Compare/Loop.antt =====
-- `compare` of src/compare.rs: the records of a timing file, each with its message of the capture.
use pgr.Prelude.{
  ℕ, suc, zero, Bool, true, false, Option, none, some, List, [], ◌∷◌, ◌++◌, Bytes, length, add64,
  leb, if◌then◌else◌,
}
use pgr.Prelude.Maps.{Map, entry, insert, ℕ_key}
use pgr.Prelude.Io.{Result, ok, err}
use pgr.Capture.{ClientId, ClientEvent, connect, CaptureMessage, msg_simple_query}
use pgr.Capture.Reader.{CaptureReader, read_event}
use pgr.Compare
use pgr.Compare.{TimingData, Pair, ClientStats, default_stats, event_code, drain}

-- The variables of `compare`.
pub record Comparison : Type 0 where
  pub clients : Map ClientId ClientStats
  pub origin : Option Pair
  pub capture_eof : Bool
  pub capture : CaptureReader
  pub timing : Bytes

-- `clients.entry(id).or_default()`
abbrev pub client_of : Comparison → ClientId → ClientStats
client_of s id = entry id default_stats s.clients

-- The client is changed and then drained.
unfoldable pub drain_client : Comparison → ClientId → ClientStats → Comparison
drain_client s id c =
    let (c', origin) = drain (c, s.origin) in
    record s { clients = insert id c' s.clients; origin = origin }

unfoldable pub push_timing : Comparison → TimingData → Comparison
push_timing s t =
    let c = client_of s t.id in
    drain_client s t.id (record c { tim = c.tim ++ (t.event_type, t.ts) ∷ [] })

-- A connection that restores its session also sends a query.
abbrev pub is_restore : ClientEvent → Bool
is_restore (connect []) = false
is_restore (connect (b ∷ bs)) = true
is_restore _ = false

abbrev pub restored : Bool → ℕ → List (ℕ × ℕ × Bool)
restored true ts = (msg_simple_query, ts, true) ∷ []
restored false ts = []

abbrev pub push_code : Option ℕ → Comparison → CaptureMessage → Comparison
push_code none s msg = s
push_code (some code) s msg =
    let c = client_of s msg.id in
    drain_client s msg.id
      (record c { cap = c.cap ++ (code, msg.ts, false) ∷ restored (is_restore msg.event) msg.ts })

unfoldable pub push_capture : Comparison → CaptureMessage → Comparison
push_capture s msg = push_code (event_code msg.event) s msg

abbrev pub is_empty : List (ℕ × ℕ) → Bool
is_empty [] = true
is_empty (t ∷ ts) = false

-- A round of the loop over the capture, and how the loop goes on.
abbrev pub capture_round :
    Result (Option (CaptureMessage × CaptureReader))
    → Comparison
    → (Comparison → Option (Result Comparison))
    → Option (Result Comparison)
capture_round (ok (some (msg, capture))) s again =
    again (push_capture (record s { capture = capture }) msg)
capture_round (ok none) s again = some (ok (record s { capture_eof = true }))
capture_round (err e) s again = some (err e)

-- The loop over the capture while the client has a record without its message. Without fuel there is
-- no result.
unfoldable pub capture_loop : ℕ → Comparison → ClientId → Option (Result Comparison)
capture_loop zero s id = none
capture_loop (suc fuel) s id =
    if s.capture_eof
    then some (ok s)
    else if is_empty (client_of s id).tim
    then some (ok s)
    else capture_round (read_event s.capture) s (λ s'. capture_loop fuel s' id)

abbrev pub continue_with :
    Option (Result Comparison)
    → (Comparison → Option (Result Comparison))
    → Option (Result Comparison)
continue_with (some (ok s)) k = k s
continue_with r k = r

abbrev pub timing_round :
    Result (Option (TimingData × Bytes))
    → ℕ
    → Comparison
    → (Comparison → Option (Result Comparison))
    → Option (Result Comparison)
timing_round (ok (some (t, timing))) fuel s again =
    continue_with (capture_loop fuel (push_timing (record s { timing = timing }) t) t.id) again
timing_round (ok none) fuel s again = some (ok s)
timing_round (err e) fuel s again = some (err e)

-- The loop over the records of the timing file.
unfoldable pub timing_loop : ℕ → ℕ → Comparison → Option (Result Comparison)
timing_loop zero fuel s = none
timing_loop (suc n) fuel s =
    timing_round (Compare.next s.timing) fuel s (λ s'. timing_loop n fuel s')

-- `ids.sort()`, with the clients of the ids.
abbrev pub insert_by_id :
    ClientId × ClientStats → Map ClientId ClientStats → Map ClientId ClientStats
insert_by_id e [] = e ∷ []
insert_by_id e (x ∷ m) = if leb e.0 x.0 then e ∷ x ∷ m else x ∷ insert_by_id e m

unfoldable pub sort : Map ClientId ClientStats → Map ClientId ClientStats
sort [] = []
sort (e ∷ m) = insert_by_id e (sort m)

-- The loop over the sorted clients: the counts of pairs and of records without a pair.
unfoldable pub totals : Map ClientId ClientStats → Option Pair → ℕ × ℕ → ℕ × ℕ
totals [] origin (matched, unmatched) = (matched, unmatched)
totals ((id, c) ∷ m) origin (matched, unmatched) =
    let (c', origin') = drain (c, origin) in
    totals m origin' (add64 matched c'.matched, add64 unmatched (length c'.tim))

abbrev pub reported : Option (Result Comparison) → Option (Result (ℕ × ℕ))
reported none = none
reported (some (err e)) = some (err e)
reported (some (ok s)) = some (ok (totals (sort s.clients) s.origin (0, 0)))

unfoldable pub start : CaptureReader → Bytes → Comparison
start capture_reader timing_file = record {
  clients = [];
  origin = none;
  capture_eof = false;
  capture = capture_reader;
  timing = timing_file;
}

-- Both loops have one round more than their file has bytes.
unfoldable pub compare : CaptureReader → Bytes → Option (Result (ℕ × ℕ))
compare capture_reader timing_file = reported (
    timing_loop (suc (length timing_file)) (suc (length capture_reader.buf))
      (start capture_reader timing_file))
