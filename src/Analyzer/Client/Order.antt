-- ===== src/Analyzer/Client/Order.antt =====
-- The queue of a client of src/analyzer.rs while it takes messages of the capture and traces.
pub mod Run
use pgr.Prelude.{
  ℕ, zero, suc, ◌+◌, ◌≤◌, ◌<◌, ◌^◌, ◌≡◌, refl, sym, ap, subst, ◌∙◌, ◌⊎◌, Bool, true, false, Option,
  none, some, List, [], ◌∷◌, ◌++◌, arith, Bytes, All, All-append, add32, leb, ltb, ◌==◌,
  if◌then◌else◌, inl, inr, Bool-cases, ltb→lt, ltb-false, le→ltb, lt→ltb, lt→==-false, ne→==-false,
  le→leb, lt→leb-false,
}
use pgr.Prelude.Panic.{◌>>=◌, Returns, Returns-bind, Returns-map}
use pgr.Prelude.Maps.{lookup, Bytes_key}
use pgr.Analyzer.Client.Queue.{Rises, UpTo, from_index, info_at, row_for, on_trace-info_at}
use pgr.Capture.{
  BindParam, ClientEvent, lsn, connect, disconnect, simple_query, parse, bind, execute, sync,
  tx_end, close, CaptureMessage, ClientId,
}
use pgr.Trace.{TraceData}
use pgr.Analyzer.{F32, StorageWriter}
use pgr.Analyzer.Storage.Secs.{
  HasSecs, SmallChunks, map_query-HasSecs, write_params-HasSecs, write_trace-HasSecs,
}
use pgr.Analyzer.Storage.{map_query, write_params, write_trace}
use pgr.Analyzer.Client
use pgr.Analyzer.Client.{
  QueryInfo, AnalyzeClient, World, next_frame, push_info, on_simple_query, on_parse, on_event,
  on_capture, trace_row, on_trace_loop, on_trace, bind_to, execute_on,
}

-- The queue while the client takes messages and traces, as long as fewer than 2^32 frames were
-- counted.
abbrev pub counts : ClientEvent → ℕ
counts (simple_query _) = 1
counts (parse _ _ _) = 1
counts (bind _ _ _ _) = 1
counts (execute _ _) = 1
counts _ = 0

Rises-push :
    (queries : List QueryInfo) (info : QueryInfo)
    → Rises queries
    → All (λ earlier. earlier.index < info.index) queries
    → Rises (queries ++ info ∷ [])
Rises-push [] info h l = (tt, tt)
Rises-push (x ∷ queries) info (hx, h) (l, ls) = (
  All-append (λ later. x.index < later.index) queries (info ∷ []) hx (l, tt),
  Rises-push queries info h ls,
)

All-up :
    {n k : ℕ} (queries : List QueryInfo)
    → n < k
    → All (λ i. i.index ≤ n) queries
    → All (λ i. i.index < k) queries
All-up [] l h = tt
All-up (info ∷ queries) l (h, hs) = (omega arith, All-up queries l hs)

All-le :
    {n k : ℕ} (queries : List QueryInfo)
    → n ≤ k
    → All (λ i. i.index ≤ n) queries
    → All (λ i. i.index ≤ k) queries
All-le [] l h = tt
All-le (info ∷ queries) l (h, hs) = (omega arith, All-le queries l hs)

abbrev pub InOrder : AnalyzeClient → Type 0
InOrder c = UpTo c.frame_index c.queries

-- After the frame was counted, and with or without its entry.
InOrder-next : (c : AnalyzeClient) → suc c.frame_index < 2 ^ 32 → InOrder c → InOrder (next_frame c)
unfolding next_frame
InOrder-next c l (r, u) = (r, All-le c.queries (omega arith) u)

InOrder-push :
    (c c' : AnalyzeClient) (o p t : ℕ)
    → suc c.frame_index < 2 ^ 32
    → InOrder c
    → c'.queries ≡ c.queries
    → c'.frame_index ≡ add32 c.frame_index 1
    → InOrder (push_info c' o p t)
unfolding push_info
InOrder-push c c' o p t l (r, u) q f = (
  subst (λ qs. Rises (qs ++ pushed ∷ [])) (sym q)
      (Rises-push c.queries pushed r (All-up c.queries (omega (arith, f)) u)),
  All-append (λ i. i.index ≤ c'.frame_index) c'.queries (pushed ∷ [])
      (subst (All (λ i. i.index ≤ c'.frame_index)) (sym q) (All-le c.queries (omega (arith, f)) u))
      (omega arith, tt),
)
  where
    pushed : QueryInfo
    pushed = record { index = c'.frame_index; offset = o; params_offset = p; ts = t }

pub from_index-All :
    (P : QueryInfo → Type 0) (n : ℕ) (queries : List QueryInfo)
    → All P queries
    → All P (from_index n queries)
unfolding from_index
from_index-All P n [] h = tt
from_index-All P n (info ∷ queries) (h, hs) = elim (Bool-cases (leb n info.index)) [
  | inl keep ↦ rw keep (h, from_index-All P n queries hs)
  | inr drop' ↦ rw drop' (from_index-All P n queries hs)
]

pub from_index-Rises :
    (n : ℕ) (queries : List QueryInfo) → Rises queries → Rises (from_index n queries)
unfolding from_index
from_index-Rises n [] h = tt
from_index-Rises n (info ∷ queries) (h, hs) = elim (Bool-cases (leb n info.index)) [
  | inl keep ↦ rw keep (
    from_index-All (λ later. info.index < later.index) n queries h,
    from_index-Rises n queries hs,
  )
  | inr drop' ↦ rw drop' (from_index-Rises n queries hs)
]

pub add_assoc : (a b c : ℕ) → a + b + c ≡ a + (b + c)
add_assoc a b c = omega arith

pub zero_add : (n : ℕ) → 0 + n ≡ n
zero_add n = omega arith

add_one : (n : ℕ) → n + 1 ≡ suc n
add_one n = omega arith

pub add_none : (n : ℕ) → n + 0 ≡ n
add_none n = omega arith

-- A client that has counted `n` frames.
abbrev pub Counted : ℕ → AnalyzeClient → Type 0
Counted n c = (c.frame_index ≡ n) × InOrder c

Counted-push :
    (n : ℕ) (c c' : AnalyzeClient) (o p t : ℕ)
    → suc n < 2 ^ 32
    → Counted n c
    → c'.queries ≡ c.queries
    → c'.frame_index ≡ add32 c.frame_index 1
    → Counted (suc n) (push_info c' o p t)
unfolding push_info
Counted-push n c c' o p t l (e, h) q f =
    (omega (arith, f), InOrder-push c c' o p t (omega arith) h q f)

module _ (F : F32) where
  bind_to-Counted :
      (o : Option ℕ) (n : ℕ) (c : AnalyzeClient) (w : StorageWriter F) (portal : Bytes)
      (params : List BindParam) (formats : List ℕ) (ts : ℕ)
      → suc n < 2 ^ 32
      → Counted n c
      → Counted (suc n) (bind_to F o (next_frame c, w) portal params formats ts).0
  unfolding next_frame
  bind_to-Counted none n c w portal params formats ts l (e, h) =
      (omega arith, InOrder-next c (omega arith) h)
  bind_to-Counted (some o) n c w portal params formats ts l h =
      Counted-push n c _ o _ ts l h refl refl

  execute_on-Counted :
      (o : Option (ℕ × ℕ)) (n : ℕ) (c : AnalyzeClient) (w : StorageWriter F) (ts : ℕ)
      → suc n < 2 ^ 32
      → Counted n c
      → Counted (suc n) (execute_on F o (next_frame c, w) ts).0
  unfolding next_frame
  execute_on-Counted none n c w ts l (e, h) = (omega arith, InOrder-next c (omega arith) h)
  execute_on-Counted (some (o, p)) n c w ts l h = Counted-push n c _ o p ts l h refl refl

  module _ (hash : Bytes → ℕ) where
    pub on_event-Counted :
        (n : ℕ) (c : AnalyzeClient) (w : StorageWriter F) (e : ClientEvent) (ts : ℕ)
        → n + counts e < 2 ^ 32
        → Counted n c
        → Counted (n + counts e) (on_event F hash (c, w) e ts).0
    unfolding on_event on_simple_query on_parse next_frame
    on_event-Counted n c w (simple_query text) ts l h =
        rw (add_one n) (Counted-push n c _ _ _ ts (omega arith) h refl refl)
    on_event-Counted n c w (parse name query types) ts l h =
        rw (add_one n) (Counted-push n c _ _ _ ts (omega arith) h refl refl)
    on_event-Counted n c w (bind portal statement formats params) ts l h = rw (add_one n) (
        bind_to-Counted (lookup statement c.statements) n c w portal params formats ts (omega arith)
          h)
    on_event-Counted n c w (execute portal max_rows) ts l h =
        rw (add_one n) (execute_on-Counted (lookup portal c.portals) n c w ts (omega arith) h)
    on_event-Counted n c w (lsn l) ts k h = rw (add_none n) h
    on_event-Counted n c w (connect s) ts k h = rw (add_none n) h
    on_event-Counted n c w disconnect ts k h = rw (add_none n) h
    on_event-Counted n c w sync ts k h = rw (add_none n) h
    on_event-Counted n c w (tx_end b x l) ts k h = rw (add_none n) h
    on_event-Counted n c w (close kind name) ts k h = rw (add_none n) h
