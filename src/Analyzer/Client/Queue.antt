-- ===== src/Analyzer/Client/Queue.antt =====
-- The queue of the frames of one client of src/analyzer.rs, and the search for a trace in it.
use pgr.Prelude.{
  ℕ, ◌≤◌, ◌<◌, ◌≡◌, refl, ap, ◌⊎◌, true, false, Option, none, some, List, [], ◌∷◌, arith, All, leb,
  ltb, ◌==◌, if◌then◌else◌, inl, inr, Bool-cases, ltb→lt, ltb-false, lt→==-false, ne→==-false,
  le→leb, lt→leb-false,
}
use pgr.Prelude.Panic.{◌>>=◌}
use pgr.Prelude.Maps.{Bytes_key}
use pgr.Capture.{ClientId}
use pgr.Trace.{TraceData}
use pgr.Analyzer.{F32, StorageWriter}
use pgr.Analyzer.Storage.{write_trace}
use pgr.Analyzer.Client.{QueryInfo, AnalyzeClient, World, trace_row, on_trace_loop, on_trace}

-- The reference: the frame of a given index, and the frames that have it or a later one.
unfoldable pub info_at : ℕ → List QueryInfo → Option QueryInfo
info_at n [] = none
info_at n (info ∷ queries) = if info.index == n then some info else info_at n queries

unfoldable pub from_index : ℕ → List QueryInfo → List QueryInfo
from_index n [] = []
from_index n (info ∷ queries) =
    if leb n info.index then info ∷ from_index n queries else from_index n queries

-- The indices of the queue rise, and the last one is at most `n`.
abbrev pub Rises : List QueryInfo → Type 0
Rises [] = Unit
Rises (info ∷ queries) = All (λ later. info.index < later.index) queries × Rises queries

abbrev pub UpTo : ℕ → List QueryInfo → Type 0
UpTo n queries = Rises queries × All (λ info. info.index ≤ n) queries

info_at-behind :
    (n : ℕ) (queries : List QueryInfo)
    → All (λ later. n < later.index) queries
    → info_at n queries ≡ none
unfolding info_at
info_at-behind n [] h = refl
info_at-behind n (info ∷ queries) (h, hs) = ground (arith, info_at-behind n queries hs)

from_index-All :
    (n k : ℕ) (queries : List QueryInfo)
    → n ≤ k
    → All (λ later. k < later.index) queries
    → from_index n queries ≡ queries
unfolding from_index
from_index-All n k [] l h = refl
from_index-All n k (info ∷ queries) l (h, hs) =
    rw (le→leb n info.index (omega arith)) (ap (λ q. info ∷ q) (from_index-All n k queries l hs))

All-weaken :
    {n k : ℕ} (queries : List QueryInfo)
    → n < k
    → All (λ later. k < later.index) queries
    → All (λ later. n < later.index) queries
All-weaken [] l h = tt
All-weaken (info ∷ queries) l (h, hs) = (omega arith, All-weaken queries l hs)

equal-eq : (a b : ℕ) → b ≤ a → a ≤ b → (a == b) ≡ true
equal-eq a b h k = ground arith

module _ (F : F32) where
  -- The row for a frame that is found.
  abbrev pub row_for :
      Option QueryInfo → ClientId → TraceData → StorageWriter F → Option (StorageWriter F)
  row_for none id d w = some w
  row_for (some info) id d w = write_trace F w (trace_row F id info d)

  loop-info_at :
      (queries : List QueryInfo) (id : ClientId) (d : TraceData) (w : StorageWriter F)
      → Rises queries
      → on_trace_loop F queries id d w ≡ (
          row_for (info_at d.frame_index queries) id d w >>= λ w'.
          some (from_index d.frame_index queries, w'))
  unfolding on_trace_loop info_at from_index
  loop-info_at [] id d w h = refl
  loop-info_at (info ∷ queries) id d w (later, h) =
      by_order (Bool-cases (ltb info.index d.frame_index))
        (Bool-cases (ltb d.frame_index info.index)) (loop-info_at queries id d w h)
    where
      by_order :
          (ltb info.index d.frame_index ≡ true) ⊎ (ltb info.index d.frame_index ≡ false)
          → (ltb d.frame_index info.index ≡ true) ⊎ (ltb d.frame_index info.index ≡ false)
          → on_trace_loop F queries id d w ≡ (
              row_for (info_at d.frame_index queries) id d w >>= λ w'.
              some (from_index d.frame_index queries, w'))
          → on_trace_loop F (info ∷ queries) id d w ≡ (
              row_for (info_at d.frame_index (info ∷ queries)) id d w >>= λ w'.
              some (from_index d.frame_index (info ∷ queries), w'))
      by_order (inl before) b e =
          rw
            (
              before,
              lt→==-false info.index d.frame_index (ltb→lt info.index d.frame_index before),
              lt→leb-false d.frame_index info.index (ltb→lt info.index d.frame_index before),
            )
            e
      by_order (inr x) (inl behind) e = rw (
        x,
        behind,
        ne→==-false info.index d.frame_index
            (λ same. omega (arith, ltb→lt d.frame_index info.index behind)),
        le→leb d.frame_index info.index (omega (arith, ltb→lt d.frame_index info.index behind)),
        info_at-behind d.frame_index queries
            (All-weaken queries (ltb→lt d.frame_index info.index behind) later),
        from_index-All d.frame_index info.index queries
            (omega (arith, ltb→lt d.frame_index info.index behind)) later,
      )
      by_order (inr x) (inr y) e = rw (
        x,
        y,
        equal-eq info.index d.frame_index (ltb-false info.index d.frame_index x)
            (ltb-false d.frame_index info.index y),
        le→leb d.frame_index info.index (ltb-false info.index d.frame_index x),
        from_index-All d.frame_index info.index queries (ltb-false info.index d.frame_index x)
            later,
      )

  -- In a queue whose indices rise, `on_trace` writes the row of the frame that the trace names, if the
  -- queue has it, and leaves that frame and the later ones.
  pub on_trace-info_at :
      (c : AnalyzeClient) (w : StorageWriter F) (d : TraceData)
      → Rises c.queries
      → on_trace F (c, w) d ≡ (
          row_for (info_at d.frame_index c.queries) c.id d w >>= λ w'.
          some (record c { queries = from_index d.frame_index c.queries }, w'))
  unfolding on_trace
  on_trace-info_at c w d h =
      rw (loop-info_at c.queries c.id d w h)
        (bind_bind (row_for (info_at d.frame_index c.queries) c.id d w))
    where
      rest : StorageWriter F → List QueryInfo × StorageWriter F
      rest w' = (from_index d.frame_index c.queries, w')

      keep : List QueryInfo × StorageWriter F → World F
      keep (queries, w') = (record c { queries = queries }, w')

      bind_bind :
          (o : Option (StorageWriter F))
          → ((o >>= λ w'. some (rest w')) >>= λ r. some (keep r))
            ≡ (o >>= λ w'. some (keep (rest w')))
      bind_bind none = refl
      bind_bind (some w') = refl
