-- ===== src/Compare/Pairing.antt =====
-- `drain` of src/compare.rs pairs the two queues as a search for one in the other does.
use pgr.Prelude.{
  ℕ, ◌≡◌, ◌≢◌, refl, sym, ap, ap₂, ◌∙◌, inl, inr, Bool, true, false, not, Option, List, [], ◌∷◌,
  ◌++◌, arith, add64, ◌==◌, if◌then◌else◌, Bool-cases,
}
use pgr.Compare.{
  ClientStats, World, Pair, record_pair, match_pair, skip, put_back, drain_loop, drain,
  add_deviation,
}

abbrev pub codes_of_cap : List (ℕ × ℕ × Bool) → List ℕ
codes_of_cap [] = []
codes_of_cap ((code, ts, restore) ∷ cap) = code ∷ codes_of_cap cap

abbrev pub codes_of_tim : List (ℕ × ℕ) → List ℕ
codes_of_tim [] = []
codes_of_tim ((code, ts) ∷ tim) = code ∷ codes_of_tim tim

-- The codes on the left stand among those on the right, in the same order.
pub data Within : List ℕ → List ℕ → Type 0 where
  done : {cs : List ℕ} → Within [] cs
  take_code : {c : ℕ} {ts cs : List ℕ} → Within ts cs → Within (c ∷ ts) (c ∷ cs)
  pass_code : {c : ℕ} {ts cs : List ℕ} → Within ts cs → Within ts (c ∷ cs)

-- The first code on the left can take the first equal code on the right.
Within-tail : {t : ℕ} {ts cs : List ℕ} → Within (t ∷ ts) cs → Within ts cs
Within-tail (take_code w) = pass_code w
Within-tail (pass_code w) = pass_code (Within-tail w)

Within-same : {t c : ℕ} {ts cs : List ℕ} → Within (t ∷ ts) (c ∷ cs) → Within ts cs
Within-same (take_code w) = w
Within-same (pass_code w) = Within-tail w

Within-other : {t c : ℕ} {ts cs : List ℕ} → c ≢ t → Within (t ∷ ts) (c ∷ cs) → Within (t ∷ ts) cs
Within-other h (take_code w) = absurd (h refl)
Within-other h (pass_code w) = w

drain_loop-tim :
    (cap : List (ℕ × ℕ × Bool)) (tim : List (ℕ × ℕ)) (w : World)
    → Within (codes_of_tim tim) (codes_of_cap cap)
    → (drain_loop cap tim w).0.tim ≡ []
unfolding drain_loop
drain_loop-tim [] [] w h = refl
drain_loop-tim [] (t ∷ tim) w h = elim h [ ]
drain_loop-tim (e ∷ cap) [] w h = refl
drain_loop-tim ((ct, cts, restore) ∷ cap) ((tt', tts) ∷ tim) w h = elim (Bool-cases (ct == tt')) [
  | inl same ↦ rw same (drain_loop-tim cap tim (match_pair w ct restore (cts, tts)) (Within-same h))
  | inr other ↦
      rw other (drain_loop-tim cap ((tt', tts) ∷ tim) (skip w) (Within-other (λ e. ground arith) h))
]

-- If the codes of the timing records stand among those of the capture's messages in the same order,
-- `drain` finds a message for every record.
pub drain-Within :
    (c : ClientStats) (origin : Option Pair)
    → Within (codes_of_tim c.tim) (codes_of_cap c.cap)
    → (drain (c, origin)).0.tim ≡ []
unfolding drain
drain-Within c origin h = drain_loop-tim c.cap c.tim (c, origin) h

-- Pairing what arrived and then the rest is pairing all at once.
abbrev pub more_cap : World → List (ℕ × ℕ × Bool) → World
more_cap (c, origin) cap = (record c { cap = c.cap ++ cap }, origin)

abbrev pub more_tim : World → List (ℕ × ℕ) → World
more_tim (c, origin) tim = (record c { tim = c.tim ++ tim }, origin)

record_pair-put_back :
    (w : World) (a : List (ℕ × ℕ × Bool)) (b : List (ℕ × ℕ)) (code : ℕ) (restore : Bool) (p : Pair)
    → record_pair (put_back w a b) code restore p ≡ put_back (record_pair w code restore p) a b
unfolding record_pair add_deviation
record_pair-put_back (c, origin) a b code true p = ground arith
record_pair-put_back (c, origin) a b code false p = ground arith

match_pair-put_back :
    (w : World) (a : List (ℕ × ℕ × Bool)) (b : List (ℕ × ℕ)) (code : ℕ) (restore : Bool) (p : Pair)
    → match_pair (put_back w a b) code restore p ≡ put_back (match_pair w code restore p) a b
unfolding match_pair
match_pair-put_back w a b code restore p =
    ap (λ (v : World). (record v.0 { matched = add64 v.0.matched 1 }, v.1))
      (record_pair-put_back w a b code restore p)

-- The loop does not read the queues that stand in the client.
drain_loop-put_back :
    (cap : List (ℕ × ℕ × Bool)) (tim : List (ℕ × ℕ)) (w : World) (a : List (ℕ × ℕ × Bool))
    (b : List (ℕ × ℕ))
    → drain_loop cap tim (put_back w a b) ≡ drain_loop cap tim w
unfolding drain_loop
drain_loop-put_back [] tim w a b = refl
drain_loop-put_back (e ∷ cap) [] w a b = refl
drain_loop-put_back ((ct, cts, restore) ∷ cap) ((tt', tts) ∷ tim) w a b =
    ap₂ (λ skipped matched. if not (ct == tt') then skipped else matched)
      (drain_loop-put_back cap ((tt', tts) ∷ tim) (skip w) a b)
      (ap (drain_loop cap tim) (match_pair-put_back w a b ct restore (cts, tts))
        ∙ drain_loop-put_back cap tim (match_pair w ct restore (cts, tts)) a b)

drain_loop-more_cap :
    (cap more : List (ℕ × ℕ × Bool)) (tim : List (ℕ × ℕ)) (w : World)
    → drain (more_cap (drain_loop cap tim w) more) ≡ drain_loop (cap ++ more) tim w
unfolding drain_loop drain
drain_loop-more_cap [] more tim w = drain_loop-put_back more tim w more tim
drain_loop-more_cap (e ∷ cap) more [] w = refl
drain_loop-more_cap ((ct, cts, restore) ∷ cap) more ((tt', tts) ∷ tim) w =
    elim (Bool-cases (ct == tt')) [
      | inl same ↦ rw same (drain_loop-more_cap cap more tim (match_pair w ct restore (cts, tts)))
      | inr other ↦ rw other (drain_loop-more_cap cap more ((tt', tts) ∷ tim) (skip w))
    ]

drain_loop-more_tim :
    (cap : List (ℕ × ℕ × Bool)) (tim more : List (ℕ × ℕ)) (w : World)
    → drain (more_tim (drain_loop cap tim w) more) ≡ drain_loop cap (tim ++ more) w
unfolding drain_loop drain
drain_loop-more_tim [] tim more w = refl
drain_loop-more_tim (e ∷ cap) [] more w = drain_loop-put_back (e ∷ cap) more w (e ∷ cap) more
drain_loop-more_tim ((ct, cts, restore) ∷ cap) ((tt', tts) ∷ tim) more w =
    elim (Bool-cases (ct == tt')) [
      | inl same ↦ rw same (drain_loop-more_tim cap tim more (match_pair w ct restore (cts, tts)))
      | inr other ↦ rw other (drain_loop-more_tim cap ((tt', tts) ∷ tim) more (skip w))
    ]

-- Draining what has arrived, and again after more messages or more records have arrived, is draining
-- once what arrived in the end.
pub drain-more :
    (w : World) (cap : List (ℕ × ℕ × Bool)) (tim : List (ℕ × ℕ))
    → (drain (more_cap (drain w) cap) ≡ drain (more_cap w cap))
      × (drain (more_tim (drain w) tim) ≡ drain (more_tim w tim))
unfolding drain
drain-more (c, origin) cap tim = (
  drain_loop-more_cap c.cap cap c.tim (c, origin)
      ∙ sym (drain_loop-put_back (c.cap ++ cap) c.tim (c, origin) (c.cap ++ cap) c.tim),
  drain_loop-more_tim c.cap c.tim tim (c, origin)
      ∙ sym (drain_loop-put_back c.cap (c.tim ++ tim) (c, origin) c.cap (c.tim ++ tim)),
)
