-- ===== src/Client/Reading/Scan.antt =====
-- The loop over pending bytes: enough rounds, what it leaves, and bytes that arrive later.
use pgr.Prelude.{
  ℕ, zero, suc, ◌≤◌, ◌<◌, ◌≡◌, refl, ap, ◌∙◌, sym, ◌⊎◌, inl, inr, true, false, Option, none, some,
  ◌++◌, arith, Bytes, length, drop, slice, slice-append, drop-append-le, length-append, length-drop,
  Bool-cases, Option-cases, if◌then◌else◌,
}
use pgr.Prelude.Panic.{◌>>=◌}
use pgr.Proto.{try_read_frame}
use pgr.Proto.Frame.{try_read_frame-bounds, try_read_frame-append}
use pgr.Client.{World, is_dead, handle_message}
use pgr.Client.Reading.{scan}

module _ (md5_hex : Bytes → Bytes) where
  -- What one round does with a frame, given how the loop goes on.
  abbrev pub round :
      World → ℕ → ℕ → Bytes → (World → Bytes → Option (World × Bytes)) → Option (World × Bytes)
  round w tag n p later = slice p 5 n >>= λ body.
      let w' = handle_message md5_hex w tag body in
      if is_dead w'.0.state then some (w', drop n p) else later w' (drop n p)

  pub scan-none :
      (f : ℕ) (w : World) (p : Bytes) → try_read_frame p ≡ none → scan md5_hex f w p ≡ some (w, p)
  unfolding scan
  scan-none zero w p h = refl
  scan-none (suc f) w p h = rw (h, scan)

  pub scan-some :
      (f : ℕ) (w : World) (p : Bytes) (tag n : ℕ)
      → try_read_frame p ≡ some (tag, n)
      → scan md5_hex (suc f) w p ≡ round w tag n p (scan md5_hex f)
  unfolding scan
  scan-some f w p tag n h = rw (h, scan)

  -- Two ways to go on that agree on fewer bytes make the same round.
  round-later :
      (w : World) (tag n : ℕ) (p : Bytes) (k l : World → Bytes → Option (World × Bytes))
      → ((w' : World) → k w' (drop n p) ≡ l w' (drop n p))
      → round w tag n p k ≡ round w tag n p l
  round-later w tag n p k l h = go (slice p 5 n)
    where
      go :
          (o : Option Bytes)
          → ◌≡◌ {A = Option (World × Bytes)}
              (o >>= λ body.
                let w' = handle_message md5_hex w tag body in
                if is_dead w'.0.state then some (w', drop n p) else k w' (drop n p))
              (o >>= λ body.
                let w' = handle_message md5_hex w tag body in
                if is_dead w'.0.state then some (w', drop n p) else l w' (drop n p))
      go none = refl
      go (some body) = rw (h (handle_message md5_hex w tag body))

  -- One round more than there are bytes is enough: more fuel changes nothing.
  pub scan-fuel :
      (f g : ℕ) (w : World) (p : Bytes)
      → length p < f
      → length p < g
      → scan md5_hex f w p ≡ scan md5_hex g w p
  scan-fuel zero g w p h k = elim h [ ]
  scan-fuel (suc f) zero w p h k = elim k [ ]
  scan-fuel (suc f) (suc g) w p h k = elim (Option-cases (try_read_frame p)) [
    | inl e ↦ scan-none (suc f) w p e ∙ sym (scan-none (suc g) w p e)
    | inr ((tag, n), e) ↦
        scan-some f w p tag n e
        ∙ round-later w tag n p (scan md5_hex f) (scan md5_hex g) (λ w'.
          scan-fuel f g w' (drop n p)
            (omega (arith, try_read_frame-bounds p tag n e, length-drop n p))
            (omega (arith, try_read_frame-bounds p tag n e, length-drop n p)))
        ∙ sym (scan-some g w p tag n e)
  ]

  -- What the loop leaves: a dead client, or no frame in the bytes left.
  abbrev pub Done : World → Bytes → Type 0
  Done w p = (is_dead w.0.state ≡ true) ⊎ (try_read_frame p ≡ none)

  abbrev pub Ends : ℕ → Option (World × Bytes) → Type 0
  Ends k none = Unit
  Ends k (some (w, p)) = Done w p × (length p ≤ k)

  pub scan-Ends :
      (f : ℕ) (w : World) (p : Bytes) → length p < f → Ends (length p) (scan md5_hex f w p)
  scan-Ends zero w p h = elim h [ ]
  scan-Ends (suc f) w p h = elim (Option-cases (try_read_frame p)) [
    | inl e ↦ rw (scan-none (suc f) w p e) (inr e, omega arith)
    | inr ((tag, n), e) ↦ rw (scan-some f w p tag n e) (
        body_read n (slice p 5 n) tag (λ w'. shorter n (scan md5_hex f w' (drop n p)) (
          scan-Ends f w' (drop n p)
            (omega (arith, try_read_frame-bounds p tag n e, length-drop n p)))))
  ]
    where
      shorter :
          (n : ℕ) (r : Option (World × Bytes)) → Ends (length (drop n p)) r → Ends (length p) r
      shorter n none k = k
      shorter n (some (w', q)) (d, k) = (d, omega (arith, length-drop n p))

      body_read :
          (n : ℕ) (o : Option Bytes) (tag : ℕ)
          → ((w' : World) → Ends (length p) (scan md5_hex f w' (drop n p)))
          → Ends (length p) (
              o >>= λ body.
              let w' = handle_message md5_hex w tag body in
              if is_dead w'.0.state then some (w', drop n p) else scan md5_hex f w' (drop n p))
      body_read n none tag k = tt
      body_read n (some body) tag k =
          let w' = handle_message md5_hex w tag body in
          elim (Bool-cases (is_dead w'.0.state)) [
            | inl d ↦ rw d (inl d, omega (arith, length-drop n p))
            | inr a ↦ rw a (k w')
          ]

  -- The loop goes on when more bytes have arrived, unless the client is dead.
  abbrev pub resume : ℕ → Bytes → Option (World × Bytes) → Option (World × Bytes)
  resume g q none = none
  resume g q (some (w, p)) =
      if is_dead w.0.state then some (w, p ++ q) else scan md5_hex g w (p ++ q)

  -- Reading bytes at once is reading the first part, and then the rest.
  pub scan-append :
      (f g h : ℕ) (w : World) (p q : Bytes)
      → length p < f
      → length (p ++ q) < g
      → length (p ++ q) < h
      → is_dead w.0.state ≡ false
      → scan md5_hex g w (p ++ q) ≡ resume h q (scan md5_hex f w p)
  scan-append zero g h w p q hf hg hh a = elim hf [ ]
  scan-append (suc f) zero h w p q hf hg hh a = elim hg [ ]
  scan-append (suc f) (suc g) h w p q hf hg hh a = elim (Option-cases (try_read_frame p)) [
    | inl e ↦ rw (scan-none (suc f) w p e, a) (scan-fuel (suc g) h w (p ++ q) hg hh)
    | inr ((tag, n), e) ↦
        rw
          (
            scan-some f w p tag n e,
            scan-some g w (p ++ q) tag n (try_read_frame-append p q tag n e),
            slice-append p q 5 n (try_read_frame-bounds p tag n e).1,
          )
          (body_read n (slice p 5 n) tag (drop-append-le p q n (try_read_frame-bounds p tag n e).1)
            (λ w' a'.
              scan-append f g h w' (drop n p) q
                (omega (arith, try_read_frame-bounds p tag n e, length-drop n p))
                (omega (
                  arith,
                  try_read_frame-bounds p tag n e,
                  length-drop n p,
                  length-append p q,
                  length-append (drop n p) q,
                ))
                (omega (
                  arith,
                  try_read_frame-bounds p tag n e,
                  length-drop n p,
                  length-append p q,
                  length-append (drop n p) q,
                ))
                a'))
  ]
    where
      body_read :
          (n : ℕ) (o : Option Bytes) (tag : ℕ)
          → drop n (p ++ q) ≡ drop n p ++ q
          → ((w' : World)
              → is_dead w'.0.state ≡ false
              → scan md5_hex g w' (drop n p ++ q) ≡ resume h q (scan md5_hex f w' (drop n p)))
          → ◌≡◌ {A = Option (World × Bytes)}
              (o >>= λ body.
                let w' = handle_message md5_hex w tag body in
                if is_dead w'.0.state
                then some (w', drop n (p ++ q))
                else scan md5_hex g w' (drop n (p ++ q)))
              (resume h q (
                o >>= λ body.
                let w' = handle_message md5_hex w tag body in
                if is_dead w'.0.state then some (w', drop n p) else scan md5_hex f w' (drop n p)))
      body_read n none tag d k = refl
      body_read n (some body) tag d k =
          let w' = handle_message md5_hex w tag body in
          elim (Bool-cases (is_dead w'.0.state)) [
            | inl e ↦ rw (e, e) (ap (λ t. some (w', t)) d)
            | inr e ↦ rw (e, d) (k w' e)
          ]
