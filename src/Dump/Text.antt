-- ===== src/Dump/Text.antt =====
-- The quoted texts that `text` of src/capture_dump.rs writes, and reading them back.
use pgr.Prelude.{
  ℕ, suc, zero, ◌+◌, ◌-◌, ◌≡◌, ◌≢◌, refl, sym, ap, ◌∙◌, ◌⊎◌, inl, inr, true, false, Option, none,
  some, [], ◌∷◌, ◌++◌, arith, Bytes, codes, length, length-append, take, slice, slice-eq, nth, ◌==◌,
  if◌then◌else◌, Bool-cases, append_assoc, append-nil, drop-append, take-append,
}
use pgr.Prelude.Panic.{◌>>=◌, Returns, Returns-some}
use pgr.Utf8.{from_utf8_lossy}
use pgr.Dump.{quote, text_loop, text}

-- A text with each quote written twice.
unfoldable pub double : Bytes → Bytes
double [] = []
double (b ∷ bs) = if b == quote then quote ∷ quote ∷ double bs else b ∷ double bs

pub double-append : (s t : Bytes) → double (s ++ t) ≡ double s ++ double t
unfolding double
double-append [] t = refl
double-append (b ∷ s) t = elim (Bool-cases (b == quote)) [
  | inl q ↦ rw q (ap (λ l. quote ∷ quote ∷ l) (double-append s t))
  | inr o ↦ rw o (ap (λ l. b ∷ l) (double-append s t))
]

nth-append : (s t : Bytes) (x : ℕ) (i : ℕ) → i ≡ length s → nth (s ++ x ∷ t) i ≡ some x
nth-append [] t x zero h = refl
nth-append [] t x (suc i) h = absurd (omega arith)
nth-append (y ∷ s) t x zero h = absurd (omega arith)
nth-append (y ∷ s) t x (suc i) h = nth-append s t x i (omega arith)

-- The middle of three parts.
slice-middle :
    (a b c : Bytes) (i j : ℕ)
    → i ≡ length a
    → j ≡ length a + length b
    → slice (a ++ (b ++ c)) i j ≡ some b
slice-middle a b c i j hi hj =
    slice-eq (a ++ (b ++ c)) i j (omega arith)
      (omega (arith, length-append a (b ++ c), length-append b c))
    ∙ ap some
        (ap (take (j - i)) (drop-append a (b ++ c) i hi) ∙ take-append b c (j - i) (omega arith))

-- `b` is `done ++ held ++ rest`: `done` is written, `held` is seen, and the loop stands at `rest`.
-- At the end what is written and what is held make up the text with its quotes doubled.
abbrev Left : Bytes → Bytes → ℕ × Bytes → Type 0
Left b before (start, w) =
    (done : Bytes) × (held : Bytes) × (b ≡ done ++ held)
    × (start ≡ length done)
    × (w ++ held ≡ before ++ double b)

text_loop-end : (i start : ℕ) (b w : Bytes) → text_loop 0 i start b w ≡ some (start, w)
unfolding text_loop
text_loop-end i start b w = refl

text_loop-quote :
    (n i start x : ℕ) (b w piece : Bytes)
    → nth b i ≡ some x
    → (x == quote) ≡ true
    → slice b start (i + 1) ≡ some piece
    → text_loop (suc n) i start b w ≡ text_loop n (i + 1) i b (w ++ piece)
unfolding text_loop
text_loop-quote n i start x b w piece h q e = rw (h, ◌>>=◌, q, e, ◌>>=◌)

text_loop-other :
    (n i start x : ℕ) (b w : Bytes)
    → nth b i ≡ some x
    → (x == quote) ≡ false
    → text_loop (suc n) i start b w ≡ text_loop n (i + 1) start b w
unfolding text_loop
text_loop-other n i start x b w h o = rw (h, ◌>>=◌, o)

double-quote : (x : ℕ) → (x == quote) ≡ true → double (x ∷ []) ≡ x ∷ x ∷ []
unfolding double
double-quote x q = rw q (ground arith)

double-other : (x : ℕ) → (x == quote) ≡ false → double (x ∷ []) ≡ x ∷ []
unfolding double
double-other x o = rw o

-- One more byte is seen.
seen :
    (done held before w : Bytes) (x : ℕ) (tail : Bytes)
    → w ++ held ≡ before ++ double (done ++ held)
    → double (x ∷ []) ≡ x ∷ tail
    → (w ++ held) ++ (x ∷ tail) ≡ before ++ double ((done ++ held) ++ (x ∷ []))
seen done held before w x tail h d =
    ap (λ s. s ++ (x ∷ tail)) h
    ∙ append_assoc before (double (done ++ held)) (x ∷ tail)
    ∙ ap (λ s. before ++ s)
        (ap (λ s. double (done ++ held) ++ s) (sym d) ∙ sym (double-append (done ++ held) (x ∷ [])))

text_loop-Left :
    (done held rest b before w : Bytes) (i start : ℕ)
    → b ≡ done ++ (held ++ rest)
    → i ≡ length done + length held
    → start ≡ length done
    → w ++ held ≡ before ++ double (done ++ held)
    → Returns (Left b before) (text_loop (length rest) i start b w)
text_loop-Left done held [] b before w i start e hi hs h =
    rw (text_loop-end i start b w)
      (done, held, whole, hs, h ∙ ap (λ s. before ++ double s) (sym whole))
  where
    whole : b ≡ done ++ held
    whole = e ∙ ap (λ s. done ++ s) (append-nil held)
text_loop-Left done held (x ∷ rest) b before w i start e hi hs h =
    by_quote
      (text_loop-Left (done ++ held) (x ∷ []) rest b before (w ++ (held ++ (x ∷ []))) (i + 1) i)
      (text_loop-Left done (held ++ (x ∷ [])) rest b before w (i + 1) start)
      (Bool-cases (x == quote))
  where
    flat : b ≡ (done ++ held) ++ (x ∷ rest)
    flat = e ∙ sym (append_assoc done held (x ∷ rest))

    here : nth b i ≡ some x
    here =
        ap (λ s. nth s i) flat
        ∙ nth-append (done ++ held) rest x i (omega (arith, length-append done held))

    longer : b ≡ done ++ ((held ++ (x ∷ [])) ++ rest)
    longer = e ∙ ap (λ s. done ++ s) (sym (append_assoc held (x ∷ []) rest))

    piece : slice b start (i + 1) ≡ some (held ++ (x ∷ []))
    piece =
        ap (λ s. slice s start (i + 1)) longer
        ∙ slice-middle done (held ++ (x ∷ [])) rest start (i + 1) hs
            (omega (arith, length-append held (x ∷ [])))

    shift : (w ++ (held ++ (x ∷ []))) ++ (x ∷ []) ≡ (w ++ held) ++ (x ∷ x ∷ [])
    shift = simp append_assoc

    by_quote :
        (b ≡ (done ++ held) ++ (x ∷ rest)
          → i + 1 ≡ length (done ++ held) + 1
          → i ≡ length (done ++ held)
          → (w ++ (held ++ (x ∷ []))) ++ (x ∷ []) ≡ before ++ double ((done ++ held) ++ (x ∷ []))
          → Returns (Left b before) (text_loop (length rest) (i + 1) i b (w ++ (held ++ (x ∷ [])))))
        → (b ≡ done ++ ((held ++ (x ∷ [])) ++ rest)
            → i + 1 ≡ length done + length (held ++ (x ∷ []))
            → start ≡ length done
            → w ++ (held ++ (x ∷ [])) ≡ before ++ double (done ++ (held ++ (x ∷ [])))
            → Returns (Left b before) (text_loop (length rest) (i + 1) start b w))
        → ((x == quote) ≡ true) ⊎ ((x == quote) ≡ false)
        → Returns (Left b before) (text_loop (suc (length rest)) i start b w)
    by_quote quoted plain (inl q) =
        rw (text_loop-quote (length rest) i start x b w (held ++ (x ∷ [])) here q piece) (
          quoted flat (omega (arith, length-append done held))
            (omega (arith, length-append done held))
            (shift ∙ seen done held before w x (x ∷ []) h (double-quote x q)))
    by_quote quoted plain (inr o) = rw (text_loop-other (length rest) i start x b w here o) (
        plain longer (omega (arith, length-append held (x ∷ []))) hs (
          sym (append_assoc w held (x ∷ []))
          ∙ seen done held before w x [] h (double-other x o)
          ∙ ap (λ s. before ++ double s) (append_assoc done held (x ∷ []))))

-- A field of a text: a comma and the text in quotes, its own quotes doubled.
abbrev pub quoted : Bytes → Bytes
quoted s = codes ",\"" ++ double s ++ codes "\""

double-nil : codes ",\"" ++ [] ≡ codes ",\"" ++ double []
unfolding double
double-nil = refl

slice-rest :
    (b done held : Bytes) (start : ℕ)
    → b ≡ done ++ held
    → start ≡ length done
    → slice b start (length b) ≡ some held
slice-rest b done held start e h =
    ap (λ s. slice s start (length b)) (e ∙ ap (λ s. done ++ s) (sym (append-nil held)))
    ∙ slice-middle done held [] start (length b) h
        (omega (arith, ap length e, length-append done held))

pub text-quoted : (s : Bytes) → text s ≡ some (quoted (from_utf8_lossy s))
unfolding text
text-quoted s =
    let b = from_utf8_lossy s in
    let ((start, w), e, (done, held, be, se, we)) =
      Returns-some (Left b (codes ",\"")) (text_loop (length b) 0 0 b (codes ",\"")) (
        text_loop-Left [] [] b b (codes ",\"") (codes ",\"") 0 0 refl (omega arith) refl
          double-nil) in
    rw (e, ◌>>=◌, slice-rest b done held start be se, ◌>>=◌) (ap (λ t. some (t ++ codes "\"")) we)

-- Reading a quoted text back: what stands before the quote that is not doubled, and what follows it.
unfoldable pub unquote : Bytes → Option (Bytes × Bytes)
unquote [] = none
unquote (a ∷ []) = if a == quote then some ([], []) else none
unquote (a ∷ b ∷ bs) =
    let plain = unquote (b ∷ bs) in
    let after = unquote bs in
    if a == quote
    then (if b == quote then (after >>= λ r. some (quote ∷ r.0, r.1)) else some ([], b ∷ bs))
    else (plain >>= λ r. some (a ∷ r.0, r.1))

-- What follows a quoted text does not start with a quote.
abbrev pub NoQuote : Bytes → Type 0
NoQuote [] = Unit
NoQuote (b ∷ rest) = (b == quote) ≡ false

unquote-plain :
    (a : ℕ) (bs : Bytes)
    → (a == quote) ≡ false
    → bs ≢ []
    → unquote (a ∷ bs) ≡ (unquote bs >>= λ r. some (a ∷ r.0, r.1))
unfolding unquote
unquote-plain a [] h n = absurd (n refl)
unquote-plain a (b ∷ bs) h n = rw h

append-ne : (s t : Bytes) (x : ℕ) → s ++ (x ∷ t) ≢ []
append-ne [] t x = λ e. cc
append-ne (y ∷ s) t x = λ e. cc

is_quote : (c : ℕ) → (c == quote) ≡ true → quote ≡ c
is_quote c q = ground arith

unquote-double :
    (s rest : Bytes) → NoQuote rest → unquote (double s ++ (quote ∷ rest)) ≡ some (s, rest)
unfolding unquote double
unquote-double [] [] h = refl
unquote-double [] (b ∷ rest) h = rw h
unquote-double (c ∷ s) rest h = elim (Bool-cases (c == quote)) [
  | inl q ↦ rw q (rw (unquote-double s rest h, ◌>>=◌) (ap (λ x. some (x ∷ s, rest)) (is_quote c q)))
  | inr o ↦ rw o (
      unquote-plain c (double s ++ (quote ∷ rest)) o (append-ne (double s) rest quote)
      ∙ rw (unquote-double s rest h, ◌>>=◌))
]

-- `text` does not panic. It writes a comma, a quote, and bytes from which the text (with invalid UTF-8
-- replaced) is read back, whatever follows that does not start with a quote.
pub text-unquote :
    (s rest : Bytes)
    → NoQuote rest
    → (body : Bytes) × (text s ≡ some (codes ",\"" ++ body))
      × (unquote (body ++ rest) ≡ some (from_utf8_lossy s, rest))
text-unquote s rest h = (
  double (from_utf8_lossy s) ++ codes "\"",
  text-quoted s ∙ ap some (append_assoc (codes ",\"") (double (from_utf8_lossy s)) (codes "\"")),
  ap unquote (append_assoc (double (from_utf8_lossy s)) (codes "\"") rest)
      ∙ unquote-double (from_utf8_lossy s) rest h,
)
