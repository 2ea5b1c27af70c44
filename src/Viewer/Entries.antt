-- ===== src/Viewer/Entries.antt =====
-- Entries that stand somewhere in a file, and reading them back.
use pgr.Prelude.{
  ℕ, ◌+◌, ◌-◌, ◌≤◌, ◌<◌, ◌^◌, ◌≡◌, refl, ap, ◌∙◌, Option, some, List, [], ◌∷◌, ◌++◌, arith, Bytes,
  length, All, take, drop, slice, slice-eq, to_le, from_le-to_le, length-to_le, bytes_bound,
  drop-append, take-append, length-append, take-all, append_assoc, le→ltb,
}
use pgr.Prelude.Panic.{◌>>=◌}
use pgr.Prelude.Io.{Result, ok}
use pgr.Viewer.{word, need, read_entries}

-- The number that stands behind a prefix.
pub word-at :
    (pre : Bytes) (k n : ℕ) (post : Bytes) (a b : ℕ)
    → a ≡ length pre
    → b ≡ a + k
    → n < bytes_bound k
    → word (pre ++ (to_le k n ++ post)) a b ≡ some n
unfolding word
word-at pre k n post a b ha hb h = rw (
  slice-eq (pre ++ (to_le k n ++ post)) a b (omega arith) (
      omega (
        arith,
        length-append pre (to_le k n ++ post),
        length-append (to_le k n) post,
        length-to_le k n,
      )),
  drop-append pre (to_le k n ++ post) a ha,
  take-append (to_le k n) post (b - a) (omega (arith, length-to_le k n)),
  ◌>>=◌,
  from_le-to_le k n h,
)

pub need-le :
    (buf : Bytes) (n : ℕ) (rest : Option (Result ℕ)) → n ≤ length buf → need buf n rest ≡ rest
need-le buf n rest h = rw (le→ltb (length buf) n h)

-- An offset at which an entry stands.
pub record StandsAt (file entry : Bytes) (offset : ℕ) : Type 0 where
  pub pre : Bytes
  pub post : Bytes
  pub file_eq : file ≡ pre ++ (entry ++ post)
  pub offset_eq : offset ≡ length pre

pub StandsAt-append :
    (file entry more : Bytes) (offset : ℕ)
    → StandsAt file entry offset
    → StandsAt (file ++ more) entry offset
StandsAt-append file entry more offset h = record {
  pre = h.pre;
  post = h.post ++ more;
  file_eq =
      rw (h.file_eq, append_assoc h.pre (entry ++ h.post) more, append_assoc entry h.post more);
  offset_eq = h.offset_eq;
}

-- All offsets of a list hold the entries of another.
abbrev pub StandAt : Bytes → List Bytes → List ℕ → Type 0
StandAt file [] [] = Unit
StandAt file (entry ∷ entries) (offset ∷ offsets) =
    StandsAt file entry offset × StandAt file entries offsets
StandAt file _ _ = ⊥

pub StandAt-append :
    (file more : Bytes) (entries : List Bytes) (offsets : List ℕ)
    → StandAt file entries offsets
    → StandAt (file ++ more) entries offsets
StandAt-append file more [] [] h = tt
StandAt-append file more [] (o ∷ os) h = absurd h
StandAt-append file more (e ∷ es) [] h = absurd h
StandAt-append file more (e ∷ es) (o ∷ os) (h, hs) =
    (StandsAt-append file e more o h, StandAt-append file more es os hs)

pub StandAt-small :
    (file : Bytes) (entries : List Bytes) (offsets : List ℕ)
    → StandAt file entries offsets
    → length file < 2 ^ 64
    → All (λ o. o < 2 ^ 64) offsets
StandAt-small file [] [] h l = tt
StandAt-small file [] (o ∷ os) h l = absurd h
StandAt-small file (e ∷ es) [] h l = absurd h
StandAt-small file (e ∷ es) (o ∷ os) (h, hs) l = (
  omega (arith, ap length h.file_eq, length-append h.pre (e ++ h.post), h.offset_eq),
  StandAt-small file es os hs l,
)

abbrev pub concat : List Bytes → Bytes
concat [] = []
concat (e ∷ es) = e ++ concat es

slice-prefix : (e post : Bytes) → slice (e ++ post) 0 (length e) ≡ some e
slice-prefix e post =
    slice-eq (e ++ post) 0 (length e) (omega arith) (omega (arith, length-append e post))
    ∙ ap some (take-append e post (length e - 0) (omega arith))

-- A reader that measures each entry reads the entries at their offsets, whatever stands around them.
module _ (entry_total : Bytes → Option (Result ℕ)) (Entry : Bytes → Type 0)
    (measures : (e post : Bytes) → Entry e → entry_total (e ++ post) ≡ some (ok (length e))) where
  pub read_entries-StandAt :
      (file : Bytes) (entries : List Bytes) (offsets : List ℕ)
      → All Entry entries
      → StandAt file entries offsets
      → read_entries entry_total file offsets ≡ some (ok (concat entries))
  read_entries-StandAt file [] [] he h = refl
  read_entries-StandAt file [] (o ∷ os) he h = absurd h
  read_entries-StandAt file (e ∷ es) [] he h = absurd h
  read_entries-StandAt file (e ∷ es) (o ∷ os) (he, hes) (h, hs) = rw (
    slice-eq file o (length file) (omega (arith, total)) (omega arith),
    rest,
    ◌>>=◌,
    measures e h.post he,
    ◌>>=◌,
    read_entries-StandAt file es os hes hs,
    slice-prefix e h.post,
    ◌>>=◌,
  )
    where
      total : length file ≡ o + length (e ++ h.post)
      total = omega (arith, ap length h.file_eq, length-append h.pre (e ++ h.post), h.offset_eq)

      tail : drop o file ≡ e ++ h.post
      tail = ap (drop o) h.file_eq ∙ drop-append h.pre (e ++ h.post) o h.offset_eq

      rest : take (length file - o) (drop o file) ≡ e ++ h.post
      rest =
          ap (take (length file - o)) tail
          ∙ take-all (e ++ h.post) (length file - o) (omega (arith, total))
