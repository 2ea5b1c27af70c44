-- ===== src/Utf8.antt =====
-- `String::from_utf8_lossy` of the language's library, which src/capture.rs, src/proto.rs and
-- src/capture_dump.rs call: every maximal invalid piece of the input becomes U+FFFD. A string is
-- the list of its bytes.
use pgr.Prelude.{
  Bool-cases, inl, inr, sym, ltb-false, ltb→lt, ◌∙◌, All, ◌⊎◌, ◌+◌, ◌/◌, ◌%◌, ℕ, ◌≤◌, ◌<◌, ◌≡◌,
  refl, ap, ◌&&◌, List, [], ◌∷◌, ◌++◌, arith, Bytes, leb, ltb, if◌then◌else◌, le→leb, lt→ltb,
}

-- A range of bytes, both ends included.
abbrev pub Range : Type 0
Range = ℕ × ℕ

-- The bytes of an unfinished character, and the ranges of those that must follow.
pub record Partial : Type 0 where
  pub held : Bytes
  pub expected : List Range

abbrev continuation : Range
continuation = (0x80, 0xbf)

abbrev replacement : Bytes
replacement = 0xef ∷ 0xbf ∷ 0xbd ∷ []

abbrev idle : Partial
idle = record { held = []; expected = [] }

-- The ranges of the bytes that follow a first byte; none for a byte that starts no character of
-- several bytes.
abbrev following : ℕ → List Range
following b =
    if ltb b 0xc2
    then []
    else if leb b 0xdf
    then continuation ∷ []
    else if leb b 0xe0
    then (0xa0, 0xbf) ∷ continuation ∷ []
    else if leb b 0xec
    then continuation ∷ continuation ∷ []
    else if leb b 0xed
    then (0x80, 0x9f) ∷ continuation ∷ []
    else if leb b 0xef
    then continuation ∷ continuation ∷ []
    else if leb b 0xf0
    then (0x90, 0xbf) ∷ continuation ∷ continuation ∷ []
    else if leb b 0xf3
    then continuation ∷ continuation ∷ continuation ∷ []
    else if leb b 0xf4
    then (0x80, 0x8f) ∷ continuation ∷ continuation ∷ []
    else []

-- A byte where a character may start: what it puts out, and what is then unfinished.
start : ℕ → Bytes × Partial
start b = if ltb b 0x80 then (b ∷ [], idle) else first (following b)
  where
    first : List Range → Bytes × Partial
    first [] = (replacement, idle)
    first (r ∷ rs) = ([], record { held = b ∷ []; expected = r ∷ rs })

-- The next byte after an unfinished character.
advance : Partial → ℕ → Bytes × Partial
unfolding start
advance p b = elim p.expected [
  | [] ↦ start b
  | (lo, hi) ∷ rs ↦
      if leb lo b && leb b hi
      then taken (p.held ++ b ∷ []) rs
      else (replacement ++ (start b).0, (start b).1)
]
  where
    taken : Bytes → List Range → Bytes × Partial
    taken held [] = (held, idle)
    taken held (r ∷ rs) = ([], record { held = held; expected = r ∷ rs })

lossy_from : Partial → Bytes → Bytes
lossy_from p [] = elim p.expected [ [] ↦ [] | r ∷ rs ↦ replacement ]
lossy_from p (b ∷ bs) = let (out, p') = advance p b in out ++ lossy_from p' bs

unfoldable pub from_utf8_lossy : Bytes → Bytes
unfolding lossy_from advance
from_utf8_lossy s = lossy_from idle s

-- One valid character, an overlong one, a lone surrogate, a cut character.
lossy_test :
    from_utf8_lossy
      (0x41 ∷ 0xd0 ∷ 0x96 ∷ 0xc0 ∷ 0x80 ∷ 0xed ∷ 0xa0 ∷ 0x80 ∷ 0xf0 ∷ 0x9f ∷ 0x98 ∷ 0x42 ∷ [])
    ≡ 0x41 ∷ 0xd0 ∷ 0x96 ∷ replacement
      ++ replacement
      ++ replacement
      ++ replacement
      ++ replacement
      ++ replacement
      ++ 0x42 ∷ []
unfolding from_utf8_lossy
lossy_test = refl

-- The Unicode scalar values and their bytes.
abbrev pub IsScalar : ℕ → Type 0
IsScalar c = (c < 0x110000) × ((c < 0xd800) ⊎ (0xe000 ≤ c))

abbrev pub encode_char : ℕ → Bytes
encode_char c =
    if ltb c 0x80
    then c ∷ []
    else if ltb c 0x800
    then (0xc0 + c / 64) ∷ (0x80 + c % 64) ∷ []
    else if ltb c 0x10000
    then (0xe0 + c / 4096) ∷ (0x80 + c / 64 % 64) ∷ (0x80 + c % 64) ∷ []
    else (0xf0 + c / 262144) ∷ (0x80 + c / 4096 % 64) ∷ (0x80 + c / 64 % 64) ∷ (0x80 + c % 64) ∷ []

abbrev pub encode_text : List ℕ → Bytes
encode_text [] = []
encode_text (c ∷ cs) = encode_char c ++ encode_text cs

-- A byte string that is the encoding of characters, as every `String` is.
pub record IsUtf8 (s : Bytes) : Type 0 where
  pub chars : List ℕ
  pub scalars : All IsScalar chars
  pub encoded : s ≡ encode_text chars

two :
    (c : ℕ) (rest : Bytes)
    → 0x80 ≤ c
    → c < 0x800
    → lossy_from idle ((0xc0 + c / 64) ∷ (0x80 + c % 64) ∷ rest)
      ≡ (0xc0 + c / 64) ∷ (0x80 + c % 64) ∷ lossy_from idle rest
unfolding lossy_from advance
two c rest h k = ground arith

three :
    (c : ℕ) (rest : Bytes)
    → 0x800 ≤ c
    → c < 0x10000
    → ((c < 0xd800) ⊎ (0xe000 ≤ c))
    → lossy_from idle ((0xe0 + c / 4096) ∷ (0x80 + c / 64 % 64) ∷ (0x80 + c % 64) ∷ rest)
      ≡ (0xe0 + c / 4096) ∷ (0x80 + c / 64 % 64) ∷ (0x80 + c % 64) ∷ lossy_from idle rest
unfolding lossy_from advance
three c rest h k s = ground arith

abbrev partial : Bytes → List Range → Partial
partial held expected = record { held = held; expected = expected }

more :
    (held : Bytes) (lo hi : ℕ) (r : Range) (rs : List Range) (b : ℕ) (bs : Bytes)
    → lo ≤ b
    → b ≤ hi
    → lossy_from (partial held ((lo, hi) ∷ r ∷ rs)) (b ∷ bs)
      ≡ lossy_from (partial (held ++ b ∷ []) (r ∷ rs)) bs
unfolding lossy_from advance
more held lo hi r rs b bs h k = rw (le→leb lo b h, le→leb b hi k)

last :
    (held : Bytes) (lo hi : ℕ) (b : ℕ) (bs : Bytes)
    → lo ≤ b
    → b ≤ hi
    → lossy_from (partial held ((lo, hi) ∷ [])) (b ∷ bs) ≡ (held ++ b ∷ []) ++ lossy_from idle bs
unfolding lossy_from advance
last held lo hi b bs h k = rw (le→leb lo b h, le→leb b hi k)

-- The range of the second byte of a character of four bytes.
abbrev second_of_four : ℕ → Range
second_of_four b =
    if leb b 0xf0 then (0x90, 0xbf) else if leb b 0xf3 then continuation else (0x80, 0x8f)

first_of_four :
    (b : ℕ) (bs : Bytes)
    → 0xf0 ≤ b
    → b ≤ 0xf4
    → lossy_from idle (b ∷ bs)
      ≡ lossy_from (partial (b ∷ []) (second_of_four b ∷ continuation ∷ continuation ∷ [])) bs
unfolding lossy_from advance
first_of_four b bs h k = ground arith

second_in :
    (c : ℕ)
    → 0x10000 ≤ c
    → c < 0x110000
    → ((second_of_four (0xf0 + c / 262144)).0 ≤ 0x80 + c / 4096 % 64)
      × (0x80 + c / 4096 % 64 ≤ (second_of_four (0xf0 + c / 262144)).1)
second_in c h k = ground arith

four :
    (c : ℕ) (rest : Bytes)
    → 0x10000 ≤ c
    → c < 0x110000
    → lossy_from idle (
        (0xf0 + c / 262144)
        ∷ (0x80 + c / 4096 % 64)
        ∷ (0x80 + c / 64 % 64)
        ∷ (0x80 + c % 64)
        ∷ rest)
      ≡ (0xf0 + c / 262144)
        ∷ (0x80 + c / 4096 % 64)
        ∷ (0x80 + c / 64 % 64)
        ∷ (0x80 + c % 64)
        ∷ lossy_from idle rest
unfolding lossy_from advance
four c rest h k =
    let (lo, hi) = second_in c h k in
    let b1 : ℕ = 0xf0 + c / 262144 in
    let b2 : ℕ = 0x80 + c / 4096 % 64 in
    let b3 : ℕ = 0x80 + c / 64 % 64 in
    let b4 : ℕ = 0x80 + c % 64 in
    first_of_four b1 (b2 ∷ b3 ∷ b4 ∷ rest) (omega arith) (omega arith)
    ∙ more (b1 ∷ []) (second_of_four b1).0 (second_of_four b1).1 continuation (continuation ∷ []) b2
        (b3 ∷ b4 ∷ rest) lo hi
    ∙ more (b1 ∷ b2 ∷ []) 0x80 0xbf continuation [] b3 (b4 ∷ rest) (omega arith) (omega arith)
    ∙ last (b1 ∷ b2 ∷ b3 ∷ []) 0x80 0xbf b4 rest (omega arith) (omega arith)

lossy_char :
    (c : ℕ) (rest : Bytes)
    → IsScalar c
    → lossy_from idle (encode_char c ++ rest) ≡ encode_char c ++ lossy_from idle rest
lossy_char c rest s = elim (Bool-cases (ltb c 0x80)) [
  | inl small ↦ rw small (unfold lossy_from advance in rw small)
  | inr big ↦ elim (Bool-cases (ltb c 0x800)) [
    | inl small ↦ rw (big, small) (two c rest (ltb-false _ _ big) (ltb→lt _ _ small))
    | inr bigger ↦ elim (Bool-cases (ltb c 0x10000)) [
      | inl small ↦
          rw (big, bigger, small) (three c rest (ltb-false _ _ bigger) (ltb→lt _ _ small) s.1)
      | inr biggest ↦ rw (big, bigger, biggest) (four c rest (ltb-false _ _ biggest) s.0)
    ]
  ]
]

lossy_text : (cs : List ℕ) → All IsScalar cs → lossy_from idle (encode_text cs) ≡ encode_text cs
lossy_text [] h = unfold lossy_from in refl
lossy_text (c ∷ cs) (s, h) =
    lossy_char c (encode_text cs) s ∙ ap (λ t. encode_char c ++ t) (lossy_text cs h)

-- On text that is valid UTF-8 the lossy conversion changes nothing.
pub from_utf8_lossy-eq : (s : Bytes) → IsUtf8 s → from_utf8_lossy s ≡ s
unfolding from_utf8_lossy
from_utf8_lossy-eq s v = rw v.encoded (lossy_text v.chars v.scalars)

-- An ASCII text is valid UTF-8.
encode_text-ascii : (s : Bytes) → All (λ b. b < 0x80) s → encode_text s ≡ s
encode_text-ascii [] h = refl
encode_text-ascii (b ∷ bs) (k, h) = rw (lt→ltb b 0x80 k) (ap (λ t. b ∷ t) (encode_text-ascii bs h))

scalars-ascii : (s : Bytes) → All (λ b. b < 0x80) s → All IsScalar s
scalars-ascii [] h = tt
scalars-ascii (b ∷ bs) (k, h) = ((omega arith, inl (omega arith)), scalars-ascii bs h)

pub IsUtf8-ascii : (s : Bytes) → All (λ b. b < 0x80) s → IsUtf8 s
IsUtf8-ascii s h = record {
  chars = s;
  scalars = scalars-ascii s h;
  encoded = sym (encode_text-ascii s h);
}
