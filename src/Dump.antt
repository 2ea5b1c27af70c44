-- ===== src/Dump.antt =====
-- src/capture_dump.rs: a capture as a file of comma-separated values. The output is the bytes written;
-- a write does not fail, and code that indexes out of range panics (`none`).
pub mod Text
pub mod Format
pub mod Lines
use pgr.Prelude.{
  ℕ, suc, zero, ◌+◌, ◌-◌, ◌/◌, ◌%◌, ◌<◌, ◌^◌, Bool, true, false, Option, none, some, List, [], ◌∷◌,
  ◌++◌, Bytes, codes, length, drop, slice, nth, sub64, ltb, ◌==◌, if◌then◌else◌,
}
use pgr.Prelude.Panic.{◌>>=◌}
use pgr.Prelude.Decimal.{decimal}
use pgr.Prelude.Io.{IoError, Result, ok, err}
use pgr.Utf8.{from_utf8_lossy}
use pgr.Capture.{
  BindParam, ClientEvent, lsn, connect, disconnect, simple_query, parse, bind, execute, sync,
  tx_end, close, CaptureMessage,
}
use pgr.Capture.Reader.{CaptureReader, read_event}

-- `{:06}` of a number below a million.
unfoldable pub six_digits : ℕ → Bytes
six_digits n =
    (48 + n / 100000 % 10)
    ∷ (48 + n / 10000 % 10)
    ∷ (48 + n / 1000 % 10)
    ∷ (48 + n / 100 % 10)
    ∷ (48 + n / 10 % 10)
    ∷ (48 + n % 10)
    ∷ []

-- `{}` of an i64, which is its 64 bits.
abbrev is_negative : ℕ → Bool
is_negative d = if ltb d (2 ^ 63) then false else true

abbrev unsigned_abs : ℕ → ℕ
unsigned_abs d = if ltb d (2 ^ 63) then d else 2 ^ 64 - d

abbrev sign : ℕ → Bytes
sign d = if is_negative d then codes "-" else []

unfoldable pub signed_decimal : ℕ → Bytes
signed_decimal d = sign d ++ decimal (unsigned_abs d)

unfoldable pub ts : ℕ → ℕ → Bytes
ts t base =
    let d = sub64 t base in
    let a = unsigned_abs d in
    sign d ++ decimal (a / 1000000) ++ codes "." ++ six_digits (a % 1000000)

abbrev pub quote : ℕ
quote = 0x22

-- The loop of `text` over the indices of `b`, `n` of them from `i` on: where the bytes that are not
-- written start, and what is written.
unfoldable pub text_loop : ℕ → ℕ → ℕ → Bytes → Bytes → Option (ℕ × Bytes)
text_loop zero i start b w = some (start, w)
text_loop (suc n) i start b w = nth b i >>= λ x.
    if x == quote
    then (slice b start (i + 1) >>= λ piece. text_loop n (i + 1) i b (w ++ piece))
    else text_loop n (i + 1) start b w

unfoldable pub text : Bytes → Option Bytes
text s =
    let b = from_utf8_lossy s in
    do
      (start, w) ← text_loop (length b) 0 0 b (codes ",\"")
      rest ← slice b start (length b)
      some (w ++ rest ++ codes "\"")

unfoldable pub head : ℕ → ℕ → ℕ → Bytes → Bytes
head t base id name = ts t base ++ codes "," ++ decimal id ++ codes "," ++ name

-- The loop of `list`, with the index of the element.
unfoldable pub list_items : ℕ → List ℕ → Bytes
list_items i [] = []
list_items zero (x ∷ v) = decimal x ++ list_items 1 v
list_items (suc i) (x ∷ v) = codes " " ++ decimal x ++ list_items (suc (suc i)) v

unfoldable pub list : List ℕ → Bytes
list v = codes ",\"" ++ list_items 0 v ++ codes "\""

abbrev pub value : Option Bytes → Option Bytes
value (some v) = text v
value none = some (codes ",NULL")

-- The loop over the parameters of a bind.
unfoldable pub param_fields : List BindParam → Option Bytes
param_fields [] = some []
param_fields (p ∷ params) = do
  v ← value p.value
  rest ← param_fields params
  some (codes "," ++ decimal p.type_oid ++ v ++ rest)

abbrev outcome : Bool → Bytes
outcome true = codes "commit"
outcome false = codes "abort"

-- The match of `dump` on the event.
unfoldable pub fields : ℕ → CaptureMessage → Option Bytes
fields base m = elim m.event [
  | lsn l ↦ some (head m.ts base m.id (codes "lsn") ++ codes "," ++ decimal l)
  | connect session_id ↦ do s ← text session_id; some (head m.ts base m.id (codes "connect") ++ s)
  | disconnect ↦ some (head m.ts base m.id (codes "disconnect"))
  | simple_query q ↦ do t ← text q; some (head m.ts base m.id (codes "simple_query") ++ t)
  | parse name query param_types ↦ do
    n ← text name
    q ← text query
    some (head m.ts base m.id (codes "parse") ++ n ++ q ++ list param_types)
  | bind portal statement result_formats params ↦ do
    p ← text portal
    s ← text statement
    v ← param_fields params
    some (head m.ts base m.id (codes "bind") ++ p ++ s ++ list result_formats ++ v)
  | execute portal max_rows ↦ do
    p ← text portal
    some (head m.ts base m.id (codes "execute") ++ p ++ codes "," ++ signed_decimal max_rows)
  | sync ↦ some (head m.ts base m.id (codes "sync"))
  | tx_end committed xid l ↦ do
    o ← text (outcome committed)
    some (
        head m.ts base m.id (codes "tx_end")
        ++ o
        ++ codes ","
        ++ decimal xid
        ++ codes ","
        ++ decimal l)
  | close kind name ↦ do
    n ← text name
    some (head m.ts base m.id (codes "close") ++ codes "," ++ decimal kind ++ n)
]

abbrev pub newline : Bytes
newline = 10 ∷ []

-- What the output holds, and the error that ended the dump, if one did.
pub record Dumped : Type 0 where
  pub output : Bytes
  pub error : Option IoError

abbrev pub dump_round :
    Result (Option (CaptureMessage × CaptureReader))
    → ℕ
    → Bytes
    → (CaptureReader → Bytes → Option Dumped)
    → Option Dumped
dump_round (ok none) base w again = some (record { output = w; error = none })
dump_round (err e) base w again = some (record { output = w; error = some e })
dump_round (ok (some (m, reader))) base w again = do
  line ← fields base m
  again reader (w ++ line ++ newline)

-- The loop of `dump`. Without fuel there is no result, as for a panic.
unfoldable pub dump_loop : ℕ → ℕ → CaptureReader → Bytes → Option Dumped
dump_loop zero base reader w = none
dump_loop (suc fuel) base reader w =
    dump_round (read_event reader) base w (λ reader' w'. dump_loop fuel base reader' w')

abbrev pub first_lines : CaptureReader → Bytes
first_lines reader =
    codes "timestamp,client_id,message,fields"
    ++ newline
    ++ head reader.start_ts reader.start_ts 0 (codes "lsn")
    ++ codes ","
    ++ decimal reader.lsn
    ++ newline

-- The loop has one round more than the capture has bytes.
unfoldable pub dump : CaptureReader → Option Dumped
dump reader = dump_loop (suc (length reader.buf)) reader.start_ts reader (first_lines reader)
