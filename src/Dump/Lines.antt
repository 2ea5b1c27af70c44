-- ===== src/Dump/Lines.antt =====
-- The lines that `dump` of src/capture_dump.rs writes for a whole capture file.
use pgr.Prelude.{
  Bool, true, false, ◌⊎◌, inl, inr, ℕ, suc, zero, ◌<◌, ◌≡◌, refl, sym, ap, ◌∙◌, Option, none, some,
  List, [], ◌∷◌, ◌++◌, arith, Bytes, codes, length, length-append, All, append_assoc, append-nil,
}
use pgr.Prelude.Panic.{◌>>=◌, Returns}
use pgr.Prelude.Decimal.{decimal}
use pgr.Prelude.Io.{Result, ok, err, invalid_data}
use pgr.Capture.Truncation.{read_event-shorter, read_event-error}
use pgr.Utf8.{from_utf8_lossy}
use pgr.Capture.{
  BindParam, ClientEvent, lsn, connect, disconnect, simple_query, parse, bind, execute, sync,
  tx_end, close, CaptureMessage,
}
use pgr.Capture.Format.{encode, encode_all, Fits}
use pgr.Capture.Reader.{CaptureReader, read_event}
use pgr.Capture.RoundTrip.{read_event-encode}
use pgr.Capture.File.{IsCut, read_event-end, length-encode_all}
use pgr.Dump.{
  head, value, param_fields, fields, Dumped, dump_round, dump_loop, dump, first_lines, outcome,
}
use pgr.Dump.Format.{
  spaced, signed, prefix, heading, line_end, list-eq, signed_decimal-eq, head-eq, first_lines-eq,
}
use pgr.Dump.Text.{quoted, text-quoted}

-- The lines as text, without the search for quotes.
abbrev pub field : Bytes → Bytes
field s = quoted (from_utf8_lossy s)

abbrev pub value_field : Option Bytes → Bytes
value_field (some v) = field v
value_field none = codes ",NULL"

abbrev pub params_field : List BindParam → Bytes
params_field [] = []
params_field (p ∷ params) =
    codes "," ++ decimal p.type_oid ++ value_field p.value ++ params_field params

abbrev pub list_field : List ℕ → Bytes
list_field xs = codes ",\"" ++ spaced xs ++ codes "\""

abbrev pub ending : Bool → Bytes
ending true = codes "commit"
ending false = codes "abort"

abbrev pub name_of : ClientEvent → Bytes
name_of (lsn _) = codes "lsn"
name_of (connect _) = codes "connect"
name_of disconnect = codes "disconnect"
name_of (simple_query _) = codes "simple_query"
name_of (parse _ _ _) = codes "parse"
name_of (bind _ _ _ _) = codes "bind"
name_of (execute _ _) = codes "execute"
name_of sync = codes "sync"
name_of (tx_end _ _ _) = codes "tx_end"
name_of (close _ _) = codes "close"

abbrev pub event_fields : ClientEvent → Bytes
event_fields (lsn l) = codes "," ++ decimal l
event_fields (connect session_id) = field session_id
event_fields disconnect = []
event_fields (simple_query q) = field q
event_fields (parse name query types) = field name ++ field query ++ list_field types
event_fields (bind portal statement formats params) =
    field portal ++ field statement ++ list_field formats ++ params_field params
event_fields (execute portal max_rows) = field portal ++ codes "," ++ signed decimal max_rows
event_fields sync = []
event_fields (tx_end committed xid l) =
    field (ending committed) ++ codes "," ++ decimal xid ++ codes "," ++ decimal l
event_fields (close kind name) = codes "," ++ decimal kind ++ field name

abbrev pub line : ℕ → CaptureMessage → Bytes
line base m = prefix m.ts base m.id (name_of m.event) ++ event_fields m.event ++ line_end

abbrev pub lines : ℕ → List CaptureMessage → Bytes
lines base [] = []
lines base (m ∷ ms) = line base m ++ lines base ms

value-field : (v : Option Bytes) → value v ≡ some (value_field v)
value-field none = refl
value-field (some v) = text-quoted v

param_fields-eq : (params : List BindParam) → param_fields params ≡ some (params_field params)
unfolding param_fields
param_fields-eq [] = refl
param_fields-eq (p ∷ params) = rw (value-field p.value, ◌>>=◌, param_fields-eq params, ◌>>=◌)

module _ (base t id : ℕ) where
  abbrev message : ClientEvent → CaptureMessage
  message e = record { id = id; ts = t; event = e }

  outcome-eq : (b : Bool) → outcome b ≡ ending b
  outcome-eq true = refl
  outcome-eq false = refl

  fields-head :
      (e : ClientEvent)
      → fields base (message e) ≡ some (head t base id (name_of e) ++ event_fields e)
  unfolding fields
  fields-head (lsn l) = simp append_assoc
  fields-head (connect s) = rw (text-quoted s, ◌>>=◌)
  fields-head disconnect = ap some (sym (append-nil _))
  fields-head (simple_query q) = rw (text-quoted q, ◌>>=◌)
  fields-head (parse name query types) =
      rw (text-quoted name, ◌>>=◌, text-quoted query, ◌>>=◌, list-eq types) (simp append_assoc)
  fields-head (bind portal statement formats params) =
      rw
        (
          text-quoted portal,
          ◌>>=◌,
          text-quoted statement,
          ◌>>=◌,
          param_fields-eq params,
          ◌>>=◌,
          list-eq formats,
        )
        (simp append_assoc)
  fields-head (execute portal max_rows) =
      rw (text-quoted portal, ◌>>=◌, signed_decimal-eq max_rows) (simp append_assoc)
  fields-head sync = ap some (sym (append-nil _))
  fields-head (tx_end committed xid l) =
      rw (outcome-eq committed, text-quoted (ending committed), ◌>>=◌) (simp append_assoc)
  fields-head (close kind name) = rw (text-quoted name, ◌>>=◌) (simp append_assoc)

  fields-eq :
      (e : ClientEvent)
      → fields base (message e) ≡ some (prefix t base id (name_of e) ++ event_fields e)
  fields-eq e = fields-head e ∙ ap (λ h. some (h ++ event_fields e)) (head-eq t base id (name_of e))

dump_loop-encode :
    (ms : List CaptureMessage) (cut w : Bytes) (base l t fuel : ℕ)
    → All Fits ms
    → IsCut cut
    → length ms < fuel
    → dump_loop fuel base (record { buf = encode_all encode ms ++ cut; lsn = l; start_ts = t }) w
      ≡ some (record { output = w ++ lines base ms; error = none })
unfolding dump_loop
dump_loop-encode ms cut w base l t zero h c k = absurd (omega arith)
dump_loop-encode [] cut w base l t (suc fuel) h c k =
    rw (dump_loop, read_event-end cut l t c)
      (ap (λ (o : Bytes). some (record { output = o; error = none })) (sym (append-nil w)))
dump_loop-encode (m ∷ ms) cut w base l t (suc fuel) (h, hs) c k =
    rw
      (
        append_assoc (encode m) (encode_all encode ms) cut,
        dump_loop,
        read_event-encode m (encode_all encode ms ++ cut) l t h,
        fields-eq base m.ts m.id m.event,
        ◌>>=◌,
      )
      (dump_loop-encode ms cut
          (w ++ (prefix m.ts base m.id (name_of m.event) ++ event_fields m.event) ++ line_end) base
          l t fuel hs c (omega arith)
        ∙ ap (λ (o : Bytes). some (record { output = o; error = none })) joined)
  where
    joined :
        (w ++ (prefix m.ts base m.id (name_of m.event) ++ event_fields m.event) ++ line_end)
          ++ lines base ms
        ≡ w ++ (line base m ++ lines base ms)
    joined = simp append_assoc

-- The dump of a capture, of messages that fit the format and perhaps a cut-off one, writes the line of
-- the column names, that of the log position, and then one line for each whole message.
pub dump-lines :
    (ms : List CaptureMessage) (cut : Bytes) (l t : ℕ)
    → All Fits ms
    → IsCut cut
    → let reader : CaptureReader = record {
      buf = encode_all encode ms ++ cut;
      lsn = l;
      start_ts = t;
    } in
      dump reader ≡ some (record { output = heading l ++ lines t ms; error = none })
unfolding dump
dump-lines ms cut l t h c =
    let reader : CaptureReader = record {
      buf = encode_all encode ms ++ cut;
      lsn = l;
      start_ts = t;
    } in
    dump_loop-encode ms cut (first_lines reader) t l t (suc (length reader.buf)) h c
      (omega (arith, length-encode_all ms, length-append (encode_all encode ms) cut))
    ∙ ap (λ (o : Bytes). some (record { output = o ++ lines t ms; error = none }))
        (first_lines-eq reader)

-- Any file: the dump ends, with all messages or with the report of bad data, without a panic.
dump_loop-Returns :
    (fuel base : ℕ) (r : CaptureReader) (w : Bytes)
    → length r.buf < fuel
    → Returns (λ d. (d.error ≡ none) ⊎ (d.error ≡ some invalid_data)) (dump_loop fuel base r w)
unfolding dump_loop
dump_loop-Returns zero base r w h = absurd (omega arith)
dump_loop-Returns (suc fuel) base r w h =
    by_read (λ r' w' h'. dump_loop-Returns fuel base r' w' h') (read_event r) refl
  where
    Ends : Dumped → Type 0
    Ends d = (d.error ≡ none) ⊎ (d.error ≡ some invalid_data)

    by_read :
        ((r' : CaptureReader) (w' : Bytes)
          → length r'.buf < fuel
          → Returns Ends (dump_loop fuel base r' w'))
        → (x : Result (Option (CaptureMessage × CaptureReader))) → read_event r ≡ x
        → Returns Ends (dump_round x base w (λ r' w'. dump_loop fuel base r' w'))
    by_read again (ok none) e = inl refl
    by_read again (err x) e = inr (ap some (read_event-error r x e))
    by_read again (ok (some (m, r'))) e =
        rw (fields-eq base m.ts m.id m.event, ◌>>=◌)
          (again r' _ (omega (arith, read_event-shorter r m r' e)))

-- The dump of any file ends without a panic, with no error or with the report of bad data.
pub dump-Returns :
    (r : CaptureReader) → Returns (λ d. (d.error ≡ none) ⊎ (d.error ≡ some invalid_data)) (dump r)
unfolding dump
dump-Returns r = dump_loop-Returns (suc (length r.buf)) r.start_ts r (first_lines r) (omega arith)
