-- ===== src/Manager/Encode.antt =====
-- The frames of `emit`, against a decoder of the messages that a client sends to a server.
use pgr.Prelude.{
  ℕ, ◌-◌, ◌<◌, ◌^◌, ◌≡◌, refl, ap, sym, ◌∙◌, Option, none, some, List, [], ◌∷◌, ◌++◌, arith, Bytes,
  length, to_be, All, append_assoc, append-nil,
}
use pgr.Capture.{
  BindParam, ClientEvent, lsn, connect, disconnect, simple_query, parse, bind, execute, sync,
  tx_end, close,
}
use pgr.Proto.{f_query, f_parse, f_bind, f_execute, f_sync, f_close, f_terminate}
use pgr.Proto.Frame.{frame, FitsFrame}
use pgr.Manager.{
  begin, end, cstr, query_frame, push_types, push_value, push_values, push_formats, push_count,
  parse_frame, bind_frame, clamp_rows, execute_frame, close_frame, with_tag, event_frame,
  restore_query,
}

abbrev pub text : Bytes → Bytes
text s = s ++ 0 ∷ []

abbrev pub concat_map {ℓ} : {A : Type ℓ} → (A → Bytes) → List A → Bytes
concat_map f [] = []
concat_map f (a ∷ as') = f a ++ concat_map f as'

abbrev pub value_bytes : Option Bytes → Bytes
value_bytes none = to_be 4 (2 ^ 32 - 1)
value_bytes (some b) = to_be 4 (length b) ++ b

-- The bodies of the messages, as the protocol lays them out.
abbrev pub body : ClientEvent → Bytes
body (connect session_id) = text (restore_query session_id)
body (simple_query q) = text q
body (parse name query types) =
    text name ++ (text query ++ (to_be 2 (length types) ++ concat_map (to_be 4) types))
body (bind portal statement formats params) =
    text portal
    ++ (text statement
        ++ (to_be 2 0
            ++ (to_be 2 (length params)
                ++ (concat_map (λ (p : BindParam). value_bytes p.value) params
                    ++ (to_be 2 (length formats) ++ concat_map (to_be 2) formats)))))
body (execute portal max_rows) = text portal ++ to_be 4 (clamp_rows max_rows)
body (close kind name) = kind ∷ text name
body _ = []

end-begin : (tag : ℕ) (b : Bytes) → FitsFrame b → end (begin tag ++ b) ≡ some (frame tag b)
unfolding begin end
end-begin tag b h = ap (λ n. some (tag ∷ to_be 4 n ++ b)) (omega arith)

push_types-eq : (v : Bytes) (types : List ℕ) → push_types v types ≡ v ++ concat_map (to_be 4) types
unfolding push_types
push_types-eq v [] = sym (append-nil v)
push_types-eq v (t ∷ types) =
    push_types-eq (v ++ to_be 4 t) types ∙ append_assoc v (to_be 4 t) (concat_map (to_be 4) types)

push_formats-eq :
    (v : Bytes) (formats : List ℕ) → push_formats v formats ≡ v ++ concat_map (to_be 2) formats
unfolding push_formats
push_formats-eq v [] = sym (append-nil v)
push_formats-eq v (f ∷ formats) =
    push_formats-eq (v ++ to_be 2 f) formats
    ∙ append_assoc v (to_be 2 f) (concat_map (to_be 2) formats)

-- A value that the length field can count.
abbrev pub FitsValue : BindParam → Type 0
FitsValue p = elim p.value [ none ↦ Unit {0} | some b ↦ length b < 2 ^ 31 ]

push_value-eq :
    (v : Bytes) (oid : ℕ) (o : Option Bytes)
    → FitsValue (record { type_oid = oid; value = o })
    → push_value v o ≡ v ++ value_bytes o
unfolding push_value
push_value-eq v oid none h = refl
push_value-eq v oid (some b) h = ap (λ n. v ++ (to_be 4 n ++ b)) (omega arith)

push_values-eq :
    (v : Bytes) (params : List BindParam)
    → All FitsValue params
    → push_values v params ≡ v ++ concat_map (λ (p : BindParam). value_bytes p.value) params
unfolding push_values
push_values-eq v [] h = sym (append-nil v)
push_values-eq v (p ∷ params) (h, hs) =
    rw (push_value-eq v p.type_oid p.value h)
      (push_values-eq (v ++ value_bytes p.value) params hs ∙ append_assoc v (value_bytes p.value) _)

push_count-eq : (v : Bytes) (n : ℕ) → n < 2 ^ 16 → push_count v n ≡ v ++ to_be 2 n
unfolding push_count
push_count-eq v n h = ap (λ k. v ++ to_be 2 k) (omega arith)

-- The events whose counts and sizes the protocol can express.
abbrev pub FitsCounts : ClientEvent → Type 0
FitsCounts (parse name query types) = length types < 2 ^ 16
FitsCounts (bind portal statement formats params) =
    (length formats < 2 ^ 16) × (length params < 2 ^ 16) × All FitsValue params
FitsCounts _ = Unit

abbrev pub request_tag : ClientEvent → Option ℕ
request_tag (lsn _) = none
request_tag (tx_end _ _ _) = none
request_tag (connect []) = none
request_tag (connect (_ ∷ _)) = some f_query
request_tag disconnect = some f_terminate
request_tag (simple_query _) = some f_query
request_tag (parse _ _ _) = some f_parse
request_tag (bind _ _ _ _) = some f_bind
request_tag (execute _ _) = some f_execute
request_tag sync = some f_sync
request_tag (close _ _) = some f_close

abbrev pub framed : Option ℕ → Bytes → Option (ℕ × Bytes)
framed none b = none
framed (some tag) b = some (tag, frame tag b)

no_formats : 0 < 2 ^ 16
no_formats = omega arith

parse_frame-eq :
    (name query : Bytes) (types : List ℕ)
    → length types < 2 ^ 16
    → parse_frame name query types ≡ end (begin f_parse ++ body (parse name query types))
unfolding parse_frame cstr
parse_frame-eq name query types h =
    rw (push_types-eq _ types, push_count-eq _ (length types) h) (ap end (simp append_assoc))

bind_frame-eq :
    (portal statement : Bytes) (formats : List ℕ) (params : List BindParam)
    → FitsCounts (bind portal statement formats params)
    → bind_frame portal statement formats params
      ≡ end (begin f_bind ++ body (bind portal statement formats params))
unfolding bind_frame cstr
bind_frame-eq portal statement formats params (hf, hp, hv) =
    rw
      (
        push_formats-eq _ formats,
        push_count-eq _ (length formats) hf,
        push_values-eq _ params hv,
        push_count-eq _ (length params) hp,
        push_count-eq _ 0 no_formats,
      )
      (ap end (simp append_assoc))

execute_frame-eq :
    (portal : Bytes) (max_rows : ℕ)
    → execute_frame portal max_rows ≡ end (begin f_execute ++ body (execute portal max_rows))
unfolding execute_frame cstr
execute_frame-eq portal max_rows = ap end (simp append_assoc)

close_frame-eq :
    (kind : ℕ) (name : Bytes)
    → close_frame kind name ≡ end (begin f_close ++ body (close kind name))
unfolding close_frame cstr
close_frame-eq kind name = ap end (simp append_assoc)

-- For every event of the capture that fits, `emit` sends nothing or one whole frame, with the tag and
-- the body that the protocol asks for, and does not panic.
pub event_frame-eq :
    (e : ClientEvent)
    → FitsCounts e
    → FitsFrame (body e)
    → event_frame e ≡ some (framed (request_tag e) (body e))
unfolding event_frame query_frame cstr to_be
event_frame-eq (lsn _) c h = refl
event_frame-eq (tx_end _ _ _) c h = refl
event_frame-eq (connect []) c h = refl
event_frame-eq (connect (b ∷ s)) c h = rw (end-begin f_query _ h)
event_frame-eq disconnect c h = refl
event_frame-eq (simple_query q) c h = rw (end-begin f_query _ h)
event_frame-eq (parse name query types) c h =
    rw (parse_frame-eq name query types c, end-begin f_parse _ h)
event_frame-eq (bind portal statement formats params) c h =
    rw (bind_frame-eq portal statement formats params c, end-begin f_bind _ h)
event_frame-eq (execute portal max_rows) c h =
    rw (execute_frame-eq portal max_rows, end-begin f_execute _ h)
event_frame-eq sync c h = ap (with_tag f_sync) (end-begin f_sync [] h)
event_frame-eq (close kind name) c h = rw (close_frame-eq kind name, end-begin f_close _ h)
