-- ===== src/Analyzer/Storage/Params.antt =====
-- The file of the parameters that `write_params` of src/analyzer.rs fills, and the offsets that it
-- returns.
use pgr.Prelude.{
  ℕ, ◌+◌, ◌*◌, ◌<◌, ◌^◌, ◌≡◌, refl, ap, ◌∙◌, some, List, [], ◌∷◌, ◌++◌, arith, Bytes, length,
  length-append, append_assoc, append-nil, All, add64-eq,
}
use pgr.Prelude.Io.{ok}
use pgr.Capture.{BindParam}
use pgr.Analyzer.{F32, StorageWriter}
use pgr.Analyzer.Storage
use pgr.Analyzer.Storage.{params_bytes, params_size, write_params}
use pgr.Viewer.{read_params, params_total, post_params, AppState, octets, respond}
use pgr.Viewer.Entries.{
  StandsAt, StandsAt-append, StandAt, StandAt-small, concat, read_entries-StandAt,
}
use pgr.Viewer.Offsets.{offsets_body, post-offsets_body}
use pgr.Viewer.Params.{length-params_bytes, params_total-params_bytes}

-- The arguments of one call.
pub record Bind : Type 0 where
  pub query_offset : ℕ
  pub parameters : List BindParam
  pub result_formats : List ℕ

abbrev pub bind_entry : Bind → Bytes
bind_entry b = params_bytes b.query_offset b.parameters b.result_formats

abbrev bind_size : Bind → ℕ
bind_size b = params_size b.parameters b.result_formats

abbrev pub total_size : List Bind → ℕ
total_size [] = 0
total_size (b ∷ bs) = bind_size b + total_size bs

abbrev pub bind_entries : List Bind → List Bytes
bind_entries [] = []
bind_entries (b ∷ bs) = bind_entry b ∷ bind_entries bs

-- How many parameters the calls have together.
abbrev pub parameter_count : List Bind → ℕ
parameter_count [] = 0
parameter_count (b ∷ bs) = length b.parameters + parameter_count bs

module _ (F : F32) where
  -- `write_params` for one bind after the other.
  abbrev pub write_all : StorageWriter F → List Bind → List ℕ × StorageWriter F
  write_all w [] = ([], w)
  write_all w (b ∷ bs) =
      let r = write_params F w b.query_offset b.parameters b.result_formats in
      let rest = write_all r.1 bs in (r.0 ∷ rest.0, rest.1)

  write_params-offset :
      (w : StorageWriter F) (b : Bind)
      → w.params_offset + bind_size b < 2 ^ 64
      → (write_params F w b.query_offset b.parameters b.result_formats).1.params_offset
        ≡ w.params_offset + bind_size b
  unfolding write_params
  write_params-offset w b h = omega (arith, add64-eq w.params_offset (bind_size b) h)

  write_params-length :
      (w : StorageWriter F) (b : Bind)
      → length (write_params F w b.query_offset b.parameters b.result_formats).1.params
        ≡ length w.params + bind_size b + length b.parameters * 2
  unfolding write_params
  write_params-length w b = omega (
    arith,
    length-append w.params (bind_entry b),
    length-params_bytes b.query_offset b.parameters b.result_formats,
  )

  -- After some binds the file is longer than the offset tells, by two bytes for each parameter that
  -- they have together. The sizes stay below 2^64.
  pub write_all-behind :
      (w : StorageWriter F) (bs : List Bind)
      → w.params_offset + total_size bs < 2 ^ 64
      → let w' = (write_all w bs).1 in
        length w'.params + w.params_offset
        ≡ w'.params_offset + length w.params + 2 * parameter_count bs
  write_all-behind w [] h = omega arith
  write_all-behind w (b ∷ bs) h =
      let w1 = (write_params F w b.query_offset b.parameters b.result_formats).1 in
      omega (
        arith,
        write_all-behind w1 bs (omega (arith, write_params-offset w b (omega arith))),
        write_params-offset w b (omega arith),
        write_params-length w b,
      )

  -- A bind without parameters whose formats fit their counter.
  abbrev pub IsPlain : Bind → Type 0
  IsPlain b = (b.parameters ≡ []) × (length b.result_formats < 2 ^ 16)

  abbrev Entry : Bytes → Type 0
  Entry e = (b : Bind) × (e ≡ bind_entry b) × IsPlain b

  Entry-measured : (e post : Bytes) → Entry e → params_total (e ++ post) ≡ some (ok (length e))
  Entry-measured e post (b, h, (plain, fits)) =
      rw (h, plain) (params_total-params_bytes b.query_offset b.result_formats post fits)

  bind_entries-Entry : (bs : List Bind) → All IsPlain bs → All Entry (bind_entries bs)
  bind_entries-Entry [] h = tt
  bind_entries-Entry (b ∷ bs) (h, hs) = ((b, refl, h), bind_entries-Entry bs hs)

  record Written (w : StorageWriter F) (bs : List Bind) (r : List ℕ × StorageWriter F)
      : Type 0 where
    stand : StandAt r.1.params (bind_entries bs) r.0
    more : Bytes
    grown : r.1.params ≡ w.params ++ more
    bounded : length r.1.params ≡ length w.params + total_size bs

  write_one :
      (w : StorageWriter F) (b : Bind)
      → StandsAt (w.params ++ bind_entry b) (bind_entry b) (length w.params)
  write_one w b = record { pre = w.params; post = []; file_eq = rw append-nil; offset_eq = refl }

  write_params-grown :
      (w : StorageWriter F) (b : Bind)
      → (write_params F w b.query_offset b.parameters b.result_formats).1.params
        ≡ w.params ++ bind_entry b
  unfolding write_params
  write_params-grown w b = refl

  write_params-returns :
      (w : StorageWriter F) (b : Bind)
      → (write_params F w b.query_offset b.parameters b.result_formats).0 ≡ w.params_offset
  unfolding write_params
  write_params-returns w b = refl

  Written-cons :
      (w w1 : StorageWriter F) (b : Bind) (bs : List Bind) (o : ℕ) (rest : List ℕ × StorageWriter F)
      → w1.params ≡ w.params ++ bind_entry b
      → o ≡ length w.params
      → length w1.params ≡ length w.params + bind_size b
      → Written w1 bs rest
      → Written w (b ∷ bs) (o ∷ rest.0, rest.1)
  Written-cons w w1 b bs o rest g oe size later = record {
    stand = (
      rw (later.grown, g, oe)
          (StandsAt-append (w.params ++ bind_entry b) (bind_entry b) later.more (length w.params)
            (write_one w b)),
      later.stand,
    );
    more = bind_entry b ++ later.more;
    grown =
        later.grown ∙ ap (λ s. s ++ later.more) g ∙ append_assoc w.params (bind_entry b) later.more;
    bounded = omega (arith, size, later.bounded);
  }

  write_all-Written :
      (w : StorageWriter F) (bs : List Bind)
      → All IsPlain bs
      → w.params_offset ≡ length w.params
      → length w.params + total_size bs < 2 ^ 64
      → Written w bs (write_all w bs)
  write_all-Written w [] h e b = record {
    stand = tt;
    more = [];
    grown = rw append-nil;
    bounded = omega arith;
  }
  write_all-Written w (x ∷ bs) (p, hs) e b =
      let r = write_params F w x.query_offset x.parameters x.result_formats in
      Written-cons w r.1 x bs r.0 (write_all r.1 bs) (write_params-grown w x)
        (write_params-returns w x ∙ e) (omega (arith, write_params-length w x, ap length p.0))
        (write_all-Written r.1 bs hs
          (omega
            (arith, write_params-offset w x (omega arith), write_params-length w x, ap length p.0))
          (omega (arith, write_params-length w x, ap length p.0)))

  -- Asked for the offsets that `write_params` returned for binds without parameters, the service
  -- answers with the entry of each of them. The file is smaller than 2^64 bytes and the formats fit
  -- their counters.
  pub post_params-write_all :
      (c : F.Carrier) (bs : List Bind) (queries traces chunks : Bytes)
      → All IsPlain bs
      → total_size bs < 2 ^ 64
      → let r = write_all (Storage.new F c) bs in
        let state : AppState = record {
          queries = queries;
          params = r.1.params;
          traces = traces;
          chunks = chunks;
        } in
        post_params state (offsets_body r.0) ≡ some (octets (concat (bind_entries bs)))
  unfolding read_params
  post_params-write_all c bs queries traces chunks h b =
      let r = write_all (Storage.new F c) bs in
      let all = write_all-Written (Storage.new F c) bs h refl (omega arith) in
      let state : AppState = record {
        queries = queries;
        params = r.1.params;
        traces = traces;
        chunks = chunks;
      } in
      (post-offsets_body state r.0
        (StandAt-small r.1.params (bind_entries bs) r.0 all.stand (omega (arith, all.bounded)))).1
      ∙ ap respond (
          read_entries-StandAt params_total Entry Entry-measured r.1.params (bind_entries bs) r.0
            (bind_entries-Entry bs h) all.stand)
