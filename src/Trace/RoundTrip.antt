-- ===== src/Trace/RoundTrip.antt =====
-- The records of a trace file that are whole, and the end of the file.
use pgr.Prelude.{
  ℕ, zero, suc, ◌+◌, ◌<◌, ◌≤◌, ◌^◌, ◌≡◌, List, [], ◌∷◌, ◌++◌, arith, Bytes, to_le, length, All,
  from_le-to_le, length-to_le, append_assoc, from_le, le→ltb, length-drop, drop, take, Bool-cases,
  ltb, inl, inr, ltb-false, Option, none, some,
}
use pgr.Prelude.Io.{Reader, ok, err, unexpected_eof, ◌>>=◌, read_exact, read_exact-append}
use mathlib.Core.Option
use pgr.Capture.Format.{encode_all}
use pgr.Trace.{TraceData, next}

-- What the server writes for one record.
unfoldable pub trace_bytes : TraceData → Bytes
trace_bytes d =
    to_le 4 d.id ++ to_le 4 d.frame_index ++ to_le 4 d.duration_us ++ to_le 1 d.event_type

pub record FitsTrace (d : TraceData) : Type 0 where
  pub id : d.id < 2 ^ 32
  pub frame_index : d.frame_index < 2 ^ 32
  pub duration_us : d.duration_us < 2 ^ 32
  pub event_type : d.event_type < 256

field : (k n : ℕ) (rest : Bytes) → read_exact k (to_le k n ++ rest) ≡ ok (to_le k n, rest)
field k n rest = read_exact-append k (to_le k n) rest (length-to_le k n)

-- From a file that goes on with the bytes of a record, the reader returns it and stands behind it.
pub next-trace_bytes :
    (d : TraceData) (rest : Bytes) → FitsTrace d → next (trace_bytes d ++ rest) ≡ ok (d, rest)
unfolding next trace_bytes
next-trace_bytes d rest h = simp (
  append_assoc,
  field,
  from_le-to_le 4 d.id h.id,
  from_le-to_le 4 d.frame_index h.frame_index,
  from_le-to_le 4 d.duration_us h.duration_us,
  from_le-to_le 1 d.event_type h.event_type,
  ◌>>=◌,
)

read_exact-eof :
    {A : Type 0} (n : ℕ) (f : Bytes → Reader A) (s : Bytes)
    → ((a t : Bytes) → length t + n ≡ length s → f a t ≡ err unexpected_eof)
    → (read_exact n >>= f) s ≡ err unexpected_eof
unfolding read_exact
read_exact-eof n f s h = elim (Bool-cases (ltb (length s) n)) [
  | inl short ↦ rw (short, ◌>>=◌)
  | inr long ↦
      rw (long, ◌>>=◌)
        (h (take n s) (drop n s) (omega (arith, length-drop n s, ltb-false (length s) n long)))
]

-- Fewer than 13 bytes are the end of the file, and no record.
pub next-short : (s : Bytes) → length s < 13 → next s ≡ err unexpected_eof
unfolding next
next-short s h = read_exact-eof 4 _ s (λ a t e.
    read_exact-eof 4 _ t (λ b u f.
      read_exact-eof 4 _ u (λ c v g. read_exact-eof 1 _ v (λ d w k. absurd (omega arith)))))

read_exact-long : (n : ℕ) (s : Bytes) → n ≤ length s → read_exact n s ≡ ok (take n s, drop n s)
unfolding read_exact
read_exact-long n s h = rw (le→ltb (length s) n h)

-- A record takes 13 bytes.
pub next-long :
    (s : Bytes)
    → 13 ≤ length s
    → (d : TraceData) × (t : Bytes) × (next s ≡ ok (d, t)) × (length t + 13 ≡ length s)
unfolding next
next-long s h =
    let s1 = drop 4 s in
    let s2 = drop 4 s1 in
    let s3 = drop 4 s2 in
    (
      record {
        id = from_le (take 4 s);
        frame_index = from_le (take 4 s1);
        duration_us = from_le (take 4 s2);
        event_type = from_le (take 1 s3);
      },
      drop 1 s3,
      rw (
        read_exact-long 4 s (omega arith),
        ◌>>=◌,
        read_exact-long 4 s1 (omega (arith, length-drop 4 s)),
        ◌>>=◌,
        read_exact-long 4 s2 (omega (arith, length-drop 4 s, length-drop 4 s1)),
        ◌>>=◌,
        read_exact-long 1 s3 (omega (arith, length-drop 4 s, length-drop 4 s1, length-drop 4 s2)),
        ◌>>=◌,
      ),
      omega (arith, length-drop 4 s, length-drop 4 s1, length-drop 4 s2, length-drop 1 s3),
    )

-- The records of a file, read until an error, of which there are at most `fuel`.
unfoldable pub records : ℕ → Bytes → Option (List TraceData)
records zero s = none
records (suc fuel) s = elim (next s) [
  | err e ↦ some []
  | ok (d, rest) ↦ Option.map (λ ds. d ∷ ds) (records fuel rest)
]

-- From a trace file of records that fit, and then fewer than 13 bytes, reading until an error returns
-- exactly the records, with more fuel than there are records.
pub records-encoded :
    (fuel : ℕ) (ds : List TraceData) (cut : Bytes)
    → All FitsTrace ds
    → length cut < 13
    → length ds < fuel
    → records fuel (encode_all trace_bytes ds ++ cut) ≡ some ds
unfolding records
records-encoded zero ds cut h k f = absurd (omega arith)
records-encoded (suc fuel) [] cut h k f = rw (records, next-short cut k)
records-encoded (suc fuel) (d ∷ ds) cut (h, hs) k f = rw (
  records,
  append_assoc (trace_bytes d) (encode_all trace_bytes ds) cut,
  next-trace_bytes d (encode_all trace_bytes ds ++ cut) h,
  records-encoded fuel ds cut hs k (omega arith),
)
