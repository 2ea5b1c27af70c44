-- ===== src/Utils/Stream/Refine.antt =====
-- A stream is a queue of bytes: compaction and the offsets cannot be seen.
use pgr.Prelude.{
  sub64-eq, add64-eq, ℕ, ◌+◌, ◌-◌, ◌^◌, ◌≤◌, ◌<◌, ◌≡◌, refl, sym, ap, ◌∙◌, some, [], ◌++◌, arith,
  Bytes, sub64, length, drop, slice-eq, min, ltb, length-append, length-drop, take-append,
  drop-append-le, drop-drop, drop-all, drop-min, ap₂, take-all, Bool-cases, inl, inr, le→leb,
  ltb-false,
}
use pgr.Prelude.Panic.{Returns, Returns-map}
use pgr.Utils.Stream.{Stream, new, copy_to_front, compact, mark_read, mark_read_all, unread, write}

pub record IsValid (s : Stream) : Type 0 where
  pub read_in : s.data_offset ≤ s.read_offset
  pub committed_in : s.read_offset ≤ s.committed_offset
  pub filled : s.committed_offset ≡ s.data_offset + length s.buf
  pub small : s.committed_offset < 2 ^ 64

-- What was written and not yet read.
unfoldable pub pending : Stream → Bytes
pending s = drop (s.read_offset - s.data_offset) s.buf

pub new-IsValid : (n : ℕ) → IsValid (new n)
unfolding new
new-IsValid n = omega arith

pub length-pending :
    (s : Stream) → IsValid s → length (pending s) ≡ s.committed_offset - s.read_offset
unfolding pending
length-pending s v = omega (arith, length-drop (s.read_offset - s.data_offset) s.buf)

-- `data()` does not panic on a valid stream, and shows what is pending.
pub unread-eq-pending : {s : Stream} → IsValid s → unread s ≡ some (pending s)
unfolding unread pending
unread-eq-pending {s} v =
    rw
      (
        sub64-eq s.read_offset s.data_offset v.read_in (omega arith),
        sub64-eq s.committed_offset s.data_offset (omega arith) v.small,
        slice-eq s.buf (s.read_offset - s.data_offset) (s.committed_offset - s.data_offset)
            (omega arith) (omega arith),
      )
      (ap some (
        take-all (drop (s.read_offset - s.data_offset) s.buf) _
          (omega (arith, length-drop (s.read_offset - s.data_offset) s.buf))))

pub write_refines :
    {s : Stream} (bs : Bytes)
    → IsValid s
    → s.committed_offset + length bs < 2 ^ 64
    → IsValid (write s bs)
      × (pending (write s bs) ≡ pending s ++ bs)
      × ((write s bs).committed_offset ≡ s.committed_offset + length bs)
unfolding write pending
write_refines {s} bs v h = (
  omega (arith, length-append s.buf bs),
  drop-append-le s.buf bs _ (omega arith),
  omega (arith, length-append s.buf bs),
)

-- What `compact` and its callers leave: a valid stream with these bytes pending, at the same total.
pub record Leaves (s : Stream) (bs : Bytes) (s' : Stream) : Type 0 where
  pub valid : IsValid s'
  pub bytes : pending s' ≡ bs
  pub total : s'.committed_offset ≡ s.committed_offset
  pub threshold : s'.compact_threshold ≡ s.compact_threshold
  pub compacted : s'.read_offset - s'.data_offset ≤ s.compact_threshold

sub_self : (n : ℕ) → n - n ≡ 0
sub_self n = omega arith

compact-Leaves : {s : Stream} → IsValid s → Returns (Leaves s (pending s)) (compact s)
unfolding compact copy_to_front pending
compact-Leaves {s} v =
    elim (Bool-cases (ltb s.compact_threshold (sub64 s.read_offset s.data_offset))) [
      | inl more ↦
          rw
            (
              more,
              sub64-eq s.read_offset s.data_offset v.read_in (omega arith),
              le→leb (s.read_offset - s.data_offset) (length s.buf) (omega arith),
              sub64-eq (length s.buf) (s.read_offset - s.data_offset) (omega arith) (omega arith),
              take-append (drop (s.read_offset - s.data_offset) s.buf)
                  (drop (length s.buf - (s.read_offset - s.data_offset)) s.buf)
                  (length s.buf - (s.read_offset - s.data_offset))
                  (omega (arith, length-drop (s.read_offset - s.data_offset) s.buf)),
            )
            (record {
              valid = omega (arith, length-drop (s.read_offset - s.data_offset) s.buf);
              bytes =
                  ap (λ k. drop k (drop (s.read_offset - s.data_offset) s.buf))
                    (sub_self s.read_offset);
              total = refl;
              threshold = refl;
              compacted = omega arith;
            })
      | inr less ↦ rw less (record {
        valid = v;
        bytes = refl;
        total = refl;
        threshold = refl;
        compacted = omega (arith, ltb-false _ _ less);
      })
    ]

min-sub : (a b d : ℕ) → min a b - d ≡ min (a - d) (b - d)
min-sub a b d = omega arith

-- On a valid stream whose read offset plus n is below 2^64, mark_read n does not panic, keeps the
-- stream valid, drops n bytes (or all there are) from what is pending, keeps the total and the
-- threshold, and leaves at most the threshold of read bytes in the buffer.
pub mark_read_refines :
    {s : Stream} (n : ℕ)
    → IsValid s
    → s.read_offset + n < 2 ^ 64
    → Returns (Leaves s (drop n (pending s))) (mark_read s n)
unfolding mark_read pending
mark_read_refines {s} n v h =
    rw (add64-eq s.read_offset n h, add64-eq s.data_offset (length s.buf) (omega arith))
      (Returns-map (Leaves moved (pending moved)) (Leaves s (drop n (pending s))) (compact moved)
        (compact-Leaves {s = moved} (omega arith))
        (λ s' l. record {
          valid = l.valid;
          bytes = l.bytes ∙ clamped;
          total = l.total;
          threshold = l.threshold;
          compacted = l.compacted;
        }))
  where
    moved : Stream
    moved = record s { read_offset = min (s.read_offset + n) (s.data_offset + length s.buf) }

    clamped :
        drop (min (s.read_offset + n) (s.data_offset + length s.buf) - s.data_offset) s.buf
        ≡ drop n (drop (s.read_offset - s.data_offset) s.buf)
    clamped =
        ap (λ k. drop k s.buf)
          (min-sub (s.read_offset + n) (s.data_offset + length s.buf) s.data_offset
            ∙ ap₂ min (omega arith) (omega arith))
        ∙ drop-min (s.read_offset - s.data_offset + n) s.buf
        ∙ sym (drop-drop n (s.read_offset - s.data_offset) s.buf)

pub mark_read_all_refines : {s : Stream} → IsValid s → Returns (Leaves s []) (mark_read_all s)
unfolding mark_read_all pending
mark_read_all_refines {s} v =
    Returns-map (Leaves moved (pending moved)) (Leaves s []) (compact moved)
      (compact-Leaves {s = moved} (omega arith))
      (λ s' l. record {
        valid = l.valid;
        bytes = l.bytes ∙ drop-all s.buf (s.committed_offset - s.data_offset) (omega arith);
        total = l.total;
        threshold = l.threshold;
        compacted = l.compacted;
      })
  where
    moved : Stream
    moved = record s { read_offset = s.committed_offset }
