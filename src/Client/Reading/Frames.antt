-- ===== src/Client/Reading/Frames.antt =====
-- What a client becomes when the server's bytes are a sequence of whole frames, and when a frame is
-- malformed.
use pgr.Prelude.{
  take-all, ◌-◌, le→ltb, slice-none, ℕ, zero, suc, ◌+◌, ◌<◌, ◌^◌, ◌≡◌, refl, ap, ◌∙◌, false, Option,
  none, some, List, [], ◌∷◌, ◌++◌, arith, Bytes, All, length, drop, slice, slice-eq, to_be,
  append_assoc, length-append, drop-append, Bool-cases, inl, inr, if◌then◌else◌, slice-append,
}
use pgr.Utils.Stream.Refine.{IsValid, pending}
use pgr.Proto.{try_read_frame}
use pgr.Proto.Frame.{read_length, frame, FitsFrame, length-frame, try_read_frame-frame}
use pgr.Client.{World, is_dead, handle_message, on_read}
use pgr.Client.Reading.{scan}
use pgr.Client.Reading.Scan.{scan-none, scan-some}
use pgr.Client.Reading.Chunks.{
  Matches, on_read-scan, observe, observed, concat, seen, read_chunks, read_chunks-scan,
}

abbrev pub encode_frames : List (ℕ × Bytes) → Bytes
encode_frames [] = []
encode_frames ((tag, body) ∷ frames) = frame tag body ++ encode_frames frames

slice-frame :
    (tag : ℕ) (body rest : Bytes) → slice (frame tag body ++ rest) 5 (5 + length body) ≡ some body
unfolding to_be
slice-frame tag body rest =
    slice-append (frame tag body) rest 5 (5 + length body) (omega arith)
    ∙ slice-eq (frame tag body) 5 (5 + length body) (omega arith) (omega arith)
    ∙ ap some (take-all body (5 + length body - 5) (omega arith))

drop-frame : (tag : ℕ) (body rest : Bytes) → drop (5 + length body) (frame tag body ++ rest) ≡ rest
drop-frame tag body rest =
    drop-append (frame tag body) rest (5 + length body) (omega (arith, length-frame tag body))

module _ (md5_hex : Bytes → Bytes) where
  -- The messages of the frames, one after the other, until the client is dead.
  unfoldable pub feed : World → List (ℕ × Bytes) → World
  feed w [] = w
  feed w ((tag, body) ∷ frames) =
      let w' = handle_message md5_hex w tag body in
      if is_dead w'.0.state then w' else feed w' frames

  scan-feed :
      (frames : List (ℕ × Bytes)) (w : World) (tail : Bytes) (fuel : ℕ)
      → All (λ f. FitsFrame f.1) frames
      → try_read_frame tail ≡ none
      → length (encode_frames frames ++ tail) < fuel
      → seen (scan md5_hex fuel w (encode_frames frames ++ tail)) ≡ some (feed w frames)
  unfolding feed
  scan-feed frames w tail zero h e k = elim k [ ]
  scan-feed [] w tail (suc fuel) h e k = rw (scan-none md5_hex (suc fuel) w tail e)
  scan-feed ((tag, body) ∷ frames) w tail (suc fuel) (h, hs) e k =
      let rest = encode_frames frames ++ tail in
      let w' = handle_message md5_hex w tag body in
      rw
        (
          append_assoc (frame tag body) (encode_frames frames) tail,
          scan-some md5_hex fuel w (frame tag body ++ rest) tag (5 + length body)
              (try_read_frame-frame tag body rest h),
          slice-frame tag body rest,
          drop-frame tag body rest,
        )
        (elim (Bool-cases (is_dead w'.0.state)) [
          | inl d ↦ rw d
          | inr a ↦ rw a (
              scan-feed frames w' tail fuel hs e (
                omega (
                  arith,
                  length-append (frame tag body) (encode_frames frames),
                  length-append (frame tag body ++ encode_frames frames) tail,
                  length-append (encode_frames frames) tail,
                )))
        ])

  -- If the pending bytes and those that arrive, in any pieces, are whole frames and then less than a
  -- frame, an alive client with a valid stream and no whole frame pending does not panic and handles
  -- exactly the messages of these frames in order, until one makes it dead, as long as fewer than 2^64
  -- bytes arrive.
  pub read_chunks-feed :
      (w : World) (chunks : List Bytes) (frames : List (ℕ × Bytes)) (tail : Bytes)
      → IsValid w.0.parse_stream
      → is_dead w.0.state ≡ false
      → try_read_frame (pending w.0.parse_stream) ≡ none
      → w.0.parse_stream.committed_offset + length (concat chunks) < 2 ^ 64
      → All (λ f. FitsFrame f.1) frames
      → try_read_frame tail ≡ none
      → pending w.0.parse_stream ++ concat chunks ≡ encode_frames frames ++ tail
      → observed (read_chunks md5_hex w chunks) ≡ some (feed (observe w) frames)
  read_chunks-feed w chunks frames tail v a e h fits none_left bytes =
      let fuel = suc (length (pending w.0.parse_stream ++ concat chunks)) in
      read_chunks-scan md5_hex chunks w v a e h fuel (omega arith)
      ∙ rw bytes (scan-feed frames (observe w) tail _ fits none_left (omega arith))

  -- A frame whose length field is below four, the size of the field itself, makes a client with a
  -- valid stream panic, as long as fewer than 2^64 bytes arrive.
  pub on_read-runt :
      (w : World) (bs : Bytes) (tag n : ℕ) (rest : Bytes)
      → IsValid w.0.parse_stream
      → w.0.parse_stream.committed_offset + length bs < 2 ^ 64
      → n < 4
      → pending w.0.parse_stream ++ bs ≡ tag ∷ to_be 4 n ++ rest
      → on_read md5_hex w bs ≡ none
  on_read-runt w bs tag n rest v h small bytes =
      outcome (on_read md5_hex w bs) (rw scanned at (on_read-scan md5_hex w bs v h))
    where
      p : Bytes
      p = tag ∷ to_be 4 n ++ rest

      read : try_read_frame p ≡ some (tag, 1 + n)
      read =
          read_length tag n rest (omega arith) ∙ rw (le→ltb (5 + length rest) (1 + n) (omega arith))

      scanned :
          scan md5_hex
            (suc (length (pending w.0.parse_stream ++ bs)))
            (observe w)
            (pending w.0.parse_stream ++ bs)
          ≡ none
      scanned = rw (
        bytes,
        scan-some md5_hex (length p) (observe w) p tag (1 + n) read,
        slice-none p 5 (1 + n) (omega arith),
      )

      outcome :
          (o : Option World)
          → Matches (w.0.parse_stream.committed_offset + length bs) o none
          → o ≡ none
      outcome none m = refl
      outcome (some w') m = absurd m
