-- ===== src/Client/Reading/Chunks.antt =====
-- `on_read` piece by piece.
use pgr.Prelude.{
  ℕ, zero, suc, ◌+◌, ◌<◌, ◌^◌, ◌≡◌, refl, ap, ◌∙◌, sym, inl, inr, true, false, Option, none, some,
  List, [], ◌∷◌, ◌++◌, arith, Bytes, length, drop, slice, append_assoc, append-nil, length-append,
  Bool-cases, Option-cases, if◌then◌else◌,
}
use pgr.Prelude.Panic.{◌>>=◌, Returns-some}
use pgr.Utils.Stream
use pgr.Utils.Stream.{Stream}
use pgr.Utils.Stream.Refine.{
  IsValid, Leaves, pending, unread-eq-pending, write_refines, mark_read_refines, length-pending,
}
use pgr.Proto.{try_read_frame}
use pgr.Proto.Frame.{try_read_frame-bounds}
use pgr.Client.{World, is_dead, handle_message, handle_frame, consume, read_loop, on_read}
use pgr.Client.Reading.{with_stream, scan, handle_message-stream}
use pgr.Client.Reading.Scan.{
  round, scan-none, scan-some, scan-fuel, Done, Ends, scan-Ends, resume, scan-append,
}

-- What can be seen of a client but for the stream of the server's bytes.
abbrev pub observe : World → World
observe w = with_stream (Stream.new 0) w

-- The client `w` is `v`, with the bytes `p` pending and `total` bytes received.
pub record Holds (total : ℕ) (w v : World) (p : Bytes) : Type 0 where
  pub valid : IsValid w.0.parse_stream
  pub bytes : pending w.0.parse_stream ≡ p
  pub received : w.0.parse_stream.committed_offset ≡ total
  pub observed : observe w ≡ v

abbrev pub Matches : ℕ → Option World → Option (World × Bytes) → Type 0
Matches total none none = Unit
Matches total none (some _) = ⊥
Matches total (some w) none = ⊥
Matches total (some w) (some (v, p)) = Holds total w v p

abbrev pub concat : List Bytes → Bytes
concat [] = []
concat (bs ∷ chunks) = bs ++ concat chunks

-- What is seen of a client after a scan.
abbrev pub seen : Option (World × Bytes) → Option World
seen none = none
seen (some (w, p)) = some w

abbrev pub observed : Option World → Option World
observed none = none
observed (some w) = some (observe w)

module _ (md5_hex : Bytes → Bytes) where
  handle_message-own :
      (w : World) (tag : ℕ) (body : Bytes)
      → (handle_message md5_hex w tag body).0.parse_stream ≡ w.0.parse_stream
  handle_message-own w tag body =
      ap (λ (v : World). v.0.parse_stream)
        (handle_message-stream md5_hex w.0.parse_stream w tag body)

  handle_frame-eq :
      (w : World) (p : Bytes) (tag n : ℕ) (o : Option Bytes)
      → Stream.unread w.0.parse_stream ≡ some p
      → slice p 5 n ≡ o
      → handle_frame md5_hex w tag 5 n ≡ (o >>= λ body. some (handle_message md5_hex w tag body))
  unfolding handle_frame
  handle_frame-eq w p tag n none hu hb = rw (hu, ◌>>=◌, hb)
  handle_frame-eq w p tag n (some body) hu hb = rw (hu, ◌>>=◌, hb)

  consume-eq :
      (w : World) (n : ℕ) (s : Stream)
      → Stream.mark_read w.0.parse_stream n ≡ some s
      → consume md5_hex w n ≡ some (with_stream s w)
  unfolding consume
  consume-eq w n s h = rw (h, ◌>>=◌)

  -- A round of the loop without a frame, with one that panics, and with one that does not.
  read_loop-none :
      (f : ℕ) (w : World) (p : Bytes)
      → Stream.unread w.0.parse_stream ≡ some p
      → try_read_frame p ≡ none
      → read_loop md5_hex (suc f) w ≡ some w
  unfolding read_loop
  read_loop-none f w p hu e = rw (hu, ◌>>=◌, e)

  read_loop-panic :
      (f : ℕ) (w : World) (p : Bytes) (tag n : ℕ)
      → Stream.unread w.0.parse_stream ≡ some p
      → try_read_frame p ≡ some (tag, n)
      → slice p 5 n ≡ none
      → read_loop md5_hex (suc f) w ≡ none
  unfolding read_loop
  read_loop-panic f w p tag n hu e hb = rw (hu, ◌>>=◌, e, handle_frame-eq w p tag n none hu hb)

  read_loop-some :
      (f : ℕ) (w : World) (p : Bytes) (tag n : ℕ) (body : Bytes) (s : Stream)
      → Stream.unread w.0.parse_stream ≡ some p
      → try_read_frame p ≡ some (tag, n)
      → slice p 5 n ≡ some body
      → Stream.mark_read (handle_message md5_hex w tag body).0.parse_stream n ≡ some s
      → let w' = with_stream s (handle_message md5_hex w tag body) in
        read_loop md5_hex (suc f) w
        ≡ (if is_dead w'.0.state then some w' else read_loop md5_hex f w')
  unfolding read_loop
  read_loop-some f w p tag n body s hu e hb hm =
      rw
        (
          hu,
          ◌>>=◌,
          e,
          handle_frame-eq w p tag n (some body) hu hb,
          consume-eq (handle_message md5_hex w tag body) n s hm,
        )
        (elim (Bool-cases (is_dead (handle_message md5_hex w tag body).0.state)) [
          | inl d ↦ rw d
          | inr a ↦ rw a
        ])

  -- The loop over the stream does what the loop over its pending bytes does.
  read_loop-scan :
      (f : ℕ) (w : World)
      → IsValid w.0.parse_stream
      → Matches w.0.parse_stream.committed_offset
          (read_loop md5_hex f w)
          (scan md5_hex f (observe w) (pending w.0.parse_stream))
  read_loop-scan zero w v =
      unfold read_loop scan in record { valid = v; bytes = refl; received = refl; observed = refl }
  read_loop-scan (suc f) w v = elim (Option-cases (try_read_frame (pending w.0.parse_stream))) [
    | inl e ↦
        rw
          (
            read_loop-none f w (pending w.0.parse_stream) (unread-eq-pending v) e,
            scan-none md5_hex (suc f) (observe w) (pending w.0.parse_stream) e,
          )
          (record { valid = v; bytes = refl; received = refl; observed = refl })
    | inr ((tag, n), e) ↦
        rw (scan-some md5_hex f (observe w) (pending w.0.parse_stream) tag n e)
          (body_read tag n e (slice (pending w.0.parse_stream) 5 n) refl (read_loop-scan f))
  ]
    where
      p : Bytes
      p = pending w.0.parse_stream

      body_read :
          (tag n : ℕ)
          → try_read_frame p ≡ some (tag, n)
          → (o : Option Bytes) → slice p 5 n ≡ o
          → ((w' : World)
              → IsValid w'.0.parse_stream
              → Matches w'.0.parse_stream.committed_offset
                  (read_loop md5_hex f w')
                  (scan md5_hex f (observe w') (pending w'.0.parse_stream)))
          → Matches w.0.parse_stream.committed_offset
              (read_loop md5_hex (suc f) w)
              (round md5_hex (observe w) tag n p (scan md5_hex f))
      body_read tag n e none hb later =
          rw (read_loop-panic f w p tag n (unread-eq-pending v) e hb, hb) tt
      body_read tag n e (some body) hb later =
          let w' = handle_message md5_hex w tag body in
          let own = handle_message-own w tag body in
          let in_buffer = try_read_frame-bounds p tag n e in
          let (s, hm, l) =
            Returns-some (Leaves w.0.parse_stream (drop n p)) (Stream.mark_read w.0.parse_stream n)
              (mark_read_refines n v
                (omega (arith, in_buffer, length-pending w.0.parse_stream v))) in
          rw
            (
              read_loop-some f w p tag n body s (unread-eq-pending v) e hb (rw own hm),
              hb,
              handle_message-stream md5_hex (Stream.new 0) w tag body,
            )
            (elim (Bool-cases (is_dead w'.0.state)) [
              | inl d ↦
                  rw d (record {
                    valid = l.valid;
                    bytes = l.bytes;
                    received = l.total;
                    observed = refl;
                  })
              | inr a ↦ rw a (rw (l.total, l.bytes) at (later (with_stream s w') l.valid))
            ])

  -- `on_read` does to the bytes that are pending and those that arrive what the loop over bytes does.
  pub on_read-scan :
      (w : World) (bs : Bytes)
      → IsValid w.0.parse_stream
      → w.0.parse_stream.committed_offset + length bs < 2 ^ 64
      → Matches (w.0.parse_stream.committed_offset + length bs) (on_read md5_hex w bs) (
          scan md5_hex
            (suc (length (pending w.0.parse_stream ++ bs)))
            (observe w)
            (pending w.0.parse_stream ++ bs))
  unfolding on_read
  on_read-scan w bs v h =
      let s = Stream.write w.0.parse_stream bs in
      let (v', e, t) = write_refines {s = w.0.parse_stream} bs v h in
      let fuel = suc (length s.buf) in
      rw
        (
          ← t,
          scan-fuel md5_hex (suc (length (pending w.0.parse_stream ++ bs))) fuel (observe w)
              (pending w.0.parse_stream ++ bs) (omega arith)
              (omega (arith, ap length e, length-pending s v', v')),
          ← e,
        )
        (read_loop-scan fuel (with_stream s w) v')

  -- The server's bytes as they arrive, while the client is alive.
  unfoldable pub read_chunks : World → List Bytes → Option World
  read_chunks w [] = some w
  read_chunks w (bs ∷ chunks) =
      if is_dead w.0.state then some w else on_read md5_hex w bs >>= λ w'. read_chunks w' chunks

  read_chunks-dead :
      (w : World) (chunks : List Bytes) → is_dead w.0.state ≡ true → read_chunks w chunks ≡ some w
  unfolding read_chunks
  read_chunks-dead w [] d = refl
  read_chunks-dead w (bs ∷ chunks) d = rw d

  pub read_chunks-scan :
      (chunks : List Bytes) (w : World)
      → IsValid w.0.parse_stream
      → is_dead w.0.state ≡ false
      → try_read_frame (pending w.0.parse_stream) ≡ none
      → w.0.parse_stream.committed_offset + length (concat chunks) < 2 ^ 64
      → (fuel : ℕ) → length (pending w.0.parse_stream ++ concat chunks) < fuel
      → observed (read_chunks w chunks)
        ≡ seen (scan md5_hex fuel (observe w) (pending w.0.parse_stream ++ concat chunks))
  unfolding read_chunks
  read_chunks-scan [] w v a e h fuel k =
      rw (append-nil (pending w.0.parse_stream), scan-none md5_hex fuel (observe w) _ e)
  read_chunks-scan (bs ∷ chunks) w v a e h fuel k =
      rw
        (
          a,
          ← append_assoc p bs (concat chunks),
          scan-append md5_hex (suc (length (p ++ bs))) fuel fuel (observe w) (p ++ bs)
              (concat chunks) (omega arith) k' k' a,
        )
        (step (on_read md5_hex w bs) (scan md5_hex (suc (length (p ++ bs))) (observe w) (p ++ bs))
          (on_read-scan w bs v (omega (arith, length-append bs (concat chunks))))
          (scan-Ends md5_hex (suc (length (p ++ bs))) (observe w) (p ++ bs) (omega arith))
          (read_chunks-scan chunks))
    where
      p : Bytes
      p = pending w.0.parse_stream

      k' : length ((p ++ bs) ++ concat chunks) < fuel
      k' = rw (append_assoc p bs (concat chunks)) k

      step :
          (o : Option World) (r : Option (World × Bytes))
          → Matches (w.0.parse_stream.committed_offset + length bs) o r
          → Ends md5_hex (length (p ++ bs)) r
          → ((w' : World)
              → IsValid w'.0.parse_stream
              → is_dead w'.0.state ≡ false
              → try_read_frame (pending w'.0.parse_stream) ≡ none
              → w'.0.parse_stream.committed_offset + length (concat chunks) < 2 ^ 64
              → (fuel' : ℕ) → length (pending w'.0.parse_stream ++ concat chunks) < fuel'
              → observed (read_chunks w' chunks)
                ≡ seen
                    (scan md5_hex fuel' (observe w') (pending w'.0.parse_stream ++ concat chunks)))
          → observed (o >>= λ w'. read_chunks w' chunks)
            ≡ seen (resume md5_hex fuel (concat chunks) r)
      step none none m d later = refl
      step none (some (v', q)) m d later = absurd m
      step (some w') none m d later = absurd m
      step (some w') (some (v', q)) m (d, short) later = elim (Bool-cases (is_dead w'.0.state)) [
        | inl dead_now ↦ rw (← m.observed, dead_now, read_chunks-dead w' chunks dead_now)
        | inr alive ↦
            rw (← m.observed, alive)
              (rw m.bytes at (
                later w' m.valid alive
                  (rw m.bytes
                    (no_frame (cc (ap (λ (x : World). is_dead x.0.state) m.observed, alive)) d))
                  (omega (arith, m.received, length-append bs (concat chunks))) fuel
                  (rw m.bytes (
                    omega (
                      arith,
                      short,
                      k',
                      length-append (p ++ bs) (concat chunks),
                      length-append q (concat chunks),
                    )))))
      ]
        where
          no_frame : is_dead v'.0.state ≡ false → Done md5_hex v' q → try_read_frame q ≡ none
          no_frame alive (inl dead_now) = absurd (cc (alive, dead_now))
          no_frame alive (inr none_left) = none_left

  -- However the server's bytes are cut into pieces, an alive client with a valid stream and no whole
  -- frame pending becomes the same, but for the stream itself, or panics in both cases, as long as fewer
  -- than 2^64 bytes arrive.
  pub chunks_invariant :
      (w : World) (chunks others : List Bytes)
      → IsValid w.0.parse_stream
      → is_dead w.0.state ≡ false
      → try_read_frame (pending w.0.parse_stream) ≡ none
      → w.0.parse_stream.committed_offset + length (concat chunks) < 2 ^ 64
      → concat chunks ≡ concat others
      → observed (read_chunks w chunks) ≡ observed (read_chunks w others)
  chunks_invariant w chunks others v a e h same =
      let fuel = suc (length (pending w.0.parse_stream ++ concat chunks)) in
      read_chunks-scan chunks w v a e h fuel (omega arith)
      ∙ ap (λ bs. seen (scan md5_hex fuel (observe w) (pending w.0.parse_stream ++ bs))) same
      ∙ sym (read_chunks-scan others w v a e (rw (← same) h) fuel (rw (← same) (omega arith)))
