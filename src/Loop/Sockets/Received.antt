-- ===== src/Loop/Sockets/Received.antt =====
-- What `read_conn` of src/loop.rs does with the bytes that the socket gives.
use pgr.Prelude.{
  ℕ, zero, suc, ◌<◌, ◌≡◌, refl, ap, sym, ◌∙◌, inl, inr, true, false, Option, none, some, List, [],
  ◌∷◌, ◌++◌, arith, Bytes, append_assoc, append-nil, Bool-cases,
}
use pgr.Prelude.Panic.{◌>>=◌}
use pgr.Utils.Stats.{ReplayStats}
use pgr.Capture.{ClientId}
use pgr.Client.{World, ReplayClient, is_dead, on_read, on_eof, on_io_error}
use pgr.Client.Reading.Chunks.{concat, read_chunks}
use pgr.Loop.Env.{Env, ReadResult, got}
use pgr.Loop.Slots.{Connection}
use pgr.Loop.Sockets.{Live, on_read_result, read_conn_loop, read_conn}

module _ (md5_hex : Bytes → Bytes) (env : Env) (id : ClientId) where
  open env use {State, read, given}

  -- The answers of `read` that end the loop: the end of the stream, no bytes for now, an error.
  abbrev pub Final : ReadResult → Type 0
  Final (got []) = Unit
  Final (got (b ∷ bs)) = ⊥
  Final ReadResult.would_block = Unit
  Final ReadResult.interrupted = ⊥
  Final ReadResult.failed = Unit

  -- The socket comes to such an answer after at most `n` others.
  pub data Pauses : ℕ → State → Type 0 where
    now : (n : ℕ) (s : State) → Final (read s id).0 → Pauses n s
    later : (n : ℕ) (s : State) → Pauses n (read s id).1 → Pauses (suc n) s

  -- Why the loop ends on a client, with the state after it and what becomes of the client: it is dead,
  -- or the socket has no bytes for now, is at its end, or fails.
  pub data Ends (c : ReplayClient) : State → ReplayClient → Type 0 where
    dead : (s : State) → is_dead c.state ≡ true → Ends c s c
    drained : (s : State) → (read s id).0 ≡ ReadResult.would_block → Ends c (read s id).1 c
    at_end : (s : State) → (read s id).0 ≡ got [] → Ends c (read s id).1 (on_eof c)
    on_error :
        (s : State) → (read s id).0 ≡ ReadResult.failed → Ends c (read s id).1 (on_io_error c)

  -- The client has been handed exactly the bytes that the socket has given, in pieces as they came: it
  -- has panicked on them, or it is what they make of it, and then the loop has come to its end.
  pub data Received (conn : Connection) (stats : ReplayStats) (s : State)
      : Option (Live md5_hex env) → Type 0 where
    panicked :
        (chunks : List Bytes) (s' : State)
        → given s' id ≡ given s id ++ concat chunks
        → read_chunks md5_hex (conn.client, stats) chunks ≡ none
        → Received conn stats s none
    returned :
        (chunks : List Bytes) (s' : State) (w : World) (c : ReplayClient)
        → given s' id ≡ given s id ++ concat chunks
        → read_chunks md5_hex (conn.client, stats) chunks ≡ some w
        → Ends w.0 s' c
        → Received conn stats s (some (record conn { client = c }, w.1, s'))

  goes_on :
      (n : ℕ) (s : State)
      → Pauses n s
      → (Final (read s id).0 → ⊥)
      → (m : ℕ) × (n ≡ suc m) × Pauses m (read s id).1
  goes_on _ _ (now n s final) more = absurd (more final)
  goes_on _ _ (later n s p) more = (n, refl, p)

  -- A piece that the client has taken comes before the others.
  piece-Received :
      (conn : Connection) (stats : ReplayStats) (s s' : State) (bs : Bytes) (w : World)
      (r : Option (Live md5_hex env))
      → is_dead conn.client.state ≡ false
      → given s' id ≡ given s id ++ bs
      → on_read md5_hex (conn.client, stats) bs ≡ some w
      → Received (record conn { client = w.0 }) w.1 s' r
      → Received conn stats s r
  unfolding read_chunks
  piece-Received conn stats s s' bs w _ alive g e (panicked chunks s2 h k) =
      panicked (bs ∷ chunks) s2 (h ∙ rw (g, append_assoc (given s id) bs (concat chunks)))
        (rw (alive, e, ◌>>=◌) k)
  piece-Received conn stats s s' bs w _ alive g e (returned chunks s2 w2 c h k ends) =
      returned (bs ∷ chunks) s2 w2 c (h ∙ rw (g, append_assoc (given s id) bs (concat chunks)))
        (rw (alive, e, ◌>>=◌) k) ends

  -- An interruption gives no bytes.
  interrupted-Received :
      (conn : Connection) (stats : ReplayStats) (s s' : State) (r : Option (Live md5_hex env))
      → given s' id ≡ given s id
      → Received conn stats s' r
      → Received conn stats s r
  interrupted-Received conn stats s s' _ g (panicked chunks s2 h k) =
      panicked chunks s2 (rw g at h) k
  interrupted-Received conn stats s s' _ g (returned chunks s2 w c h k ends) =
      returned chunks s2 w c (rw g at h) k ends

  ended-Received :
      (conn : Connection) (stats : ReplayStats) (s s' : State) (c : ReplayClient)
      → given s' id ≡ given s id
      → Ends conn.client s' c
      → Received conn stats s (some (record conn { client = c }, stats, s'))
  unfolding read_chunks
  ended-Received conn stats s s' c g ends =
      returned [] s' (conn.client, stats) c (g ∙ sym (append-nil (given s id))) refl ends

  module _ (conn : Connection) (stats : ReplayStats) (s : State) (n : ℕ) (p : Pauses n s)
      (alive : is_dead conn.client.state ≡ false)
      (again : Connection → ReplayStats → State → Option (Live md5_hex env))
      (ih : (m : ℕ) (conn' : Connection) (stats' : ReplayStats) (s' : State)
        → suc m ≡ n
        → Pauses m s'
        → Received conn' stats' s' (again conn' stats' s')) where
    result-Received :
        (x : ReadResult)
        → (read s id).0 ≡ x
        → Received conn stats s (
            on_read_result md5_hex env conn stats
              (x, (read s id).1)
              (λ live. again live.0 live.1 live.2))
    result-Received (got []) e =
        ended-Received conn stats s (read s id).1 (on_eof conn.client)
          (env.read_gives s id [] e ∙ append-nil (given s id)) (at_end s e)
    result-Received ReadResult.would_block e =
        ended-Received conn stats s (read s id).1 conn.client
          (env.read_refused s id (λ bs q. cc (e, q))) (drained s e)
    result-Received ReadResult.failed e =
        ended-Received conn stats s (read s id).1 (on_io_error conn.client)
          (env.read_refused s id (λ bs q. cc (e, q))) (on_error s e)
    result-Received ReadResult.interrupted e =
        let (m, k, q) = goes_on n s p (λ f. rw e at f) in
        interrupted-Received conn stats s (read s id).1 _
          (env.read_refused s id (λ bs r. cc (e, r))) (ih m conn stats (read s id).1 (sym k) q)
    result-Received (got (b ∷ bs)) e = taken (on_read md5_hex (conn.client, stats) (b ∷ bs)) refl
      where
        taken :
            (o : Option World)
            → on_read md5_hex (conn.client, stats) (b ∷ bs) ≡ o
            → Received conn stats s
                (o >>= λ w. again (record conn { client = w.0 }) w.1 (read s id).1)
        taken none r =
            panicked ((b ∷ bs) ∷ []) (read s id).1
              (env.read_gives s id (b ∷ bs) e
                ∙ ap (λ l. given s id ++ l) (sym (append-nil (b ∷ bs))))
              (unfold read_chunks in rw (alive, r, ◌>>=◌) refl)
        taken (some w) r =
            let (m, k, q) = goes_on n s p (λ f. rw e at f) in
            piece-Received conn stats s (read s id).1 (b ∷ bs) w _ alive
              (env.read_gives s id (b ∷ bs) e) r
              (ih m (record conn { client = w.0 }) w.1 (read s id).1 (sym k) q)

  loop-Received :
      (rounds n : ℕ) (conn : Connection) (stats : ReplayStats) (s : State)
      → Pauses n s
      → n < rounds
      → Received conn stats s (read_conn_loop md5_hex env rounds id (conn, stats, s))
  unfolding read_conn_loop
  loop-Received zero n conn stats s p h = absurd (omega arith)
  loop-Received (suc rounds) n conn stats s p h = elim (Bool-cases (is_dead conn.client.state)) [
    | inl ended ↦ rw ended (ended-Received conn stats s s conn.client refl (dead s ended))
    | inr alive ↦ rw alive (
        result-Received conn stats s n p alive
          (λ conn' stats' s'. read_conn_loop md5_hex env rounds id (conn', stats', s'))
          (λ m conn' stats' s' k q. loop-Received rounds m conn' stats' s' q (omega (arith, k, h)))
          (read s id).0 refl)
  ]

  -- If the socket comes to a pause, its end or a failure after fewer answers than read_conn has rounds,
  -- read_conn hands the client exactly the bytes that the socket gives, in their order, and stops where
  -- the client is dead, or has no bytes for now; the end of the stream or the failure is passed on to
  -- the client. It panics only if the client panics on these bytes.
  pub read_conn-Received :
      (rounds n : ℕ) (conn : Connection) (stats : ReplayStats) (s : State)
      → Pauses n s
      → n < rounds
      → Received conn stats s (read_conn md5_hex env rounds id (conn, stats, s))
  unfolding read_conn
  read_conn-Received rounds n conn stats s p h = loop-Received rounds n conn stats s p h
