-- ===== src/Prelude/Io/Stable.antt =====
-- Readers that do not look past what they read: more bytes behind a file change neither a message
-- that was read nor a report of invalid data.
use pgr.Prelude.Tests.{if◌then◌else◌}
use pgr.Prelude.Lists.{length, length-append, take-append-le, drop-append-le, length-drop}
use pgr.Prelude.Words.{Bytes}
use pgr.Prelude.Io.{
  Result, ok, err, invalid_data, unexpected_eof, Reader, ◌>>=◌, pure, fail, read_exact, repeat,
  IoError,
}
use Prim.Native.Nat.{ℕ, zero, suc, ◌≤◌}
use mathlib.Core.Path.{◌≡◌, refl}
use mathlib.Core.Bool.{Bool, true, false}
use mathlib.Core.List.{[], ◌∷◌, ◌++◌}
use native.Mathlib.Omega.{arith}

pub record IsStable {A : Type 0} (m : Reader A) : Type 0 where
  pub on_ok : (s q : Bytes) (a : A) (t : Bytes) → m s ≡ ok (a, t) → m (s ++ q) ≡ ok (a, t ++ q)
  pub on_err : (s q : Bytes) → m s ≡ err invalid_data → m (s ++ q) ≡ err invalid_data
  pub shrinks : (s : Bytes) (a : A) (t : Bytes) → m s ≡ ok (a, t) → length t ≤ length s

pub IsStable-pure : {A : Type 0} (a : A) → IsStable (pure a)
IsStable-pure a = record {
  on_ok = λ s q b t h. cc;
  on_err = λ s q h. cc;
  shrinks = λ s b t h. ground arith;
}

pub IsStable-fail : {A : Type 0} (e : IoError) → IsStable (fail {A = A} e)
IsStable-fail e = record { on_ok = λ s q b t h. cc; on_err = λ s q h. h; shrinks = λ s b t h. cc }

pub IsStable-if :
    {A : Type 0} (b : Bool) (m n : Reader A)
    → IsStable m
    → IsStable n
    → IsStable (if b then m else n)
IsStable-if true m n hm hn = hm
IsStable-if false m n hm hn = hn

pub IsStable-read_exact : (n : ℕ) → IsStable (read_exact n)
unfolding read_exact
IsStable-read_exact n = record {
  on_ok =
      λ s q a t h. ground (arith, length-append s q, take-append-le s q n, drop-append-le s q n);
  on_err = λ s q h. ground arith;
  shrinks = λ s a t h. ground (arith, length-drop n s);
}

pub IsStable-bind :
    {A B : Type 0} (m : Reader A) (f : A → Reader B)
    → IsStable m
    → ((a : A) → IsStable (f a))
    → IsStable (m >>= f)
IsStable-bind {A} {B} m f hm hf = record {
  on_ok = λ s q. whole s q (m s) refl;
  on_err = λ s q. invalid s q (m s) refl;
  shrinks = λ s. shorter s (m s) refl;
}
  where
    whole :
        (s q : Bytes) (r : Result (A × Bytes))
        → m s ≡ r
        → (b : B) (t : Bytes) → (m >>= f) s ≡ ok (b, t)
        → (m >>= f) (s ++ q) ≡ ok (b, t ++ q)
    whole s q (ok (a, s')) e b t h =
        rw (hm.on_ok s q a s' e, ◌>>=◌) ((hf a).on_ok s' q b t (rw (e, ◌>>=◌) at h))
    whole s q (err x) e b t h = absurd (cc (rw (e, ◌>>=◌) at h))

    invalid :
        (s q : Bytes) (r : Result (A × Bytes))
        → m s ≡ r
        → (m >>= f) s ≡ err invalid_data
        → (m >>= f) (s ++ q) ≡ err invalid_data
    invalid s q (ok (a, s')) e h =
        rw (hm.on_ok s q a s' e, ◌>>=◌) ((hf a).on_err s' q (rw (e, ◌>>=◌) at h))
    invalid s q (err invalid_data) e h = rw (hm.on_err s q e, ◌>>=◌)
    invalid s q (err unexpected_eof) e h = absurd (cc (rw (e, ◌>>=◌) at h))

    shorter :
        (s : Bytes) (r : Result (A × Bytes))
        → m s ≡ r
        → (b : B) (t : Bytes) → (m >>= f) s ≡ ok (b, t)
        → length t ≤ length s
    shorter s (ok (a, s')) e b t h =
        omega (arith, hm.shrinks s a s' e, (hf a).shrinks s' b t (rw (e, ◌>>=◌) at h))
    shorter s (err x) e b t h = absurd (cc (rw (e, ◌>>=◌) at h))

pub IsStable-repeat : {A : Type 0} (n : ℕ) (m : Reader A) → IsStable m → IsStable (repeat n m)
unfolding repeat
IsStable-repeat zero m h = IsStable-pure []
IsStable-repeat (suc n) m h =
    IsStable-bind m _ h
      (λ a. IsStable-bind (repeat n m) _ (IsStable-repeat n m h) (λ as'. IsStable-pure (a ∷ as')))

pub ruleset stable_rules =
    (IsStable-pure, IsStable-fail, IsStable-if, IsStable-read_exact, IsStable-bind, IsStable-repeat)
