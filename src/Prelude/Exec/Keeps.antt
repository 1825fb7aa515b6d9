-- ===== src/Prelude/Exec/Keeps.antt =====
-- Methods that keep a property of the state, whether they succeed or fail.
use mathlib.Core.Path.{◌≡◌, refl}
use mathlib.Core.Bool.{Bool, true, false}
use buk_yutnori.Prelude.Tests.{if◌then◌else◌}
use buk_yutnori.Prelude.Result.{Result, ok, err}
use buk_yutnori.Prelude.Exec.{Exec, ◌>>=◌, pure, lift, reads, guard}
use buk_yutnori.Prelude.Exec.Atomic.{bind_ok, bind_err}

module _ {E S : Type 0} (P : S → Type 0) where
  pub record Sustains {A : Type 0} (m : Exec E S A) : Type 0 where
    pub sustains : (s : S) → P s → P (m s).0

  pub >>=-Sustains :
      {A B : Type 0} (m : Exec E S A) (f : A → Exec E S B)
      → Sustains m
      → ((a : A) → Sustains (f a))
      → Sustains (m >>= f)
  >>=-Sustains {A} {B} m f k h = record { sustains = λ s p. go s (m s).1 refl (k.sustains s p) }
    where
      go : (s : S) (r : Result E A) → (m s).1 ≡ r → P (m s).0 → P ((m >>= f) s).0
      go s (ok a) e p = rw (bind_ok m f s a e) ((h a).sustains (m s).0 p)
      go s (err x) e p = rw (bind_err m f s x e) p

  pub if-Sustains :
      {A : Type 0} (b : Bool) (m n : Exec E S A)
      → Sustains m
      → Sustains n
      → Sustains (if b then m else n)
  if-Sustains true m n p q = p
  if-Sustains false m n p q = q

  pub pure-Sustains : {A : Type 0} (a : A) → Sustains (pure a)
  pure-Sustains a = record { sustains = λ s p. p }

  pub lift-Sustains : {A : Type 0} (r : Result E A) → Sustains (lift r)
  lift-Sustains r = record { sustains = λ s p. p }

  pub reads-Sustains : {A : Type 0} (f : S → A) → Sustains (reads f)
  reads-Sustains f = record { sustains = λ s p. p }

  pub guard-Sustains : (b : Bool) (e : E) → Sustains (guard b e)
  guard-Sustains true e = record { sustains = λ s p. p }
  guard-Sustains false e = record { sustains = λ s p. p }

  -- A method that reads the state before it goes on.
  pub each-Sustains :
      {A : Type 0} (m : S → Exec E S A) → ((s : S) → Sustains (m s)) → Sustains (λ s. m s s)
  each-Sustains m h = record { sustains = λ s p. (h s).sustains s p }
