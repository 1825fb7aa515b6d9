-- ===== src/Prelude/Exec/Atomic.antt =====
-- Methods that leave the state when they fail, put together from their parts.
use mathlib.Core.Path.{◌≡◌, refl, ap, ◌∙◌}
use mathlib.Core.Bool.{Bool, true, false}
use native.Mathlib.Omega.{arith}
use buk_yutnori.Prelude.Tests.{if◌then◌else◌}
use buk_yutnori.Prelude.Result.{Result, ok, err}
use buk_yutnori.Prelude.Exec.{Exec, ◌>>=◌, pure, lift, reads, modify, guard}

module _ {E S A : Type 0} where
  -- A call that changes no state, whether it fails or not.
  pub record Keeps (m : Exec E S A) : Type 0 where
    pub keeps : (s : S) → (m s).0 ≡ s

  pub record Succeeds (m : Exec E S A) : Type 0 where
    pub succeeds : (s : S) (e : E) → ¬ ((m s).1 ≡ err e)

  pub record Atomic (m : Exec E S A) : Type 0 where
    pub atomic : (s : S) (e : E) → (m s).1 ≡ err e → (m s).0 ≡ s

  pub Keeps-Atomic : (m : Exec E S A) → Keeps m → Atomic m
  Keeps-Atomic m k = record { atomic = λ s e h. k.keeps s }

  pub Succeeds-Atomic : (m : Exec E S A) → Succeeds m → Atomic m
  Succeeds-Atomic m k = record { atomic = λ s e h. absurd (k.succeeds s e h) }

  pub if-Atomic : (b : Bool) (m n : Exec E S A) → Atomic m → Atomic n → Atomic (if b then m else n)
  if-Atomic true m n p q = p
  if-Atomic false m n p q = q

  pub if-Succeeds :
      (b : Bool) (m n : Exec E S A) → Succeeds m → Succeeds n → Succeeds (if b then m else n)
  if-Succeeds true m n p q = p
  if-Succeeds false m n p q = q

module _ {E S A B : Type 0} where
  pub bind_ok :
      (m : Exec E S A) (f : A → Exec E S B) (s : S) (a : A)
      → (m s).1 ≡ ok a
      → (m >>= f) s ≡ f a (m s).0
  bind_ok m f s a p = rw (p, ◌>>=◌) refl

  pub bind_err :
      (m : Exec E S A) (f : A → Exec E S B) (s : S) (e : E)
      → (m s).1 ≡ err e
      → (m >>= f) s ≡ ((m s).0, err e)
  bind_err m f s e p = rw (p, ◌>>=◌) refl

  -- The same with the state that the first part leaves.
  pub bind_to :
      (m : Exec E S A) (f : A → Exec E S B) (s : S) {t : S} {a : A}
      → m s ≡ (t, ok a)
      → (m >>= f) s ≡ f a t
  bind_to m f s {t} {a} p =
      let result : (m s).1 ≡ ok a = ap (λ (r : S × Result E A). r.1) p in
      bind_ok m f s a result ∙ ap (λ (r : S × Result E A). f a r.0) p

  pub bind_fail :
      (m : Exec E S A) (f : A → Exec E S B) (s : S) {t : S} {e : E}
      → m s ≡ (t, err e)
      → (m >>= f) s ≡ (t, err e)
  bind_fail m f s {t} {e} p =
      let result : (m s).1 ≡ err e = ap (λ (r : S × Result E A). r.1) p in
      bind_err m f s e result ∙ ap (λ (r : S × Result E A). (r.0, err e)) p

  pub bind_inv :
      (m : Exec E S A) (f : A → Exec E S B) (s : S) {b : B}
      → ((m >>= f) s).1 ≡ ok b
      → (a : A) × ((m s).1 ≡ ok a) × ((m >>= f) s ≡ f a (m s).0) × ((f a (m s).0).1 ≡ ok b)
  bind_inv m f s {b} h = go (m s).1 refl
    where
      go :
          (r : Result E A)
          → (m s).1 ≡ r
          → (a : A) × ((m s).1 ≡ ok a) × ((m >>= f) s ≡ f a (m s).0) × ((f a (m s).0).1 ≡ ok b)
      go (ok a) p = (a, p, bind_ok m f s a p, rw (bind_ok m f s a p) at h)
      go (err x) p = absurd (ground (arith, bind_err m f s x p))

  keeps_then :
      (m : Exec E S A) (f : A → Exec E S B) (s : S) (e : E) (r : Result E A)
      → (m s).1 ≡ r
      → (m s).0 ≡ s
      → ((a : A) → Atomic (f a))
      → ((m >>= f) s).1 ≡ err e
      → ((m >>= f) s).0 ≡ s
  keeps_then m f s e (ok a) p q k = rw (bind_ok m f s a p) (rw q (λ h. (k a).atomic s e h))
  keeps_then m f s e (err x) p q k = rw (bind_err m f s x p) (λ h. q)

  -- A part that changes nothing may stand before any atomic part.
  pub >>=-Atomic :
      (m : Exec E S A) (f : A → Exec E S B) → Keeps m → ((a : A) → Atomic (f a)) → Atomic (m >>= f)
  >>=-Atomic m f k h = record { atomic = λ s e. keeps_then m f s e (m s).1 refl (k.keeps s) h }

  Succeeds-then :
      (m : Exec E S A) (f : A → Exec E S B) (s : S) (e : E) (r : Result E A)
      → (m s).1 ≡ r
      → Atomic m
      → ((a : A) → Succeeds (f a))
      → ((m >>= f) s).1 ≡ err e
      → ((m >>= f) s).0 ≡ s
  Succeeds-then m f s e (ok a) p q k =
      rw (bind_ok m f s a p) (λ h. absurd ((k a).succeeds (m s).0 e h))
  Succeeds-then m f s e (err x) p q k = rw (bind_err m f s x p) (λ h. q.atomic s x p)

  -- An atomic part may stand before any part that does not fail.
  pub >>=-Atomic_last :
      (m : Exec E S A) (f : A → Exec E S B)
      → Atomic m
      → ((a : A) → Succeeds (f a))
      → Atomic (m >>= f)
  >>=-Atomic_last m f k h = record { atomic = λ s e. Succeeds-then m f s e (m s).1 refl k h }

  Succeeds-both :
      (m : Exec E S A) (f : A → Exec E S B) (s : S) (e : E) (r : Result E A)
      → (m s).1 ≡ r
      → Succeeds m
      → ((a : A) → Succeeds (f a))
      → ¬ (((m >>= f) s).1 ≡ err e)
  Succeeds-both m f s e (ok a) p q k = rw (bind_ok m f s a p) (λ h. (k a).succeeds (m s).0 e h)
  Succeeds-both m f s e (err x) p q k = absurd (q.succeeds s x p)

  pub >>=-Succeeds :
      (m : Exec E S A) (f : A → Exec E S B)
      → Succeeds m
      → ((a : A) → Succeeds (f a))
      → Succeeds (m >>= f)
  >>=-Succeeds m f k h = record { succeeds = λ s e. Succeeds-both m f s e (m s).1 refl k h }

module _ {E S : Type 0} where
  pub guard-Keeps : (b : Bool) (e : E) → Keeps {S = S} (guard b e)
  guard-Keeps true e = record { keeps = λ s. refl }
  guard-Keeps false e = record { keeps = λ s. refl }

  pub lift-Keeps : {A : Type 0} (r : Result E A) → Keeps {S = S} (lift r)
  lift-Keeps r = record { keeps = λ s. refl }

  pub reads-Keeps : {A : Type 0} (f : S → A) → Keeps {E = E} (reads f)
  reads-Keeps f = record { keeps = λ s. refl }

  pub modify-Succeeds : (f : S → S) → Succeeds {E = E} (modify f)
  modify-Succeeds f = record { succeeds = λ s e h. ground arith }

  pub pure-Succeeds : {A : Type 0} (a : A) → Succeeds {E = E} {S = S} (pure a)
  pure-Succeeds a = record { succeeds = λ s e h. ground arith }
