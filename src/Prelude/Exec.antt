-- ===== src/Prelude/Exec.antt =====
-- A method that changes its receiver and may fail: the state after the call, which an error keeps
-- as the call left it, and the result or the error.
pub mod Atomic
pub mod Keeps
use mathlib.Core.Bool.{Bool, true, false}
use buk_yutnori.Prelude.Result.{Result, ok, err}

abbrev pub Exec : Type 0 → Type 0 → Type 0 → Type 0
Exec E S A = S → S × Result E A

infixl 5 ◌>>=◌ ◌>>◌
abbrev pub ◌>>=◌ : {E S A B : Type 0} → Exec E S A → (A → Exec E S B) → Exec E S B
◌>>=◌ m f s = elim (m s).1 [ ok a ↦ f a (m s).0 | err e ↦ ((m s).0, err e) ]

abbrev pub ◌>>◌ : {E S B : Type 0} → Exec E S (Unit {0}) → Exec E S B → Exec E S B
m >> k = m >>= λ _. k

-- `return x, nil` and `return err`.
abbrev pub pure : {E S A : Type 0} → A → Exec E S A
pure a s = (s, ok a)

abbrev pub fail : {E S A : Type 0} → E → Exec E S A
fail e s = (s, err e)

-- A call that reads no state: its error is returned.
abbrev pub lift : {E S A : Type 0} → Result E A → Exec E S A
lift r s = (s, r)

abbrev pub reads : {E S A : Type 0} → (S → A) → Exec E S A
reads f s = (s, ok (f s))

abbrev pub modify : {E S : Type 0} → (S → S) → Exec E S (Unit {0})
modify f s = (f s, ok tt)

-- `if !condition { return err }`
abbrev pub guard : {E S : Type 0} → Bool → E → Exec E S (Unit {0})
guard true e s = (s, ok tt)
guard false e s = (s, err e)
