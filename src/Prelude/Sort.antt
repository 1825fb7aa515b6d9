-- ===== src/Prelude/Sort.antt =====
-- `sort.Slice` of identifiers by `<` on texts.
use Prim.Native.String.{String, compare}
use mathlib.Core.Path.{◌≡◌, refl}
use mathlib.Core.Bool.{Bool, true, false, ◌||◌}
use mathlib.Core.List.{List, [], ◌∷◌}
use mathlib.Core.Logic.{inl, inr}
use native.Mathlib.Omega.{arith}
use text.Mathlib.Text.{is_le}
use buk_yutnori.Prelude.Tests.{◌==◌, string_eq, if◌then◌else◌, Bool-cases}
use buk_yutnori.Prelude.Lists.{contains}

abbrev pub insert : String → List String → List String
insert s [] = s ∷ []
insert s (t ∷ ts) = if is_le (compare s t) then s ∷ t ∷ ts else t ∷ insert s ts

abbrev pub sorted : List String → List String
sorted [] = []
sorted (s ∷ ss) = insert s (sorted ss)

abbrev pub none_of : List String → Bool
none_of [] = true
none_of (_ ∷ _) = false

contains-insert :
    (s : String) (ts : List String) (u : String)
    → contains (insert s ts) u ≡ (s == u || contains ts u)
contains-insert s [] u = refl
contains-insert s (t ∷ ts) u = elim (Bool-cases (is_le (compare s t))) [
  | inl e ↦ rw e refl
  | inr e ↦ ground (arith, contains-insert s ts u)
]

pub contains-sorted : (ss : List String) (u : String) → contains (sorted ss) u ≡ contains ss u
contains-sorted [] u = refl
contains-sorted (s ∷ ss) u = ground (arith, contains-insert s (sorted ss) u, contains-sorted ss u)

none_of-insert : (s : String) (ts : List String) → none_of (insert s ts) ≡ false
none_of-insert s [] = refl
none_of-insert s (t ∷ ts) = elim (Bool-cases (is_le (compare s t))) [
  | inl e ↦ rw e refl
  | inr e ↦ rw e refl
]

pub none_of-sorted : (ss : List String) → none_of (sorted ss) ≡ none_of ss
none_of-sorted [] = refl
none_of-sorted (s ∷ ss) = none_of-insert s (sorted ss)
