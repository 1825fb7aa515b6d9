-- ===== src/Yut/Table.antt =====
-- The probability table: how many of the tickets give each result.
use buk_yutnori.Prelude.{
  ℕ, zero, suc, ◌+◌, ◌-◌, ◌≡◌, ◌<◌, ◌≤◌, refl, Bool, true, false, ◌&&◌, ◌==◌, if◌then◌else◌, arith,
  ltb, leb, ◌↔◌, ◌≢◌, inl, inr, Bool-cases,
}
use buk_yutnori.Prelude.Result.{ok, err, Result-cases}
use buk_yutnori.Domain.{
  YutResult, yut_eq, yut_do, yut_gae, yut_geol, yut_yut, yut_mo, yut_backdo, yut_buk, yut_other,
}
use buk_yutnori.Yut.{
  Mode, ThrowError, random_source_out_of_range, canonical_weights, canonical_total_weight, draw,
  throw, do_weight,
}

-- The weights of the results before a result in the canonical order.
abbrev pub weight_before : Mode → YutResult → ℕ
weight_before mode yut_do = 0
weight_before mode yut_gae = do_weight mode
weight_before mode yut_geol = do_weight mode + 3389
weight_before mode yut_yut = do_weight mode + 6938
weight_before mode yut_mo = do_weight mode + 8332
weight_before mode yut_backdo = do_weight mode + 8561
weight_before mode yut_buk = do_weight mode + 8561 + canonical_weights mode yut_backdo
weight_before mode yut_other = 9999

-- A ticket gives a result just when it lies in the interval of that result: the intervals lie in
-- the canonical order, each as long as the weight of its result.
pub throw_interval :
    (mode : Mode) (ticket : ℕ) (result : YutResult)
    → (throw mode ticket ≡ ok result) ↔ (
        (weight_before mode result ≤ ticket)
        × (ticket < weight_before mode result + canonical_weights mode result))
unfolding throw draw canonical_weights
throw_interval mode ticket yut_do = (λ h. ground arith, λ h. ground arith)
throw_interval mode ticket yut_gae = (λ h. ground arith, λ h. ground arith)
throw_interval mode ticket yut_geol = (λ h. ground arith, λ h. ground arith)
throw_interval mode ticket yut_yut = (λ h. ground arith, λ h. ground arith)
throw_interval mode ticket yut_mo = (λ h. ground arith, λ h. ground arith)
throw_interval mode ticket yut_backdo = (λ h. ground arith, λ h. ground arith)
throw_interval mode ticket yut_buk = (λ h. ground arith, λ h. ground arith)
throw_interval mode ticket yut_other = (λ h. ground arith, λ h. ground arith)

-- The throw fails just when the source of random numbers breaks its bound.
throw_fails_iff :
    (mode : Mode) (ticket : ℕ)
    → (throw mode ticket ≡ err random_source_out_of_range) ↔ (canonical_total_weight ≤ ticket)
unfolding throw draw canonical_weights
throw_fails_iff mode ticket = (λ h. ground arith, λ h. ground arith)

only_out_of_range :
    (mode : Mode) (ticket : ℕ) {e : ThrowError}
    → ticket < canonical_total_weight
    → throw mode ticket ≢ err e
unfolding throw draw canonical_weights
only_out_of_range mode ticket {e} l h = ground arith

-- A throw gives a result of the canonical order for every ticket in the source's bound.
pub throw_total :
    (mode : Mode) (ticket : ℕ)
    → ticket < canonical_total_weight
    → (result : YutResult) × (throw mode ticket ≡ ok result)
throw_total mode ticket l = elim (Result-cases (throw mode ticket)) [
  | inl r ↦ r
  | inr (e, h) ↦ absurd (only_out_of_range mode ticket l h)
]

-- How many of the numbers below `n` lie in the interval of a length from a start.
abbrev within : ℕ → ℕ → ℕ → ℕ
within start size n = if ltb n start then 0 else if ltb n (start + size) then n - start else size

abbrev gives : Mode → YutResult → ℕ → Bool
gives mode result ticket = elim (throw mode ticket) [ ok r ↦ r == result | err _ ↦ false ]

-- How many of the first `n` tickets give the result.
unfoldable pub tickets : Mode → YutResult → ℕ → ℕ
tickets mode result zero = 0
tickets mode result (suc n) =
    let rest = tickets mode result n in if gives mode result n then suc rest else rest

gives_iff :
    (mode : Mode) (result : YutResult) (ticket : ℕ)
    → (gives mode result ticket ≡ true) ↔ (throw mode ticket ≡ ok result)
gives_iff mode result ticket = elim (Result-cases (throw mode ticket)) [
  | inl (r, e) ↦ (λ h. ground arith, λ h. ground arith)
  | inr (x, e) ↦ (λ h. ground arith, λ h. ground arith)
]

within-suc :
    (start size n : ℕ) (b : Bool)
    → (b ≡ true → (start ≤ n) × (n < start + size))
    → ((start ≤ n) × (n < start + size) → b ≡ true)
    → (if b then suc (within start size n) else within start size n) ≡ within start size (suc n)
within-suc start size n true f g = ground (arith, f refl)
within-suc start size n false f g = elim (Bool-cases (leb start n && ltb n (start + size))) [
  | inl h ↦ absurd (ground (arith, g (ground arith, ground arith)))
  | inr h ↦ ground arith
]

tickets_before :
    (mode : Mode) (result : YutResult) (n : ℕ)
    → tickets mode result n ≡ within (weight_before mode result) (canonical_weights mode result) n
unfolding tickets
tickets_before mode result zero = ground arith
tickets_before mode result (suc n) =
    let (g, h) = gives_iff mode result n in
    let (p, q) = throw_interval mode n result in
    rw (tickets_before mode result n) (
      within-suc (weight_before mode result) (canonical_weights mode result) n (gives mode result n)
        (λ k. p (g k)) (λ k. h (q k)))

bounded :
    (mode : Mode) (result : YutResult)
    → weight_before mode result + canonical_weights mode result ≤ 9999
unfolding canonical_weights
bounded mode result = ground arith

-- Of the 9999 tickets, each result gets as many as its weight.
pub tickets_of_result :
    (mode : Mode) (result : YutResult)
    → tickets mode result canonical_total_weight ≡ canonical_weights mode result
tickets_of_result mode result =
    ground (arith, tickets_before mode result canonical_total_weight, bounded mode result)
