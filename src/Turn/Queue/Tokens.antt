-- ===== src/Turn/Queue/Tokens.antt =====
-- Lists of result tokens under the two changes that the queue makes: a token appended, a token
-- taken out.
use buk_yutnori.Prelude.{
  suc, text_discrete, ◌≡◌, refl, true, false, List, [], ◌∷◌, ◌++◌, none, some, ◌==◌, string_eq,
  if◌then◌else◌, length, contains, arith, All, ◌⊎◌, inl, inr, ◌≢◌,
}
use buk_yutnori.Domain.{ResultTokenId, yut_buk, yut_eq}
use buk_yutnori.Turn.Token.{ResultToken}
use buk_yutnori.Turn.Queue.{first_buk, contains_token_id, take_out}

abbrev ids : List ResultToken → List ResultTokenId
ids [] = []
ids (t ∷ ts) = t.id ∷ ids ts

-- No identifier stands twice.
abbrev pub Distinct : List ResultToken → Type 0
Distinct [] = Unit {0}
Distinct (t ∷ ts) = (contains_token_id ts t.id ≡ false) × Distinct ts

-- No second Buk behind a Buk.
abbrev pub OneBuk : List ResultToken → Type 0
OneBuk [] = Unit {0}
OneBuk (t ∷ ts) = (t.result ≡ yut_buk → first_buk ts ≡ none) × OneBuk ts

abbrev pub Seen : List ResultTokenId → List ResultToken → Type 0
Seen seen = All (λ t. contains seen t.id ≡ true)

pub not-Seen_not_contained :
    (seen : List ResultTokenId) (id : ResultTokenId) (ts : List ResultToken)
    → Seen seen ts
    → contains seen id ≡ false
    → contains_token_id ts id ≡ false
unfolding contains_token_id
not-Seen_not_contained seen id [] s h = refl
not-Seen_not_contained seen id (t ∷ ts) s h =
    ground (arith, not-Seen_not_contained seen id ts s.1 h)

pub contains_token_id-append :
    (ts : List ResultToken) (t : ResultToken) (id : ResultTokenId)
    → contains_token_id (ts ++ t ∷ []) id
      ≡ (if contains_token_id ts id then true else if t.id == id then true else false)
unfolding contains_token_id
contains_token_id-append [] t id = refl
contains_token_id-append (u ∷ ts) t id = ground (arith, contains_token_id-append ts t id)

pub Distinct-append :
    (ts : List ResultToken) (t : ResultToken)
    → Distinct ts
    → contains_token_id ts t.id ≡ false
    → Distinct (ts ++ t ∷ [])
unfolding contains_token_id
Distinct-append [] t d h = (refl, tt)
Distinct-append (u ∷ ts) t d h =
    ground (arith, contains_token_id-append ts t u.id, Distinct-append ts t d.1)

first_buk-append :
    (ts : List ResultToken) (t : ResultToken)
    → first_buk ts ≡ none
    → t.result ≢ yut_buk
    → first_buk (ts ++ t ∷ []) ≡ none
unfolding first_buk
first_buk-append [] t n h = ground arith
first_buk-append (u ∷ ts) t n h = ground (arith, first_buk-append ts t)

pub OneBuk-append :
    (ts : List ResultToken) (t : ResultToken)
    → OneBuk ts
    → (t.result ≡ yut_buk → first_buk ts ≡ none)
    → OneBuk (ts ++ t ∷ [])
unfolding first_buk
OneBuk-append [] t o h = ground arith
OneBuk-append (u ∷ ts) t o h = ground (arith, first_buk-append ts t, OneBuk-append ts t o.1)

pub Seen-cons :
    (id : ResultTokenId) (seen : List ResultTokenId) (ts : List ResultToken)
    → Seen seen ts
    → Seen (id ∷ seen) ts
Seen-cons id seen [] s = tt
Seen-cons id seen (t ∷ ts) s = ground (arith, Seen-cons id seen ts s.1)

-- `Removes t ts us`: `us` is `ts` without one occurrence of `t`, in the same order.
pub data Removes (t : ResultToken) : List ResultToken → List ResultToken → Type 0 where
  here : {ts : List ResultToken} → Removes t (t ∷ ts) ts
  there :
      {u : ResultToken} {ts us : List ResultToken} → Removes t ts us → Removes t (u ∷ ts) (u ∷ us)

pub take_out_cases :
    (id : ResultTokenId) (ts : List ResultToken)
    → ((take_out id ts ≡ none) × (contains_token_id ts id ≡ false))
      ⊎ ((u : ResultToken) × (us : List ResultToken) × (take_out id ts ≡ some (u, us))
          × (u.id ≡ id)
          × Removes u ts us)
unfolding take_out contains_token_id
take_out_cases id [] = inl (refl, refl)
take_out_cases id (t ∷ ts) = elim (text_discrete t.id id) [
  | yes p ↦ inr (t, ts, ground arith, p, here)
  | no p ↦ elim (take_out_cases id ts) [
    | inl (e, c) ↦ inl (ground arith, ground arith)
    | inr (u, us, e, i, r) ↦ inr (u, t ∷ us, ground arith, i, there r)
  ]
]

module _ {t : ResultToken} where
  Removes-contains :
      {ts us : List ResultToken} (id : ResultTokenId)
      → Removes t ts us
      → contains_token_id ts id ≡ false
      → contains_token_id us id ≡ false
  unfolding contains_token_id
  Removes-contains id here h = ground arith
  Removes-contains id (there r) h = ground (arith, Removes-contains id r)

  Removes-first_buk :
      {ts us : List ResultToken} → Removes t ts us → first_buk ts ≡ none → first_buk us ≡ none
  unfolding first_buk
  Removes-first_buk here h = ground arith
  Removes-first_buk (there r) h = ground (arith, Removes-first_buk r)

  pub Removes-member :
      {ts us : List ResultToken} → Removes t ts us → contains_token_id ts t.id ≡ true
  unfolding contains_token_id
  Removes-member here = ground arith
  Removes-member (there r) = ground (arith, Removes-member r)

  -- The token taken out is the only one with its identifier.
  pub Removes-Distinct :
      {ts us : List ResultToken}
      → Removes t ts us
      → Distinct ts
      → Distinct us × (contains_token_id us t.id ≡ false)
  unfolding contains_token_id
  Removes-Distinct here d = (d.1, d.0)
  Removes-Distinct (there {u = u} r) d =
      ground (arith, Removes-contains u.id r d.0, Removes-Distinct r d.1, Removes-member r)

  pub Removes-OneBuk : {ts us : List ResultToken} → Removes t ts us → OneBuk ts → OneBuk us
  Removes-OneBuk here o = o.1
  Removes-OneBuk (there r) o = ((λ e. Removes-first_buk r (o.0 e)), Removes-OneBuk r o.1)

  pub Removes-length : {ts us : List ResultToken} → Removes t ts us → length ts ≡ suc (length us)
  Removes-length here = refl
  Removes-length (there r) = omega (arith, Removes-length r)

  pub Removes-All {κ} :
      (P : ResultToken → Type κ) {ts us : List ResultToken}
      → Removes t ts us
      → All P ts
      → P t × All P us
  Removes-All P here h = h
  Removes-All P (there r) h = let (p, rest) = Removes-All P r h.1 in (p, (h.0, rest))
