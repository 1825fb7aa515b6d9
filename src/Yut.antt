-- ===== src/Yut.antt =====
-- internal/domain/yut/sampler.go. The source of random numbers is a parameter: `throw` takes the
-- ticket that `Uint64N` returned.
pub mod Table
use buk_yutnori.Prelude.{
  ℕ, ◌+◌, Bool, true, false, ◌&&◌, ◌||◌, List, [], ◌∷◌, if◌then◌else◌, ltb, leb,
}
use buk_yutnori.Prelude.Result.{Result, ok, err}
use buk_yutnori.Domain.{
  YutResult, yut_do, yut_gae, yut_geol, yut_yut, yut_mo, yut_backdo, yut_buk, yut_other,
}

pub data ThrowError : Type 0 where
  nil_random_source random_source_out_of_range : ThrowError

abbrev pub canonical_total_weight : ℕ
canonical_total_weight = 9999

pub record Mode : Type 0 where
  pub backdo_enabled : Bool
  pub buk_mode_enabled : Bool

abbrev pub canonical_result_order : List YutResult
canonical_result_order = yut_do ∷ yut_gae ∷ yut_geol ∷ yut_yut ∷ yut_mo ∷ yut_backdo ∷ yut_buk ∷ []

abbrev pub do_weight : Mode → ℕ
do_weight mode =
    if mode.backdo_enabled && mode.buk_mode_enabled
    then 720
    else if mode.backdo_enabled || mode.buk_mode_enabled
    then 1079
    else 1438

-- The map of weights, 0 for a key that is not in it.
unfoldable pub canonical_weights : Mode → YutResult → ℕ
canonical_weights mode yut_do = do_weight mode
canonical_weights mode yut_gae = 3389
canonical_weights mode yut_geol = 3549
canonical_weights mode yut_yut = 1394
canonical_weights mode yut_mo = 229
canonical_weights mode yut_backdo = if mode.backdo_enabled then 359 else 0
canonical_weights mode yut_buk = if mode.buk_mode_enabled then 359 else 0
canonical_weights mode yut_other = 0

-- The loop over the results, with the upper bound that it adds up.
unfoldable pub draw : (YutResult → ℕ) → ℕ → ℕ → List YutResult → Result ThrowError YutResult
draw weights ticket upper_bound [] = err random_source_out_of_range
draw weights ticket upper_bound (result ∷ order) =
    if ltb ticket (upper_bound + weights result)
    then ok result
    else draw weights ticket (upper_bound + weights result) order

unfoldable pub throw : Mode → ℕ → Result ThrowError YutResult
throw mode ticket =
    if leb canonical_total_weight ticket
    then err random_source_out_of_range
    else draw (canonical_weights mode) ticket 0 canonical_result_order
