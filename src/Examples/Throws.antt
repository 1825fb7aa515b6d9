-- ===== src/Examples/Throws.antt =====
-- The table of probabilities, with both special results enabled.
use buk_yutnori.Prelude.{◌+◌, ◌≤◌, ◌<◌, ◌≡◌, true, ◌↔◌}
use buk_yutnori.Prelude.Result.{ok}
use buk_yutnori.Domain.{yut_backdo, yut_buk}
use buk_yutnori.Yut.{Mode, throw, canonical_weights, canonical_total_weight}
use buk_yutnori.Yut.Table.{weight_before, throw_interval, tickets, tickets_of_result}

abbrev both_enabled : Mode
both_enabled = record { backdo_enabled = true; buk_mode_enabled = true }

throw_interval_example : (throw both_enabled 9640 ≡ ok yut_buk) ↔ (
    (weight_before both_enabled yut_buk ≤ 9640)
    × (9640 < weight_before both_enabled yut_buk + canonical_weights both_enabled yut_buk))
throw_interval_example = throw_interval both_enabled 9640 yut_buk

tickets_of_result_example :
    tickets both_enabled yut_backdo canonical_total_weight
    ≡ canonical_weights both_enabled yut_backdo
tickets_of_result_example = tickets_of_result both_enabled yut_backdo
