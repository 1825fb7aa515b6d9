-- ===== src/Room/Settings.antt =====
-- internal/domain/room/settings.go. `validate` reports a list of problems; only whether the list
-- is empty is kept of their texts, and each problem is a value here.
pub mod Valid
use buk_yutnori.Prelude.{ℕ, Bool, true, false, not, ◌&&◌, List, [], ◌∷◌, ◌++◌, Eq, nat_eq, contains}
use buk_yutnori.Prelude.Result.{Result, ok, err}
use buk_yutnori.Domain.{Error, invalid_settings}

pub data CaptureExtraThrowPolicy : Type 0 where
  capture_extra_throw_always capture_extra_throw_do_to_geol_plus_special : CaptureExtraThrowPolicy
  capture_extra_throw_none capture_extra_throw_other : CaptureExtraThrowPolicy

pub data ShortcutPolicy : Type 0 where
  shortcut_forced shortcut_selectable shortcut_other : ShortcutPolicy

pub data MovementOrder : Type 0 where
  movement_fifo movement_free movement_other : MovementOrder

unfoldable pub CaptureExtraThrowPolicy-discrete : Discrete CaptureExtraThrowPolicy
CaptureExtraThrowPolicy-discrete = hlevel

unfoldable pub ShortcutPolicy-discrete : Discrete ShortcutPolicy
ShortcutPolicy-discrete = hlevel

unfoldable pub MovementOrder-discrete : Discrete MovementOrder
MovementOrder-discrete = hlevel

instance abbrev pub capture_eq : Eq CaptureExtraThrowPolicy
capture_eq = record { dec = CaptureExtraThrowPolicy-discrete }

instance abbrev pub shortcut_eq : Eq ShortcutPolicy
shortcut_eq = record { dec = ShortcutPolicy-discrete }

instance abbrev pub order_eq : Eq MovementOrder
order_eq = record { dec = MovementOrder-discrete }

pub record Settings : Type 0 where
  pub max_players : ℕ
  pub piece_count : ℕ
  pub stacking_enabled : Bool
  pub capture_extra_throw : CaptureExtraThrowPolicy
  pub yut_mo_extra_throw : Bool
  pub shortcut_policy : ShortcutPolicy
  pub backdo_enabled : Bool
  pub buk_mode_enabled : Bool
  pub random_buk_destination : Bool
  pub movement_order : MovementOrder
  pub throw_timeout_seconds : ℕ
  pub move_timeout_seconds : ℕ

abbrev pub max_pieces_per_team : ℕ
max_pieces_per_team = 4

abbrev pub allowed_max_players : List ℕ
allowed_max_players = 2 ∷ 4 ∷ 6 ∷ 8 ∷ []

abbrev pub allowed_piece_counts : List ℕ
allowed_piece_counts = 2 ∷ 3 ∷ max_pieces_per_team ∷ []

abbrev pub allowed_capture_extra_throws : List CaptureExtraThrowPolicy
allowed_capture_extra_throws =
    capture_extra_throw_always ∷ capture_extra_throw_do_to_geol_plus_special
    ∷ capture_extra_throw_none ∷ []

abbrev pub allowed_shortcut_policies : List ShortcutPolicy
allowed_shortcut_policies = shortcut_forced ∷ shortcut_selectable ∷ []

abbrev pub allowed_movement_orders : List MovementOrder
allowed_movement_orders = movement_fifo ∷ movement_free ∷ []

abbrev pub allowed_throw_timeout_seconds : List ℕ
allowed_throw_timeout_seconds = 10 ∷ 20 ∷ 30 ∷ []

abbrev pub allowed_movement_timeout_seconds : List ℕ
allowed_movement_timeout_seconds = 30 ∷ 60 ∷ 90 ∷ 120 ∷ 150 ∷ []

abbrev pub default_settings : Settings
default_settings = record {
  max_players = 8;
  piece_count = 4;
  stacking_enabled = true;
  capture_extra_throw = capture_extra_throw_always;
  yut_mo_extra_throw = true;
  shortcut_policy = shortcut_selectable;
  backdo_enabled = true;
  buk_mode_enabled = false;
  random_buk_destination = false;
  movement_order = movement_free;
  throw_timeout_seconds = 20;
  move_timeout_seconds = 90;
}

pub data Problem : Type 0 where
  max_players_not_allowed piece_count_not_allowed capture_extra_throw_not_allowed : Problem
  shortcut_policy_not_allowed movement_order_not_allowed : Problem
  throw_timeout_not_allowed move_timeout_not_allowed : Problem
  random_buk_requires_buk_mode : Problem

abbrev pub problem_unless : Bool → Problem → List Problem
problem_unless true p = []
problem_unless false p = p ∷ []

unfoldable pub problems : Settings → List Problem
problems s =
    problem_unless (contains allowed_max_players s.max_players) max_players_not_allowed
    ++ (problem_unless (contains allowed_piece_counts s.piece_count) piece_count_not_allowed
        ++ (problem_unless (contains allowed_capture_extra_throws s.capture_extra_throw)
              capture_extra_throw_not_allowed
            ++ (problem_unless (contains allowed_shortcut_policies s.shortcut_policy)
                  shortcut_policy_not_allowed
                ++ (problem_unless (contains allowed_movement_orders s.movement_order)
                      movement_order_not_allowed
                    ++ (problem_unless
                          (contains allowed_throw_timeout_seconds s.throw_timeout_seconds)
                          throw_timeout_not_allowed
                        ++ (problem_unless
                              (contains allowed_movement_timeout_seconds s.move_timeout_seconds)
                              move_timeout_not_allowed
                            ++ problem_unless
                                (not (s.random_buk_destination && not s.buk_mode_enabled))
                                random_buk_requires_buk_mode))))))

abbrev pub result_of : List Problem → Result Error (Unit {0})
result_of [] = ok tt
result_of (p ∷ ps) = err invalid_settings

unfoldable pub validate : Settings → Result Error (Unit {0})
unfolding problems
validate s = result_of (problems s)
