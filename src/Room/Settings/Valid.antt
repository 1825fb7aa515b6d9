-- ===== src/Room/Settings/Valid.antt =====
-- Which settings `validate` accepts.
use buk_yutnori.Prelude.{
  ◌≡◌, refl, Bool, true, false, not, ◌&&◌, List, [], ◌∷◌, ◌++◌, ◌⊎◌, ◌↔◌, ◌≢◌, arith, nat_eq,
  contains,
}
use buk_yutnori.Prelude.Result.{ok}
use buk_yutnori.Room.Settings.{
  Settings, movement_other, capture_extra_throw_other, shortcut_other, capture_eq, shortcut_eq,
  order_eq, Problem, problem_unless, validate, result_of, allowed_max_players, allowed_piece_counts,
  allowed_capture_extra_throws, allowed_shortcut_policies, allowed_movement_orders,
  allowed_throw_timeout_seconds, allowed_movement_timeout_seconds, max_players_not_allowed,
  piece_count_not_allowed, capture_extra_throw_not_allowed, shortcut_policy_not_allowed,
  movement_order_not_allowed, throw_timeout_not_allowed, move_timeout_not_allowed,
}

-- The settings of docs/07 and spec/room_settings.yaml.
pub record IsAllowed (s : Settings) : Type 0 where
  pub players :
      (s.max_players ≡ 2) ⊎ (s.max_players ≡ 4) ⊎ (s.max_players ≡ 6) ⊎ (s.max_players ≡ 8)
  pub pieces : (s.piece_count ≡ 2) ⊎ (s.piece_count ≡ 3) ⊎ (s.piece_count ≡ 4)
  pub capture : s.capture_extra_throw ≢ capture_extra_throw_other
  pub shortcut : s.shortcut_policy ≢ shortcut_other
  pub order : s.movement_order ≢ movement_other
  pub throw_timeout :
      (s.throw_timeout_seconds ≡ 10)
      ⊎ (s.throw_timeout_seconds ≡ 20)
      ⊎ (s.throw_timeout_seconds ≡ 30)
  pub move_timeout :
      (s.move_timeout_seconds ≡ 30)
      ⊎ (s.move_timeout_seconds ≡ 60)
      ⊎ (s.move_timeout_seconds ≡ 90)
      ⊎ (s.move_timeout_seconds ≡ 120)
      ⊎ (s.move_timeout_seconds ≡ 150)
  pub random_buk : s.random_buk_destination ≡ true → s.buk_mode_enabled ≡ true

both_nil : (xs ys : List Problem) → xs ++ ys ≡ [] → (xs ≡ []) × (ys ≡ [])
both_nil [] ys h = (refl, h)
both_nil (x ∷ xs) ys h = absurd (ground arith)

holds :
    (b : Bool) (p : Problem) (ps : List Problem)
    → problem_unless b p ++ ps ≡ []
    → (b ≡ true) × (ps ≡ [])
holds true p ps h = (refl, h)
holds false p ps h = absurd (ground arith)

no_problems : (ps : List Problem) → result_of ps ≡ ok tt → ps ≡ []
no_problems [] h = refl
no_problems (p ∷ ps) h = absurd (ground arith)

accepted : (s : Settings) → validate s ≡ ok tt → IsAllowed s
unfolding validate
accepted s h =
    let (a, ha) =
      holds (contains allowed_max_players s.max_players) max_players_not_allowed _
        (no_problems _ h) in
    let (b, hb) =
      holds (contains allowed_piece_counts s.piece_count) piece_count_not_allowed _ ha in
    let (c, hc) =
      holds (contains allowed_capture_extra_throws s.capture_extra_throw)
        capture_extra_throw_not_allowed _ hb in
    let (d, hd) =
      holds (contains allowed_shortcut_policies s.shortcut_policy) shortcut_policy_not_allowed _
        hc in
    let (e, he) =
      holds (contains allowed_movement_orders s.movement_order) movement_order_not_allowed _ hd in
    let (f, hf) =
      holds (contains allowed_throw_timeout_seconds s.throw_timeout_seconds)
        throw_timeout_not_allowed _ he in
    let (g, hg) =
      holds (contains allowed_movement_timeout_seconds s.move_timeout_seconds)
        move_timeout_not_allowed _ hf in
    let random_holds : not (s.random_buk_destination && not s.buk_mode_enabled) ≡ true =
      ground arith in
    record {
      players = ground arith;
      pieces = ground arith;
      capture = λ k. ground arith;
      shortcut = λ k. ground arith;
      order = λ k. ground arith;
      throw_timeout = ground arith;
      move_timeout = ground arith;
      random_buk = λ k. ground arith;
    }

problem_unless_holds :
    (b : Bool) (p : Problem) (ps : List Problem) → b ≡ true → problem_unless b p ++ ps ≡ ps
problem_unless_holds b p ps h = ground arith

allowed : (s : Settings) → IsAllowed s → validate s ≡ ok tt
unfolding validate
allowed s a =
    rw
      (
        problem_unless_holds (contains allowed_max_players s.max_players) max_players_not_allowed _
            (ground arith),
        problem_unless_holds (contains allowed_piece_counts s.piece_count) piece_count_not_allowed _
            (ground arith),
        problem_unless_holds (contains allowed_capture_extra_throws s.capture_extra_throw)
            capture_extra_throw_not_allowed _ (ground arith),
        problem_unless_holds (contains allowed_shortcut_policies s.shortcut_policy)
            shortcut_policy_not_allowed _ (ground arith),
        problem_unless_holds (contains allowed_movement_orders s.movement_order)
            movement_order_not_allowed _ (ground arith),
        problem_unless_holds (contains allowed_throw_timeout_seconds s.throw_timeout_seconds)
            throw_timeout_not_allowed _ (ground arith),
        problem_unless_holds (contains allowed_movement_timeout_seconds s.move_timeout_seconds)
            move_timeout_not_allowed _ (ground arith),
      )
      (ground arith)

-- Settings are accepted exactly when each of them is one that the specification allows.
pub validate_iff : (s : Settings) → (validate s ≡ ok tt) ↔ IsAllowed s
validate_iff s = (accepted s, allowed s)
