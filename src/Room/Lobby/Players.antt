-- ===== src/Room/Lobby/Players.antt =====
-- The players of a lobby as a map: one for each identifier, through every change.
use buk_yutnori.Prelude.{
  ◌≤◌, ◌≡◌, refl, false, ◌||◌, List, [], ◌∷◌, ◌++◌, some, string_eq, length, arith, All,
}
use buk_yutnori.Prelude.Result.{ok}
use buk_yutnori.Domain.{PlayerId, validate_id, validate_team_id}
use buk_yutnori.Room.Lobby.{
  Player, find_player, has_player, put_player, delete_player, make_cpu, delete_players, reset_ready,
}

abbrev pub Distinct : List Player → Type 0
Distinct [] = Unit {0}
Distinct (p ∷ ps) = (has_player ps p.id ≡ false) × Distinct ps

-- A player with an identifier and a team of the game.
abbrev pub Known : Player → Type 0
Known p = (validate_id p.id ≡ ok tt) × (validate_team_id p.team ≡ ok tt)

pub find_player-id :
    (ps : List Player) (id : PlayerId) {p : Player} → find_player ps id ≡ some p → p.id ≡ id
unfolding find_player
find_player-id [] id h = absurd (ground arith)
find_player-id (q ∷ ps) id {p} h = ground (arith, find_player-id ps id {p = p})

pub find_player-Known :
    (ps : List Player) (id : PlayerId) {p : Player}
    → All Known ps
    → find_player ps id ≡ some p
    → Known p
unfolding find_player
find_player-Known [] id a h = absurd (ground arith)
find_player-Known (q ∷ ps) id {p} a h = ground (arith, find_player-Known ps id {p = p} a.1)

-- What a change may do to the players and keep them a map within bounds.
pub record Shrinks (ps qs : List Player) : Type 0 where
  pub shorter : length qs ≤ length ps
  pub absent : (id : PlayerId) → has_player ps id ≡ false → has_player qs id ≡ false
  pub distinct : Distinct ps → Distinct qs
  pub known : All Known ps → All Known qs

has_player-put :
    (p : Player) (ps : List Player) (id : PlayerId)
    → has_player (put_player p ps) id ≡ has_player ps id
unfolding find_player put_player
has_player-put p [] id = refl
has_player-put p (q ∷ ps) id = ground (arith, has_player-put p ps id)

pub put_player-Shrinks : (p : Player) (ps : List Player) → Known p → Shrinks ps (put_player p ps)
unfolding find_player put_player
put_player-Shrinks p [] k = record {
  shorter = omega arith;
  absent = λ id h. h;
  distinct = λ d. d;
  known = λ a. a;
}
put_player-Shrinks p (q ∷ ps) k =
    let s = put_player-Shrinks p ps k in
    record {
      shorter = ground (arith, s.shorter);
      absent = λ id h. ground (arith, s.absent id);
      distinct = λ d. ground (arith, s.distinct, has_player-put p ps q.id);
      known = λ a. ground (arith, s.known);
    }

pub delete_player-Shrinks : (id : PlayerId) (ps : List Player) → Shrinks ps (delete_player id ps)
unfolding find_player delete_player
delete_player-Shrinks id [] = record {
  shorter = omega arith;
  absent = λ j h. h;
  distinct = λ d. d;
  known = λ a. a;
}
delete_player-Shrinks id (q ∷ ps) =
    let s = delete_player-Shrinks id ps in
    record {
      shorter = ground (arith, s.shorter);
      absent = λ j h. ground (arith, s.absent j);
      distinct = λ d. ground (arith, s.distinct, s.absent q.id);
      known = λ a. ground (arith, s.known);
    }

pub delete_players-Shrinks :
    (ids : List PlayerId) (ps : List Player) → Shrinks ps (delete_players ids ps)
unfolding find_player delete_players
delete_players-Shrinks ids [] = record {
  shorter = omega arith;
  absent = λ j h. h;
  distinct = λ d. d;
  known = λ a. a;
}
delete_players-Shrinks ids (q ∷ ps) =
    let s = delete_players-Shrinks ids ps in
    record {
      shorter = ground (arith, s.shorter);
      absent = λ j h. ground (arith, s.absent j);
      distinct = λ d. ground (arith, s.distinct, s.absent q.id);
      known = λ a. ground (arith, s.known);
    }

has_player-make_cpu :
    (id : PlayerId) (ps : List Player) (j : PlayerId)
    → has_player (make_cpu id ps) j ≡ has_player ps j
unfolding find_player make_cpu
has_player-make_cpu id [] j = refl
has_player-make_cpu id (q ∷ ps) j = ground (arith, has_player-make_cpu id ps j)

pub make_cpu-Shrinks : (id : PlayerId) (ps : List Player) → Shrinks ps (make_cpu id ps)
unfolding find_player make_cpu
make_cpu-Shrinks id [] = record {
  shorter = omega arith;
  absent = λ j h. h;
  distinct = λ d. d;
  known = λ a. a;
}
make_cpu-Shrinks id (q ∷ ps) =
    let s = make_cpu-Shrinks id ps in
    record {
      shorter = ground (arith, s.shorter);
      absent = λ j h. ground (arith, s.absent j);
      distinct = λ d. ground (arith, s.distinct, has_player-make_cpu id ps q.id);
      known = λ a. ground (arith, s.known);
    }

pub reset_ready-Shrinks : (ps : List Player) → Shrinks ps (reset_ready ps)
unfolding find_player reset_ready
reset_ready-Shrinks [] = record {
  shorter = omega arith;
  absent = λ j h. h;
  distinct = λ d. d;
  known = λ a. a;
}
reset_ready-Shrinks (q ∷ ps) =
    let s = reset_ready-Shrinks ps in
    record {
      shorter = ground (arith, s.shorter);
      absent = λ j h. ground (arith, s.absent j);
      distinct = λ d. ground (arith, s.distinct, s.absent q.id);
      known = λ a. ground (arith, s.known);
    }

pub has_player-append :
    (ps qs : List Player) (id : PlayerId)
    → has_player (ps ++ qs) id ≡ (has_player ps id || has_player qs id)
unfolding find_player
has_player-append [] qs id = refl
has_player-append (p ∷ ps) qs id = ground (arith, has_player-append ps qs id)

pub Distinct-append :
    (ps : List Player) (p : Player)
    → Distinct ps
    → has_player ps p.id ≡ false
    → Distinct (ps ++ p ∷ [])
unfolding find_player
Distinct-append [] p d h = (refl, tt)
Distinct-append (q ∷ ps) p d h =
    (ground (arith, has_player-append ps (p ∷ []) q.id), Distinct-append ps p d.1 (ground arith))
