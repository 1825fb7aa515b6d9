-- ===== src/Flow/Runtime.antt =====
-- internal/application/match_runtime.go and match_flow.go: the state of a running match, its
-- timers, and the calls of the components below it. The fields of the room and of the registry that
-- the flow uses stand in the same record, and the mutex is left out: a command is one step.
use Prim.Native.Nat.{◌/◌, ◌%◌}
use Prim.Native.String.{◌++◌ as ◌⧺◌}
use buk_yutnori.Prelude.{
  ℕ, zero, suc, ◌+◌, ◌-◌, ◌*◌, Bool, false, List, [], ◌∷◌, ◌++◌, Option, none, some, String, ◌==◌,
  string_eq, if◌then◌else◌, get_elem?, ltb,
}
use buk_yutnori.Prelude.Result.{Result, ok, err}
use buk_yutnori.Prelude.Exec.{Exec, ◌>>◌, reads, modify}
use buk_yutnori.Domain.{Error, PlayerId, PieceId, ResultTokenId, TeamId, TurnPhase, phase_eq}
use buk_yutnori.Room.Settings.{Settings}
use buk_yutnori.Turn.Machine.{Machine}
use buk_yutnori.Match.Game.{Game}
use buk_yutnori.Cpu.Policy.{Policy}
use buk_yutnori.Flow.Sequences.{RoomEventSequences}
use buk_yutnori.Flow.Events.{Event, CpuControlReason, RoomStatus}

pub data TimerKind : Type 0 where
  timer_none timer_throw timer_move : TimerKind

unfoldable pub TimerKind-discrete : Discrete TimerKind
TimerKind-discrete = hlevel

-- `storage.MatchResult`
pub record MatchResult : Type 0 where
  pub winners : List PlayerId
  pub losers : List PlayerId

-- No store is attached, as in the tests, or the store answers to an append.
pub data Store : Type 0 where
  no_store store_appends store_fails : Store

-- `eventTx`: the events staged by one command, and what is to be saved with them.
pub record EventTx : Type 0 where
  pub events : List Event
  pub match_result : Option MatchResult
  pub finish_match : Bool

abbrev pub new_event_tx : EventTx
new_event_tx = record { events = []; match_result = none; finish_match = false }

-- Instants and durations are numbers of milliseconds. `draws` holds the answers of the source of
-- random numbers, one function of the limit for each call that may draw, in order; `store` is the
-- event store with its answer to an append, `saves_results` whether it saves the results of
-- matches too, and `published` what the subscribers have been sent.
pub record Runtime : Type 0 where
  pub settings : Settings
  pub order : List PlayerId
  pub team_of : PlayerId → TeamId
  pub cpu_players : PlayerId → Bool
  pub connected : PlayerId → Bool
  pub game : Game
  pub cpu : Policy
  pub draws : ℕ → ℕ → ℕ
  pub machine : Machine
  pub turn_index : ℕ
  pub token_seq : ℕ
  pub now : ℕ
  pub timer_generation : ℕ
  pub timer_kind : TimerKind
  pub timer_deadline : ℕ
  pub cpu_controlled : Bool
  pub cpu_control_reason : CpuControlReason
  pub cpu_action_delay : ℕ
  pub cpu_action_timer : Bool
  pub cpu_action_generation : ℕ
  pub pending_move_piece : PieceId
  pub room_status : RoomStatus
  pub tx : EventTx
  pub room_id : String
  pub match_id : String
  pub host : PlayerId
  pub is_member : PlayerId → Bool
  pub poisoned : Bool
  pub started : Bool
  pub paused : Bool
  pub pause_used : Bool
  pub pause_ends_at : ℕ
  pub pause_expiry_timer : Bool
  pub preserved_timer_kind : TimerKind
  pub preserved_remaining : ℕ
  pub storage_paused : Bool
  pub retry_attempt : ℕ
  pub pending_events : List (ℕ × Event)
  pub pending_result : Option MatchResult
  pub finish_after_save : Bool
  pub sequences : RoomEventSequences
  pub store : Store
  pub saves_results : Bool
  pub published : List (ℕ × Event)

abbrev pub Method : Type 0 → Type 0
Method = Exec Error Runtime

-- `rt.order[rt.turnIndex]`, the empty text where the code panics.
unfoldable pub current_player : Runtime → PlayerId
current_player rt = elim (get_elem? rt.order rt.turn_index) [ none ↦ "" | some player ↦ player ]

unfoldable pub current_team : Runtime → TeamId
current_team rt = rt.team_of (current_player rt)

abbrev digit_texts : List String
digit_texts = "0" ∷ "1" ∷ "2" ∷ "3" ∷ "4" ∷ "5" ∷ "6" ∷ "7" ∷ "8" ∷ "9" ∷ []

abbrev digit : ℕ → String
digit n = elim (get_elem? digit_texts (n % 10)) [ none ↦ "" | some text ↦ text ]

-- The last digits of a number, as many as the first argument says.
unfoldable pub digits : ℕ → ℕ → String
digits zero n = ""
digits (suc k) n = digits k (n / 10) ⧺ digit n

-- A number without leading zeros; 20 digits write any number of 64 bits.
unfoldable pub decimal : ℕ → ℕ → String
decimal zero n = ""
decimal (suc k) n = let rest = decimal k (n / 10) in if ltb n 10 then digit n else rest ⧺ digit n

-- `fmt.Sprintf("token-%06d", seq)`
unfoldable pub token_id : ℕ → ResultTokenId
token_id seq = "token-" ⧺ (if ltb seq 1_000_000 then digits 6 seq else decimal 20 seq)

-- `n++` of a uint64.
unfoldable pub next_u64 : ℕ → ℕ
next_u64 n = (n + 1) % 18_446_744_073_709_551_616

unfoldable pub next_token_id : Method ResultTokenId
next_token_id rt =
    let seq = next_u64 rt.token_seq in (record rt { token_seq = seq }, ok (token_id seq))

-- A call of a method of the turn machine.
abbrev pub on_machine : {A : Type 0} → Exec Error Machine A → Method A
on_machine call rt = ((record rt { machine = (call rt.machine).0 }), (call rt.machine).1)

-- `fmt.Errorf("%w: %v", sentinel, err)`
abbrev pub wrapped : {A : Type 0} → Error → Method A → Method A
wrapped sentinel call rt = elim (call rt).1 [
  | ok a ↦ ((call rt).0, ok a)
  | err _ ↦ ((call rt).0, err sentinel)
]

-- The source answers by the next function of `draws`: the sampler, the game and the policy share it.
abbrev pub next_draw : Method (ℕ → ℕ)
next_draw rt = (
  record rt {
    game = record rt.game { random_source = some (rt.draws 0) };
    cpu = record rt.cpu { random_source = rt.draws 0 };
    draws = λ n. rt.draws (suc n);
  },
  ok (rt.draws 0),
)

-- A call of a method that moves pieces: it leaves the game when it fails.
abbrev pub on_game : {A : Type 0} → (Game → Result Error (Game × A)) → Method A
on_game call rt = elim (call rt.game) [
  | ok (game, a) ↦ (record rt { game = game }, ok a)
  | err e ↦ (rt, err e)
]

abbrev pub emit : Event → Method (Unit {0})
emit event = modify (λ rt. record rt { tx = record rt.tx { events = rt.tx.events ++ event ∷ [] } })

abbrev pub emits : (Runtime → Event) → Method (Unit {0})
emits event rt = emit (event rt) rt

abbrev pub emit_all : List Event → Method (Unit {0})
emit_all events = modify (λ rt. record rt { tx = record rt.tx { events = rt.tx.events ++ events } })

unfoldable pub cancel_timer : Method (Unit {0})
cancel_timer = modify (λ rt. record rt {
  timer_generation = next_u64 rt.timer_generation;
  cpu_action_timer = false;
  cpu_action_generation = next_u64 rt.cpu_action_generation;
  timer_kind = timer_none;
  timer_deadline = 0;
})

unfoldable pub schedule_timer : TimerKind → ℕ → Method (Unit {0})
schedule_timer kind duration = do
  cancel_timer
  modify (λ rt.
      if rt.cpu_controlled
      then rt
      else record rt { timer_kind = kind; timer_deadline = rt.now + duration })

unfoldable pub schedule_throw_timer : Method (Unit {0})
schedule_throw_timer rt = schedule_timer timer_throw (rt.settings.throw_timeout_seconds * 1000) rt

unfoldable pub schedule_move_timer : Method (Unit {0})
schedule_move_timer rt = schedule_timer timer_move (rt.settings.move_timeout_seconds * 1000) rt

unfoldable pub remaining_ms : Runtime → ℕ
remaining_ms rt = elim rt.timer_kind [ timer_none ↦ 0 | _ ↦ rt.timer_deadline - rt.now ]

-- `rt.machine.Snapshot().Phase == phase`
abbrev pub in_phase : TurnPhase → Method Bool
in_phase phase = reads (λ rt. rt.machine.phase == phase)
