-- ===== src/Lib.antt =====
-- The rules of 벅윷놀이, a game of Yut for several players, and the flow of a running match: of the
-- repository, internal/domain, the part of its Go server that decides what a throw and a move
-- do, and of internal/application the files that put these together.
--
-- The parts and how they interact. A room has settings (internal/domain/room/settings.go). A
-- turn (internal/domain/turn/machine.go) throws sticks by the sampler
-- (internal/domain/yut/sampler.go), and records each throw as a token of its result queue
-- (internal/domain/turn/queue.go); then it gives out the tokens in the movement order of the
-- settings, a Buk first, and each is used for a movement of pieces (internal/domain/match) by a
-- plan of the board (internal/domain/board). The match reports to the turn whether a movement
-- captured and whether it ended the match. Before the match, players join the lobby of a room
-- (internal/domain/room/lobby.go), and an attempt to start asks each of them
-- (internal/domain/room/start_confirmation.go); its timeout puts out those who do not answer. A
-- CPU player (internal/domain/cpu) chooses what to do with the head of the queue by the plans
-- that the match offers. The flow of a match (internal/application/match_flow.go,
-- match_runtime.go) takes the commands of the players: it calls the turn and the match one after
-- the other, runs the automatic steps that follow, hands a turn to the policy when its player is
-- a computer player, is not connected or lets its time pass, and stages the events that
-- internal/application/event_tx.go then saves, numbers and publishes.
--
-- The files. Prelude: tests, lists, results, and Exec, the monad of a method that reads and
-- writes its receiver and may return an error. Domain: the enumerations, where a constructor
-- `*_other` stands for every text that is not a constant of the code, the identifiers, and the
-- errors, without the texts that `fmt.Errorf` wraps around them. Room/Settings: settings.go.
-- Turn/Token, Turn/Queue and Turn/Machine: token.go, queue.go and machine.go, a function in Exec
-- for each method; `step` makes a method a call and `run` makes calls in order, those that fail
-- included. Turn/Machine/Steps is the turn as a relation between states. Board/Types: the graph,
-- whose maps are lists of entries; Board/Forward, Board/Backdo, Board/Distance and
-- Board/Reachable: forward.go, backdo.go and distance.go. Board/Validate: of validate.go, the
-- checks on identifiers, edges and route choices, with a problem as a constructor and not as a
-- text. Board/Canonical: spec/board_graph.yaml. Yut: sampler.go. Examples: runs at concrete
-- inputs. Match (internal/domain/match): Match/Game is game.go, Match/BukDestination and
-- Match/Buk are buk_movement.go, Match/Resolution is resolution.go and Match/Movement is
-- ordinary_movement.go and backdo_movement.go; Match/Runs makes movements in order, those that
-- are refused included. The planners of a match are the graph of the board, the implementation
-- of their interfaces that the server passes. Room/Lobby and Room/StartConfirmation: lobby.go
-- and start_confirmation.go, where a map of players is a list with one entry for each, and
-- Prelude/Sort sorts identifiers as sort.Slice does. Cpu/Ranking and Cpu/Policy
-- (internal/domain/cpu): policy.go, which reads a match through a record of what its interface
-- offers; Cpu/Policy's `reader` is the game behind that interface. Flow (internal/application):
-- Flow/Runtime is the state of match_runtime.go with the fields of the room that the flow uses,
-- and the calls of the components below; Flow/Events the events; Flow/Candidates the moves
-- offered, match_events.go; Flow/Resolution and Flow/Tasks match_flow.go, where the two loops
-- that call each other, the automatic steps and the computer player's turn, are an argument
-- `go`; Flow/Builders what internal/protocol (match_events.go, room_events.go) checks before
-- it makes the message of an event; Flow/Sequences and Flow/Flush room_event_sequences.go and
-- event_tx.go; Flow/Commands the
-- commands and timers, each a step, and `play` any commands in order, each with the answers that
-- the world gives to it. Flow/Ledger is about what has been published: it names the order that
-- the published rows keep, and its modules follow the flush.
--
-- Numbers and fuel. The counts of the code are small and not negative, and are natural numbers
-- here: the total weight is 9999, a queue holds at most 32 tokens, and the spaces of a movement
-- are those of a throw. The loops are recursions on lists or on the number of spaces; the
-- searches for the shortest distance and for the reachable spaces take fuel for their rounds,
-- two more than the nodes of the graph: each space is queued once. A time is a natural number of
-- nanoseconds, in Flow of milliseconds. The loops of Flow take fuel, `run_task`: two computer
-- players without a delay between their actions play the match to its end in one call, so no
-- number bounds the rounds; what is shown of Flow holds for every number of them, and a run that
-- has used them up ends with an error of the model's own, `out_of_steps`. Distances are compared
-- from the largest integer of a machine of 64 bits, 9223372036854775807.
--
-- Not modelled: the mutexes (each method is one step), the source of random numbers (its answer
-- to each call is an argument), JSON and YAML, the titles and passwords of rooms
-- (internal/domain/room/creation.go, which counts graphemes by a library), the other checks of
-- Graph.Validate, and of internal/application the registry of rooms, the assembly of a match by
-- a shuffle, the retries after a failed append, and the presence of players; the answer of the
-- event store to an append, the clock and which players are connected are arguments. Outside
-- these, the encoding of the messages and the validation of those of the clients
-- (internal/protocol), the network, the accounts and the database.
pub mod Prelude
pub mod Domain
pub mod Room
pub mod Turn
pub mod Board
pub mod Yut
pub mod Match
pub mod Cpu
pub mod Flow
pub mod Examples
