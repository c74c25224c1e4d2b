-- ===== src/Tests/Replays.antt =====
-- The replay store at concrete inputs.
use go_lab_tacacs_mcp.Api.Idempotency.{
  Outcome, ReplayStore, abandon_replay, begin_replay, conflict, find_replay, finish_replay, full,
  is_stale, new_replay_store, put_replay, replayed, started, sweep, waits,
}
use go_lab_tacacs_mcp.Api.Idempotency.Once.{
  IsEarly, IsReplay, ReplayStep, abandons, begins, finishes, handler_once, take_step, take_steps,
}
use go_lab_tacacs_mcp.Common.{
  All, List, Option, Result, [], arith, none, ok, refl, some, ℕ, ◌∷◌, ◌≡◌,
}
use go_lab_tacacs_mcp.Common.Bytes.{Bytes}
use go_lab_tacacs_mcp.Common.Text.{str_eq, text}

abbrev begun_store : ReplayStore ℕ
unfolding new_replay_store
begun_store = (begin_replay 5 new_replay_store (text "k1") (text "fp")).0

abbrev made_outcome : Outcome ℕ
made_outcome = record { revision = 7; encoded = some (1 ∷ 2 ∷ []); failure = none }

abbrev failed_outcome : Outcome ℕ
failed_outcome = record { revision = 0; encoded = none; failure = some (some 9) }

-- Another call begins, this one finishes, the other one panics.
abbrev some_steps : List (ReplayStep ℕ)
some_steps =
    begins 6 (text "k2") (text "fp")
    ∷ finishes 8 (text "k1") made_outcome
    ∷ abandons 9 (text "k2")
    ∷ []

abbrev after_steps : ReplayStore ℕ
after_steps = take_steps 503 (begin_replay 5 new_replay_store (text "k1") (text "fp")).0 some_steps

begins_once : (begin_replay 5 (new_replay_store {C = ℕ}) (text "k1") (text "fp")).1 ≡ started
unfolding begin_replay new_replay_store find_replay sweep
begins_once = refl

some_steps-IsEarly :
    All (IsEarly 600000000008 (new_replay_store {C = ℕ}).ttl (text "k1")) some_steps
unfolding new_replay_store
some_steps-IsEarly = (omega arith, ((λ _. omega arith), ((λ _. omega arith), tt)))

handler_once_example :
    IsReplay (text "fp") (text "other") (begin_replay 700 after_steps (text "k1") (text "other")).1
handler_once_example =
    handler_once 503 5 600000000008 700 new_replay_store (text "k1") (text "fp") (text "other")
      some_steps begins_once some_steps-IsEarly (omega arith)

-- The result of the first call is given again.
replays_result : Option (Result ℕ (ℕ × Bytes))
replays_result = elim (begin_replay 700 after_steps (text "k1") (text "fp")).1 [
  | waits e ↦ some (replayed e)
  | conflict ↦ none
  | full ↦ none
  | started ↦ none
]

result_given : replays_result ≡ some (ok (7, 1 ∷ 2 ∷ []))
unfolding replays_result begin_replay find_replay sweep take_steps take_step abandon_replay
    finish_replay new_replay_store is_stale str_eq put_replay replayed
result_given = refl
