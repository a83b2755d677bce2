-- ===== src/Tests/State.antt =====
-- Histories, contents and connections at concrete inputs.
use llm_middleman.Base.{
  ℕ, ◌+◌, ◌-◌, ◌*◌, ◌≤◌, String, ◌≡◌, refl, Bool, true, false, Option, none, some, List, [], ◌∷◌,
  ◌++◌, arith, ltb, length, drop, all, codes, text_eq,
}
use llm_middleman.Base.Dict.{get}
use llm_middleman.Json.{str}
use llm_middleman.Error.{
  Exc, raised, raised_from, client_connection_error, backend_connection_error,
}
use llm_middleman.Fallible.{ok}
use llm_middleman.Stream.{ToolInput}
use llm_middleman.History.{Message, trim_history, count_users, has_role, system_head, slice_from}
use llm_middleman.History.Window.{length-trim_history}
use llm_middleman.History.Short.{trim_history_short, trim_history_twice}
use llm_middleman.Replay.{
  Content, user, assistant, tool_result, replayable_content, mem_text, external_ids, replay_item,
  replay_from,
}
use llm_middleman.Replay.Laws.{replayable_content-clean, replayable_content-result, is_clean}
use llm_middleman.Reachability.{
  Outcome, reached, failure, new_connection, is_unreachable, record_outcomes,
}
use llm_middleman.Reachability.Laws.{record_outcomes_lem}
use llm_middleman.ToolLoop.{async_run_tool_loop, run_rounds}
use llm_middleman.ToolLoop.Laws.{async_run_tool_loop-Ended, Ended, counted}

abbrev message : String → Message
message r = (codes "role", str (codes r)) ∷ []

-- The system prompt, two rounds, and the user's turn.
abbrev rounds : List Message
rounds =
    message "system"
    ∷ message "user"
    ∷ message "assistant"
    ∷ message "user"
    ∷ message "assistant"
    ∷ message "user"
    ∷ []

-- Turns that were not answered.
abbrev unanswered : List Message
unanswered = message "user" ∷ message "user" ∷ message "user" ∷ []

trim_history_run : trim_history rounds 1 ≡ message "system" ∷ drop 3 rounds
unfolding trim_history count_users has_role text_eq get system_head slice_from
trim_history_run = refl

length-trim_history_example : length (trim_history rounds 1) ≤ 4
unfolding count_users has_role text_eq get
length-trim_history_example = length-trim_history rounds 1 (omega arith) (omega arith)

-- Four messages, of which two are kept, though the window has room for five.
trim_history_short_example :
    (trim_history (message "system" ∷ unanswered) 2
      ≡ system_head (message "system" ∷ unanswered)
        ++ drop (2 * 4 - (2 * 2 + 1)) (message "system" ∷ unanswered))
    × (length (drop (2 * 4 - (2 * 2 + 1)) (message "system" ∷ unanswered)) ≤ 2)
unfolding count_users has_role text_eq get
trim_history_short_example =
    trim_history_short (message "system" ∷ unanswered) 2 (omega arith) (omega arith) (omega arith)

trim_history_short_run :
    trim_history (message "system" ∷ unanswered) 2 ≡ message "system" ∷ message "user" ∷ []
unfolding trim_history count_users has_role text_eq get system_head slice_from
trim_history_short_run = refl

trim_history_twice_example :
    trim_history (message "system" ∷ message "user" ∷ message "user" ∷ []) 1
    ≡ message "system" ∷ message "system" ∷ message "user" ∷ message "user" ∷ []
unfolding count_users has_role text_eq get
trim_history_twice_example =
    trim_history_twice (message "system") (message "user" ∷ message "user" ∷ []) 1 (omega arith)
      (omega arith) refl refl

abbrev call : String → Bool → ToolInput
call i e = record { id = codes i; tool_name = codes "light.on"; tool_args = []; external = e }

-- An assistant's text with a call of each kind, and their results.
abbrev log : List Content
log =
    user (codes "on") []
    ∷ assistant (some (codes "ok")) none (some (call "1" true ∷ call "2" false ∷ []))
    ∷ tool_result (codes "1") (codes "light.on") [] false
    ∷ []

replayable_content_run :
    replayable_content (log ++ tool_result (codes "2") (codes "light.on") [] false ∷ [])
    ≡ user (codes "on") []
      ∷ assistant (some (codes "ok")) none (some (call "2" false ∷ []))
      ∷ tool_result (codes "2") (codes "light.on") [] false
      ∷ []
unfolding replayable_content external_ids mem_text text_eq replay_item replay_from
replayable_content_run = refl

replayable_content-clean_example :
    (all is_clean (replayable_content log) ≡ true)
    × (replayable_content (replayable_content log) ≡ replayable_content log)
replayable_content-clean_example = replayable_content-clean log

replayable_content-result_example :
    (rest : List Content) × (replayable_content (log ++ user (codes "thanks") [] ∷ [])
      ≡ replayable_content log ++ rest)
    × (replayable_content (
          log
          ++ tool_result (codes "2") (codes "light.on") [] false ∷ user (codes "thanks") [] ∷ [])
        ≡ replayable_content log ++ tool_result (codes "2") (codes "light.on") [] false ∷ rest)
unfolding external_ids mem_text text_eq
replayable_content-result_example =
    replayable_content-result log (codes "2") (codes "light.on") [] false
      (user (codes "thanks") [] ∷ [])

-- A connection failure, as an adapter raises it.
abbrev unreachable : Exc
unreachable = raised_from backend_connection_error (raised client_connection_error)

abbrev outcomes : List Outcome
outcomes = reached ∷ failure unreachable ∷ failure unreachable ∷ failure unreachable ∷ []

record_outcomes_example :
    ((record_outcomes new_connection outcomes).unreachable_turns ≡ 3)
    × ((record_outcomes new_connection outcomes).available ≡ false)
    × ((record_outcomes new_connection outcomes).issue ≡ true)
unfolding is_unreachable
record_outcomes_example = record_outcomes_lem outcomes

-- A round-trip that calls tools twice, and then answers.
abbrev three_rounds : ℕ → ℕ × Option Exc
three_rounds n = (n + 1, none)

async_run_tool_loop-Ended_example :
    Ended three_rounds
      (λ n. ltb n 3)
      0
      10
      (async_run_tool_loop (counted three_rounds (λ n. ltb n 3)) (λ p. ltb p.1 3) (0, 0))
async_run_tool_loop-Ended_example = async_run_tool_loop-Ended three_rounds (λ n. ltb n 3) 0

async_run_tool_loop_run : async_run_tool_loop three_rounds (λ n. ltb n 3) 0 ≡ (3, ok true)
unfolding async_run_tool_loop run_rounds
async_run_tool_loop_run = refl

async_run_tool_loop_capped : async_run_tool_loop three_rounds (λ n. true) 0 ≡ (10, ok false)
unfolding async_run_tool_loop run_rounds
async_run_tool_loop_capped = refl
