-- ===== src/Dify/Shape.antt =====
-- What a Dify turn may yield, as an automaton that reads its deltas.
pub mod Steps
pub mod Turns
use llm_middleman.Base.{
  ◌≡◌, Bool, true, false, not, ◌&&◌, Option, none, some, List, [], ◌∷◌, if◌then◌else◌, is_some,
  Text,
}
use llm_middleman.Json.{truthy}
use llm_middleman.Dify.Run.{has_id}
use llm_middleman.Dify.Turn.{is_gone}
use llm_middleman.Stream.{
  Delta, role, content, thinking, tool_calls, external_call, tool_result, Ending, finished, failed,
}
use llm_middleman.Stream.Scan.{scan, EndsIn}
use llm_middleman.Backend.{Response, Reply, no_response, answer}
use llm_middleman.Error.{Exc, class_of}
use llm_middleman.Fallible.{Result, ok, err}

-- An error that is not the adapter's own `_ConversationGone`, which no other code raises.
abbrev pub IsOther : Exc → Type 0
IsOther e = is_gone (class_of e) ≡ false

-- What the deltas so far have left: whether a block is open, whether tool activity came behind the
-- last reply text, and the ids of the calls and of the results.
pub record Tally : Type 0 where
  pub open_block : Bool
  pub waits : Bool
  pub calls : List Text
  pub results : List Text

-- A text is not empty and continues an open block; a call has a new id; a result is the first one of an earlier call.
abbrev pub act : Tally → Delta → Option Tally
act x role = some (record x { open_block = true })
act x (content c) = if x.open_block && truthy c then some (record x { waits = false }) else none
act x (thinking _) = if x.open_block then some x else none
act x (tool_calls _) = none
act x (external_call i) =
    if has_id i.id x.calls
    then none
    else some (record x { open_block = false; waits = true; calls = i.id ∷ x.calls })
act x (tool_result id _ _ _) =
    if has_id id x.calls && not (has_id id x.results)
    then some (record x { open_block = false; waits = true; results = id ∷ x.results })
    else none

-- Nothing is open or owed, and no tool was used.
abbrev pub fresh : Tally
fresh = record { open_block = false; waits = false; calls = []; results = [] }

abbrev pub waits_of : Option Tally → Option Bool
waits_of none = none
waits_of (some x) = some x.waits

-- The deltas of a turn are in place; and one that completes has reply text behind its tool activity.
abbrev pub IsProper : List Delta → Ending → Type 0
IsProper ds finished = waits_of (scan act fresh ds) ≡ some false
IsProper ds (failed e) = is_some (scan act fresh ds) ≡ true

-- The response's stream does not fail with the adapter's own exception.
abbrev pub PostedOutside : Result Response → Type 0
PostedOutside (err e) = Unit
PostedOutside (ok r) = EndsIn IsOther r.ending

-- The same of a reply: aiohttp does not raise it.
abbrev pub FailsOutside : Reply → Type 0
FailsOutside (no_response e) = Unit
FailsOutside (answer r) = EndsIn IsOther r.ending
