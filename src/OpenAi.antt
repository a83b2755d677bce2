-- ===== src/OpenAi.antt =====
-- backends/openai_compat.py: the turn of the OpenAI-compatible adapter over the SSE events of the
-- reply, behind the request. Its tool calls are in OpenAi/Calls.
pub mod Calls
pub mod Shape
pub mod Request
pub mod Turn
use llm_middleman.Base.{
  String, Bool, true, false, not, Option, none, some, List, [], ◌∷◌, ◌++◌, if◌then◌else◌, length,
  Text, codes, ◌is◌,
}
use llm_middleman.Base.Int.{ℤ}
use llm_middleman.Base.Dict
use llm_middleman.Base.Dict.{Dict}
use llm_middleman.Json.{
  Json, null, str, get, truthy, as_int, nonempty_str, json_object, object_or_empty,
}
use llm_middleman.Error.{raised, backend_stream_error, json_decode_error, attribute_error}
use llm_middleman.Fallible.{Result, ok, err, ◌>>=◌}
use llm_middleman.Sse.{ServerSentEvent}
use llm_middleman.OpenAi.Calls.{Slots, first_of_choices, take_fragments, int_or_zero, tool_inputs}
use llm_middleman.Stream.{
  ToolInput, Delta, role, content, thinking, tool_calls, Ending, finished, failed, Flow, go, leave,
  return, raise, run_events,
}
use llm_middleman.Backend.{Trace, stats, finish_reason, TurnEnd}

pub record State : Type 0 where
  pub role_sent : Bool
  pub slots : Slots
  pub usage : Option (Dict Json)
  pub truncated : Option Text

abbrev pub initial : State
initial = record { role_sent = false; slots = []; usage = none; truncated = none }

-- A role before the first delta.
abbrev pub with_role : State → Delta → List Delta
with_role s d = if s.role_sent then d ∷ [] else role ∷ d ∷ []

abbrev pub sent : State → State
sent s = record s { role_sent = true }

-- `delta.get("reasoning_content") or delta.get("reasoning")`, if it is a text.
unfoldable pub reasoning_of : Dict Json → Option Text
reasoning_of delta =
    let first = get (codes "reasoning_content") delta in
    nonempty_str (if truthy first then first else get (codes "reasoning") delta)

-- The refusal if there is one, else the content; `None` is not spoken.
unfoldable pub content_of : Dict Json → Option Json
content_of delta = elim (nonempty_str (get (codes "refusal") delta)) [
  | some refusal ↦ some (str refusal)
  | none ↦ elim (get (codes "content") delta) [ null ↦ none | other ↦ some other ]
]

unfoldable pub say_reasoning : State → Option Text → List Delta × State
say_reasoning s none = ([], s)
say_reasoning s (some t) = (with_role s (thinking (str t)), sent s)

unfoldable pub say_content : State → Option Json → List Delta × State
say_content s none = ([], s)
say_content s (some c) = (with_role s (content c), sent s)

abbrev text_is : Json → String → Bool
text_is (str t) s = t is s
text_is _ s = false

-- What `finish_reason` does: an error ends the turn, a cut is kept.
unfoldable pub finish : State → Json → Flow State
finish s reason =
    if text_is reason "error"
    then raise (raised backend_stream_error) s
    else if text_is reason "length"
    then go (record s { truncated = some (codes "length") })
    else if text_is reason "content_filter"
    then go (record s { truncated = some (codes "content_filter") })
    else go s

-- The spoken parts of a choice, behind its tool call fragments.
unfoldable pub speak_choice : State → Dict Json → Json → List Delta × Flow State
unfolding say_reasoning say_content finish
speak_choice s delta reason =
    let (thought, s') = say_reasoning s (reasoning_of delta) in
    let (said, s'') = say_content s' (content_of delta) in (thought ++ said, finish s'' reason)

-- Python's `json.loads` and `int(text)`, `none` for a `ValueError`.
module _ (loads : Text → Option Json) (int_of_text : Text → Option ℤ) where
  abbrev pub on_slots : State → Dict Json → Dict Json → Result Slots → List Delta × Flow State
  on_slots s c delta (err e) = ([], raise e s)
  on_slots s c delta (ok slots) =
      speak_choice (record s { slots = slots }) delta (get (codes "finish_reason") c)

  abbrev pub on_choice_dict : State → Option (Dict Json) → List Delta × Flow State
  on_choice_dict s none = ([], raise (raised attribute_error) s)
  on_choice_dict s (some c) =
      let delta = object_or_empty (get (codes "delta") c) in
      on_slots s c delta (take_fragments int_of_text s.slots (get (codes "tool_calls") delta))

  unfoldable pub on_choice : State → Json → List Delta × Flow State
  unfolding take_fragments speak_choice
  on_choice s choice = on_choice_dict s (json_object choice)

  -- `if (chunk_usage := …) is not None: usage = chunk_usage`
  abbrev pub keep_usage : State → Json → State
  keep_usage s v = elim (json_object v) [ some u ↦ record s { usage = some u } | none ↦ s ]

  abbrev pub on_first : State → Result Json → List Delta × Flow State
  on_first s (err e) = ([], raise e s)
  on_first s (ok choice) = on_choice s choice

  abbrev pub on_choices : State → Json → List Delta × Flow State
  on_choices s choices =
      if not (truthy choices) then ([], go s) else on_first s (first_of_choices choices)

  unfoldable pub on_chunk : State → Dict Json → List Delta × Flow State
  unfolding on_choice first_of_choices
  on_chunk s chunk = elim (get (codes "error") chunk) [
    | null ↦ on_choices (keep_usage s (get (codes "usage") chunk)) (get (codes "choices") chunk)
    | other ↦ ([], raise (raised backend_stream_error) s)
  ]

  abbrev pub on_loaded : State → Option Json → List Delta × Flow State
  on_loaded s none = ([], raise (raised json_decode_error) s)
  on_loaded s (some v) = on_chunk s (object_or_empty v)

  -- One SSE event: the sentinel payload leaves the loop.
  unfoldable pub on_event : State → ServerSentEvent → List Delta × Flow State
  unfolding on_chunk
  on_event s event =
      if event.payload is "[DONE]" then ([], leave s) else on_loaded s (loads event.payload)

  -- The token counts of the last usage seen, as they are traced.
  unfoldable pub usage_stats : Dict Json → Result Trace
  unfolding int_or_zero
  usage_stats usage = do
    input ← int_or_zero int_of_text (get (codes "prompt_tokens") usage)
    cached ←
        int_or_zero int_of_text (
          get (codes "cached_tokens") (object_or_empty (get (codes "prompt_tokens_details") usage)))
    output ← int_or_zero int_of_text (get (codes "completion_tokens") usage)
    ok (
        stats input (some cached) output (
          as_int (
            get (codes "reasoning_tokens")
              (object_or_empty (get (codes "completion_tokens_details") usage)))))

  -- `if tool_inputs:` a role if none was sent, and the calls.
  abbrev pub flush_calls : State → List ToolInput → List Delta
  flush_calls s [] = []
  flush_calls s (c ∷ cs) = with_role s (tool_calls (c ∷ cs))

  abbrev pub truncation : Option Text → List Trace
  truncation none = []
  truncation (some reason) = finish_reason reason ∷ []

  abbrev pub ended : List Delta → Ending → List Trace → TurnEnd
  ended out ending traced = record {
    deltas = out;
    ending = ending;
    traced = traced;
    continue_conversation = false;
  }

  abbrev pub with_stats : List Delta → List Delta → State → Result Trace → TurnEnd
  with_stats out flushed s (err e) = ended out (failed e) (truncation s.truncated)
  with_stats out flushed s (ok t) = ended flushed finished (truncation s.truncated ++ t ∷ [])

  abbrev pub with_usage : List Delta → List Delta → State → Option (Dict Json) → TurnEnd
  with_usage out flushed s none = ended flushed finished (truncation s.truncated)
  with_usage out flushed s (some usage) = with_stats out flushed s (usage_stats usage)

  -- Behind the loop.
  unfoldable pub after_stream : List Delta → State → TurnEnd
  unfolding usage_stats tool_inputs
  after_stream out s = with_usage out (out ++ flush_calls s (tool_inputs loads s.slots)) s s.usage

  abbrev pub end_of : List Delta × Flow State → TurnEnd
  end_of (out, go s) = after_stream out s
  end_of (out, leave s) = after_stream out s
  end_of (out, return s) = ended out finished []
  end_of (out, raise e s) = ended out (failed e) []

  -- `stream_turn` behind the request.
  unfoldable pub run_turn : List ServerSentEvent → Ending → TurnEnd
  unfolding on_event after_stream
  run_turn events ending = end_of (run_events on_event initial events ending)
