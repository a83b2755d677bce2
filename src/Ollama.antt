-- ===== src/Ollama.antt =====
-- backends/ollama.py: the turn of the Ollama adapter over the lines of the reply. Its tool calls
-- are in Ollama/Calls, the request body is in Messages/Body, the model list in Models.
pub mod Calls
pub mod Shape
pub mod Turn
use llm_middleman.Base.{
  ℕ, String, Bool, true, false, ◌&&◌, ◌||◌, Option, none, some, List, [], ◌∷◌, ◌++◌, leb, ◌==◌,
  if◌then◌else◌, length, all, Bytes, Text, codes, ◌is◌,
}
use llm_middleman.Base.Int.{ℤ}
use llm_middleman.Base.Dict
use llm_middleman.Base.Dict.{Dict}
use llm_middleman.Json.{Json, null, str, get, truthy, as_int, json_object}
use llm_middleman.Error.{
  json_decode_error, backend_stream_error, backend_connection_error, Exc, raised, raised_from,
}
use llm_middleman.Fallible.{Result, ok, err, ◌>>=◌}
use llm_middleman.Ollama.Calls.{as_dict, tool_inputs}
use llm_middleman.Stream.{
  ToolInput, Delta, role, content, thinking, tool_calls, Ending, finished, failed, Flow, go, leave,
  return, raise, and_then, run_events,
}
use llm_middleman.Sse.{max_line_bytes}
use llm_middleman.Sse.Ndjson.{async_iter_lines}
use llm_middleman.Backend.{
  Trace, stats, finish_reason, TurnEnd, Response, Reply, no_hook, post_checked,
}
use llm_middleman.OpenAi.Calls.{iterate, int_or_zero}

-- `bytes.strip` leaves nothing.
abbrev is_space : ℕ → Bool
is_space c = c == b' ' || (leb 9 c && leb c 13)

unfoldable pub is_blank : Bytes → Bool
is_blank line = all is_space line

pub record State : Type 0 where
  pub role_emitted : Bool
  pub minted : ℕ
  pub traced : List Trace

abbrev pub initial : State
initial = record { role_emitted = false; minted = 0; traced = [] }

abbrev pub with_role : State → Delta → List Delta
with_role s d = if s.role_emitted then d ∷ [] else role ∷ d ∷ []

abbrev pub emitted : State → State
emitted s = record s { role_emitted = true }

-- `if value:` a role if none was sent, and the delta of the value.
abbrev pub say_if : (Json → Delta) → State → Json → List Delta × State
say_if delta s v = if truthy v then (with_role s (delta v), emitted s) else ([], s)

-- The thinking and the content of a message.
unfoldable pub say_message : State → Dict Json → List Delta × State
say_message s message =
    let (thought, s') = say_if thinking s (get (codes "thinking") message) in
    let (said, s'') = say_if content s' (get (codes "content") message) in (thought ++ said, s'')

abbrev pub str_is : Json → String → Bool
str_is (str t) s = t is s
str_is _ s = false

-- `json.loads` and `int` on a text; `json.loads` on a line of bytes, which may raise another error
-- than `JSONDecodeError`; the ids of `ulid_now`; and the text that Home Assistant reads where a call
-- has another value for its id or its name.
module _ (loads : Text → Option Json) (int_of_text : Text → Option ℤ)
    (loads_line : Bytes → Result Json) (ulid_now : ℕ → Text) (text_of : Json → Text) where
  -- The calls of a message: the role is sent before they are read.
  abbrev pub with_calls : State → Result (List ToolInput × ℕ) → List Delta × Flow State
  with_calls s (err e) = (if s.role_emitted then [] else role ∷ [], raise e (emitted s))
  with_calls s (ok (calls, minted)) =
      (with_role s (tool_calls calls), go (record (emitted s) { minted = minted }))

  unfoldable pub say_calls : State → Json → List Delta × Flow State
  unfolding tool_inputs
  say_calls s calls =
      if truthy calls
      then with_calls s (iterate calls >>= tool_inputs loads ulid_now text_of s.minted)
      else ([], go s)

  -- The token counts of the terminal object, if it has one of them.
  unfoldable pub count_tokens : Dict Json → Result (List Trace)
  count_tokens o =
      if Dict.contains (codes "prompt_eval_count") o || Dict.contains (codes "eval_count") o
      then (do
        input ← int_or_zero int_of_text (get (codes "prompt_eval_count") o)
        output ← int_or_zero int_of_text (get (codes "eval_count") o)
        ok (stats input (as_int (get (codes "prompt_eval_cached_count") o)) output none ∷ []))
      else ok []

  abbrev pub cut_off : Dict Json → List Trace
  cut_off o =
      if str_is (get (codes "done_reason") o) "length"
      then finish_reason (codes "length") ∷ []
      else []

  abbrev pub with_counts : State → Result (List Trace) → Flow State
  with_counts s (err e) = raise e s
  with_counts s (ok counts) = leave (record s { traced = s.traced ++ counts })

  -- `if obj.get("done"):` the trace, and the end of the loop.
  unfoldable pub end_if_done : State → Dict Json → Flow State
  unfolding count_tokens
  end_if_done s o =
      if truthy (get (codes "done") o)
      then with_counts (record s { traced = s.traced ++ cut_off o }) (count_tokens o)
      else go s

  -- What follows the calls of a message.
  abbrev pub say_rest : Dict Json → Dict Json → State → List Delta × Flow State
  say_rest o message s = let (said, s') = say_message s message in (said, end_if_done s' o)

  abbrev pub on_message : State → Dict Json → Result (Dict Json) → List Delta × Flow State
  on_message s o (err e) = ([], raise e s)
  on_message s o (ok message) =
      let (called, flow) = say_calls s (get (codes "tool_calls") message) in
      and_then called flow (say_rest o message)

  -- `obj.get("message") or {}`, on which `get` is called.
  abbrev pub message_of : Dict Json → Result (Dict Json)
  message_of o =
      let message = get (codes "message") o in if truthy message then as_dict message else ok []

  unfoldable pub on_object : State → Dict Json → List Delta × Flow State
  unfolding say_calls say_message end_if_done
  on_object s o = elim (get (codes "error") o) [
    | null ↦ on_message s o (message_of o)
    | error ↦ ([], raise (raised backend_stream_error) s)
  ]

  abbrev json_error : Exc → Exc
  json_error (raised json_decode_error) =
      raised_from backend_stream_error (raised json_decode_error)
  json_error e = e

  abbrev pub on_narrowed : State → Option (Dict Json) → List Delta × Flow State
  on_narrowed s none = ([], raise (raised backend_stream_error) s)
  on_narrowed s (some o) = on_object s o

  -- `_iter_ndjson`, on one line that is not blank.
  abbrev pub on_parsed : State → Result Json → List Delta × Flow State
  on_parsed s (err e) = ([], raise (json_error e) s)
  on_parsed s (ok v) = on_narrowed s (json_object v)

  unfoldable pub on_line : State → Bytes → List Delta × Flow State
  unfolding on_object is_blank
  on_line s line = if is_blank line then ([], go s) else on_parsed s (loads_line line)

  abbrev pub ended : List Delta → Ending → State → TurnEnd
  ended out ending s = record {
    deltas = out;
    ending = ending;
    traced = s.traced;
    continue_conversation = false;
  }

  -- The end of the stream without `done` ends the turn as `done` does.
  abbrev pub end_of : List Delta × Flow State → TurnEnd
  end_of (out, go s) = ended out finished s
  end_of (out, leave s) = ended out finished s
  end_of (out, return s) = ended out finished s
  end_of (out, raise e s) = ended out (failed e) s

  unfoldable pub run_turn : List Bytes → Ending → TurnEnd
  unfolding on_line
  run_turn lines ending = end_of (run_events on_line initial lines ending)

  abbrev pub completes : Ending → Bool
  completes finished = true
  completes (failed e) = false

  abbrev pub on_posted : Result Response → TurnEnd
  on_posted (err e) = ended [] (failed e) initial
  on_posted (ok r) =
      run_turn (async_iter_lines max_line_bytes (completes r.ending) r.chunks) r.ending

  -- `stream_turn` behind the building of the request.
  unfoldable pub stream_turn : Reply → TurnEnd
  unfolding run_turn
  stream_turn reply = on_posted (post_checked backend_connection_error no_hook reply)
