-- ===== src/Converse.antt =====
-- backends/converse.py: the turn of the reference adapter over the SSE events of the reply, behind
-- the request, which is in Converse/Request.
pub mod Shape
pub mod Texts
pub mod Spoken
pub mod Request
use llm_middleman.Base.{
  ℕ, ◌+◌, Bool, true, false, not, ◌||◌, Option, none, some, List, [], ◌∷◌, ◌++◌, if◌then◌else◌,
  or_else, is_some, Text, codes, ◌is◌,
}
use llm_middleman.Base.Dict
use llm_middleman.Base.Dict.{Dict}
use llm_middleman.Base.Decimal.{decimal}
use llm_middleman.Json.{
  Json, obj, field, end, str, get, truthy, nonempty_str, object_or_empty, loads_json_object,
}
use llm_middleman.Error.{raised, backend_stream_error}
use llm_middleman.Fallible.{Result, ok, err}
use llm_middleman.Sse.{ServerSentEvent, async_iter_sse, max_line_bytes}
use llm_middleman.Stream.{
  Delta, role, content, Ending, finished, failed, Flow, go, leave, return, raise, run_events,
}
use llm_middleman.Backend.{
  Response, Reply, no_hook, post_checked, external_tool_call_delta, external_tool_result_delta,
  Trace, record_of, TurnEnd,
}

-- `payload.get("status", "ok")`
abbrev status_of : Dict Json → Json
status_of payload = or_else (Dict.get (codes "status") payload) (str (codes "ok"))

-- `status != "ok"`
abbrev is_bad_status : Json → Bool
is_bad_status (str t) = not (t is "ok")
is_bad_status _ = true

-- `_tool_activity_deltas`, from the index of the first payload on.
unfoldable pub tool_activity_deltas : ℕ → List (Dict Json) → List Delta
tool_activity_deltas index [] = []
tool_activity_deltas index (payload ∷ activity) =
    let minted = codes "converse-tool-" ++ decimal index in
    let call_id = or_else (nonempty_str (get (codes "id") payload)) minted in
    let name = or_else (nonempty_str (get (codes "tool") payload)) [] in
    let status = status_of payload in
    let result = obj (field (codes "status") status end) in
    external_tool_call_delta call_id name (object_or_empty (get (codes "args") payload))
    ∷ external_tool_result_delta call_id name result (is_bad_status status)
    ∷ tool_activity_deltas (index + 1) activity

pub record State : Type 0 where
  pub started : Bool
  pub pending_tools : List (Dict Json)
  pub late_tools : List (Dict Json)
  pub continue_conversation : Bool
  pub traced : List Trace

abbrev pub initial : State
initial = record {
  started = false;
  pending_tools = [];
  late_tools = [];
  continue_conversation = false;
  traced = [];
}

-- What is spoken first: the buffered tool activity, a role, and the text.
abbrev pub first_text : List (Dict Json) → Json → List Delta
first_text pending text = tool_activity_deltas 1 pending ++ role ∷ content text ∷ []

unfoldable pub on_text_delta : State → Dict Json → List Delta × Flow State
unfolding tool_activity_deltas
on_text_delta s payload =
    let delta = get (codes "delta") payload in
    if not (truthy delta)
    then ([], go s)
    else if s.started
    then (content delta ∷ [], go s)
    else (first_text s.pending_tools delta, go (record s { started = true; pending_tools = [] }))

unfoldable pub on_tool_activity : State → Dict Json → List Delta × Flow State
on_tool_activity s payload =
    if not (is_some (nonempty_str (get (codes "tool") payload)))
    then ([], go s)
    else if s.started
    then ([], go (record s { late_tools = s.late_tools ++ payload ∷ [] }))
    else ([], go (record s { pending_tools = s.pending_tools ++ payload ∷ [] }))

-- `if unplaced := …: chat_log.async_trace(…)`
abbrev trace_unplaced : List (Dict Json) → List Trace → List Trace
trace_unplaced [] traced = traced
trace_unplaced (p ∷ ps) traced = traced ++ record_of (codes "converse_tool_activity") (p ∷ ps) ∷ []

unfoldable pub end_turn : State → State
end_turn s = record s { traced = trace_unplaced (s.pending_tools ++ s.late_tools) s.traced }

-- The end of the turn, with the text of `done` if that is still to be spoken.
abbrev pub say_done : State → Option Text → List Delta × Flow State
say_done s none = ([], return (end_turn s))
say_done s (some text) =
    (first_text s.pending_tools (str text), return (end_turn (record s { pending_tools = [] })))

unfoldable pub on_done : State → Dict Json → List Delta × Flow State
unfolding tool_activity_deltas end_turn
on_done s payload =
    let asked = truthy (get (codes "continue_conversation") payload) in
    let s' = record s { continue_conversation = s.continue_conversation || asked } in
    say_done s' (if s.started then none else nonempty_str (get (codes "text") payload))

-- Which of the branches on `sse.event` is taken.
pub data Kind : Type 0 where
  text_delta tool_activity error done ignored : Kind

unfoldable pub kind_of : Text → Kind
kind_of event =
    if event is "text_delta"
    then text_delta
    else if event is "tool_activity"
    then tool_activity
    else if event is "error"
    then error
    else if event is "done"
    then done
    else ignored

-- A payload that is no object skips a delta or an activity, and is `{}` for an error or the end.
abbrev pub on_payload :
    (Dict Json → List Delta × Flow State) → State → Option (Dict Json) → List Delta × Flow State
on_payload f s none = ([], go s)
on_payload f s (some payload) = f payload

unfoldable pub on_kind : Kind → State → Option (Dict Json) → List Delta × Flow State
unfolding on_text_delta on_tool_activity on_done
on_kind text_delta s payload = on_payload (on_text_delta s) s payload
on_kind tool_activity s payload = on_payload (on_tool_activity s) s payload
on_kind error s payload = ([], raise (raised backend_stream_error) s)
on_kind done s payload = on_done s (or_else payload [])
on_kind ignored s payload = ([], go s)

module _ (loads : Text → Option Json) where
  unfoldable pub on_event : State → ServerSentEvent → List Delta × Flow State
  unfolding on_kind kind_of
  on_event s sse = on_kind (kind_of sse.event) s (loads_json_object loads sse.payload)

  -- The end of the stream without `done` is an error, and so is a transport failure on the way.
  abbrev pub end_of : List Delta × Flow State → TurnEnd
  end_of (out, flow) = elim flow [
    | go s ↦ record {
      deltas = out;
      ending = failed (raised backend_stream_error);
      traced = s.traced;
      continue_conversation = s.continue_conversation;
    }
    | leave s ↦ record {
      deltas = out;
      ending = failed (raised backend_stream_error);
      traced = s.traced;
      continue_conversation = s.continue_conversation;
    }
    | return s ↦ record {
      deltas = out;
      ending = finished;
      traced = s.traced;
      continue_conversation = s.continue_conversation;
    }
    | raise e s ↦ record {
      deltas = out;
      ending = failed e;
      traced = s.traced;
      continue_conversation = s.continue_conversation;
    }
  ]

  unfoldable pub run_turn : List ServerSentEvent → Ending → TurnEnd
  unfolding on_event
  run_turn events ending = end_of (run_events on_event initial events ending)

  abbrev pub on_posted : Result Response → TurnEnd
  on_posted (err e) = record {
    deltas = [];
    ending = failed e;
    traced = [];
    continue_conversation = false;
  }
  on_posted (ok r) = run_turn (async_iter_sse max_line_bytes r.chunks) r.ending

  -- `stream_turn` behind the request.
  unfoldable pub stream_turn : Reply → TurnEnd
  unfolding run_turn
  stream_turn reply = on_posted (post_checked backend_stream_error no_hook reply)
