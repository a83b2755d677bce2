-- ===== src/LangGraph.antt =====
-- backends/langgraph.py: the stream of a run (`_run_stream`). The frames are in LangGraph/Frames, the
-- marks and the thread map in LangGraph/Marks, the turn in LangGraph/Turns, its request in
-- LangGraph/Request, the connection probe in LangGraph/Probe. What is logged is not modelled.
pub mod Frames
pub mod Marks
pub mod Request
pub mod Shape
pub mod Probe
pub mod Turns
pub mod Resume
use llm_middleman.Base.{
  Bool, true, false, not, ◌||◌, Option, none, some, List, [], ◌∷◌, ◌++◌, map, if◌then◌else◌, Text,
  codes, text_eq, ◌is◌, starts_with,
}
use llm_middleman.Base.Int.{ℤ, pos, ◌+ℤ◌}
use llm_middleman.Base.Dict.{Dict}
use llm_middleman.Json.{Json, str, get, as_str, object_or_empty}
use llm_middleman.Error.{raised, backend_stream_error}
use llm_middleman.Fallible.{Result, ok, err}
use llm_middleman.Sse.{ServerSentEvent, async_iter_sse, max_line_bytes}
use llm_middleman.Stream.{
  Delta, role, content, Ending, finished, failed, Flow, go, leave, return, raise, run_events,
}
use llm_middleman.Backend.{
  Response, Reply, no_hook, post_checked, Trace, stats, TurnEnd, external_tool_call_delta,
  external_tool_result_delta,
}
use llm_middleman.LangGraph.Frames.{
  Updates, interrupt_text, parse_messages_frame, parse_updates_frame,
}

-- `_RunState` and the local variables of `_run_stream`; `interrupted` is also what it sets
-- `ctx.continue_conversation` to.
pub record Run : Type 0 where
  pub run_id : Option Text
  pub finished_run : Bool
  pub interrupted : Bool
  pub block_open : Bool
  pub needs_reply : Bool
  pub input_tokens : ℤ
  pub output_tokens : ℤ
  pub has_usage : Bool

abbrev pub initial : Run
initial = record {
  run_id = none;
  finished_run = false;
  interrupted = false;
  block_open = false;
  needs_reply = false;
  input_tokens = pos 0;
  output_tokens = pos 0;
  has_usage = false;
}

abbrev pub add_usage : Updates → Run → Run
add_usage u s =
    if u.has_usage
    then record s {
      input_tokens = s.input_tokens +ℤ u.input_tokens;
      output_tokens = s.output_tokens +ℤ u.output_tokens;
      has_usage = true;
    }
    else s

abbrev pub call_delta : Text × Text × Dict Json → Delta
call_delta (call_id, name, args) = external_tool_call_delta call_id name args

abbrev pub result_delta : Text × Text × Json × Bool → Delta
result_delta (call_id, name, result, error) = external_tool_result_delta call_id name result error

-- Tool activity closes the block.
abbrev pub after_tools : List Delta → Run → Run
after_tools [] s = s
after_tools (d ∷ ds) s = record s { block_open = false; needs_reply = true }

-- `yield {"role": "assistant"}` unless a block is open, and the text.
unfoldable pub speak : Text → Run → List Delta × Run
speak text s = (
  if s.block_open then content (str text) ∷ [] else role ∷ content (str text) ∷ [],
  record s { block_open = true; needs_reply = false },
)

abbrev pub ask : Updates → Run → List Delta × Run
ask u s =
    if u.interrupted
    then speak (interrupt_text u.interrupt) (record s { interrupted = true })
    else ([], s)

-- An `updates` frame: the finished calls, the results, and an interrupt.
unfoldable pub on_update : Run → Updates → List Delta × Run
unfolding speak
on_update s u =
    let tools = map call_delta u.tool_calls ++ map result_delta u.tool_results in
    let (out, s') = ask u (after_tools tools (add_usage u s)) in (tools ++ out, s')

abbrev pub on_updates : Run → Result Updates → List Delta × Flow Run
on_updates s (err e) = ([], raise e s)
on_updates s (ok u) = let (out, s') = on_update s u in (out, go s')

abbrev keep_run_id : Run → Option Text → Run
keep_run_id s none = s
keep_run_id s (some id) = record s { run_id = some id }

-- `node_filter and node != node_filter`
abbrev filtered_out : Text → Option Text → Bool
filtered_out [] place = false
filtered_out (c ∷ cs) none = true
filtered_out (c ∷ cs) (some place) = not (text_eq place (c ∷ cs))

abbrev pub on_text : Text → Run → Option Text × Option Text → List Delta × Run
on_text node_filter s (none, place) = ([], s)
on_text node_filter s (some text, place) =
    if filtered_out node_filter place then ([], s) else speak text s

abbrev pub on_message_frame :
    Text → Run → Result (Option Text × Option Text) → List Delta × Flow Run
on_message_frame node_filter s (err e) = ([], raise e s)
on_message_frame node_filter s (ok frame) =
    let (out, s') = on_text node_filter s frame in (out, go s')

module _ (loads : Text → Option Json) (node_filter messages_key : Text) where
  -- The body of the loop over the events.
  unfoldable pub on_event : Run → ServerSentEvent → List Delta × Flow Run
  unfolding on_update
  on_event s event =
      if event.event is "error"
      then ([], raise (raised backend_stream_error) s)
      else if event.event is "metadata"
      then (
        [],
        go (
            keep_run_id s (
              as_str (
                get (codes "run_id")
                  (elim (loads event.payload) [ none ↦ [] | some v ↦ object_or_empty v ])))),
      )
      else if event.event is "updates"
      then on_updates s (parse_updates_frame loads event.payload messages_key)
      else if event.event is "messages" || starts_with (codes "messages/") event.event
      then on_message_frame node_filter s (parse_messages_frame loads event.payload)
      else ([], go s)

  abbrev pub usage : Run → List Trace
  usage s = if s.has_usage then stats s.input_tokens none s.output_tokens none ∷ [] else []

  abbrev pub ended : List Delta → Ending → List Trace → Run → TurnEnd × Run
  ended out ending traced s = (
    record {
      deltas = out;
      ending = ending;
      traced = traced;
      continue_conversation = s.interrupted;
    },
    s,
  )

  -- The end of the stream: a run that used tools and said nothing behind them is an error.
  abbrev pub after_stream : List Delta → Run → TurnEnd × Run
  after_stream out s =
      ended out (if s.needs_reply then failed (raised backend_stream_error) else finished) (usage s)
        (record s { finished_run = true })

  abbrev pub end_of : List Delta × Flow Run → TurnEnd × Run
  end_of (out, go s) = after_stream out s
  end_of (out, leave s) = after_stream out s
  end_of (out, return s) = ended out finished [] s
  end_of (out, raise e s) = ended out (failed e) [] s

  abbrev pub on_posted : Result Response → TurnEnd × Run
  on_posted (err e) = ended [] (failed e) [] initial
  on_posted (ok r) =
      end_of (run_events on_event initial (async_iter_sse max_line_bytes r.chunks) r.ending)

  unfoldable pub run_stream : Reply → TurnEnd × Run
  unfolding on_event
  run_stream reply = on_posted (post_checked backend_stream_error no_hook reply)
