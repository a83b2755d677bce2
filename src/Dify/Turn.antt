-- ===== src/Dify/Turn.antt =====
-- backends/dify.py: the stream of a turn (`_run_stream`), and the retry of a turn whose
-- conversation is gone (`stream_turn`). What is logged is not modelled.
use llm_middleman.Base.{
  Bool, true, false, ◌&&◌, ◌||◌, Option, none, some, List, [], ◌++◌, ◌==◌, if◌then◌else◌, or_else,
  is_some, Text, codes, ◌is◌,
}
use llm_middleman.Base.Dict.{Dict}
use llm_middleman.Json.{Json, get, as_str, nonempty_str, object_or_empty, loads_json_object}
use llm_middleman.Error.{
  Class, Exc, class_of, raised, backend_stream_error, backend_auth_error, backend_connection_error,
  conversation_gone,
}
use llm_middleman.Fallible.{Result, ok, err}
use llm_middleman.Sse.{ServerSentEvent, async_iter_sse, max_line_bytes}
use llm_middleman.Stream.{
  Delta, Ending, finished, failed, Flow, go, leave, return, raise, run_events,
}
use llm_middleman.Backend.{Response, Reply, is_auth_status, post_checked}
use llm_middleman.Url.{text_or}
use llm_middleman.Dify.{Maps, lookup, drop_session, is_stale_conversation}
use llm_middleman.Dify.Tools.{thought_tools, node_tool}
use llm_middleman.Dify.Run.{
  Run, Session, all_tool_deltas, and_go, capture, initial, on_content, on_message_end, on_node_tool,
  on_paused, on_replace, say_reasoning, think,
}

-- A run's deltas, its end, and the state behind it. A plain end of the stream is a dropped
-- connection.
pub record Ran : Type 0 where
  pub deltas : List Delta
  pub ending : Ending
  pub state : Run

abbrev pub is_gone : Class → Bool
is_gone conversation_gone = true
is_gone _ = false

abbrev pub gone : Ending → Bool
gone finished = false
gone (failed e) = is_gone (class_of e)

module _ (loads : Text → Option Json) (str_of : Json → Text) where
  abbrev pub on_named : Text → Dict Json → Run → List Delta × Flow Run
  on_named event payload s =
      if event is "error"
      then ([], raise (raised backend_stream_error) s)
      else if event is "message_end"
      then on_message_end payload s
      else if event is "workflow_paused"
      then on_paused payload s
      else if event is "message_replace"
      then and_go (on_replace payload s)
      else if event is "reasoning_chunk"
      then and_go (
          say_reasoning
            (nonempty_str (get (codes "reasoning") (object_or_empty (get (codes "data") payload))))
            s)
      else if event is "agent_thought"
      then and_go (all_tool_deltas (thought_tools loads str_of payload) s)
      else if event is "node_started" || event is "node_finished"
      then on_node_tool (node_tool loads str_of (event is "node_finished") payload) s
      else if event is "agent_message" || event is "message"
      then and_go (on_content (event is "agent_message") payload s)
      else ([], go s)

  -- The body of the loop over the events: the JSON names the event, the frame only where it does not.
  unfoldable pub on_event : Session → Option Text → Run → ServerSentEvent → List Delta × Flow Run
  unfolding capture on_message_end on_paused on_replace think all_tool_deltas on_content
  on_event session sent s sse =
      let payload = or_else (loads_json_object loads sse.payload) [] in
      on_named (or_else (as_str (get (codes "event") payload)) sse.event) payload
        (capture session sent payload s)

  abbrev detail_of : Response → Dict Json
  detail_of r = or_else (loads_json_object loads r.body_text) []

  -- `_on_error_status`
  unfoldable pub on_error_status : Option Text → Response → Option Exc
  on_error_status sent r =
      if is_auth_status r.status
      then some (raised backend_auth_error)
      else if is_some sent
          && is_stale_conversation r.status (get (codes "code") (detail_of r))
              (text_or str_of (codes "message") [] (detail_of r))
      then some (raised conversation_gone)
      else if r.status == 404
      then some (raised backend_connection_error)
      else none

  abbrev pub end_of : List Delta × Flow Run → Ran
  end_of (out, go s) = record {
    deltas = out;
    ending = failed (raised backend_stream_error);
    state = s;
  }
  end_of (out, leave s) = record {
    deltas = out;
    ending = failed (raised backend_stream_error);
    state = s;
  }
  end_of (out, return s) = record { deltas = out; ending = finished; state = s }
  end_of (out, raise e s) = record { deltas = out; ending = failed e; state = s }

  abbrev pub on_posted : Session → Option Text → Run → Result Response → Ran
  on_posted session sent s (err e) = record { deltas = []; ending = failed e; state = s }
  on_posted session sent s (ok r) =
      end_of
        (run_events (on_event session sent) s (async_iter_sse max_line_bytes r.chunks) r.ending)

  unfoldable pub run_stream : Session → Option Text → Run → Reply → Ran
  unfolding on_event on_error_status
  run_stream session sent s reply =
      on_posted session sent s (post_checked backend_connection_error (on_error_status sent) reply)

  -- A conversation that is gone is dropped, and the turn sent once more without one.
  abbrev pub retry_if : Bool → Session → Ran → Reply → Ran
  retry_if false session first again = first
  retry_if true session first again =
      let maps = drop_session session.session_key session.persist first.state.maps in
      let second =
        run_stream session none (initial first.state.task_id maps first.state.traced) again in
      record second { deltas = first.deltas ++ second.deltas }

  -- `stream_turn` behind the request body: what the server replies to the first request, and to the
  -- second one.
  unfoldable pub stream_turn : Session → Maps → Reply → Reply → Ran
  unfolding run_stream
  stream_turn session maps reply again =
      let (sent, maps') = lookup session.session_key session.persist session.legacy_key maps in
      let first = run_stream session sent (initial none maps' []) reply in
      retry_if (gone first.ending) session first again

  -- The task that is stopped: that of a turn that raised.
  unfoldable pub stopped_task : Ran → Option Text
  stopped_task r = elim r.ending [ finished ↦ none | failed e ↦ r.state.task_id ]
