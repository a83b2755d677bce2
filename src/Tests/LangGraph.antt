-- ===== src/Tests/LangGraph.antt =====
-- The LangGraph adapter at concrete inputs.
use llm_middleman.Base.{
  ◌≡◌, refl, true, false, Option, none, some, [], ◌∷◌, ◌++◌, if◌then◌else◌, Text, codes, text_eq,
  ◌is◌, starts_with,
}
use llm_middleman.Base.Dict
use llm_middleman.Base.Dict.{Dict}
use llm_middleman.Json.{Json, bool, str, arr, obj, to_fields, to_items}
use llm_middleman.Fallible.{Result, ok}
use llm_middleman.Stream.{role, content, finished, run_events}
use llm_middleman.Backend.{Response, Reply, answer, post_checked}
use llm_middleman.Sse
use llm_middleman.LangGraph.Marks
use llm_middleman.LangGraph.Frames
use llm_middleman.LangGraph.Marks.{Pending, mark_pending_resume, take_mark}
use llm_middleman.LangGraph.Marks.Refine.{
  interrupted, taken, restarted, Waiting, step, spec_step, run_all, run-refines,
}
use llm_middleman.LangGraph.{run_stream}
use llm_middleman.LangGraph.Turns.{Adapter, Turn, Session, stream_turn}
use llm_middleman.LangGraph.Shape.{EndsSpoken, run_stream-EndsSpoken}
use llm_middleman.LangGraph.Resume.{stream_turn-resumed}

-- A parser that knows two documents: the frame of a message, and an update with an interrupt.
abbrev loads : Text → Option Json
loads t =
    if t is "hi"
    then some (
        arr (
          to_items (
            obj (
              to_fields (
                (codes "type", str (codes "AIMessageChunk"))
                ∷ (codes "content", str (codes "Hi"))
                ∷ []))
            ∷ obj (to_fields [])
            ∷ [])))
    else if t is "ask"
    then some (
        obj (
          to_fields (
            (
              codes "__interrupt__",
              arr (to_items (obj (to_fields ((codes "value", str (codes "Which?")) ∷ [])) ∷ [])),
            )
            ∷ [])))
    else none

abbrev streamed : Text → Reply
streamed t =
    answer (record {
      status = 200;
      body_text = [];
      content_type = [];
      chunks = t ∷ [];
      ending = finished;
    })

abbrev asking : Reply
asking = streamed (
    codes "event: messages"
    ++ b'\n' ∷ codes "data: hi"
    ++ b'\n' ∷ b'\n' ∷ codes "event: updates"
    ++ b'\n' ∷ codes "data: ask"
    ++ b'\n' ∷ b'\n' ∷ [])

run_stream-EndsSpoken_example :
    EndsSpoken
      (run_stream loads [] (codes "messages") asking).0.deltas
      (run_stream loads [] (codes "messages") asking).0.ending
run_stream-EndsSpoken_example = run_stream-EndsSpoken loads [] (codes "messages") asking

abbrev uuid5 : Text → Text
uuid5 t = t

abbrev response_json : Response → Result Json
response_json r = ok (obj (to_fields ((codes "interrupts", arr (to_items (bool true ∷ []))) ∷ [])))

abbrev session : Session
session = record {
  stateless = false;
  persist = true;
  memory_key = codes "kitchen";
  legacy_memory_key = none;
}

abbrev adapter : Adapter
adapter = record {
  threads = record { legacy = none; stored_map = [] };
  pending = record { marks = none; stored = [] };
  last_run_id = none;
}

abbrev turn : Adapter → Reply → Reply → Turn
turn a looked_up reply =
    stream_turn uuid5 response_json (codes "e") loads [] (codes "messages") session a looked_up
      reply

asking_run :
    (run_stream loads [] (codes "messages") asking).0.deltas
    ≡ role ∷ content (str (codes "Hi")) ∷ content (str (codes "Which?")) ∷ []
unfolding run_stream post_checked run_events Sse.async_iter_sse Sse.end_line text_eq
    Frames.parse_messages_frame Sse.join_lines Dict.get Frames.parse_updates_frame
    Frames.interrupt_text
asking_run = refl

asking_end :
    ((turn adapter asking asking).result.ending ≡ finished)
    × ((turn adapter asking asking).result.continue_conversation ≡ true)
unfolding stream_turn Marks.take_pending_resume Dict.get Marks.from_keys post_checked run_events
    Sse.async_iter_sse Sse.end_line text_eq Frames.parse_messages_frame Sse.join_lines
    Frames.parse_updates_frame
asking_end = (refl, refl)

stream_turn-resumed_example :
    (turn (turn adapter asking asking).adapter (streamed []) asking).resumed ≡ true
unfolding Marks.still_interrupted Dict.get text_eq
stream_turn-resumed_example =
    stream_turn-resumed uuid5 response_json (codes "e") loads [] (codes "messages") session adapter
      asking asking (streamed []) asking refl asking_end.0 asking_end.1

-- The threads whose id starts with a `d` are persisted.
abbrev scope : Waiting
scope t = starts_with (codes "d") t

abbrev no_marks : Pending
no_marks = record { marks = none; stored = [] }

run-refines_example :
    ((run_all
        (step scope)
        (interrupted (codes "d1")
          ∷ interrupted (codes "c1")
          ∷ restarted
          ∷ taken (codes "d1")
          ∷ taken (codes "c1")
          ∷ taken (codes "d1")
          ∷ [])
        no_marks).0
      ≡ (run_all
          (spec_step scope)
          (interrupted (codes "d1")
            ∷ interrupted (codes "c1")
            ∷ restarted
            ∷ taken (codes "d1")
            ∷ taken (codes "c1")
            ∷ taken (codes "d1")
            ∷ [])
          (λ t. false)).0)
unfolding Marks.from_keys Dict.get
run-refines_example = (run-refines scope _ no_marks (λ t. false) (tt, λ t. refl, λ t. refl)).0

marks_run :
    (run_all
      (step scope)
      (interrupted (codes "d1")
        ∷ interrupted (codes "c1")
        ∷ restarted
        ∷ taken (codes "d1")
        ∷ taken (codes "c1")
        ∷ taken (codes "d1")
        ∷ [])
      no_marks).0
    ≡ true ∷ false ∷ false ∷ []
unfolding run_all mark_pending_resume take_mark Dict.get Marks.from_keys starts_with
    Marks.persisted_ids Dict.set text_eq Dict.pop
marks_run = refl
