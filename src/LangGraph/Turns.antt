-- ===== src/LangGraph/Turns.antt =====
-- backends/langgraph.py: a turn around the stream of its run (`stream_turn`), with the marks of the
-- threads that wait for an answer, and the cancel of a run that is abandoned.
use llm_middleman.Base.{Bool, true, false, not, ◌&&◌, Option, none, some, [], if◌then◌else◌, Text}
use llm_middleman.Json.{Json}
use llm_middleman.Error.{Class, cancelled_error, is_transport_error, class_of}
use llm_middleman.Fallible.{Result, ok, err}
use llm_middleman.Stream.{Ending, finished, failed}
use llm_middleman.Backend.{Response, Reply, TurnEnd}
use llm_middleman.LangGraph.Marks.{
  Pending, ThreadMap, mark_pending_resume, take_pending_resume, thread_id_of,
}
use llm_middleman.LangGraph.{Run, run_stream}

-- The errors that make the adapter stop the run on the server.
abbrev pub is_abandoned : Class → Bool
is_abandoned cancelled_error = true
is_abandoned c = is_transport_error c

-- The thread and the run that `_fire_cancel` is called with, if it is.
unfoldable pub cancel_of : Option Text → Run → Ending → Option (Text × Text)
cancel_of (some thread_id) s (failed e) =
    if is_abandoned (class_of e) && not s.finished_run
    then elim s.run_id [ none ↦ none | some run_id ↦ some (thread_id, run_id) ]
    else none
cancel_of _ s ending = none

-- What the adapter holds between turns.
pub record Adapter : Type 0 where
  pub threads : ThreadMap
  pub pending : Pending
  pub last_run_id : Option Text

-- A turn that has run: what it yielded, the adapter behind it, the thread that it was on, whether it
-- was a resumption, and the run that it cancelled.
pub record Turn : Type 0 where
  pub result : TurnEnd
  pub adapter : Adapter
  pub thread : Option Text
  pub resumed : Bool
  pub cancelled : Option (Text × Text)

abbrev pub mark_if : Text → Bool → Bool → Ending → Pending → Pending
mark_if thread_id persist true finished p = mark_pending_resume thread_id persist p
mark_if thread_id persist asked ending p = p

-- What a turn asks for: a stateless run, or one on the thread of a session.
pub record Session : Type 0 where
  pub stateless : Bool
  pub persist : Bool
  pub memory_key : Text
  pub legacy_memory_key : Option Text

abbrev pub keep_last : Option Text → Adapter → Adapter
keep_last o a = record a { last_run_id = elim o [ none ↦ a.last_run_id | some id ↦ some id ] }

-- A run on a thread, behind the thread's lookup.
module _ (uuid5 : Text → Text) (response_json : Response → Result Json) (entry_key : Text)
    (loads : Text → Option Json) (node_filter messages_key : Text) where
  abbrev pub run_on : Text → Bool → Adapter → Result Bool → Reply → Turn
  run_on thread_id persist a (err e) reply = record {
    result = record { deltas = []; ending = failed e; traced = []; continue_conversation = false };
    adapter = a;
    thread = some thread_id;
    resumed = false;
    cancelled = none;
  }
  run_on thread_id persist a (ok resume) reply =
      let (t, s) = run_stream loads node_filter messages_key reply in
      record {
        result = t;
        adapter =
            keep_last s.run_id
              (record a { pending = mark_if thread_id persist s.interrupted t.ending a.pending });
        thread = some thread_id;
        resumed = resume;
        cancelled = cancel_of (some thread_id) s t.ending;
      }

  -- `stream_turn`: `looked_up` answers the request for the thread, `reply` the run.
  unfoldable pub stream_turn : Session → Adapter → Reply → Reply → Turn
  unfolding run_stream cancel_of
  stream_turn session a looked_up reply =
      let (t, s) = run_stream loads node_filter messages_key reply in
      let (thread_id, threads) =
        thread_id_of uuid5 entry_key session.memory_key session.legacy_memory_key a.threads in
      let (resume, pending) = take_pending_resume response_json thread_id a.pending looked_up in
      if session.stateless
      then record {
        result = t;
        adapter = keep_last s.run_id a;
        thread = none;
        resumed = false;
        cancelled = none;
      }
      else run_on thread_id session.persist (record a { threads = threads; pending = pending })
          resume reply
