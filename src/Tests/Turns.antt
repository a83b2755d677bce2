-- ===== src/Tests/Turns.antt =====
-- Turns at concrete inputs.
use llm_middleman.Base.{
  String, ◌≡◌, refl, Bool, true, false, not, ◌&&◌, Option, none, some, List, [], ◌∷◌, if◌then◌else◌,
  is_some, Text, codes, text_eq, ◌is◌,
}
use llm_middleman.Base.Int.{ℤ}
use llm_middleman.Base.Dict.{get}
use llm_middleman.Json.{Json, str, obj, arr, nil, item, field, end}
use llm_middleman.Error.{
  Exc, cancelled_error, raised, backend_stream_error, client_connection_error,
}
use llm_middleman.Stream.{
  run_events, ToolInput, Ending, Delta, role, content, tool_calls, tool_result, Deltas, finished,
  failed,
}
use llm_middleman.Stream.Laws.{run_block, ends_spoken}
use llm_middleman.Sse.{ServerSentEvent}
use llm_middleman.Reachability.{new_connection}
use llm_middleman.Conversation
use llm_middleman.Conversation.{
  pass_deltas, ChatLogApi, answered, Adapter, guarded, async_handle_message,
}
use llm_middleman.Conversation.Guard.{adds_last, is_failed, guarded_lem}
use llm_middleman.Conversation.Handle.{KeepsRoles, Speaks, async_handle_message_once}
use llm_middleman.Backend.{Response, no_response, probe_json}
use llm_middleman.Backend.Probe.{Probes, probe_json-Probes}
use llm_middleman.Converse
use llm_middleman.Converse.Texts.{spoken}
use llm_middleman.Converse.Spoken.{run_turn-texts}
use llm_middleman.Converse.Shape.{run_turn-ends_spoken}
use llm_middleman.OpenAi

abbrev hello : Delta
hello = content (str (codes "Hello"))

-- A stream that breaks off behind a text.
abbrev broken : Deltas
broken = record { items = hello ∷ []; ending = failed (raised backend_stream_error) }

guarded_lem_example :
    ((guarded broken (codes "Sorry") new_connection).stream.items
      ≡ role ∷ hello ∷ content (str (codes "\nSorry")) ∷ [])
    × ((guarded broken (codes "Sorry") new_connection).stream.ending ≡ finished)
    × ((guarded broken (codes "Sorry") new_connection).fallback ≡ true)
guarded_lem_example = guarded_lem broken (codes "Sorry") new_connection

-- A turn that is cancelled speaks no fallback text.
abbrev cut : Deltas
cut = record { items = hello ∷ []; ending = failed (raised cancelled_error) }

guarded_run : guarded cut (codes "Sorry") new_connection ≡ record {
  stream = record { items = role ∷ hello ∷ []; ending = failed (raised cancelled_error) };
  fallback = false;
  connection = new_connection;
}
unfolding guarded pass_deltas
guarded_run = refl

-- The last delta waits for a tool result to be answered.
abbrev waits : List Delta → Bool
waits [] = false
waits (tool_calls _ ∷ []) = true
waits (tool_result _ _ _ _ ∷ []) = true
waits (_ ∷ []) = false
waits (_ ∷ d ∷ ds) = waits (d ∷ ds)

abbrev raised_by : Ending → Option Exc
raised_by finished = none
raised_by (failed e) = some e

-- A chat log that knows whether it ends in an assistant's content, and whether it waits.
abbrev last_said : ChatLogApi
last_said = record {
  Log = Bool × Bool;
  provide_llm_data = λ l. (l, true);
  add_deltas = λ l stream. (
    (adds_last stream.items && not (waits stream.items), waits stream.items),
    raised_by stream.ending,
  );
  unresponded_tool_results = λ l. l.1;
  add_assistant = λ l t. (true, false);
  ends_in_assistant = λ l. l.0;
  asks_to_continue = λ l. false;
}

raised_by-is_failed : (e : Ending) → is_failed e ≡ true → is_some (raised_by e) ≡ true
raised_by-is_failed finished h = cc
raised_by-is_failed (failed e) h = refl

last_said-KeepsRoles : KeepsRoles last_said
last_said-KeepsRoles = record {
  after_assistant = λ l t. refl;
  passes_errors = λ l stream h. raised_by-is_failed stream.ending h;
  after_deltas = λ l stream opens added n w. rw (added, w) refl;
}

abbrev call : ToolInput
call = record { id = codes "1"; tool_name = codes "t"; tool_args = []; external = false }

-- Calls a tool on a log that does not wait, and breaks off on one that does.
abbrev adapter : Adapter last_said (codes "Sorry")
adapter (ends, false) =
    (record { items = role ∷ tool_calls (call ∷ []) ∷ []; ending = finished }, false)
adapter (ends, true) = (broken, false)

adapter-Speaks : Speaks last_said (codes "Sorry") adapter
adapter-Speaks (ends, false) = λ h. refl
adapter-Speaks (ends, true) = λ h. refl

async_handle_message_once_example :
    async_handle_message last_said (codes "Sorry") adapter (false, true) new_connection
    ≡ answered true false
unfolding guarded Conversation.run_turn pass_deltas
async_handle_message_once_example =
    async_handle_message_once last_said (codes "Sorry") last_said-KeepsRoles adapter adapter-Speaks
      refl (false, true) new_connection refl refl refl

abbrev event : String → String → ServerSentEvent
event e p = record { event = codes e; payload = codes p }

-- The payloads below.
abbrev loads : Text → Option Json
loads t =
    if t is "delta"
    then some (obj (field (codes "delta") (str (codes "Hello")) end))
    else if t is "tool"
    then some (obj (field (codes "tool") (str (codes "search")) end))
    else if t is "chunk"
    then some (
        obj (
          field (codes "choices")
            (arr (
              item
                (obj (
                  field (codes "delta") (obj (field (codes "content") (str (codes "Hello")) end))
                    end))
                nil))
            end))
    else if t is "{}"
    then some (obj end)
    else none

abbrev events : List ServerSentEvent
events = event "tool_activity" "tool" ∷ event "text_delta" "delta" ∷ event "done" "{}" ∷ []

run_turn-texts_example :
    (spoken (Converse.run_turn loads events finished).deltas ≡ str (codes "Hello") ∷ [])
    × ((Converse.run_turn loads events finished).ending ≡ finished)
unfolding Converse.kind_of text_eq get
run_turn-texts_example = run_turn-texts loads events finished

run_turn-ends_spoken_example :
    (is_some (run_block false (Converse.run_turn loads events finished).deltas) ≡ true)
    × (ends_spoken (Converse.run_turn loads events finished).deltas ≡ true)
run_turn-ends_spoken_example = run_turn-ends_spoken loads events finished

abbrev response : Response
response = record {
  status = 200;
  body_text = [];
  content_type = codes "text/event-stream";
  chunks = codes "event: text_delta\ndata: delta\n\nevent: done\n\n" ∷ [];
  ending = finished;
}

abbrev no_int : Text → Option ℤ
no_int t = none

openai_run_turn_run :
    (OpenAi.run_turn loads no_int
      (event "message" "chunk" ∷ event "message" "[DONE]" ∷ [])
      finished).deltas
    ≡ role ∷ hello ∷ []
unfolding OpenAi.run_turn text_eq get run_events OpenAi.content_of OpenAi.reasoning_of
openai_run_turn_run = refl

probe_json-Probes_example :
    Probes none false (probe_json loads true (no_response (raised client_connection_error)))
probe_json-Probes_example =
    probe_json-Probes loads true (no_response (raised client_connection_error)) refl
