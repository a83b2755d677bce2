-- ===== src/LangGraph/Request.antt =====
-- backends/langgraph.py: the request of a turn (the head of `stream_turn`, `_run_context`,
-- `_headers`). Python's `str` of an option that is no text is a parameter.
use llm_middleman.Base.{
  ℕ, String, Bool, true, false, ◌||◌, Option, none, some, List, [], ◌∷◌, ◌++◌, if◌then◌else◌,
  length, is_empty, Text, codes, ◌is◌,
}
use llm_middleman.Base.Dict
use llm_middleman.Base.Dict.{Dict}
use llm_middleman.Json.{Json, str, arr, obj, to_items, to_fields, null, int, truthy, get}
use llm_middleman.Url.{text_or, rstrip_slash, text_at}
use llm_middleman.LangGraph.Turns.{Session, Adapter}
use llm_middleman.Base.Int.{pos}

abbrev pub json_type_header : Dict Text
json_type_header = (codes "Content-Type", codes "application/json") ∷ []

-- `bearer_headers` of backends/base.py.
unfoldable pub bearer_headers : Text → Dict Text
bearer_headers [] = []
bearer_headers (c ∷ cs) = (codes "Authorization", codes "Bearer " ++ c ∷ cs) ∷ []

-- `_headers`: the key as it is stored, and the scheme.
unfoldable pub headers : Option Text → Option Text → Dict Text
unfolding bearer_headers
headers none auth_scheme = json_type_header
headers (some []) auth_scheme = json_type_header
headers (some (c ∷ cs)) none = Dict.set (codes "x-api-key") (c ∷ cs) json_type_header
headers (some (c ∷ cs)) (some auth_scheme) =
    if auth_scheme is "bearer"
    then json_type_header ++ bearer_headers (c ∷ cs)
    else Dict.set (codes "x-api-key") (c ∷ cs) json_type_header

-- Of a turn: the fields of `user_input`, and those of the chat log.
pub record TurnInput : Type 0 where
  pub text : Text
  pub language : Option Text
  pub device_id : Option Text
  pub satellite_id : Option Text
  pub conversation_id : Option Text
  pub user_id : Option Text
  pub system_prompt : Option Text

-- The entries with a text that is not empty.
unfoldable pub nonempty_values : Dict (Option Text) → Dict Json
nonempty_values [] = []
nonempty_values ((key, some (c ∷ cs)) ∷ values) = (key, str (c ∷ cs)) ∷ nonempty_values values
nonempty_values ((key, some []) ∷ values) = nonempty_values values
nonempty_values ((key, none) ∷ values) = nonempty_values values

-- `_run_context`
unfoldable pub run_context : TurnInput → Option Text → Dict Json
unfolding nonempty_values
run_context i system_prompt = nonempty_values (
    (codes "system_prompt", system_prompt)
    ∷ (codes "language", i.language)
    ∷ (codes "device_id", i.device_id)
    ∷ (codes "satellite_id", i.satellite_id)
    ∷ (codes "conversation_id", i.conversation_id)
    ∷ (codes "user_id", i.user_id)
    ∷ [])

abbrev message : String → Text → Json
message speaker content =
    obj (to_fields ((codes "role", str (codes speaker)) ∷ (codes "content", str content) ∷ []))

-- On a stateless run the prompt leads the input.
abbrev pub leading : Bool → Option Text → List Json
leading true (some (c ∷ cs)) = message "system" (c ∷ cs) ∷ []
leading _ prompt = []

abbrev context_field : Dict Json → Dict Json
context_field [] = []
context_field (v ∷ context) = (codes "context", obj (to_fields (v ∷ context))) ∷ []

-- `strategy in MULTITASK_STRATEGIES`
abbrev is_strategy : Text → Bool
is_strategy t = t is "rollback" || t is "interrupt" || t is "enqueue" || t is "reject"

unfoldable pub strategy_or_default : Text → Text
strategy_or_default strategy = if is_strategy strategy then strategy else codes "rollback"

-- A text when it is not stateless, for the context.
abbrev unless : Bool → Option Text → Option Text
unless true prompt = none
unless false prompt = prompt

module _ (str_of : Json → Text) where
  abbrev stream_modes : Json
  stream_modes = arr (to_items (str (codes "messages-tuple") ∷ str (codes "updates") ∷ []))

  abbrev thread_fields : Dict Json → Bool → Dict Json
  thread_fields options true = []
  thread_fields options false =
      (codes "if_not_exists", str (codes "create"))
      ∷ (
        codes "multitask_strategy",
        str (
            strategy_or_default
              (text_or str_of (codes "multitask_strategy") (codes "rollback") options)),
      )
      ∷ []

  -- The answer to the graph's question, or the new messages.
  abbrev turn_field : Dict Json → TurnInput → Bool → Bool → Dict Json
  turn_field options i stateless true =
      (codes "command", obj (to_fields ((codes "resume", str i.text) ∷ []))) ∷ []
  turn_field options i stateless false =
      (
        codes "input",
        obj (
            to_fields (
              (
                text_or str_of (codes "input_messages_key") (codes "messages") options,
                arr (to_items (leading stateless i.system_prompt ++ message "user" i.text ∷ [])),
              )
              ∷ [])),
      )
      ∷ []

  -- The body of a turn's request; `resume` is whether the thread waits for an answer.
  unfoldable pub turn_body : Text → Dict Json → TurnInput → Bool → Bool → Dict Json
  unfolding run_context strategy_or_default
  turn_body assistant_id options i stateless resume =
      (codes "assistant_id", str assistant_id)
      ∷ (codes "stream_mode", stream_modes)
      ∷ (codes "on_disconnect", str (codes "cancel"))
      ∷ (thread_fields options stateless
          ++ turn_field options i stateless resume
          ++ context_field (run_context i (unless stateless i.system_prompt)))

  abbrev pub run_url : Text → Option Text → Text
  run_url base_url none = base_url ++ codes "/runs/stream"
  run_url base_url (some thread_id) =
      base_url ++ codes "/threads/" ++ thread_id ++ codes "/runs/stream"

  -- What the options and the memory keys of a turn ask for.
  unfoldable pub session_of : Dict Json → Text → Option Text → Session
  session_of options memory_key legacy_memory_key =
      let scope = text_at str_of (codes "memory_scope") (codes "conversation") options in
      record {
        stateless = truthy (get (codes "stateless_runs") options);
        persist = scope is "device" || scope is "agent";
        memory_key = memory_key;
        legacy_memory_key = legacy_memory_key;
      }

  -- `_entry_key`, of the connection's data.
  unfoldable pub entry_key_of : Dict Json → Text
  entry_key_of values =
      let base_url = rstrip_slash (text_at str_of (codes "base_url") [] values) in
      let fallback = if is_empty base_url then codes "default" else base_url in
      text_or str_of (codes "entry_id") fallback values

abbrev count : Option ℕ → Json
count none = null
count (some n) = int (pos n)

-- `diagnostics`
unfoldable pub diagnostics : Adapter → Dict Json
diagnostics a =
    (codes "last_run_id", elim a.last_run_id [ none ↦ null | some id ↦ str id ])
    ∷ (
      codes "threads_awaiting_resume",
      count (elim a.pending.marks [ none ↦ none | some d ↦ some (length d) ]),
    )
    ∷ (
      codes "legacy_thread_map_entries",
      count (elim a.threads.legacy [ none ↦ none | some d ↦ some (length d) ]),
    )
    ∷ []
