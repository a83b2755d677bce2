-- ===== src/Conversation.antt =====
-- conversation.py: the guard around an adapter's stream, the session key of a turn, and the handling
-- of one message. Home Assistant's chat log is a parameter (`ChatLogApi`), and so is the translated
-- fallback text. What is logged and the registration of the entity are not modelled.
pub mod Guard
pub mod Keys
pub mod Handle
use llm_middleman.Base.{
  Bool, true, false, not, ◌&&◌, ◌||◌, Option, none, some, List, [], ◌∷◌, ◌++◌, if◌then◌else◌, Text,
}
use llm_middleman.Json.{str}
use llm_middleman.Error.{Exc, class_of, is_cancelled}
use llm_middleman.Fallible.{Result, ok, err}
use llm_middleman.Stream.{Delta, role, content, has_role, has_text, Deltas, finished, failed}
use llm_middleman.Reachability.{
  Connection, async_record_backend_failure, async_record_backend_reached,
}
use llm_middleman.ToolLoop.{async_run_tool_loop}

-- What the guard yields for the deltas of the stream; the flags are `started` and `has_text`.
pub record Passed : Type 0 where
  pub yielded : List Delta
  pub started : Bool
  pub spoke : Bool

unfoldable pub pass_deltas : Bool → Bool → List Delta → Passed
pass_deltas started spoke [] = record { yielded = []; started = started; spoke = spoke }
pass_deltas started spoke (d ∷ ds) =
    let reset = if has_role d then false else spoke in
    let rest = pass_deltas true (if has_text d then true else reset) ds in
    record rest {
      yielded =
          if not started && not (has_role d) then role ∷ d ∷ rest.yielded else d ∷ rest.yielded;
    }

-- The guarded stream, and what it leaves in its `TurnContext` and in the connection.
pub record Guarded : Type 0 where
  pub stream : Deltas
  pub fallback : Bool
  pub connection : Connection

abbrev pub say : Text → Delta
say t = content (str t)

-- `_guarded`: the stream has run, and `message` is the fallback text. `except Exception` leaves a
-- `CancelledError` alone.
unfoldable pub guarded : Deltas → Text → Connection → Guarded
unfolding pass_deltas
guarded stream message s =
    let p = pass_deltas false false stream.items in
    elim stream.ending [
      | failed e ↦
          if is_cancelled (class_of e)
          then record {
            stream = record { items = p.yielded; ending = failed e };
            fallback = false;
            connection = s;
          }
          else record {
            stream = record {
              items =
                  p.yielded
                  ++ ((if p.started then [] else role ∷ [])
                      ++ say (if p.spoke then b'\n' ∷ message else message) ∷ []);
              ending = finished;
            };
            fallback = true;
            connection = async_record_backend_failure s e;
          }
      | finished ↦ record {
        stream = record {
          items = p.yielded ++ (if p.started then [] else role ∷ say message ∷ []);
          ending = finished;
        };
        fallback = not p.started;
        connection = async_record_backend_reached s;
      }
    ]

-- `CONF_MEMORY_SCOPE`; any other value acts as `conversation`.
pub data MemoryScope : Type 0 where
  conversation device agent : MemoryScope

pub record SessionKeys : Type 0 where
  pub memory_key : Text
  pub legacy_memory_key : Option Text

-- The keys of `_turn_context`: of a subentry, in a scope, for a turn on a device (or none) in a
-- conversation.
abbrev pub device_id_truthy : Option Text → Option Text
device_id_truthy none = none
device_id_truthy (some []) = none
device_id_truthy (some (c ∷ cs)) = some (c ∷ cs)

unfoldable pub turn_keys : Text → MemoryScope → Option Text → Text → SessionKeys
turn_keys subentry_id agent device_id conversation_id = record {
  memory_key = subentry_id;
  legacy_memory_key = none;
}
turn_keys subentry_id device device_id conversation_id = elim (device_id_truthy device_id) [
  | some d ↦ record { memory_key = subentry_id ++ b':' ∷ d; legacy_memory_key = some d }
  | none ↦ record { memory_key = conversation_id; legacy_memory_key = none }
]
turn_keys subentry_id conversation device_id conversation_id = record {
  memory_key = conversation_id;
  legacy_memory_key = none;
}

-- Home Assistant's chat log, as far as a turn uses it.
pub record ChatLogApi : Type 1 where
  pub Log : Type 0
  -- `async_provide_llm_data`: the error is a `ConverseError`
  pub provide_llm_data : Log → Log × Bool
  -- `async_add_delta_content_stream`, which also runs the tool calls, and may raise
  pub add_deltas : Log → Deltas → Log × Option Exc
  pub unresponded_tool_results : Log → Bool
  -- `async_add_assistant_content_without_tools`
  pub add_assistant : Log → Text → Log
  -- the last content is an `AssistantContent`
  pub ends_in_assistant : Log → Bool
  -- `async_get_result_from_chat_log` asks to continue: HA's own test of the last content
  pub asks_to_continue : Log → Bool

pub data TurnResult : Type 0 where
  -- `err.as_conversation_result()`
  converse_failed : TurnResult
  -- `async_get_result_from_chat_log` raised: the log does not end in an assistant's content
  no_result : TurnResult
  -- a round-trip raised
  turn_raised : Exc → TurnResult
  -- marked as an error or not, and `continue_conversation`
  answered : Bool → Bool → TurnResult

module _ (api : ChatLogApi) (message : Text) where
  open api use {
    Log, provide_llm_data, add_deltas, unresponded_tool_results, add_assistant, ends_in_assistant,
    asks_to_continue,
  }

  -- What the rounds of a turn share: the log, the connection, and the flags of the `TurnContext`.
  pub record Turn : Type 0 where
    pub log : Log
    pub connection : Connection
    pub fallback : Bool
    pub continue_conversation : Bool

  -- An adapter's round-trip on the log: the stream, and whether it asked to continue.
  abbrev pub Adapter : Type 0
  Adapter = Log → Deltas × Bool

  -- `_async_run_turn`: it raises what the chat log does, as it reads the guarded stream.
  unfoldable pub run_turn : Adapter → Turn → Turn × Option Exc
  unfolding guarded
  run_turn adapter t =
      let (stream, asked) = adapter t.log in
      let g = guarded stream message t.connection in
      let (log', raised) = add_deltas t.log g.stream in
      (
        record {
          log = log';
          connection = g.connection;
          fallback = g.fallback;
          continue_conversation = t.continue_conversation || asked;
        },
        raised,
      )

  -- What follows the tool loop.
  unfoldable pub finish_turn : Turn × Result Bool → Turn
  finish_turn (t, ok true) = t
  finish_turn (t, ok false) = record t { fallback = true; log = add_assistant t.log message }
  finish_turn (t, err e) = t

  unfoldable pub turn_result : Turn → TurnResult
  turn_result t =
      if ends_in_assistant t.log
      then answered t.fallback (asks_to_continue t.log || t.continue_conversation)
      else no_result

  abbrev pub answer_turn : Turn × Result Bool → TurnResult
  answer_turn (t, err e) = turn_raised e
  answer_turn (t, ok completed) = turn_result (finish_turn (t, ok completed))

  abbrev pub first_turn : Log → Connection → Turn
  first_turn log s = record {
    log = log;
    connection = s;
    fallback = false;
    continue_conversation = false;
  }

  unfoldable pub loop_turns : Adapter → Log → Connection → Turn × Result Bool
  unfolding run_turn
  loop_turns adapter log s =
      async_run_tool_loop (run_turn adapter) (λ t. unresponded_tool_results t.log)
        (first_turn log s)

  -- `_async_handle_message`
  unfoldable pub async_handle_message : Adapter → Log → Connection → TurnResult
  unfolding loop_turns finish_turn turn_result
  async_handle_message adapter log s =
      let (log', provided) = provide_llm_data log in
      if provided then answer_turn (loop_turns adapter log' s) else converse_failed
