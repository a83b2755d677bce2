-- ===== src/AiTask.antt =====
-- ai_task.py: `_async_generate_data` over Home Assistant's chat log. The log, the adapter's stream
-- into it (`run_round`, which may raise), the content of the last entry and `json_loads` are
-- parameters. The turn input, the JSON schema and what is logged are not modelled.
pub mod Reports
use llm_middleman.Base.{Bool, true, false, ◌||◌, Option, none, some, if◌then◌else◌, Text}
use llm_middleman.Json.{Json}
use llm_middleman.Error.{
  Class, translated_error, json_decode_error, is_cancelled, Exc, raised, raised_from, class_of,
}
use llm_middleman.Fallible.{Result, ok, err}
use llm_middleman.Reachability.{
  Connection, async_record_backend_failure, async_record_backend_reached,
}
use llm_middleman.ToolLoop.{async_run_tool_loop}

-- `isinstance(err, HomeAssistantError) and err.translation_domain == DOMAIN`
abbrev pub is_translated : Class → Bool
is_translated translated_error = true
is_translated _ = false

pub data TaskResult : Type 0 where
  -- the text, without a `structure`
  text_result : Text → TaskResult
  -- the parsed JSON, with one
  json_result : Json → TaskResult
  task_failed : Exc → TaskResult

-- `_backend_error(err)`, raised from the error.
abbrev pub backend_error : Exc → Exc
backend_error e = raised_from translated_error e

module _ {ℓ} {Log : Type ℓ} (run_round : Log → Log × Option Exc) (unresponded : Log → Bool)
    (last_assistant : Log → Option Text) (json_loads : Text → Option Json) where
  pub record TaskEnd : Type ℓ where
    pub log : Log
    pub connection : Connection
    pub outcome : TaskResult

  abbrev pub parsed : Option Json → TaskResult
  parsed none = task_failed (raised_from translated_error (raised json_decode_error))
  parsed (some v) = json_result v

  abbrev pub no_response : TaskResult
  no_response = task_failed (raised translated_error)

  -- What the last content, an assistant's or not, comes to.
  abbrev pub read_reply : Bool → Option Text → TaskResult
  read_reply structured none = no_response
  read_reply structured (some text) =
      if structured then parsed (json_loads text) else text_result text

  -- `except Exception` leaves a `CancelledError` alone; a translated error is raised again.
  abbrev pub is_passed : Class → Bool
  is_passed c = is_cancelled c || is_translated c

  abbrev pub after_loop : Bool → Connection → Log × Result Bool → TaskEnd
  after_loop structured s (log, err e) =
      if is_passed (class_of e)
      then record { log = log; connection = s; outcome = task_failed e }
      else record {
        log = log;
        connection = async_record_backend_failure s e;
        outcome = task_failed (backend_error e);
      }
  after_loop structured s (log, ok false) = record {
    log = log;
    connection = async_record_backend_reached s;
    outcome = no_response;
  }
  after_loop structured s (log, ok true) = record {
    log = log;
    connection = async_record_backend_reached s;
    outcome = read_reply structured (last_assistant log);
  }

  -- `_async_generate_data`: `structured` says that the task has a structure.
  unfoldable pub async_generate_data : Bool → Log → Connection → TaskEnd
  async_generate_data structured log s =
      after_loop structured s (async_run_tool_loop run_round unresponded log)
