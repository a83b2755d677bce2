-- ===== src/AiTask/Reports.antt =====
-- What an AI task returns, and how it fails.
use llm_middleman.Base.{◌≡◌, Bool, true, false, ◌||◌, Option, some, if◌then◌else◌, Text}
use llm_middleman.Json.{Json}
use llm_middleman.Error.{translated_error, raised_from, Exc, class_of, is_cancelled}
use llm_middleman.Fallible.{Result, ok, err}
use llm_middleman.Reachability.{
  Connection, async_record_backend_failure, async_record_backend_reached,
}
use llm_middleman.AiTask.{is_translated, TaskResult, text_result, json_result, task_failed, TaskEnd}

module _ {ℓ} {Log : Type ℓ} (run_round : Log → Log × Option Exc) (unresponded : Log → Bool)
    (last_assistant : Log → Option Text) (json_loads : Text → Option Json) where
  abbrev End : Type ℓ
  End = TaskEnd run_round unresponded last_assistant json_loads

  -- A loop that says that it completed leaves no tool result waiting.
  abbrev Quiet : Log × Result Bool → Type 0
  Quiet (log, ok true) = unresponded log ≡ false
  Quiet (log, _) = Unit {0}

  -- The reply that a result was read from.
  abbrev pub ReadFrom : Bool → Log → TaskResult → Type 0
  ReadFrom structured log (text_result t) =
      (structured ≡ false) × (last_assistant log ≡ some t) × (unresponded log ≡ false)
  ReadFrom structured log (json_result v) =
      (structured ≡ true)
      × ((t : Text) × (last_assistant log ≡ some t) × (json_loads t ≡ some v))
      × (unresponded log ≡ false)
  ReadFrom structured log (task_failed e) =
      (is_cancelled (class_of e) || is_translated (class_of e)) ≡ true

  -- What the task may raise, of an exception that left the loop: that exception, if it is a
  -- `CancelledError` or translated already, and otherwise a translated error raised from it, with the
  -- failure recorded on the connection; a translated error where the loop raised none.
  abbrev pub RaisedAs : Connection → Log × Result Bool → End → Type 0
  RaisedAs s (log, err e) r =
      if is_cancelled (class_of e) || is_translated (class_of e)
      then (r.outcome ≡ task_failed e) × (r.connection ≡ s)
      else (r.outcome ≡ task_failed (raised_from translated_error e))
        × (r.connection ≡ async_record_backend_failure s e)
  RaisedAs s (log, ok b) r = r.connection ≡ async_record_backend_reached s
