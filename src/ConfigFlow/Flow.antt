-- ===== src/ConfigFlow/Flow.antt =====
-- config_flow.py: the flow of a connection over several forms (`async_step_user`,
-- `async_step_reconfigure`, `_async_route_to_connection_step`), and the agents that a connection
-- may have (`async_get_supported_subentry_types`). Home Assistant runs the step of the form that is
-- shown on each submission, until a step stores data or aborts; what a probe says may change in
-- between.
use llm_middleman.Base.{Bool, Option, none, some, List, [], ◌∷◌, map, if◌then◌else◌, Text, codes}
use llm_middleman.Base.Dict
use llm_middleman.Base.Dict.{Dict}
use llm_middleman.Json.{Json, str}
use llm_middleman.Error.{Exc, raised, key_error}
use llm_middleman.Fallible.{Result}
use llm_middleman.Registry.{Backend, backends, backend_name, find_backend, supports_ai_task}
use llm_middleman.Forms.{Schema, blank, required, drop_down}
use llm_middleman.ConfigFlow.{StepResult, show_form, raises, Source, connection_step}

-- The form that is shown: the choice of a backend, or the connection of the chosen one.
pub data Form : Type 0 where
  choose : Form
  connect : Backend → Form

-- A submission, with what the probe and Home Assistant say of it at the time.
pub record Submission : Type 0 where
  pub values : Dict Json
  pub validate : Dict Json → Result (Unit {0})
  pub has_match : Dict Json → Bool
  pub listened : Bool

-- The form of `async_step_user`: a drop-down of all backends.
abbrev pub user_schema : Schema
user_schema = required "backend_type" blank (drop_down (map backend_name backends)) ∷ []

-- `self._backend_type`, as the step that it routes to.
abbrev pub named : Option Json → Option Backend
named (some (str t)) = find_backend t backends
named v = none

-- `async_get_supported_subentry_types`
abbrev pub task_types : Option Backend → List Text
task_types none = []
task_types (some b) = if supports_ai_task b then codes "ai_task_data" ∷ [] else []

unfoldable pub supported_subentry_types : Dict Json → List Text
unfolding find_backend
supported_subentry_types entry_data =
    codes "conversation" ∷ task_types (named (Dict.get (codes "backend_type") entry_data))

module _ (str_of : Json → Text) (error_key : Exc → Text) where
  -- A step of the connection of a backend.
  abbrev pub connect_step : Backend → Source → Submission → Option (Dict Json) → StepResult
  connect_step b source x input =
      connection_step str_of error_key x.validate x.has_match b source x.listened input

  -- `_async_route_to_connection_step`
  abbrev pub route : Source → Submission → Option Backend → Form × StepResult
  route source x none = (choose, raises (raised key_error))
  route source x (some b) = (connect b, connect_step b source x none)

  -- `async_step_user`, on what was submitted.
  unfoldable pub user_step : Source → Submission → Option (Dict Json) → Form × StepResult
  unfolding find_backend connection_step
  user_step source x none = (choose, show_form none)
  user_step source x (some input) = route source x (named (Dict.get (codes "backend_type") input))

  -- `async_step_reconfigure`, which Home Assistant runs once, on the data of the entry.
  unfoldable pub reconfigure_step : Source → Submission → Dict Json → Form × StepResult
  unfolding find_backend connection_step
  reconfigure_step source x entry_data =
      route source x (named (Dict.get (codes "backend_type") entry_data))

  -- The step of the form that is shown, on a submission.
  unfoldable pub on_form : Source → Form → Submission → Form × StepResult
  unfolding user_step connection_step
  on_form source choose x = user_step source x (some x.values)
  on_form source (connect b) x = (connect b, connect_step b source x (some x.values))

  -- The forms that a flow comes to show, from the first one.
  pub data Reaches (source : Source) (first : Form) : Form → Type 0 where
    start : Reaches source first first
    next :
        {form : Form}
        → Reaches source first form
        → (x : Submission) → Reaches source first (on_form source form x).0
