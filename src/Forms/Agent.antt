-- ===== src/Forms/Agent.antt =====
-- config_flow.py: the form of an agent (`_build_schema` of both subentry flows, `_model_selector`,
-- `_dify_fields`, `_add_langgraph_fields`, `_add_openai_compat_fields`, `_add_ollama_fields`,
-- `_add_n8n_fields`, `_dify_placeholders`). Home Assistant's default prompt is a parameter, and so
-- are the ids of its LLM APIs.
use llm_middleman.Base.{
  String, Bool, true, false, Option, none, some, List, [], ◌∷◌, ◌++◌, map, if◌then◌else◌, is_empty,
  Text, codes,
}
use llm_middleman.Base.Int.{pos, negsuc}
use llm_middleman.Base.Dict.{Dict}
use llm_middleman.Json.{Json, null, bool, int, float, str, arr, to_items, get, truthy}
use llm_middleman.Error.{class_of, is_backend_connection_error, is_cancelled}
use llm_middleman.Fallible.{Result, ok, err, ◌>>=◌, member_of}
use llm_middleman.OpenAi.Calls.{iterate}
use llm_middleman.Registry.{
  Backend, openai_compat, langgraph, ollama, converse, n8n, dify, supports_ha_tools,
  supports_memory_scope,
}
use llm_middleman.Forms.{
  plain, Selector, text, template, number, select, boolean, object, default_value, suggested,
  Schema, Field, required, optional, suggesting, drop_down,
}

-- `_model_selector`, of what the list of the models came to: a text field where it failed, no field
-- where there is no catalog.
unfoldable pub model_selector : Result (Option (List Text)) → Result (Option Selector)
model_selector (err e) = if is_cancelled (class_of e) then err e else ok (some (text plain))
model_selector (ok none) = ok none
model_selector (ok (some models)) = ok (some (select models true false))

abbrev pub model_field : Option Selector → Dict Json → Schema
model_field none options = []
model_field (some selector) options = suggesting "model" null options selector ∷ []

abbrev pub whole : Json
whole = int (pos 1)

-- 0.05
abbrev pub twentieth : Json
twentieth = float (pos 5) (negsuc 1)

abbrev pub timeout_field : Dict Json → Field
timeout_field options =
    suggesting "timeout" (int (pos 60)) options (number (some (pos 10)) (some (pos 300)) whole)

-- `bool(options.get(key, False))`
abbrev pub flag_field : String → Dict Json → Field
flag_field key options =
    optional key (default_value (bool (truthy (get (codes key) options)))) boolean

unfoldable pub dify_fields : Dict Json → Schema
dify_fields options =
    suggesting "dify_inputs" null options object
    ∷ flag_field "dify_ha_context" options
    ∷ flag_field "dify_user_from_ha" options
    ∷ []

abbrev pub multitask_strategies : List Text
multitask_strategies = codes "rollback" ∷ codes "interrupt" ∷ codes "enqueue" ∷ codes "reject" ∷ []

unfoldable pub langgraph_fields : Dict Json → Schema
langgraph_fields options =
    suggesting "multitask_strategy" (str (codes "rollback")) options
      (drop_down multitask_strategies)
    ∷ suggesting "input_messages_key" (str (codes "messages")) options (text plain)
    ∷ suggesting "response_node_filter" null options (text plain)
    ∷ suggesting "stateless_runs" (bool false) options boolean
    ∷ []

abbrev pub reasoning_efforts : List Text
reasoning_efforts =
    codes "none"
    ∷ codes "minimal"
    ∷ codes "low"
    ∷ codes "medium"
    ∷ codes "high"
    ∷ codes "xhigh"
    ∷ codes "max"
    ∷ []

unfoldable pub openai_compat_fields : Dict Json → Schema
openai_compat_fields options =
    suggesting "temperature" null options (number (some (pos 0)) (some (pos 2)) twentieth)
    ∷ suggesting "top_p" null options (number (some (pos 0)) (some (pos 1)) twentieth)
    ∷ suggesting "max_tokens" null options (number (some (pos 1)) none whole)
    ∷ suggesting "reasoning_effort" null options (select reasoning_efforts true false)
    ∷ []

abbrev pub think_options : List Text
think_options =
    codes "off" ∷ codes "on" ∷ codes "low" ∷ codes "medium" ∷ codes "high" ∷ codes "max" ∷ []

-- A level is shown as it is stored, a Boolean as `on` or `off`.
unfoldable pub suggested_think : Json → Json
suggested_think (bool true) = str (codes "on")
suggested_think (bool false) = str (codes "off")
suggested_think v = v

unfoldable pub ollama_fields : Dict Json → Schema
unfolding suggested_think
ollama_fields options =
    suggesting "num_ctx" null options (number (some (pos 2048)) none whole)
    ∷ suggesting "keep_alive" null options (number (some (negsuc 0)) none whole)
    ∷ optional "think" (suggested (suggested_think (get (codes "think") options)))
        (drop_down think_options)
    ∷ []

unfoldable pub n8n_fields : Dict Json → Schema
n8n_fields options =
    suggesting "input_field" (str (codes "chatInput")) options (text plain)
    ∷ suggesting "output_field" (str (codes "output")) options (text plain)
    ∷ suggesting "session_field" (str (codes "sessionId")) options (text plain)
    ∷ []

-- The fields of one preset.
unfoldable pub backend_fields : Backend → Dict Json → Schema
unfolding dify_fields langgraph_fields openai_compat_fields ollama_fields n8n_fields
backend_fields dify options = dify_fields options
backend_fields langgraph options = langgraph_fields options
backend_fields openai_compat options = openai_compat_fields options
backend_fields ollama options = ollama_fields options
backend_fields n8n options = n8n_fields options
backend_fields converse options = []

abbrev pub memory_scopes : List Text
memory_scopes = codes "conversation" ∷ codes "device" ∷ codes "agent" ∷ []

abbrev pub scope_field : Bool → Dict Json → Schema
scope_field false options = []
scope_field true options =
    suggesting "memory_scope" (str (codes "conversation")) options (drop_down memory_scopes) ∷ []

abbrev pub name_field : Bool → String → Schema
name_field false name = []
name_field true name = required "name" (default_value (str (codes name))) (text plain) ∷ []

-- `[api_id for api_id in suggested_apis if api_id in valid_ids]`
unfoldable pub valid_apis : List Text → List Json → Result (List Json)
valid_apis ids [] = ok []
valid_apis ids (id ∷ stored) = do
  valid ← member_of ids id
  rest ← valid_apis ids stored
  ok (if valid then id ∷ rest else rest)

-- What the field of the LLM APIs suggests: those of the stored that still exist.
unfoldable pub suggested_apis : List Text → Json → Result Json
unfolding valid_apis
suggested_apis ids stored =
    let kept =
      iterate stored >>= λ items. valid_apis ids items >>= λ valid. ok (arr (to_items valid)) in
    if truthy stored then kept else ok stored

abbrev pub apis_with : List Text → Result Json → Result Schema
apis_with ids (err e) = err e
apis_with ids (ok stored) =
    ok (optional "llm_hass_api" (suggested stored) (select ids false true) ∷ [])

unfoldable pub apis_field : Bool → List Text → Dict Json → Result Schema
unfolding suggested_apis
apis_field false ids options = ok []
apis_field true ids options =
    apis_with ids (suggested_apis ids (get (codes "llm_hass_api") options))

abbrev pub limit_fields : Backend → Dict Json → Schema
limit_fields b options =
    suggesting "max_history" (int (pos 20)) options (number (some (pos 0)) none whole)
    ∷ timeout_field options
    ∷ scope_field (supports_memory_scope b) options

module _ (default_prompt : Text) where
  abbrev pub prompt_fields : Option Selector → Dict Json → Schema
  prompt_fields selector options =
      suggesting "prompt" (str default_prompt) options template ∷ model_field selector options

  abbrev pub agent_fields : Backend → Bool → Option Selector → Schema → Dict Json → Schema
  agent_fields b is_new selector apis options =
      name_field is_new "LLM Middleman"
      ++ (prompt_fields selector options
          ++ (limit_fields b options ++ (apis ++ backend_fields b options)))

  -- `ConversationSubentryFlowHandler._build_schema`, with what the list of the models came to and the
  -- ids of the LLM APIs that there are.
  unfoldable pub agent_schema :
      Backend → Bool → Result (Option (List Text)) → List Text → Dict Json → Result Schema
  unfolding model_selector backend_fields apis_field
  agent_schema b is_new models ids options = model_selector models >>= λ selector.
      apis_field (supports_ha_tools b) ids options >>= λ apis.
      ok (agent_fields b is_new selector apis options)

abbrev pub sampling_fields : Backend → Dict Json → Schema
sampling_fields openai_compat options = openai_compat_fields options
sampling_fields ollama options = ollama_fields options
sampling_fields _ options = []

-- `AITaskSubentryFlowHandler._build_schema`
unfoldable pub task_schema :
    Backend → Bool → Result (Option (List Text)) → Dict Json → Result Schema
unfolding model_selector openai_compat_fields ollama_fields
task_schema b is_new models options = model_selector models >>= λ selector. ok (
    name_field is_new "LLM Middleman AI Task"
    ++ model_field selector options
    ++ timeout_field options ∷ sampling_fields b options)

-- A declared input, as the form's description names it.
abbrev input_name : Text × Dict Json → Text
input_name (name, control) =
    if truthy (get (codes "required") control) then name ++ codes " (required)" else name

unfoldable pub comma_join : List Text → Text
comma_join [] = []
comma_join (t ∷ []) = t
comma_join (t ∷ u ∷ ts) = t ++ codes ", " ++ comma_join (u ∷ ts)

-- `_dify_placeholders`, of what `async_fetch_input_form` came to.
unfoldable pub dify_placeholders : Result (Dict (Dict Json)) → Result Text
unfolding comma_join
dify_placeholders (err e) =
    if is_backend_connection_error (class_of e)
    then ok (codes "unavailable (Dify could not be reached)")
    else err e
dify_placeholders (ok declared) =
    let names = comma_join (map input_name declared) in
    ok (if is_empty names then codes "none" else names)
