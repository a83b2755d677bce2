-- ===== src/Dify/Request.antt =====
-- backends/dify.py: the request of a turn and its inputs (`_build_inputs`, `_declared_inputs`,
-- `_ha_context`, `_end_user`, the body of `stream_turn`), and the connection probe
-- (`_fetch_parameters`, `async_validate_connection`, `async_fetch_input_form`). A time is in
-- milliseconds; the area of a device is Home Assistant's.
use llm_middleman.Base.{
  ℕ, ◌-◌, String, Bool, true, false, not, ◌||◌, Option, none, some, [], ◌∷◌, ◌++◌, ltb, leb,
  if◌then◌else◌, or_else, Text, codes, ◌is◌,
}
use llm_middleman.Base.Dict
use llm_middleman.Base.Dict.{Dict}
use llm_middleman.Json.{Json, bool, str, obj, get, truthy, fields, to_fields, loads_json_object}
use llm_middleman.Error.{
  raised, class_of, is_backend_connection_error, backend_auth_error, backend_status_error,
  backend_connection_error, dify_app_error,
}
use llm_middleman.Fallible.{Result, ok, err, ◌>>=◌}
use llm_middleman.Backend.{
  Reply, no_response, answer, is_auth_status, wrap_transport_error, probe_json,
}
use llm_middleman.Dify.{parse_user_input_form, fit_input}

abbrev str_is : Json → String → Bool
str_is (str t) s = t is s
str_is v s = false

-- `_CHAT_APP_MODES`
abbrev is_chat_mode : Text → Bool
is_chat_mode t = t is "chat" || t is "agent-chat" || t is "advanced-chat" || t is "agent"

-- `isinstance(mode, str) and mode not in _CHAT_APP_MODES`
abbrev pub refuses_mode : Json → Bool
refuses_mode (str mode) = not (is_chat_mode mode)
refuses_mode v = false

abbrev parameters_of : ℕ → Option (Dict Json) → Result (Dict Json)
parameters_of status payload =
    if leb 400 status
    then if str_is (get (codes "code") (or_else payload [])) "agent_not_published"
      then err (raised dify_app_error)
      else err (raised backend_status_error)
    else elim payload [ none ↦ err (raised backend_connection_error) | some d ↦ ok d ]

-- `_end_user`
unfoldable pub end_user : Dict Json → Option Text → Text
end_user options (some (c ∷ cs)) =
    if truthy (get (codes "dify_user_from_ha") options) then c ∷ cs else codes "home-assistant"
end_user options _ = codes "home-assistant"

-- The values that the app's variables `ha_*` take.
pub record HaContext : Type 0 where
  pub language : Option Text
  pub device_id : Option Text
  pub area : Option Text
  pub satellite_id : Option Text
  pub extra_system_prompt : Option Text

abbrev sources : HaContext → Dict (Option Text)
sources c =
    (codes "ha_language", c.language)
    ∷ (codes "ha_device_id", c.device_id)
    ∷ (codes "ha_area", c.area)
    ∷ (codes "ha_satellite_id", c.satellite_id)
    ∷ (codes "ha_extra_system_prompt", c.extra_system_prompt)
    ∷ []

-- A source that the app declares and that has a text, fitted to its control.
abbrev input_of : Text → Option Text → Option (Dict Json) → Dict Json
input_of variable (some (c ∷ cs)) (some control) = (variable, str (fit_input (c ∷ cs) control)) ∷ []
input_of variable value control = []

unfoldable pub ha_inputs : Dict (Option Text) → Dict (Dict Json) → Dict Json
ha_inputs [] declared = []
ha_inputs ((variable, value) ∷ values) declared =
    input_of variable value (Dict.get variable declared) ++ ha_inputs values declared

-- `inputs.update(static)`
unfoldable pub update : Dict Json → Dict Json → Dict Json
update inputs [] = inputs
update inputs ((key, v) ∷ static) = update (Dict.set key v inputs) static

abbrev static_inputs : Json → Dict Json
static_inputs (obj fs) = fields fs
static_inputs v = []

-- `_build_inputs`, of the variables that the app declares.
unfoldable pub build_inputs : Dict Json → HaContext → Dict (Dict Json) → Dict Json
unfolding ha_inputs update
build_inputs options context declared =
    let inputs =
      if truthy (get (codes "dify_ha_context") options)
      then ha_inputs (sources context) declared
      else [] in
    update inputs (static_inputs (get (codes "dify_inputs") options))

-- The body of a turn's request, with the conversation that it goes on with.
unfoldable pub turn_body : Text → Dict Json → Text → Option Text → Dict Json
turn_body query inputs user conversation_id =
    (codes "query", str query)
    ∷ (codes "inputs", obj (to_fields inputs))
    ∷ (codes "response_mode", str (codes "streaming"))
    ∷ (codes "user", str user)
    ∷ (codes "auto_generate_name", bool false)
    ∷ elim conversation_id [ none ↦ [] | some id ↦ (codes "conversation_id", str id) ∷ [] ]

-- `_form_cache`: when the form was fetched, and what it declares.
abbrev pub FormCache : Type 0
FormCache = Option (ℕ × Dict (Dict Json))

abbrev pub parameters_ttl : ℕ
parameters_ttl = 300000

abbrev pub cached : ℕ → FormCache → Option (Dict (Dict Json))
cached now none = none
cached now (some (fetched_at, declared)) =
    if ltb (now - fetched_at) parameters_ttl then some declared else none

module _ (loads : Text → Option Json) where
  -- `_fetch_parameters`
  unfoldable pub fetch_parameters : Reply → Result (Dict Json)
  fetch_parameters (no_response e) = err (wrap_transport_error backend_connection_error e)
  fetch_parameters (answer r) =
      if is_auth_status r.status
      then err (raised backend_auth_error)
      else parameters_of r.status (loads_json_object loads r.body_text)

  -- `async_validate_connection`, on the replies of `/info` and of `/parameters`.
  unfoldable pub validate_dify : Reply → Reply → Result (Dict Json)
  unfolding fetch_parameters
  validate_dify info parameters =
      let fetched = fetch_parameters parameters in
      probe_json loads true info >>= λ payload.
      (if refuses_mode (get (codes "mode") payload) then err (raised dify_app_error) else fetched)

  -- `async_fetch_input_form`
  unfoldable pub fetch_input_form : Reply → Result (Dict (Dict Json))
  unfolding fetch_parameters
  fetch_input_form reply = fetch_parameters reply >>= λ params.
      ok (parse_user_input_form (get (codes "user_input_form") params))

  abbrev after_fetch :
      ℕ → FormCache → Result (Dict (Dict Json)) → Result (Dict (Dict Json)) × FormCache
  after_fetch now cache (ok declared) = (ok declared, some (now, declared))
  after_fetch now cache (err e) =
      if is_backend_connection_error (class_of e) then (ok [], cache) else (err e, cache)

  -- `_declared_inputs`: a fetch that fails declares nothing, and is not kept.
  unfoldable pub declared_inputs : ℕ → FormCache → Reply → Result (Dict (Dict Json)) × FormCache
  unfolding fetch_input_form
  declared_inputs now cache reply =
      let fetched = after_fetch now cache (fetch_input_form reply) in
      elim (cached now cache) [ some declared ↦ (ok declared, cache) | none ↦ fetched ]
