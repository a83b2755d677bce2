-- ===== src/ConfigFlow.antt =====
-- config_flow.py: what the steps of the flow do with what the user submits: the connection step
-- (`_async_connection_step`), the re-authentication (`async_step_reauth_confirm`), the options of
-- an agent (`async_step_set_options`, `_valid_dify_inputs`). The forms are in Forms, and their
-- sequence is in Flow. Parameters: the connection probe of the adapter, Python's `str`, the key
-- that an error carries (`err.error_key`), and whether Home Assistant finds an entry with the same
-- data.
pub mod Connection
pub mod Flow
pub mod Entries
pub mod Saved
use llm_middleman.Base.{
  Bool, true, false, not, ◌&&◌, Option, none, some, List, [], ◌∷◌, ◌++◌, if◌then◌else◌, is_empty,
  Text, codes,
}
use llm_middleman.Base.Dict
use llm_middleman.Base.Dict.{Dict}
use llm_middleman.Json.{Json, null, bool, int, float, str, obj, get, fields}
use llm_middleman.Error.{
  Class, Exc, raised, class_of, key_error, is_cancelled, is_auth_error, dify_app_error,
  n8n_webhook_error, assistant_not_found_error, is_backend_connection_error,
}
use llm_middleman.Fallible.{Result, ok, err}
use llm_middleman.Registry.{
  Backend, openai_compat, langgraph, ollama, converse, n8n, dify, backend_name,
}
use llm_middleman.Forms.{keys_of}
use llm_middleman.Forms.Connection.{reauth_schema}
use llm_middleman.Url.{rstrip_slash, removesuffix, ends_with_text, as_text}

-- `_BACKEND_TITLES`
abbrev pub backend_title : Backend → Text
backend_title openai_compat = codes "OpenAI-compatible"
backend_title langgraph = codes "LangGraph"
backend_title ollama = codes "Ollama"
backend_title converse = codes "Custom /v1/converse"
backend_title n8n = codes "n8n"
backend_title dify = codes "Dify"

abbrev pub v1 : Text
v1 = codes "/v1"

-- The base URL as it is stored; the URL of an n8n webhook is not touched.
unfoldable pub normalize : Backend → Text → Text
normalize openai_compat url = removesuffix v1 (rstrip_slash url)
normalize dify url =
    let stripped = rstrip_slash url in
    if ends_with_text v1 stripped then stripped else stripped ++ v1
normalize n8n url = url
normalize _ url = rstrip_slash url

abbrev pub has_base_url : Backend → Bool
has_base_url n8n = false
has_base_url _ = true

-- What a step shows or does: the form again, with the error of a field; a new entry; an entry saved,
-- reloaded here or by its listener; an abort; or an exception.
pub data StepResult : Type 0 where
  show_form : Option (Text × Text) → StepResult
  create_entry : Json → Dict Json → StepResult
  update_entry : Bool → Dict Json → StepResult
  abort : Text → StepResult
  raises : Exc → StepResult

pub data Source : Type 0 where
  user reconfigure : Source

abbrev unknown_error : Exc → StepResult
unknown_error e =
    if is_cancelled (class_of e) then raises e else show_form (some (codes "base", codes "unknown"))

abbrev is_keyed : Class → Bool
is_keyed dify_app_error = true
is_keyed n8n_webhook_error = true
is_keyed _ = false

abbrev is_assistant_error : Class → Bool
is_assistant_error assistant_not_found_error = true
is_assistant_error _ = false

-- The fields of `_reauth_schema`, none if the entry has no credential.
unfoldable pub reauth_fields : Backend → Dict Json → Option (List Text)
unfolding reauth_schema
reauth_fields b entry_data = elim (reauth_schema b entry_data) [
  | none ↦ none
  | some schema ↦ some (keys_of schema)
]

unfoldable pub without_keys : List Text → Dict Json → Dict Json
without_keys [] values = values
without_keys (k ∷ ks) values = without_keys ks (Dict.pop k values)

-- `values | other`
unfoldable pub merge : Dict Json → Dict Json → Dict Json
merge values [] = values
merge values ((k, v) ∷ other) = merge (Dict.set k v values) other

-- `_valid_dify_inputs`
abbrev is_scalar : Json → Bool
is_scalar (str t) = true
is_scalar (int n) = true
is_scalar (float m e) = true
is_scalar (bool b) = true
is_scalar _ = false

unfoldable pub all_inputs : Dict Json → Bool
all_inputs [] = true
all_inputs ((key, v) ∷ inputs) =
    let others = all_inputs inputs in not (is_empty key) && is_scalar v && others

unfoldable pub valid_dify_inputs : Json → Bool
unfolding all_inputs
valid_dify_inputs null = true
valid_dify_inputs (obj fs) = all_inputs (fields fs)
valid_dify_inputs _ = false

-- `async_step_set_options`: whether the connection is loaded, whether the agent is new, and what was
-- submitted.
unfoldable pub set_options : Bool → Bool → Option (Dict Json) → StepResult
unfolding valid_dify_inputs
set_options false is_new submitted = abort (codes "entry_not_loaded")
set_options true is_new none = show_form none
set_options true is_new (some values) =
    if not (valid_dify_inputs (get (codes "dify_inputs") values))
    then show_form (some (codes "dify_inputs", codes "invalid_dify_inputs"))
    else if is_new
    then elim (Dict.get (codes "name") values) [
      | none ↦ raises (raised key_error)
      | some name ↦ create_entry name (Dict.pop (codes "name") values)
    ]
    else update_entry false values

module _ (str_of : Json → Text) (error_key : Exc → Text) (validate : Dict Json → Result (Unit {0}))
    (has_match : Dict Json → Bool) where
  -- The error that the connection step shows.
  unfoldable pub connection_error : Exc → StepResult
  connection_error e =
      let unknown = unknown_error e in
      if is_auth_error (class_of e)
      then show_form (some (codes "base", codes "invalid_auth"))
      else if is_keyed (class_of e)
      then show_form (some (codes "base", error_key e))
      else if is_assistant_error (class_of e)
      then show_form (some (codes "assistant_id", codes "assistant_not_found"))
      else if is_backend_connection_error (class_of e)
      then show_form (some (codes "base", codes "cannot_connect"))
      else unknown

  unfoldable pub normalized : Backend → Dict Json → Option (Dict Json)
  unfolding normalize
  normalized b values =
      if has_base_url b
      then elim (Dict.get (codes "base_url") values) [
        | none ↦ none
        | some v ↦ some (Dict.set (codes "base_url") (str (normalize b (as_text str_of v))) values)
      ]
      else some values

  abbrev pub entry_data_of : Backend → Dict Json → Dict Json
  entry_data_of b values = merge ((codes "backend_type", str (backend_name b)) ∷ []) values

  abbrev pub save : Backend → Source → Bool → Dict Json → StepResult
  save b reconfigure listened values = update_entry (not listened) (entry_data_of b values)
  save b user listened values =
      if has_match (entry_data_of b values)
      then abort (codes "already_configured")
      else create_entry (str (backend_title b)) (entry_data_of b values)

  abbrev pub after_probe : Backend → Source → Bool → Dict Json → Result (Unit {0}) → StepResult
  after_probe b source listened values (ok _) = save b source listened values
  after_probe b source listened values (err e) = connection_error e

  -- On the values with their URL as it is stored, if there is one.
  abbrev pub probe_with : Backend → Source → Bool → Option (Dict Json) → StepResult
  probe_with b source listened none = raises (raised key_error)
  probe_with b source listened (some values) =
      after_probe b source listened values (validate values)

  -- `_async_connection_step`; `listened` is whether the entry has an update listener.
  unfoldable pub connection_step : Backend → Source → Bool → Option (Dict Json) → StepResult
  unfolding normalized connection_error merge
  connection_step b source listened none = show_form none
  connection_step b source listened (some values) =
      probe_with b source listened (normalized b values)

  abbrev pub reauth_error : Exc → StepResult
  reauth_error e =
      let unknown = unknown_error e in
      if is_auth_error (class_of e)
      then show_form (some (codes "base", codes "invalid_auth"))
      else if is_backend_connection_error (class_of e)
      then show_form (some (codes "base", codes "cannot_connect"))
      else unknown

  abbrev pub after_reauth : Bool → Dict Json → Result (Unit {0}) → StepResult
  after_reauth listened values (ok _) = update_entry (not listened) values
  after_reauth listened values (err e) = reauth_error e

  -- On the credential fields of the entry: one that is left empty is cleared.
  abbrev pub reauth_with : Dict Json → Bool → Option (List Text) → Option (Dict Json) → StepResult
  reauth_with entry_data listened none submitted = abort (codes "reauth_not_supported")
  reauth_with entry_data listened (some keys) none = show_form none
  reauth_with entry_data listened (some keys) (some values) =
      let values' = merge (without_keys keys entry_data) values in
      after_reauth listened values' (validate values')

  -- `async_step_reauth_confirm`, of an entry with its data.
  unfoldable pub reauth_confirm : Backend → Dict Json → Bool → Option (Dict Json) → StepResult
  unfolding reauth_fields without_keys merge
  reauth_confirm b entry_data listened submitted =
      reauth_with entry_data listened (reauth_fields b entry_data) submitted
