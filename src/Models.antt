-- ===== src/Models.antt =====
-- The connection probes of the converse, OpenAI-compatible and Ollama adapters
-- (`async_validate_connection`, `_fetch_models`, `_async_get_models`, `async_list_models`), on the
-- reply to their request.
pub mod Lists
use llm_middleman.Base.{ℕ, String, true, Option, List, [], ◌∷◌, if◌then◌else◌, or_else, Text, codes}
use llm_middleman.Base.Dict
use llm_middleman.Base.Dict.{Dict}
use llm_middleman.Json.{Json, str, arr, nil, get, object_or_empty}
use llm_middleman.Error.{backend_auth_error, backend_connection_error, raised}
use llm_middleman.Fallible.{Result, ok, err, ◌>>=◌}
use llm_middleman.Backend.{
  Reply, no_response, answer, is_auth_status, wrap_transport_error, probe_json,
}
use llm_middleman.OpenAi.Calls.{iterate}
use llm_middleman.Ollama.Calls.{index}

-- `ConverseAdapter.async_validate_connection`: the status of an accepted probe.
unfoldable pub validate_converse : Reply → Result ℕ
validate_converse (no_response e) = err (wrap_transport_error backend_connection_error e)
validate_converse (answer r) =
    if is_auth_status r.status then err (raised backend_auth_error) else ok r.status

-- `payload.get(key, [])`
abbrev pub get_list : String → Dict Json → Json
get_list key payload = or_else (Dict.get (codes key) payload) (arr nil)

abbrev add_id : Json → List Text → List Text
add_id (str t) ids = t ∷ ids
add_id v ids = ids

-- The ids of the entries that have one.
unfoldable pub ids_of : List Json → List Text
ids_of [] = []
ids_of (entry ∷ entries) = add_id (get (codes "id") (object_or_empty entry)) (ids_of entries)

-- `model["model"]` of each entry.
unfoldable pub names_of : List Json → Result (List Json)
names_of [] = ok []
names_of (entry ∷ entries) = do
  name ← index (codes "model") entry
  rest ← names_of entries
  ok (name ∷ rest)

module _ (loads : Text → Option Json) where
  -- `OpenAICompatAdapter._fetch_models`
  unfoldable pub fetch_models : Reply → Result (List Text)
  unfolding ids_of
  fetch_models reply = do
    payload ← probe_json loads true reply
    entries ← iterate (get_list "data" payload)
    ok (ids_of entries)

  -- `OllamaAdapter._async_get_models`
  unfoldable pub get_models : Reply → Result Json
  get_models reply = do payload ← probe_json loads true reply; ok (get_list "models" payload)

  -- `OllamaAdapter.async_list_models`
  unfoldable pub list_models : Reply → Result (List Json)
  unfolding get_models names_of
  list_models reply = do models ← get_models reply; entries ← iterate models; names_of entries
