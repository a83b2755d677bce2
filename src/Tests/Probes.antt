-- ===== src/Tests/Probes.antt =====
-- Probes at concrete inputs.
use llm_middleman.Base.{
  ◌≡◌, refl, Option, none, some, [], ◌∷◌, if◌then◌else◌, Text, codes, text_eq, ◌is◌,
}
use llm_middleman.Base.Dict
use llm_middleman.Json.{Json, str, arr, nil, item, obj, field, end}
use llm_middleman.Error.{raised, raised_from, backend_connection_error, client_connection_error}
use llm_middleman.Fallible.{ok, err}
use llm_middleman.Stream.{finished}
use llm_middleman.Backend.{Response, answer, no_response}
use llm_middleman.Models.{validate_converse, fetch_models}

validate_converse_run :
    validate_converse (no_response (raised client_connection_error))
    ≡ err (raised_from backend_connection_error (raised client_connection_error))
unfolding validate_converse llm_middleman.Backend.wrap_transport_error
validate_converse_run = refl

abbrev response : Response
response = record {
  status = 200;
  body_text = codes "models";
  content_type = codes "application/json";
  chunks = [];
  ending = finished;
}

-- One entry with an id, and one that is no object.
abbrev loads : Text → Option Json
loads t =
    if t is "models"
    then some (
        obj (
          field (codes "data")
            (arr
              (item (obj (field (codes "id") (str (codes "m")) end)) (item (str (codes "x")) nil)))
            end))
    else none

fetch_models_run : fetch_models loads (answer response) ≡ ok (codes "m" ∷ [])
unfolding fetch_models llm_middleman.Backend.probe_json text_eq llm_middleman.OpenAi.Calls.iterate
    Dict.get
fetch_models_run = refl
