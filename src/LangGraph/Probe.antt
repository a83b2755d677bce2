-- ===== src/LangGraph/Probe.antt =====
-- backends/langgraph.py: the probe of a connection (`_probe_assistant`, `async_validate_connection`).
-- `uuid.UUID` and `response.json()` are parameters.
use llm_middleman.Base.{
  Bool, true, false, ◌||◌, Option, none, some, [], ◌∷◌, ◌++◌, leb, ◌==◌, if◌then◌else◌, Text, codes,
}
use llm_middleman.Json.{Json, arr, item, obj, int, to_fields, str}
use llm_middleman.Error.{
  backend_auth_error, backend_status_error, backend_connection_error, assistant_not_found_error,
  Exc, raised, raised_from, class_of, is_transport_error, is_value_error,
}
use llm_middleman.Backend.{Response, Reply, no_response, answer, is_auth_status}
use llm_middleman.Base.Int.{pos}
use llm_middleman.Url.{rstrip_slash, text_at, text_or}
use llm_middleman.Base.Dict.{Dict}
use llm_middleman.Fallible.{Result, ok, err}

-- `except (TimeoutError, aiohttp.ClientError, ValueError)`
abbrev pub wrap : Exc → Exc
wrap e =
    if is_transport_error (class_of e) || is_value_error (class_of e)
    then raised_from backend_connection_error e
    else e

abbrev pub wrap_result : Result Json → Result Json
wrap_result (ok v) = ok v
wrap_result (err e) = err (wrap e)

abbrev pub has_items : Json → Bool
has_items (arr (item x xs)) = true
has_items _ = false

abbrev pub found_one : Result Json → Result (Unit {0})
found_one (err e) = err e
found_one (ok found) = if has_items found then ok tt else err (raised assistant_not_found_error)

abbrev pub looked_up : Result Json → Result (Unit {0})
looked_up (err e) = err e
looked_up (ok found) = ok tt

module _ (response_json : Response → Result Json) where
  -- `_probe_assistant`, on the reply to its request.
  unfoldable pub probe_assistant : Reply → Result Json
  probe_assistant (no_response e) = err (wrap e)
  probe_assistant (answer r) =
      if is_auth_status r.status
      then err (raised backend_auth_error)
      else if r.status == 404
      then err (raised assistant_not_found_error)
      else if leb 400 r.status
      then err (raised backend_status_error)
      else wrap_result (response_json r)

-- A request of the probe: a `GET` where it has no body.
pub record ProbeRequest : Type 0 where
  pub url : Text
  pub body : Option Json

module _ (response_json : Response → Result Json) (str_of : Json → Text)
    (is_uuid : Text → Bool) where
  abbrev assistant_of : Dict Json → Text
  assistant_of values = text_or str_of (codes "assistant_id") (codes "agent") values

  -- A UUID is looked up, a graph id is searched for.
  unfoldable pub probe_request : Dict Json → ProbeRequest
  probe_request values =
      let base_url = rstrip_slash (text_at str_of (codes "base_url") [] values) in
      if is_uuid (assistant_of values)
      then record { url = base_url ++ codes "/assistants/" ++ assistant_of values; body = none }
      else record {
        url = base_url ++ codes "/assistants/search";
        body = some (
            obj (
              to_fields (
                (codes "graph_id", str (assistant_of values))
                ∷ (codes "limit", int (pos 1))
                ∷ [])));
      }

  -- `async_validate_connection`, on the reply to that request.
  unfoldable pub validate_connection : Dict Json → Reply → Result (Unit {0})
  unfolding probe_assistant
  validate_connection values reply =
      if is_uuid (assistant_of values)
      then looked_up (probe_assistant response_json reply)
      else found_one (probe_assistant response_json reply)
