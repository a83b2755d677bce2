-- ===== src/Backend/Probe.antt =====
-- How a connection probe fails.
use llm_middleman.Base.{
  ◌≡◌, refl, Bool, true, false, Option, none, some, [], arith, leb, if◌then◌else◌, or_else, Text,
}
use llm_middleman.Base.Dict.{Dict}
use llm_middleman.Json.{Json, json_object}
use llm_middleman.Error.{class_of, is_auth_error, is_transport_error, is_backend_connection_error}
use llm_middleman.Fallible.{Result, ok, err}
use llm_middleman.Backend.{
  Reply, no_response, answer, is_auth_status, wrap_transport_error, probe_json,
}

-- The failure of a request that aiohttp documents: a timeout or a `ClientError`.
abbrev pub FailsInTransport : Reply → Type 0
FailsInTransport (no_response e) = is_transport_error (class_of e) ≡ true
FailsInTransport (answer r) = Unit {0}

abbrev pub rejects : Reply → Bool
rejects (no_response e) = false
rejects (answer r) = is_auth_status r.status

-- The object that a probe returns, `none` if it is to fail.
abbrev pub probed : (Text → Option Json) → Bool → Reply → Option (Dict Json)
probed loads parse (no_response e) = none
probed loads parse (answer r) =
    if leb 400 r.status
    then none
    else if parse
    then or_else (elim (loads r.body_text) [ none ↦ none | some v ↦ some (json_object v) ]) none
    else some []

-- What a probe comes to.
abbrev pub Probes : Option (Dict Json) → Bool → Result (Dict Json) → Type 0
Probes o rejected (ok d) = o ≡ some d
Probes o rejected (err e) =
    (o ≡ none)
    × (is_backend_connection_error (class_of e) ≡ true)
    × (is_auth_error (class_of e) ≡ rejected)

-- If a request fails only by a timeout or a `ClientError`: a probe that the server answers with a
-- status below 400, and, where the body is parsed, with a JSON object, returns that object. Every
-- other probe raises a `BackendConnectionError`, whether the request failed in transport, the
-- status is an error, or the body is no object; and that error is a `BackendAuthError` exactly if
-- the status is 401 or 403.
pub probe_json-Probes :
    (loads : Text → Option Json) (parse : Bool) (reply : Reply)
    → FailsInTransport reply
    → Probes (probed loads parse reply) (rejects reply) (probe_json loads parse reply)
unfolding probe_json wrap_transport_error
probe_json-Probes loads parse (no_response e) h = rw h (refl, refl, refl)
probe_json-Probes loads parse (answer r) h = ground arith
