-- ===== src/Models/Lists.antt =====
-- How the probe of a converse backend fails.
use llm_middleman.Base.{ℕ, ◌≡◌, refl, Bool, true, false, arith}
use llm_middleman.Error.{class_of, is_auth_error, is_backend_connection_error}
use llm_middleman.Fallible.{Result, ok, err}
use llm_middleman.Backend.{Reply, no_response, answer, wrap_transport_error}
use llm_middleman.Backend.Probe.{FailsInTransport, rejects}
use llm_middleman.Models.{validate_converse}

abbrev pub is_answered : Reply → Bool
is_answered (no_response e) = false
is_answered (answer r) = true

-- A probe that passes was answered, and not rejected; one that fails raises an error of the config
-- flow, for a rejected credential if it was rejected.
abbrev pub Validates : Reply → Result ℕ → Type 0
Validates reply (ok status) = (is_answered reply ≡ true) × (rejects reply ≡ false)
Validates reply (err e) =
    (is_backend_connection_error (class_of e) ≡ true) × (is_auth_error (class_of e) ≡ rejects reply)

-- The probe of a converse backend passes on every answer but 401 and 403; a timeout or a
-- `ClientError`, the only failures that aiohttp documents, raises a `BackendConnectionError` that
-- is no `BackendAuthError`, and 401 and 403 raise one that is.
pub validate_converse-Validates :
    (reply : Reply) → FailsInTransport reply → Validates reply (validate_converse reply)
unfolding validate_converse wrap_transport_error
validate_converse-Validates (no_response e) h = rw h (refl, refl)
validate_converse-Validates (answer r) h = ground arith
