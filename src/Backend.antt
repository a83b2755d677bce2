-- ===== src/Backend.antt =====
-- backends/base.py: requests to a backend and their errors, the fields that the adapters share, and
-- the external tool deltas of backends/_compat.py. aiohttp is a parameter: a reply is what a request
-- to the server comes back with. What is logged is not modelled.
pub mod Probe
use llm_middleman.Base.{
  ℕ, Bool, true, not, ◌||◌, Option, none, some, List, [], ◌∷◌, leb, ◌==◌, if◌then◌else◌, or_else,
  Bytes, Text, codes,
}
use llm_middleman.Base.Dict.{Dict}
use llm_middleman.Base.Int.{ℤ}
use llm_middleman.Json.{Json, json_object}
use llm_middleman.Error.{
  Class, backend_stream_auth_error, backend_auth_error, backend_status_error,
  backend_connection_error, value_error, Exc, raised, raised_from, class_of, is_transport_error,
}
use llm_middleman.Fallible.{Result, ok, err}
use llm_middleman.Stream.{Delta, external_call, tool_result, Ending}

-- An HTTP response: its status, its body as a text, and as the chunks that it is streamed in.
pub record Response : Type 0 where
  pub status : ℕ
  pub body_text : Text
  pub content_type : Text
  pub chunks : List Bytes
  pub ending : Ending

-- The request failed, or was answered.
pub data Reply : Type 0 where
  no_response : Exc → Reply
  answer : Response → Reply

-- A pre-check of an error status: the error that it raises, if it does.
abbrev pub ErrorStatusHook : Type 0
ErrorStatusHook = Response → Option Exc

abbrev pub no_hook : ErrorStatusHook
no_hook r = none

abbrev pub is_auth_status : ℕ → Bool
is_auth_status status = status == 401 || status == 403

-- The error of an error status behind the hook.
abbrev pub status_error : Class → ℕ → Class
status_error error_cls status =
    if is_auth_status status then backend_stream_auth_error else error_cls

-- `_post_checked`
unfoldable pub post_checked : Class → ErrorStatusHook → Reply → Result Response
post_checked error_cls hook (no_response e) = err e
post_checked error_cls hook (answer r) =
    if leb 400 r.status
    then elim (hook r) [ some e ↦ err e | none ↦ err (raised (status_error error_cls r.status)) ]
    else ok r

-- A transport error is wrapped as `BackendConnectionError`; any other error passes.
unfoldable pub wrap_transport_error : Class → Exc → Exc
wrap_transport_error cls e = if is_transport_error (class_of e) then raised_from cls e else e

-- `probe_json`: `loads` is `response.json()`, `none` for a `ValueError`.
unfoldable pub probe_json : (Text → Option Json) → Bool → Reply → Result (Dict Json)
unfolding wrap_transport_error
probe_json loads parse (no_response e) = err (wrap_transport_error backend_connection_error e)
probe_json loads parse (answer r) =
    if is_auth_status r.status
    then err (raised backend_auth_error)
    else if leb 400 r.status
    then err (raised backend_status_error)
    else if not parse
    then ok []
    else elim (loads r.body_text) [
      | none ↦ err (raised_from backend_connection_error (raised value_error))
      | some v ↦ elim (json_object v) [
        | none ↦ err (raised backend_connection_error)
        | some d ↦ ok d
      ]
    ]

-- What an adapter records on the conversation trace: `trace_token_stats`, `record_truncation`, and
-- the other records by name.
pub data Trace : Type 0 where
  stats : ℤ → Option ℤ → ℤ → Option ℤ → Trace
  finish_reason : Text → Trace
  record_of : Text → List (Dict Json) → Trace

-- `external_tool_call_delta`
abbrev pub external_tool_call_delta : Text → Text → Dict Json → Delta
external_tool_call_delta call_id name args =
    external_call (record { id = call_id; tool_name = name; tool_args = args; external = true })

-- `external_tool_result_delta`: a result that is no object is wrapped in one.
abbrev pub external_tool_result_delta : Text → Text → Json → Bool → Delta
external_tool_result_delta call_id name result error =
    tool_result call_id name (or_else (json_object result) ((codes "result", result) ∷ [])) error

-- What a turn has come to: the deltas and their end, the trace, and `ctx.continue_conversation`.
pub record TurnEnd : Type 0 where
  pub deltas : List Delta
  pub ending : Ending
  pub traced : List Trace
  pub continue_conversation : Bool
