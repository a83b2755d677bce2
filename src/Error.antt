-- ===== src/Error.antt =====
-- The exceptions that the program raises or catches, by class; their messages are not modelled.
-- `backends/base.py` and `_sse.py` declare the backend's, the adapters their own, the others are
-- Home Assistant's, aiohttp's and Python's.
use llm_middleman.Base.{Bool, true, false}

pub data Class : Type 0 where
  backend_stream_error backend_connection_error backend_auth_error backend_status_error : Class
  backend_stream_auth_error n8n_webhook_error dify_app_error assistant_not_found_error : Class
  conversation_gone fields_rejected_error : Class
  -- `HomeAssistantError` with a translation of this integration, and any other one
  translated_error home_assistant_error converse_error : Class
  -- `aiohttp.ClientConnectionError`, its subclass `ServerTimeoutError`, and other `ClientError`s
  client_connection_error server_timeout_error client_error : Class
  timeout_error json_decode_error value_error key_error type_error attribute_error : Class
  -- `asyncio.CancelledError`
  cancelled_error : Class
  index_error other_error : Class

-- An exception, and what it was raised from (`__cause__`).
pub data Exc : Type 0 where
  raised : Class → Exc
  raised_from : Class → Exc → Exc

abbrev pub class_of : Exc → Class
class_of (raised c) = c
class_of (raised_from c e) = c

-- `isinstance(err, BackendAuthError)`: `BackendStreamAuthError` is one too.
abbrev pub is_auth_error : Class → Bool
is_auth_error backend_auth_error = true
is_auth_error backend_stream_auth_error = true
is_auth_error _ = false

-- `isinstance(err, BackendConnectionError)`
abbrev pub is_backend_connection_error : Class → Bool
is_backend_connection_error backend_connection_error = true
is_backend_connection_error backend_auth_error = true
is_backend_connection_error backend_status_error = true
is_backend_connection_error backend_stream_auth_error = true
is_backend_connection_error n8n_webhook_error = true
is_backend_connection_error dify_app_error = true
is_backend_connection_error assistant_not_found_error = true
is_backend_connection_error _ = false

-- `isinstance(err, aiohttp.ClientConnectionError)`
abbrev pub is_client_connection_error : Class → Bool
is_client_connection_error client_connection_error = true
is_client_connection_error server_timeout_error = true
is_client_connection_error _ = false

-- `isinstance(err, (TimeoutError, aiohttp.ClientError))`
abbrev pub is_transport_error : Class → Bool
is_transport_error client_connection_error = true
is_transport_error server_timeout_error = true
is_transport_error client_error = true
is_transport_error timeout_error = true
is_transport_error _ = false

-- `isinstance(err, ValueError)`; `json.JSONDecodeError` is one.
abbrev pub is_value_error : Class → Bool
is_value_error value_error = true
is_value_error json_decode_error = true
is_value_error _ = false

-- `except Exception` leaves `CancelledError` alone.
abbrev pub is_cancelled : Class → Bool
is_cancelled cancelled_error = true
is_cancelled _ = false
