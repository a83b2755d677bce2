-- ===== src/N8n/Request.antt =====
-- backends/n8n.py: the request of a turn (`_request_body`, `_request_headers`) and the probe of a
-- connection (`async_validate_connection`). `urlparse` and `aiohttp.encode_basic_auth` are
-- parameters. The fields of the connection and of the options, but for the URL, are texts, as the
-- forms store them.
use llm_middleman.Base.{
  ℕ, ◌-◌, String, Bool, false, not, ◌&&◌, ◌||◌, Option, none, some, List, [], ◌∷◌, ◌++◌, ltb, leb,
  ◌==◌, if◌then◌else◌, or_else, is_empty, any, Text, codes, ◌is◌, is_in,
}
use llm_middleman.Base.Dict
use llm_middleman.Base.Dict.{Dict}
use llm_middleman.Json.{Json, str, get, nonempty_str}
use llm_middleman.Error.{raised, backend_connection_error, backend_auth_error, n8n_webhook_error}
use llm_middleman.Fallible.{Result, ok, err, ◌>>=◌}
use llm_middleman.Backend.{is_auth_status, wrap_transport_error}
use llm_middleman.Base.White.{strip_text}

-- A field that holds a text.
unfoldable pub text_field : Json → Option Text
text_field (str t) = some t
text_field v = none

unfoldable pub field_or : String → String → Dict Json → Text
unfolding text_field
field_or key default values = or_else (text_field (get (codes key) values)) (codes default)

-- `if system_prompt: body["systemPrompt"] = system_prompt`
abbrev with_prompt : Option Text → Dict Text → Dict Text
with_prompt (some (c ∷ cs)) body = Dict.set (codes "systemPrompt") (c ∷ cs) body
with_prompt prompt body = body

-- `_request_body`, with the text of the turn and its memory key; every value is a text.
unfoldable pub request_body : Dict Json → Dict Json → Text → Text → Option Text → Dict Text
unfolding field_or
request_body connection_data options memory_key text system_prompt =
    let session_field = field_or "session_field" "sessionId" options in
    let input_field = field_or "input_field" "chatInput" options in
    let body = Dict.set input_field text (Dict.set session_field memory_key []) in
    with_prompt system_prompt (
      if field_or "target_type" "" connection_data is "webhook"
      then body
      else Dict.set (codes "action") (codes "sendMessage") body)

abbrev base_headers : Dict Text
base_headers =
    (codes "Content-Type", codes "application/json")
    ∷ (codes "Accept", codes "application/json-lines, application/json")
    ∷ []

-- `if name and value: headers[name] = value`
abbrev with_header : Text → Text → Dict Text
with_header (c ∷ cs) (d ∷ ds) = Dict.set (c ∷ cs) (d ∷ ds) base_headers
with_header name value = base_headers

-- The elements of `text.split(",")`.
abbrev onto_first : ℕ → List Text → List Text
onto_first c [] = (c ∷ []) ∷ []
onto_first c (part ∷ parts) = (c ∷ part) ∷ parts

unfoldable pub split_comma : Text → List Text
split_comma [] = [] ∷ []
split_comma (c ∷ cs) =
    let parts = split_comma cs in if c == b',' then [] ∷ parts else onto_first c parts

-- `text.upper()`, on the letters of ASCII.
unfoldable pub upper : Text → Text
upper [] = []
upper (c ∷ cs) = (if leb b'a' c && leb c b'z' then c - 32 else c) ∷ upper cs

unfoldable pub is_post : Text → Bool
unfolding strip_text upper
is_post m = upper (strip_text m) is "POST"

-- The header lists the methods of the path, and `POST` is not one of them.
unfoldable pub lists_no_post : Option Text → Bool
unfolding split_comma is_post
lists_no_post none = false
lists_no_post (some allowed) = not (any is_post (split_comma allowed))

-- What `urlparse` reads of a URL.
pub record ParsedUrl : Type 0 where
  pub scheme : Text
  pub netloc : Text
  pub path : Text

-- The answer to the `OPTIONS` request: its `Access-Control-Allow-Methods`, and its body, read or not.
pub record OptionsReply : Type 0 where
  pub status : ℕ
  pub allowed : Option Text
  pub body : Result Text

-- What the block of the request gives: the body is read on a 404 only.
unfoldable pub body_of : OptionsReply → Result Text
body_of r = if r.status == 404 then r.body else ok []

abbrev wrap_request {ℓ} : {A : Type ℓ} → Result A → Result A
wrap_request (ok a) = ok a
wrap_request (err e) = err (wrap_transport_error backend_connection_error e)

unfoldable pub is_unregistered : OptionsReply → Text → Bool
unfolding lists_no_post
is_unregistered r body =
    (r.status == 404 && is_in (codes "is not registered") body)
    || (leb 200 r.status && ltb r.status 300 && lists_no_post r.allowed)

-- What stands behind the request.
unfoldable pub judge : OptionsReply → Text → Result (Unit {0})
unfolding is_unregistered
judge r body =
    if is_auth_status r.status
    then err (raised backend_auth_error)
    else if is_unregistered r body
    then err (raised n8n_webhook_error)
    else ok tt

module _ (encode_basic_auth : Text → Text → Text) where
  -- `_request_headers`
  unfoldable pub request_headers : Dict Json → Dict Text
  unfolding field_or
  request_headers connection_data =
      let auth_type = field_or "auth_type" "none" connection_data in
      if auth_type is "custom_header"
      then with_header (field_or "header_name" "" connection_data)
          (field_or "header_value" "" connection_data)
      else if auth_type is "basic"
      then Dict.set (codes "Authorization")
          (encode_basic_auth (field_or "username" "" connection_data)
            (field_or "password" "" connection_data))
          base_headers
      else base_headers

  -- The headers of the probe.
  unfoldable pub probe_headers : ParsedUrl → Dict Json → Dict Text
  unfolding request_headers
  probe_headers parsed values =
      Dict.set (codes "Origin") (parsed.scheme ++ codes "://" ++ parsed.netloc)
        (request_headers values)

  -- The guards on the URL, with the request that the probe then sends.
  unfoldable pub probe_request : (Text → Result ParsedUrl) → Dict Json → Result (Text × Dict Text)
  unfolding probe_headers
  probe_request urlparse values = elim (nonempty_str (get (codes "webhook_url") values)) [
    | none ↦ err (raised backend_connection_error)
    | some url ↦ urlparse url >>= λ parsed.
        (if not (parsed.scheme is "http" || parsed.scheme is "https") || is_empty parsed.netloc
          then err (raised backend_connection_error)
          else if is_in (codes "/webhook-test/") parsed.path
          then err (raised n8n_webhook_error)
          else ok (url, probe_headers parsed values))
  ]

  -- `async_validate_connection`, with the reply to a request of these headers.
  unfoldable pub validate_connection :
      (Text → Result ParsedUrl)
      → (Text → Dict Text → Result OptionsReply)
      → Dict Json
      → Result (Unit {0})
  unfolding probe_request body_of judge
  validate_connection urlparse options values = probe_request urlparse values >>= λ (url, headers).
      wrap_request (options url headers >>= λ r. (body_of r >>= λ body. ok (r, body)))
      >>= λ (r, body). judge r body
