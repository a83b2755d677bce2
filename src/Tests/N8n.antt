-- ===== src/Tests/N8n.antt =====
-- The request and the probe of the n8n adapter at concrete inputs.
use llm_middleman.Base.{
  ◌≡◌, refl, none, some, [], ◌∷◌, ◌++◌, Text, codes, text_eq, starts_with, is_in,
}
use llm_middleman.Base.Dict
use llm_middleman.Base.Dict.{Dict}
use llm_middleman.Json.{Json, str}
use llm_middleman.Error.{raised, n8n_webhook_error}
use llm_middleman.Fallible.{Result, ok, err}
use llm_middleman.N8n.Request.{
  text_field, field_or, request_body, split_comma, upper, is_post, lists_no_post, ParsedUrl,
  OptionsReply, body_of, is_unregistered, judge, request_headers, probe_headers, probe_request,
  validate_connection,
}
use llm_middleman.Base.White.{lstrip, rstrip, strip_text}

abbrev url : Text
url = codes "http://h/webhook/1"

abbrev url_parts : ParsedUrl
url_parts = record { scheme = codes "http"; netloc = codes "h"; path = codes "/webhook/1" }

abbrev connection : Dict Json
connection =
    (codes "webhook_url", str url)
    ∷ (codes "auth_type", str (codes "basic"))
    ∷ (codes "username", str (codes "u"))
    ∷ []

abbrev urlparse : Text → Result ParsedUrl
urlparse t = ok url_parts

abbrev basic_auth : Text → Text → Text
basic_auth u p = u ++ codes ":" ++ p

abbrev answered : Text → Text → Dict Text → Result OptionsReply
answered methods t headers = ok record { status = 204; allowed = some methods; body = ok [] }

request_body_run :
    request_body connection [] (codes "k") (codes "hi") none
    ≡ (codes "sessionId", codes "k")
      ∷ (codes "chatInput", codes "hi")
      ∷ (codes "action", codes "sendMessage")
      ∷ []
unfolding request_body field_or text_field Dict.set Dict.get text_eq
request_body_run = refl

probe_headers_run :
    probe_headers basic_auth url_parts connection
    ≡ (codes "Content-Type", codes "application/json")
      ∷ (codes "Accept", codes "application/json-lines, application/json")
      ∷ (codes "Authorization", codes "u:")
      ∷ (codes "Origin", codes "http://h")
      ∷ []
unfolding probe_headers request_headers field_or text_field Dict.set Dict.get text_eq
probe_headers_run = refl

validate_connection_run :
    validate_connection basic_auth urlparse (answered (codes "OPTIONS, post")) connection ≡ ok tt
unfolding validate_connection probe_request probe_headers request_headers field_or text_field
    Dict.set Dict.get text_eq is_in starts_with body_of judge is_unregistered lists_no_post is_post
    split_comma lstrip rstrip strip_text upper
validate_connection_run = refl

validate_connection_unregistered :
    validate_connection basic_auth urlparse (answered (codes "OPTIONS,GET")) connection
    ≡ err (raised n8n_webhook_error)
unfolding validate_connection probe_request probe_headers request_headers field_or text_field
    Dict.set Dict.get text_eq is_in starts_with body_of judge is_unregistered lists_no_post is_post
    split_comma lstrip rstrip strip_text upper
validate_connection_unregistered = refl
