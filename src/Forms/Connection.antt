-- ===== src/Forms/Connection.antt =====
-- config_flow.py: the forms of a connection (`_openai_compat_schema`, `_langgraph_schema`,
-- `_ollama_schema`, `_converse_schema`, `_dify_schema`, `_n8n_schema`) and of the re-authentication
-- (`_reauth_schema`).
use llm_middleman.Base.{
  String, Bool, false, Option, none, some, [], ◌∷◌, if◌then◌else◌, codes, ◌is◌,
}
use llm_middleman.Base.Dict.{Dict}
use llm_middleman.Json.{Json, str, get}
use llm_middleman.Registry.{Backend, openai_compat, langgraph, ollama, converse, n8n, dify}
use llm_middleman.Forms.{
  plain, url, password, Selector, text, blank, default_value, Schema, required, optional, drop_down,
}

-- `_password_field`, `_url_field`
abbrev pub password_field : Selector
password_field = text password

abbrev pub url_field : Selector
url_field = text url

-- The schema of a preset's connection step.
unfoldable pub connection_schema : Backend → Schema
connection_schema openai_compat =
    required "base_url" blank url_field ∷ optional "api_key" blank password_field ∷ []
connection_schema langgraph =
    required "base_url" blank url_field
    ∷ optional "api_key" blank password_field
    ∷ required "auth_scheme" (default_value (str (codes "x_api_key")))
        (drop_down (codes "x_api_key" ∷ codes "bearer" ∷ []))
    ∷ required "assistant_id" (default_value (str (codes "agent"))) (text plain)
    ∷ []
connection_schema ollama =
    required "base_url" blank url_field ∷ optional "api_key" blank password_field ∷ []
connection_schema converse =
    required "base_url" blank url_field ∷ optional "token" blank password_field ∷ []
connection_schema dify =
    required "base_url" blank url_field ∷ required "api_key" blank password_field ∷ []
connection_schema n8n =
    required "webhook_url" blank url_field
    ∷ required "target_type" (default_value (str (codes "chat_trigger")))
        (drop_down (codes "chat_trigger" ∷ codes "webhook" ∷ []))
    ∷ required "auth_type" (default_value (str (codes "none")))
        (drop_down (codes "none" ∷ codes "basic" ∷ codes "custom_header" ∷ []))
    ∷ optional "username" blank (text plain)
    ∷ optional "password" blank password_field
    ∷ optional "header_name" blank (text plain)
    ∷ optional "header_value" blank password_field
    ∷ []

abbrev str_is : Json → String → Bool
str_is (str t) s = t is s
str_is v s = false

abbrev n8n_reauth : Json → Option Schema
n8n_reauth auth_type =
    if str_is auth_type "basic"
    then some
        (required "username" blank (text plain) ∷ required "password" blank password_field ∷ [])
    else if str_is auth_type "custom_header"
    then some (
        required "header_name" blank (text plain)
        ∷ required "header_value" blank password_field
        ∷ [])
    else none

-- `_reauth_schema`; a value that is no text is no authentication.
unfoldable pub reauth_schema : Backend → Dict Json → Option Schema
reauth_schema n8n entry_data = n8n_reauth (get (codes "auth_type") entry_data)
reauth_schema converse entry_data = some (optional "token" blank password_field ∷ [])
reauth_schema dify entry_data = some (required "api_key" blank password_field ∷ [])
reauth_schema _ entry_data = some (optional "api_key" blank password_field ∷ [])
