-- ===== src/Messages/Body.antt =====
-- The request bodies: `_build_body` of backends/openai_compat.py, `_build_request` and `_think` of
-- backends/ollama.py, and `format_function_tool` of backends/_tools.py. Python's `int`, `float` and
-- `str` of an option, which may raise, and what Home Assistant renders of a schema are parameters.
use llm_middleman.Base.{
  ℕ, zero, suc, String, Bool, true, false, not, ◌||◌, Option, none, some, List, [], ◌∷◌, ◌++◌, map,
  if◌then◌else◌, or_else, is_empty, Text, codes, ◌is◌,
}
use llm_middleman.Base.Int.{ℤ, pos, negsuc, pos_part}
use llm_middleman.Base.Decimal.{decimal}
use llm_middleman.Base.Dict
use llm_middleman.Base.Dict.{Dict}
use llm_middleman.Json.{Json, null, bool, int, str, get, truthy}
use llm_middleman.Fallible.{Result, ok, ◌>>=◌}
use llm_middleman.History.{Message}
use llm_middleman.Replay.{Content}
use llm_middleman.Messages.{object, list, entry, text, convert_for_openai, convert_for_ollama}
use llm_middleman.Messages.Images.{request_messages}

-- The parts of Python and of the file system that a turn uses.
pub record Runtime : Type 0 where
  pub loads : Text → Option Json
  pub dumps : Dict Json → Text
  pub int_of_text : Text → Option ℤ
  pub float_of : Json → Result Json
  pub str_of : Json → Text
  pub read : Text → Result Text

-- A tool of the chat log's LLM API; `parameters` is its schema as `schema_to_openapi` renders it.
pub record Tool : Type 0 where
  pub name : Text
  pub description : Option Text
  pub parameters : Json

abbrev description_field : Bool → Option Text → Dict Json
description_field omit_empty_description none = []
description_field omit_empty_description (some t) =
    if not (is_empty t) || not omit_empty_description then entry "description" (str t) ∷ [] else []

-- `format_function_tool`
unfoldable pub format_function_tool : Bool → Tool → Json
format_function_tool omit_empty_description tool = object (
    entry "type" (text "function")
    ∷ entry "function" (
        object (
          entry "name" (str tool.name)
          ∷ entry "parameters" tool.parameters
          ∷ description_field omit_empty_description tool.description))
    ∷ [])

-- `body["tools"]`, of an LLM API that has tools.
unfoldable pub tools_field : Bool → Option (List Tool) → Dict Json
unfolding format_function_tool
tools_field omit_empty_description (some (tool ∷ tools)) =
    entry "tools" (list (map (format_function_tool omit_empty_description) (tool ∷ tools))) ∷ []
tools_field omit_empty_description llm_api = []

-- `OutputSchema`
pub record OutputSchema : Type 0 where
  pub name : Text
  pub schema : Json

-- Of a turn: the chat log with its LLM API, and the context's identifier and schema.
pub record TurnRequest : Type 0 where
  pub log : List Content
  pub llm_api : Option (List Tool)
  pub subentry_id : Option Text
  pub output_schema : Option OutputSchema

-- The field of an option that is not `None`.
abbrev pub unless_null : Text → Json → Dict Json
unless_null key null = []
unless_null key v = (key, v) ∷ []

abbrev effort_field : Json → Dict Json
effort_field effort = if truthy effort then entry "reasoning_effort" effort ∷ [] else []

abbrev cache_key_field : Option Text → Dict Json
cache_key_field none = []
cache_key_field (some id) = entry "prompt_cache_key" (str id) ∷ []

abbrev response_format : Option OutputSchema → Dict Json
response_format none = []
response_format (some output) =
    entry "response_format" (
      object (
        entry "type" (text "json_schema")
        ∷ entry "json_schema" (
            object (
              entry "name" (str output.name)
              ∷ entry "schema" output.schema
              ∷ entry "strict" (bool false)
              ∷ []))
        ∷ []))
    ∷ []

abbrev format_field : Option OutputSchema → Dict Json
format_field none = []
format_field (some output) = entry "format" output.schema ∷ []

abbrev signed : ℤ → Text
signed (pos n) = decimal n
signed (negsuc n) = codes "-" ++ decimal (suc n)

-- `keep_alive if keep_alive == KEEP_ALIVE_FOREVER else f"{keep_alive}s"`
unfoldable pub keep_alive_value : ℤ → Json
unfolding decimal
keep_alive_value (negsuc zero) = int (negsuc zero)
keep_alive_value seconds = str (signed seconds ++ codes "s")

module _ (dumps : Dict Json → Text) (read : Text → Result Text) (int_of : Json → Result ℤ)
    (float_of : Json → Result Json) (str_of : Json → Text) where
  -- `int(options.get(CONF_MAX_HISTORY, 0))`; a number below 0 trims as 0 does.
  unfoldable pub max_history : Dict Json → Result ℕ
  max_history options =
      int_of (or_else (Dict.get (codes "max_history") options) (int (pos 0))) >>= λ n.
      ok (pos_part n)

  abbrev pub messages_field : List Message → Dict Json
  messages_field messages =
      entry "messages" (list (map object messages)) ∷ entry "stream" (bool true) ∷ []

  -- `body[key] = convert(value)`, where there is a value.
  abbrev pub convert_entry : String → (Json → Result Json) → Dict Json → Result (Dict Json)
  convert_entry key convert [] = ok []
  convert_entry key convert ((k, v) ∷ rest) = convert v >>= λ w. ok (entry key w ∷ [])

  -- An option that is not `None`, converted.
  unfoldable pub converted : String → (Json → Result Json) → Dict Json → Result (Dict Json)
  converted key convert options =
      convert_entry key convert (unless_null (codes key) (get (codes key) options))

  abbrev pub int_value : Json → Result Json
  int_value v = int_of v >>= λ n. ok (int n)

  -- The loop over `_OPTION_KEYS`.
  unfoldable pub option_fields : Dict Json → Result (Dict Json)
  unfolding converted
  option_fields options = converted "temperature" float_of options >>= λ temperature.
      converted "top_p" float_of options >>= λ top_p.
      converted "max_tokens" int_value options >>= λ max_tokens.
      ok (temperature ++ top_p ++ max_tokens)

  -- `_build_body`
  unfoldable pub build_body : Dict Json → TurnRequest → Result (Dict Json)
  unfolding max_history option_fields tools_field request_messages
  build_body options t =
      request_messages read (convert_for_openai dumps) (max_history options) t.log >>= λ messages.
      option_fields options >>= λ converted_options. ok (
        messages_field messages
        ++ unless_null (codes "model") (get (codes "model") options)
        ++ converted_options
        ++ effort_field (get (codes "reasoning_effort") options)
        ++ (entry "stream_options" (object (entry "include_usage" (bool true) ∷ []))
            ∷ cache_key_field t.subentry_id)
        ++ tools_field false t.llm_api
        ++ response_format t.output_schema)

  -- `_think`
  unfoldable pub think : Json → Json
  think (bool b) = bool b
  think (str t) = if t is "on" then bool true else if t is "off" then bool false else str t
  think v = str (str_of v)

  abbrev pub configure : (Json → Result (Dict Json)) → Option Json → Result (Dict Json)
  configure convert none = ok []
  configure convert (some v) = convert v

  -- An option that is configured, as the fields that `convert` makes of it.
  unfoldable pub configured : String → (Json → Result (Dict Json)) → Dict Json → Result (Dict Json)
  configured key convert options = configure convert (Dict.get (codes key) options)

  abbrev pub num_ctx_field : Json → Result (Dict Json)
  num_ctx_field v =
      int_of v >>= λ n. ok (entry "options" (object (entry "num_ctx" (int n) ∷ [])) ∷ [])

  unfoldable pub keep_alive_field : Json → Result (Dict Json)
  unfolding keep_alive_value
  keep_alive_field v = int_of v >>= λ n. ok (entry "keep_alive" (keep_alive_value n) ∷ [])

  -- `_build_request`
  unfoldable pub build_request : Dict Json → TurnRequest → Result (Dict Json)
  unfolding max_history configured think tools_field request_messages keep_alive_field
  build_request options t =
      request_messages read (convert_for_ollama dumps) (max_history options) t.log >>= λ messages.
      configured "model" (λ v. ok (entry "model" v ∷ [])) options >>= λ model.
      configured "num_ctx" num_ctx_field options >>= λ num_ctx.
      configured "keep_alive" keep_alive_field options >>= λ keep_alive.
      configured "think" (λ v. ok (entry "think" (think v) ∷ [])) options >>= λ thinking. ok (
        messages_field messages
        ++ model
        ++ num_ctx
        ++ keep_alive
        ++ thinking
        ++ tools_field true t.llm_api
        ++ format_field t.output_schema)
