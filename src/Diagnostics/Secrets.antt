-- ===== src/Diagnostics/Secrets.antt =====
-- The fields of the forms that ask for secrets: the dump redacts each of their keys.
use llm_middleman.Base.{
  String, ◌≡◌, refl, Bool, true, false, not, ◌||◌, Option, none, some, List, ◌∷◌, ◌++◌, arith, any,
  all, all-append, Text, codes, text_eq,
}
use llm_middleman.Base.Dict.{Dict}
use llm_middleman.Json.{Json, get}
use llm_middleman.Fallible.{Result, ok, err, ◌>>=◌}
use llm_middleman.Registry.{
  Backend, openai_compat, langgraph, ollama, converse, n8n, dify, supports_ha_tools,
  supports_memory_scope,
}
use llm_middleman.Forms.{plain, Selector, text, template, object, Schema, Field}
use llm_middleman.Forms.Connection.{connection_schema}
use llm_middleman.Forms.Agent.{
  agent_schema, agent_fields, apis_field, backend_fields, model_selector, name_field, model_field,
  scope_field, prompt_fields, limit_fields, apis_with, suggested_apis, task_schema, timeout_field,
  sampling_fields, openai_compat_fields, ollama_fields,
}
use llm_middleman.Diagnostics.{to_redact}

-- The fields that the forms ask secrets for: passwords and URLs, templates, and objects of free form.
abbrev pub is_secret : Selector → Bool
is_secret (text plain) = false
is_secret (text t) = true
is_secret template = true
is_secret object = true
is_secret s = false

-- The key of a secret field is one to redact.
abbrev pub is_covered : Field → Bool
is_covered f = not (is_secret f.selector) || any (text_eq f.key) to_redact

abbrev pub covered : Schema → Bool
covered s = all is_covered s

pub connection_schema-covered : (b : Backend) → covered (connection_schema b) ≡ true
unfolding connection_schema text_eq
connection_schema-covered openai_compat = refl
connection_schema-covered langgraph = refl
connection_schema-covered ollama = refl
connection_schema-covered converse = refl
connection_schema-covered n8n = refl
connection_schema-covered dify = refl

-- A form without a field that holds a secret and is not redacted; a form that was not built has none.
abbrev pub IsCovered : Result Schema → Type 0
IsCovered (err e) = Unit {0}
IsCovered (ok s) = covered s ≡ true

backend_fields-covered :
    (b : Backend) (options : Dict Json) → covered (backend_fields b options) ≡ true
unfolding backend_fields text_eq
backend_fields-covered openai_compat options = refl
backend_fields-covered langgraph options = refl
backend_fields-covered ollama options = refl
backend_fields-covered converse options = refl
backend_fields-covered n8n options = refl
backend_fields-covered dify options = refl

apis_field-IsCovered :
    (has_tools : Bool) (ids : List Text) (options : Dict Json)
    → IsCovered (apis_field has_tools ids options)
unfolding apis_field text_eq
apis_field-IsCovered false ids options = refl
apis_field-IsCovered true ids options =
    elim (suggested_apis ids (get (codes "llm_hass_api") options))
      as (λ r. IsCovered (apis_with ids r)) [ ok stored ↦ refl | err e ↦ tt ]

name_field-covered : (is_new : Bool) (name : String) → covered (name_field is_new name) ≡ true
name_field-covered false name = refl
name_field-covered true name = refl

scope_field-covered :
    (scoped : Bool) (options : Dict Json) → covered (scope_field scoped options) ≡ true
scope_field-covered false options = refl
scope_field-covered true options = refl

-- The selector of the models asks for no secret.
abbrev IsOpen : Option Selector → Type 0
IsOpen none = Unit {0}
IsOpen (some s) = is_secret s ≡ false

model_field-covered :
    (o : Option Selector) (options : Dict Json) → IsOpen o → covered (model_field o options) ≡ true
model_field-covered none options h = refl
model_field-covered (some s) options h = rw h refl

abbrev Opens : Result (Option Selector) → Type 0
Opens (err e) = Unit {0}
Opens (ok o) = IsOpen o

model_selector-Opens : (models : Result (Option (List Text))) → Opens (model_selector models)
unfolding model_selector
model_selector-Opens (err e) = ground arith
model_selector-Opens (ok none) = tt
model_selector-Opens (ok (some models)) = refl

sampling_fields-covered :
    (b : Backend) (options : Dict Json)
    → covered (timeout_field options ∷ sampling_fields b options) ≡ true
unfolding openai_compat_fields ollama_fields text_eq
sampling_fields-covered openai_compat options = refl
sampling_fields-covered ollama options = refl
sampling_fields-covered langgraph options = refl
sampling_fields-covered converse options = refl
sampling_fields-covered n8n options = refl
sampling_fields-covered dify options = refl

module _ (default_prompt : Text) (b : Backend) (is_new : Bool) (options : Dict Json) where
  agent_fields-covered :
      (selector : Option Selector) (apis : Schema)
      → IsOpen selector
      → covered apis ≡ true
      → covered (agent_fields default_prompt b is_new selector apis options) ≡ true
  unfolding text_eq
  agent_fields-covered selector apis h k =
      let rest = apis ++ backend_fields b options in
      all-append is_covered (name_field is_new "LLM Middleman")
        (prompt_fields default_prompt selector options ++ (limit_fields b options ++ rest))
        (name_field-covered is_new "LLM Middleman")
        (all-append is_covered (prompt_fields default_prompt selector options)
          (limit_fields b options ++ rest) (model_field-covered selector options h)
          (all-append is_covered (limit_fields b options) rest
            (scope_field-covered (supports_memory_scope b) options)
            (all-append is_covered apis (backend_fields b options) k
              (backend_fields-covered b options))))

  after_apis-IsCovered :
      (selector : Option Selector) (r : Result Schema)
      → IsOpen selector
      → IsCovered r
      → IsCovered (r >>= λ apis. ok (agent_fields default_prompt b is_new selector apis options))
  after_apis-IsCovered selector (err e) h k = tt
  after_apis-IsCovered selector (ok apis) h k = agent_fields-covered selector apis h k

  pub agent_schema-IsCovered :
      (models : Result (Option (List Text))) (ids : List Text)
      → IsCovered (agent_schema default_prompt b is_new models ids options)
  unfolding agent_schema
  agent_schema-IsCovered models ids =
      let apis = apis_field (supports_ha_tools b) ids options in
      elim (model_selector models)
          as (λ r.
            Opens r
            → IsCovered (
                r >>= λ selector.
                apis >>= λ apis. ok (agent_fields default_prompt b is_new selector apis options))) [
                  | err e ↦ λ h. tt
                  | ok selector ↦ λ h.
                      after_apis-IsCovered selector apis h
                        (apis_field-IsCovered (supports_ha_tools b) ids options)
                ]
        (model_selector-Opens models)

  pub task_schema-IsCovered :
      (models : Result (Option (List Text))) → IsCovered (task_schema b is_new models options)
  unfolding task_schema
  task_schema-IsCovered models =
      let rest = timeout_field options ∷ sampling_fields b options in
      let name = name_field is_new "LLM Middleman AI Task" in
      elim (model_selector models)
          as (λ r.
            Opens r
            → IsCovered (r >>= λ selector. ok (name ++ model_field selector options ++ rest))) [
              | err e ↦ λ h. tt
              | ok selector ↦ λ h.
                  all-append is_covered (name ++ model_field selector options) rest
                    (all-append is_covered name (model_field selector options)
                      (name_field-covered is_new "LLM Middleman AI Task")
                      (model_field-covered selector options h))
                    (sampling_fields-covered b options)
            ]
        (model_selector-Opens models)
