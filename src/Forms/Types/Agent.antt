-- ===== src/Forms/Types/Agent.antt =====
-- What stands in the form of an agent may be submitted as it stands.
use llm_middleman.Base.{
  String, ◌≡◌, refl, inl, inr, Bool, true, false, Option, none, some, List, [], ◌∷◌, map, arith,
  Bool-cases, filter, any, all, Text, codes, text_eq,
}
use llm_middleman.Base.Dict.{Dict}
use llm_middleman.Json.{Json, null, str, arr, items, to_items, get}
use llm_middleman.Fallible.{Result, ok, err, ◌>>=◌, member_of}
use llm_middleman.OpenAi.Calls.{iterate}
use llm_middleman.Registry.{Backend, supports_ha_tools}
use llm_middleman.Forms.{plain, Selector, template, select, optional, suggested, Schema}
use llm_middleman.Forms.Accepts.{Selectors, fits, is_typed}
use llm_middleman.Forms.Agent.{
  agent_schema, agent_fields, apis_field, apis_with, suggested_apis, valid_apis, model_selector,
  name_field, model_field,
}
use llm_middleman.Forms.Types.{
  was_stored, Types, Types-cons, Types-append, suggest, none-Types, limit_fields-Types,
  backend_fields-Types,
}

items-to_items : (xs : List Json) → items (to_items xs) ≡ xs
items-to_items [] = refl
items-to_items (x ∷ xs) = rw (items-to_items xs) refl

abbrev is_valid : List Text → Text → Bool
is_valid ids t = any (text_eq t) ids

valid_apis-texts :
    (ids ts : List Text) → valid_apis ids (map str ts) ≡ ok (map str (filter (is_valid ids) ts))
unfolding valid_apis member_of
valid_apis-texts ids [] = refl
valid_apis-texts ids (t ∷ ts) =
    rw (valid_apis-texts ids ts)
      (elim (Bool-cases (is_valid ids t)) [ inl e ↦ rw e refl | inr e ↦ rw e refl ])

all-filter : (p : Text → Bool) (ts : List Text) → all p (filter p ts) ≡ true
all-filter p [] = refl
all-filter p (t ∷ ts) = ground (arith, all-filter p ts)

-- The LLM APIs as the form stores them: a list of texts, or nothing.
abbrev pub api_list : Option (List Text) → Json
api_list none = null
api_list (some ts) = arr (to_items (map str ts))

module _ (ha : Selectors) (ids : List Text) where
  abbrev Suggests : Result Json → Type 0
  Suggests (err e) = Unit {0}
  Suggests (ok v) = fits ha (select ids false true) v ≡ true

  suggested_apis-Suggests : (o : Option (List Text)) → Suggests (suggested_apis ids (api_list o))
  unfolding suggested_apis iterate
  suggested_apis-Suggests none = refl
  suggested_apis-Suggests (some []) = ha.lists ids false [] refl
  suggested_apis-Suggests (some (t ∷ ts)) = rw (items-to_items (map str ts)) (
      rw (valid_apis-texts ids (t ∷ ts))
        (ha.lists ids false (filter (is_valid ids) (t ∷ ts)) (all-filter (is_valid ids) (t ∷ ts))))

  module _ (options : Dict Json) where
    name-Types : (is_new : Bool) (name : String) → Types ha options (name_field is_new name)
    name-Types false name = none-Types ha options
    name-Types true name =
        Types-cons ha options _ _ (λ h. ha.texts plain (codes name)) (none-Types ha options)

    model-Types : (o : Option Selector) → Types ha options (model_field o options)
    unfolding text_eq
    model-Types none = none-Types ha options
    model-Types (some selector) =
        suggest ha options [] "model" null selector refl refl (none-Types ha options)

    apis-Types :
        (v : Json)
        → fits ha (select ids false true) v ≡ true
        → Types ha options (optional "llm_hass_api" (suggested v) (select ids false true) ∷ [])
    apis-Types v h = Types-cons ha options _ _ (λ k. h) (none-Types ha options)

    module _ (default_prompt : Text)
        (prompt_accepted : ha.accepts template (str default_prompt) ≡ true) (b : Backend)
        (is_new : Bool) where
      agent_fields-Types :
          (selector : Option Selector) (apis : Schema)
          → Types ha options apis
          → Types ha options (agent_fields default_prompt b is_new selector apis options)
      unfolding text_eq
      agent_fields-Types selector apis h =
          Types-append ha options _ _ (name-Types is_new "LLM Middleman") (
            Types-append ha options _ _
              (suggest ha options _ "prompt" (str default_prompt) template refl prompt_accepted
                (model-Types selector))
              (Types-append ha options _ _ (limit_fields-Types ha options b)
                (Types-append ha options _ _ h (backend_fields-Types ha options b))))

      -- A form that is built, of options that were stored.
      abbrev pub IsTyped : Result Schema → Type 0
      IsTyped (err e) = Unit {0}
      IsTyped (ok s) = Types ha options s

      apis_with-IsTyped :
          (selector : Option Selector) (r : Result Json)
          → Suggests r
          → IsTyped (
              apis_with ids r >>= λ apis.
              ok (agent_fields default_prompt b is_new selector apis options))
      apis_with-IsTyped selector (err e) h = tt
      apis_with-IsTyped selector (ok v) h = agent_fields-Types selector _ (apis-Types v h)

      after_model-IsTyped :
          (selector : Option Selector) (has_tools : Bool)
          → Suggests (suggested_apis ids (get (codes "llm_hass_api") options))
          → IsTyped (
              apis_field has_tools ids options >>= λ apis.
              ok (agent_fields default_prompt b is_new selector apis options))
      unfolding apis_field
      after_model-IsTyped selector false h = agent_fields-Types selector [] (none-Types ha options)
      after_model-IsTyped selector true h = apis_with-IsTyped selector _ h

      agent_schema-IsTyped :
          (models : Result (Option (List Text)))
          → Suggests (suggested_apis ids (get (codes "llm_hass_api") options))
          → IsTyped (agent_schema default_prompt b is_new models ids options)
      unfolding agent_schema
      agent_schema-IsTyped models h =
          elim (model_selector models)
            as (λ r. IsTyped (
              r >>= λ selector. apis_field (supports_ha_tools b) ids options >>= λ apis.
              ok (agent_fields default_prompt b is_new selector apis options))) [
                | err e ↦ tt
                | ok selector ↦ after_model-IsTyped selector (supports_ha_tools b) h
              ]

      -- Where the selectors accept what Home Assistant documents, and the stored options are such
      -- as the form takes (a `think` may be a Boolean, and an LLM API may be gone), what stands in
      -- each field of the form of an agent, a default or a suggestion, is nothing or accepted by
      -- its selector.
      pub agent_schema-typed :
          (models : Result (Option (List Text))) (apis : Option (List Text)) (s : Schema)
          → get (codes "llm_hass_api") options ≡ api_list apis
          → agent_schema default_prompt b is_new models ids options ≡ ok s
          → all (was_stored ha options) s ≡ true
          → all (is_typed ha) s ≡ true
      unfolding Types
      agent_schema-typed models apis s h k stored =
          let typed : IsTyped (agent_schema default_prompt b is_new models ids options) =
            agent_schema-IsTyped models (rw h (suggested_apis-Suggests apis)) in
          let built : Types ha options s = rw k at typed in built stored
