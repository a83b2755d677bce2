-- ===== src/Forms/Types.antt =====
-- What stands in a field of an agent's form may be submitted as it stands.
pub mod Agent
use llm_middleman.Base.{
  String, ◌≡◌, refl, Bool, true, false, ◌&&◌, ◌||◌, Option, none, some, [], ◌∷◌, ◌++◌, arith,
  if◌then◌else◌, or_else, all, all-append, all-parts, Text, codes, text_eq, ◌is◌,
}
use llm_middleman.Base.Int.{ℤ, pos, negsuc}
use llm_middleman.Base.Dict
use llm_middleman.Base.Dict.{Dict}
use llm_middleman.Json.{Json, null, bool, int, float, str, arr, obj, get, truthy}
use llm_middleman.Registry.{
  Backend, openai_compat, langgraph, ollama, converse, n8n, dify, supports_memory_scope,
}
use llm_middleman.Forms.{
  plain, Selector, text, number, select, boolean, object, Field, Schema, suggesting, drop_down,
}
use llm_middleman.Forms.Accepts.{Selectors, fits, is_typed, is_stored, at_least, at_most}
use llm_middleman.Forms.Agent.{
  backend_fields, scope_field, limit_fields, flag_field, suggested_think, think_options,
  multitask_strategies, memory_scopes, reasoning_efforts, whole, twentieth,
}

abbrev is_bool : Json → Bool
is_bool (bool b) = true
is_bool v = false

-- A `think` that was stored as a Boolean, and the LLM APIs, of which some may be gone.
abbrev pub is_exempt : Dict Json → Text → Bool
is_exempt options k = (k is "think" && is_bool (get k options)) || k is "llm_hass_api"

cons_of :
    (a b c d : Bool)
    → (a ≡ true → b ≡ true)
    → (c ≡ true → d ≡ true)
    → (if a then c else false) ≡ true
    → (if b then d else false) ≡ true
cons_of a b c d h k m = ground (arith, h, k)

think_stored : (a b : Bool) → ((a || false) || b) ≡ true → (a || b) ≡ true
think_stored a b h = ground arith

module _ (ha : Selectors) (options : Dict Json) where
  abbrev pub was_stored : Field → Bool
  was_stored f = is_exempt options f.key || is_stored ha options f

  unfoldable pub Types : Schema → Type 0
  Types s = all was_stored s ≡ true → all (is_typed ha) s ≡ true

  pub Types-cons :
      (f : Field) (s : Schema)
      → (was_stored f ≡ true → is_typed ha f ≡ true)
      → Types s
      → Types (f ∷ s)
  unfolding Types
  Types-cons f s h k = cons_of (was_stored f) (is_typed ha f) _ _ h k

  pub Types-append : (r s : Schema) → Types r → Types s → Types (r ++ s)
  unfolding Types
  Types-append r s h k m =
      let (first, second) = all-parts was_stored r s m in
      all-append (is_typed ha) r s (h first) (k second)

  stored-Types :
      (sel : Selector) (default : Json) (o : Option Json)
      → fits ha sel default ≡ true
      → fits ha sel (or_else o null) ≡ true
      → fits ha sel (or_else o default) ≡ true
  stored-Types sel default none h k = h
  stored-Types sel default (some v) h k = k

  suggesting-Types :
      (key : String) (default : Json) (sel : Selector)
      → is_exempt options (codes key) ≡ false
      → fits ha sel default ≡ true
      → was_stored (suggesting key default options sel) ≡ true
      → is_typed ha (suggesting key default options sel) ≡ true
  suggesting-Types key default sel e h k =
      stored-Types sel default (Dict.get (codes key) options) h (rw e at k)

  -- A field that suggests what is stored, in front of others.
  pub suggest :
      (s : Schema) (key : String) (default : Json) (sel : Selector)
      → is_exempt options (codes key) ≡ false
      → fits ha sel default ≡ true
      → Types s
      → Types (suggesting key default options sel ∷ s)
  suggest s key default sel e h k =
      Types-cons (suggesting key default options sel) _ (suggesting-Types key default sel e h) k

  pub none-Types : Types []
  unfolding Types
  none-Types h = refl

  flag-Types : (key : String) (d : Dict Json) → is_typed ha (flag_field key d) ≡ true
  flag-Types key d = ha.booleans (truthy (get (codes key) d))

  number_fits :
      (low high : Option ℤ) (step : Json) (n : ℤ)
      → at_least low n ≡ true
      → at_most high n ≡ true
      → fits ha (number low high step) (int n) ≡ true
  number_fits low high step n h k = ha.whole_numbers low high step n h k

  scope-Types : (scoped : Bool) → Types (scope_field scoped options)
  unfolding text_eq
  scope-Types false = none-Types
  scope-Types true =
      suggest _ "memory_scope" (str (codes "conversation")) (drop_down memory_scopes) refl
        (ha.choices memory_scopes false (codes "conversation") refl) none-Types

  pub limit_fields-Types : (b : Backend) → Types (limit_fields b options)
  unfolding text_eq
  limit_fields-Types b =
      suggest _ "max_history" (int (pos 20)) (number (some (pos 0)) none whole) refl
        (number_fits (some (pos 0)) none whole (pos 20) refl refl)
        (suggest _ "timeout" (int (pos 60)) (number (some (pos 10)) (some (pos 300)) whole) refl
          (number_fits (some (pos 10)) (some (pos 300)) whole (pos 60) refl refl)
          (scope-Types (supports_memory_scope b)))

  think-Types :
      (v : Json)
      → (is_bool v || fits ha (drop_down think_options) v) ≡ true
      → fits ha (drop_down think_options) (suggested_think v) ≡ true
  unfolding suggested_think text_eq
  think-Types (bool true) h = ha.choices think_options false (codes "on") refl
  think-Types (bool false) h = ha.choices think_options false (codes "off") refl
  think-Types null h = h
  think-Types (int n) h = h
  think-Types (float m e) h = h
  think-Types (str t) h = h
  think-Types (arr xs) h = h
  think-Types (obj fs) h = h

  pub backend_fields-Types : (b : Backend) → Types (backend_fields b options)
  unfolding backend_fields text_eq
  backend_fields-Types converse = none-Types
  backend_fields-Types dify = suggest _ "dify_inputs" null object refl refl (
      Types-cons _ _ (λ h. flag-Types "dify_ha_context" options)
        (Types-cons _ _ (λ h. flag-Types "dify_user_from_ha" options) none-Types))
  backend_fields-Types langgraph =
      suggest _ "multitask_strategy" (str (codes "rollback")) (drop_down multitask_strategies) refl
        (ha.choices multitask_strategies false (codes "rollback") refl)
        (suggest _ "input_messages_key" (str (codes "messages")) (text plain) refl
          (ha.texts plain (codes "messages"))
          (suggest _ "response_node_filter" null (text plain) refl refl
            (suggest _ "stateless_runs" (bool false) boolean refl (ha.booleans false) none-Types)))
  backend_fields-Types n8n =
      suggest _ "input_field" (str (codes "chatInput")) (text plain) refl
        (ha.texts plain (codes "chatInput"))
        (suggest _ "output_field" (str (codes "output")) (text plain) refl
          (ha.texts plain (codes "output"))
          (suggest _ "session_field" (str (codes "sessionId")) (text plain) refl
            (ha.texts plain (codes "sessionId")) none-Types))
  backend_fields-Types openai_compat =
      suggest _ "temperature" null (number (some (pos 0)) (some (pos 2)) twentieth) refl refl (
        suggest _ "top_p" null (number (some (pos 0)) (some (pos 1)) twentieth) refl refl (
          suggest _ "max_tokens" null (number (some (pos 1)) none whole) refl refl (
            suggest _ "reasoning_effort" null (select reasoning_efforts true false) refl refl
              none-Types)))
  backend_fields-Types ollama =
      suggest _ "num_ctx" null (number (some (pos 2048)) none whole) refl refl (
        suggest _ "keep_alive" null (number (some (negsuc 0)) none whole) refl refl (
          Types-cons _ _
            (λ h. think-Types (get (codes "think") options) (
              think_stored (is_bool (get (codes "think") options))
                (fits ha (drop_down think_options) (get (codes "think") options)) h))
            none-Types))
