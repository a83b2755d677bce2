-- ===== src/Forms/Submitted.antt =====
-- The options that the form of an agent takes never make a request fail.
use llm_middleman.Base.{
  String, ◌≡◌, Bool, true, false, Option, none, some, List, ◌∷◌, all, all-parts, all-head, Text,
  codes,
}
use llm_middleman.Base.Int.{ℤ, pos, negsuc}
use llm_middleman.Base.Dict
use llm_middleman.Base.Dict.{Dict}
use llm_middleman.Json.{Json, null, int}
use llm_middleman.Fallible.{Result, ok, err, ◌>>=◌}
use llm_middleman.Messages.Images.Loaded.{some_unsupported}
use llm_middleman.Messages.Body.{TurnRequest, build_body, build_request}
use llm_middleman.Registry.{
  Backend, openai_compat, ollama, supports_ha_tools, langgraph, converse, n8n, dify,
}
use llm_middleman.Forms.{suggesting, Selector, number, Schema, Field}
use llm_middleman.Forms.Accepts.{Selectors, is_submitted, is_number}
use llm_middleman.Forms.Agent.{
  agent_schema, agent_fields, apis_field, backend_fields, model_selector, prompt_fields,
  limit_fields, name_field, whole, twentieth,
}
use llm_middleman.Forms.Requests.{
  is_ok, IsNumeric, IsNumeric-submitted, build_body-is_ok, build_request-is_ok,
}

module _ (ha : Selectors) (values : Dict Json) where
  -- What was submitted to a form was submitted to these fields of it.
  abbrev Asks : Schema → Schema → Schema → Type 0
  Asks s r q =
      all (is_submitted ha values) s ≡ true
      → (all (is_submitted ha values) r ≡ true) × (all (is_submitted ha values) q ≡ true)

  agent_fields-Asks :
      (default_prompt : Text) (b : Backend) (is_new : Bool) (selector : Option Selector)
      (apis : Schema) (options : Dict Json)
      → Asks
          (agent_fields default_prompt b is_new selector apis options)
          (limit_fields b options)
          (backend_fields b options)
  agent_fields-Asks default_prompt b is_new selector apis options h =
      let p : Field → Bool = is_submitted ha values in
      let behind_name = (all-parts p (name_field is_new "LLM Middleman") _ h).1 in
      let behind_prompt =
        (all-parts p (prompt_fields default_prompt selector options) _ behind_name).1 in
      let (limits, rest) = all-parts p (limit_fields b options) _ behind_prompt in
      (limits, (all-parts p apis (backend_fields b options) rest).1)

  abbrev AsksForm : Result Schema → Schema → Schema → Type 0
  AsksForm (err e) r q = Unit {0}
  AsksForm (ok s) r q = Asks s r q

  module _ (default_prompt : Text) (b : Backend) (is_new : Bool) (ids : List Text)
      (options : Dict Json) where
    after_apis-AsksForm :
        (selector : Option Selector) (r : Result Schema)
        → AsksForm
            (r >>= λ apis. ok (agent_fields default_prompt b is_new selector apis options))
            (limit_fields b options)
            (backend_fields b options)
    after_apis-AsksForm selector (err e) = tt
    after_apis-AsksForm selector (ok apis) =
        agent_fields-Asks default_prompt b is_new selector apis options

    agent_schema-AsksForm :
        (models : Result (Option (List Text)))
        → AsksForm
            (agent_schema default_prompt b is_new models ids options)
            (limit_fields b options)
            (backend_fields b options)
    unfolding agent_schema
    agent_schema-AsksForm models =
        let apis = apis_field (supports_ha_tools b) ids options in
        elim (model_selector models)
          as (λ r.
            AsksForm
              (r >>= λ selector.
                apis >>= λ apis. ok (agent_fields default_prompt b is_new selector apis options))
              (limit_fields b options) (backend_fields b options)) [
                | err e ↦ tt
                | ok selector ↦ after_apis-AsksForm selector apis
              ]

    submitted-fields :
        (models : Result (Option (List Text))) (s : Schema)
        → agent_schema default_prompt b is_new models ids options ≡ ok s
        → Asks s (limit_fields b options) (backend_fields b options)
    submitted-fields models s h = rw h at (agent_schema-AsksForm models)

  -- What was submitted for each of the fields is accepted.
  AllSubmitted : Schema → Type 0
  AllSubmitted s = all (is_submitted ha values) s ≡ true

  all_submitted : (s : Schema) → all (is_submitted ha values) s ≡ true → AllSubmitted s
  unfolding AllSubmitted
  all_submitted s h = h

  -- A number field at the head of a form.
  number_head :
      (options : Dict Json) (key : String) (default : Json) (low high : Option ℤ) (step : Json)
      (rest : Schema)
      → AllSubmitted (suggesting key default options (number low high step) ∷ rest)
      → IsNumeric (Dict.get (codes key) values) × AllSubmitted rest
  unfolding AllSubmitted
  number_head options key default low high step rest h =
      let (head, others) =
        all-head (is_submitted ha values) (suggesting key default options (number low high step))
          rest h in
      (IsNumeric-submitted ha low high step _ head, others)

module _ (ha : Selectors) (dumps : Dict Json → Text) (read : Text → Result Text)
    (int_of : Json → Result ℤ) (float_of : Json → Result Json) (str_of : Json → Text)
    (ints : (v : Json) → is_number v ≡ true → is_ok (int_of v) ≡ true)
    (floats : (v : Json) → is_number v ≡ true → is_ok (float_of v) ≡ true) (data_at : Text → Text)
    (reads : (path : Text) → read path ≡ ok (data_at path)) where
  -- The body of the request of a preset that replays the chat log is built.
  abbrev pub Builds : Backend → Dict Json → TurnRequest → Type 0
  Builds openai_compat values t =
      is_ok (build_body dumps read int_of float_of str_of values t) ≡ true
  Builds ollama values t = is_ok (build_request dumps read int_of float_of str_of values t) ≡ true
  Builds b values t = Unit {0}

  fields-Builds :
      (b : Backend) (options values : Dict Json) (t : TurnRequest)
      → some_unsupported t.log ≡ false
      → AllSubmitted ha values (limit_fields b options)
      → AllSubmitted ha values (backend_fields b options)
      → Builds b values t
  unfolding backend_fields
  fields-Builds openai_compat options values t supported h k =
      let (limit, _) =
        number_head ha values options "max_history" (int (pos 20)) (some (pos 0)) none whole _ h in
      let (temperature, k') =
        number_head ha values options "temperature" null (some (pos 0)) (some (pos 2)) twentieth _
          k in
      let (top_p, k'') =
        number_head ha values options "top_p" null (some (pos 0)) (some (pos 1)) twentieth _ k' in
      let (max_tokens, _) =
        number_head ha values options "max_tokens" null (some (pos 1)) none whole _ k'' in
      build_body-is_ok dumps read int_of float_of str_of ints floats data_at reads values t
        supported limit temperature top_p max_tokens
  fields-Builds ollama options values t supported h k =
      let (limit, _) =
        number_head ha values options "max_history" (int (pos 20)) (some (pos 0)) none whole _ h in
      let (num_ctx, k') =
        number_head ha values options "num_ctx" null (some (pos 2048)) none whole _ k in
      let (keep_alive, _) =
        number_head ha values options "keep_alive" null (some (negsuc 0)) none whole _ k' in
      build_request-is_ok dumps read int_of float_of str_of ints floats data_at reads values t
        supported limit num_ctx keep_alive
  fields-Builds langgraph options values t supported h k = tt
  fields-Builds converse options values t supported h k = tt
  fields-Builds n8n options values t supported h k = tt
  fields-Builds dify options values t supported h k = tt

  -- Where the selectors accept numbers only of a number field, and Python's `int` and `float`
  -- convert every number: with the options that were submitted to a form of the agent, the body of
  -- the request is built for every chat log whose attachments are images that can be read.
  pub agent_schema-Builds :
      (default_prompt : Text) (b : Backend) (is_new : Bool) (models : Result (Option (List Text)))
      (ids : List Text) (options values : Dict Json) (s : Schema) (t : TurnRequest)
      → agent_schema default_prompt b is_new models ids options ≡ ok s
      → all (is_submitted ha values) s ≡ true
      → some_unsupported t.log ≡ false
      → Builds b values t
  agent_schema-Builds default_prompt b is_new models ids options values s t h submitted supported =
      let (limits, fields) =
        submitted-fields ha values default_prompt b is_new ids options models s h submitted in
      fields-Builds b options values t supported (all_submitted ha values _ limits)
        (all_submitted ha values _ fields)
