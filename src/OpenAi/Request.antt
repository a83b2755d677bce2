-- ===== src/OpenAi/Request.antt =====
-- backends/openai_compat.py: the retries of a refused request (`_rejected_fields`,
-- `_check_error_status`, `_request`, `_learn`, `_open_stream`). The server is a parameter: what it
-- replies to each POST, by number. So is Python's `str` of an option. What is logged is not modelled.
pub mod Retries
use llm_middleman.Base.{
  ℕ, zero, suc, ◌+◌, String, Bool, true, false, ◌&&◌, ◌||◌, List, [], ◌∷◌, leb, ◌==◌, if◌then◌else◌,
  Text, codes, text_eq, ◌is◌, is_in, lower,
}
use llm_middleman.Base.Dict
use llm_middleman.Base.Dict.{Dict}
use llm_middleman.Json.{Json, str, get, truthy}
use llm_middleman.Error.{Exc, raised, translated_error, backend_stream_error}
use llm_middleman.Backend.{Response, Reply, no_response, answer, status_error}

-- A set of the fields that a server may refuse by name.
pub record Fields : Type 0 where
  pub stream_options : Bool
  pub prompt_cache_key : Bool
  pub max_tokens : Bool

-- `_dropped_fields`, a subset of `_DROPPABLE_FIELDS`, and `_max_completion_models`.
pub record Learned : Type 0 where
  pub dropped_stream_options : Bool
  pub dropped_prompt_cache_key : Bool
  pub max_completion_models : List Text

abbrev pub nothing_learned : Learned
nothing_learned = record {
  dropped_stream_options = false;
  dropped_prompt_cache_key = false;
  max_completion_models = [];
}

abbrev pub any_field : Fields → Bool
any_field f = f.stream_options || f.prompt_cache_key || f.max_tokens

abbrev pub no_field : Fields
no_field = record { stream_options = false; prompt_cache_key = false; max_tokens = false }

-- `name in request and name in text`
abbrev pub names : String → Dict Json → Text → Bool
names name request text = Dict.contains (codes name) request && is_in (codes name) text

unfoldable pub rejected_fields : Dict Json → ℕ → Text → Fields
rejected_fields request status text =
    if status == 400 || status == 422
    then record {
      stream_options = names "stream_options" request text;
      prompt_cache_key = names "prompt_cache_key" request text;
      max_tokens = names "max_tokens" request text && is_in (codes "support") (lower text);
    }
    else no_field

-- What the hook does with an error status: raise, ask for a retry, or pass.
pub data Checked : Type 0 where
  rate_limited : Checked
  rejected : Fields → Checked
  passed : Checked

unfoldable pub check_error_status : Dict Json → Response → Checked
unfolding rejected_fields
check_error_status request response =
    let fields = rejected_fields request response.status response.body_text in
    if response.status == 429
    then rate_limited
    else if any_field fields
    then rejected fields
    else passed

unfoldable pub mem : Text → List Text → Bool
mem t [] = false
mem t (s ∷ ss) = if text_eq t s then true else mem t ss

abbrev pub is_dropped : Learned → Text → Bool
is_dropped learned key =
    (key is "stream_options" && learned.dropped_stream_options)
    || (key is "prompt_cache_key" && learned.dropped_prompt_cache_key)

-- `{key: value for key, value in body.items() if key not in self._dropped_fields}`
unfoldable pub keep_fields : Learned → Dict Json → Dict Json
keep_fields learned [] = []
keep_fields learned ((k, v) ∷ body) =
    let rest = keep_fields learned body in if is_dropped learned k then rest else (k, v) ∷ rest

module _ (str_of : Json → Text) where
  -- `str(body.get("model") or "")`
  unfoldable pub model_of : Dict Json → Text
  model_of body =
      let model = get (codes "model") body in str_of (if truthy model then model else str [])

  -- `_request`
  unfoldable pub request_of : Learned → Dict Json → Dict Json
  unfolding keep_fields mem
  request_of learned body =
      let request = keep_fields learned body in
      if Dict.contains (codes "max_tokens") request
        && mem (model_of body) learned.max_completion_models
      then Dict.set (codes "max_completion_tokens") (get (codes "max_tokens") request)
          (Dict.pop (codes "max_tokens") request)
      else request

  -- `_learn`
  unfoldable pub learn : Fields → Dict Json → Learned → Learned
  learn fields body learned = record {
    dropped_stream_options = learned.dropped_stream_options || fields.stream_options;
    dropped_prompt_cache_key = learned.dropped_prompt_cache_key || fields.prompt_cache_key;
    max_completion_models =
        if fields.max_tokens
        then model_of body ∷ learned.max_completion_models
        else learned.max_completion_models;
  }

  pub data Opened : Type 0 where
    opened : Response → Opened
    failed_to_open : Exc → Opened
    -- no fuel is left
    unfinished : Opened

  module _ (server : ℕ → Dict Json → Reply) where
    -- What follows one error status.
    abbrev pub after_check :
        Response → Checked → (Fields → Learned × Opened) → Learned → Learned × Opened
    after_check r rate_limited retry learned = (learned, failed_to_open (raised translated_error))
    after_check r (rejected fields) retry learned = retry fields
    after_check r passed retry learned =
        (learned, failed_to_open (raised (status_error backend_stream_error r.status)))

    abbrev pub after_reply :
        Dict Json → Reply → (Fields → Learned × Opened) → Learned → Learned × Opened
    after_reply request (no_response e) retry learned = (learned, failed_to_open e)
    after_reply request (answer r) retry learned =
        if leb 400 r.status
        then after_check r (check_error_status request r) retry learned
        else (learned, opened r)

    -- `_open_stream`, from its POST number `posts` on, for at most as many POSTs as there is fuel.
    unfoldable pub open_stream : ℕ → ℕ → Dict Json → Learned → Learned × Opened
    unfolding request_of learn check_error_status
    open_stream zero posts body learned = (learned, unfinished)
    open_stream (suc fuel) posts body learned =
        let request = request_of learned body in
        after_reply request (server posts request)
          (λ fields. open_stream fuel (posts + 1) body (learn fields body learned)) learned
