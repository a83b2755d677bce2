-- ===== src/OpenAi/Request/Retries.antt =====
-- The retries end.
use llm_middleman.Base.{
  ℕ, zero, suc, ◌+◌, ◌<◌, String, ◌≡◌, refl, ap, ◌∙◌, inl, inr, Bool, true, false, not, ◌&&◌, none,
  [], ◌∷◌, arith, leb, ◌==◌, if◌then◌else◌, Bool-cases, Text, codes, text_eq, text_eq_iff,
  text_eq_refl,
}
use llm_middleman.Base.Dict
use llm_middleman.Base.Dict.{Dict, get-set, get-pop}
use llm_middleman.Json.{Json, get}
use llm_middleman.Backend.{Response, Reply, no_response, answer}
use llm_middleman.OpenAi.Request.{
  Fields, Learned, any_field, rejected_fields, Checked, rate_limited, rejected, passed,
  check_error_status, mem, is_dropped, keep_fields, model_of, request_of, learn, Opened, unfinished,
  after_check, after_reply, open_stream,
}

get-keep_fields :
    (learned : Learned) (k : Text) (body : Dict Json)
    → Dict.get k (keep_fields learned body)
      ≡ (if is_dropped learned k then none else Dict.get k body)
unfolding keep_fields Dict.get
get-keep_fields learned k [] = ground arith
get-keep_fields learned k ((j, v) ∷ body) =
    let same : text_eq k j ≡ true → is_dropped learned k ≡ is_dropped learned j =
      λ a. ap (is_dropped learned) ((text_eq_iff k j).0 a) in
    ground (arith, same, get-keep_fields learned k body)

only_rejected :
    (limited : Bool) (g f : Fields)
    → (if limited then rate_limited else if any_field g then rejected g else passed) ≡ rejected f
    → (f ≡ g) × (any_field f ≡ true)
only_rejected true g f h = cc
only_rejected false g f h = elim (Bool-cases (any_field g)) [
  | inl a ↦ let e : f ≡ g = cc (h, a) in (e, ap any_field e ∙ a)
  | inr a ↦ cc (h, a)
]

abbrev holds : String → Dict Json → Bool
holds name request = Dict.contains (codes name) request

module _ (str_of : Json → Text) where
  -- The fields that the server may still refuse in a request.
  abbrev present : Learned → Dict Json → Fields
  present learned body = record {
    stream_options = holds "stream_options" body && not learned.dropped_stream_options;
    prompt_cache_key = holds "prompt_cache_key" body && not learned.dropped_prompt_cache_key;
    max_tokens =
        holds "max_tokens" body && not (mem (model_of str_of body) learned.max_completion_models);
  }

  request_of-stream_options :
      (learned : Learned) (body : Dict Json)
      → holds "stream_options" (request_of str_of learned body)
        ≡ (present learned body).stream_options
  unfolding request_of text_eq
  request_of-stream_options learned body = ground (
    arith,
    get-keep_fields learned (codes "stream_options") body,
    get-set (codes "max_completion_tokens") (codes "stream_options")
        (get (codes "max_tokens") (keep_fields learned body))
        (Dict.pop (codes "max_tokens") (keep_fields learned body)),
    get-pop (codes "max_tokens") (codes "stream_options") (keep_fields learned body),
  )

  request_of-prompt_cache_key :
      (learned : Learned) (body : Dict Json)
      → holds "prompt_cache_key" (request_of str_of learned body)
        ≡ (present learned body).prompt_cache_key
  unfolding request_of text_eq
  request_of-prompt_cache_key learned body = ground (
    arith,
    get-keep_fields learned (codes "prompt_cache_key") body,
    get-set (codes "max_completion_tokens") (codes "prompt_cache_key")
        (get (codes "max_tokens") (keep_fields learned body))
        (Dict.pop (codes "max_tokens") (keep_fields learned body)),
    get-pop (codes "max_tokens") (codes "prompt_cache_key") (keep_fields learned body),
  )

  request_of-max_tokens :
      (learned : Learned) (body : Dict Json)
      → holds "max_tokens" (request_of str_of learned body) ≡ (present learned body).max_tokens
  unfolding request_of text_eq
  request_of-max_tokens learned body = ground (
    arith,
    get-keep_fields learned (codes "max_tokens") body,
    get-set (codes "max_completion_tokens") (codes "max_tokens")
        (get (codes "max_tokens") (keep_fields learned body))
        (Dict.pop (codes "max_tokens") (keep_fields learned body)),
    get-pop (codes "max_tokens") (codes "max_tokens") (keep_fields learned body),
  )

  abbrev one : Bool → ℕ
  one b = if b then 1 else 0

  abbrev count : Fields → ℕ
  count f = one f.stream_options + one f.prompt_cache_key + one f.max_tokens

  count-le : (f : Fields) → count f < 4
  count-le f = ground arith

  -- A refusal names fields of the request only.
  abbrev Within : Fields → Fields → Type 0
  Within f g =
      (f.stream_options ≡ true → g.stream_options ≡ true)
      × (f.prompt_cache_key ≡ true → g.prompt_cache_key ≡ true)
      × (f.max_tokens ≡ true → g.max_tokens ≡ true)

  rejected_fields-Within :
      (learned : Learned) (body : Dict Json) (status : ℕ) (text : Text)
      → Within (rejected_fields (request_of str_of learned body) status text) (present learned body)
  unfolding rejected_fields
  rejected_fields-Within learned body status text = (
    ground (arith, request_of-stream_options learned body),
    ground (arith, request_of-prompt_cache_key learned body),
    ground (arith, request_of-max_tokens learned body),
  )

  count-learn :
      (fields : Fields) (learned : Learned) (body : Dict Json)
      → Within fields (present learned body)
      → any_field fields ≡ true
      → count (present (learn str_of fields body learned) body) < count (present learned body)
  unfolding learn mem
  count-learn fields learned body h a = ground (arith, text_eq_refl (model_of str_of body))

  abbrev pub Settles : Learned × Opened str_of → Type 0
  Settles (learned, unfinished) = ⊥
  Settles (learned, _) = Unit {0}

  module _ (server : ℕ → Dict Json → Reply) where
    after_check-Settles :
        (r : Response) (c : Checked) (retry : Fields → Learned × Opened str_of) (learned : Learned)
        → ((f : Fields) → c ≡ rejected f → Settles (retry f))
        → Settles (after_check str_of server r c retry learned)
    after_check-Settles r rate_limited retry learned h = tt
    after_check-Settles r (rejected f) retry learned h = h f refl
    after_check-Settles r passed retry learned h = tt

    after_reply-Settles :
        (request : Dict Json) (reply : Reply) (retry : Fields → Learned × Opened str_of)
        (learned : Learned)
        → ((r : Response) (f : Fields)
            → check_error_status request r ≡ rejected f
            → Settles (retry f))
        → Settles (after_reply str_of server request reply retry learned)
    after_reply-Settles request (no_response e) retry learned h = tt
    after_reply-Settles request (answer r) retry learned h = elim (Bool-cases (leb 400 r.status)) [
      | inl a ↦ rw a (after_check-Settles r (check_error_status request r) retry learned (h r))
      | inr a ↦ rw a tt
    ]

    check_error_status-rejected :
        (request : Dict Json) (r : Response) (f : Fields)
        → check_error_status request r ≡ rejected f
        → (f ≡ rejected_fields request r.status r.body_text) × (any_field f ≡ true)
    unfolding check_error_status
    check_error_status-rejected request r f h =
        only_rejected (r.status == 429) (rejected_fields request r.status r.body_text) f h

    open_stream-Settles_from :
        (fuel posts : ℕ) (body : Dict Json) (learned : Learned)
        → count (present learned body) < fuel
        → Settles (open_stream str_of server fuel posts body learned)
    unfolding open_stream
    open_stream-Settles_from zero posts body learned h = absurd (omega arith)
    open_stream-Settles_from (suc fuel) posts body learned h =
        let request = request_of str_of learned body in
        after_reply-Settles request (server posts request) _ learned (λ r f e.
          let (same, some_field) = check_error_status-rejected request r f e in
          open_stream-Settles_from fuel (posts + 1) body (learn str_of f body learned) (
            let less =
              count-learn f learned body
                (rw same (rejected_fields-Within learned body r.status r.body_text)) some_field in
            omega arith))

    -- Whatever the server refuses, however often, and whatever the connection learned before, a turn
    -- makes at most four POSTs: the last is answered, fails, or is refused for good.
    pub open_stream-Settles :
        (body : Dict Json) (learned : Learned)
        → Settles (open_stream str_of server 4 0 body learned)
    open_stream-Settles body learned =
        open_stream-Settles_from 4 0 body learned (count-le (present learned body))
