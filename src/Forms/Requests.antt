-- ===== src/Forms/Requests.antt =====
-- The bodies of a request are built where the options that are to be numbers are numbers.
use llm_middleman.Base.{
  ℕ, String, ◌≡◌, refl, Bool, true, false, Option, none, some, List, [], ◌∷◌, or_else, Text, codes,
}
use llm_middleman.Base.Int.{ℤ, pos, pos_part}
use llm_middleman.Base.Dict
use llm_middleman.Base.Dict.{Dict}
use llm_middleman.Json.{Json, null, bool, int, float, str, arr, obj}
use llm_middleman.Fallible.{Result, ok, err, ◌>>=◌}
use llm_middleman.History.{Message}
use llm_middleman.Replay.{Content}
use llm_middleman.Messages.{Image, convert_for_openai, convert_for_ollama, entry}
use llm_middleman.Messages.Images.{request_messages}
use llm_middleman.Messages.Images.Loaded.{some_unsupported, request_messages-loaded}
use llm_middleman.Messages.Body.{
  TurnRequest, max_history, option_fields, build_body, configured, keep_alive_field, build_request,
  int_value, unless_null, convert_entry, configure, think,
}
use llm_middleman.Forms.{number}
use llm_middleman.Forms.Accepts.{Selectors, is_number}

abbrev pub is_ok {ℓ} : {A : Type ℓ} → Result A → Bool
is_ok (ok a) = true
is_ok (err e) = false

bind-is_ok {ℓ κ} :
    {A : Type ℓ} {B : Type κ} (m : Result A) (f : A → Result B)
    → is_ok m ≡ true
    → ((a : A) → is_ok (f a) ≡ true)
    → is_ok (m >>= f) ≡ true
bind-is_ok (ok a) f h k = k a
bind-is_ok (err e) f h k = cc

-- A submitted number, or none.
abbrev pub IsNumeric : Option Json → Type 0
IsNumeric none = Unit {0}
IsNumeric (some v) = is_number v ≡ true

pub IsNumeric-submitted :
    (ha : Selectors) (low high : Option ℤ) (step : Json) (o : Option Json)
    → elim o [ none ↦ true | some v ↦ ha.accepts (number low high step) v ] ≡ true
    → IsNumeric o
IsNumeric-submitted ha low high step none h = tt
IsNumeric-submitted ha low high step (some v) h = ha.only_numbers low high step v h

module _ (dumps : Dict Json → Text) (read : Text → Result Text) (int_of : Json → Result ℤ)
    (float_of : Json → Result Json) (str_of : Json → Text)
    (ints : (v : Json) → is_number v ≡ true → is_ok (int_of v) ≡ true)
    (floats : (v : Json) → is_number v ≡ true → is_ok (float_of v) ≡ true) where
  convert_entry-is_ok :
      (key : String) (convert : Json → Result Json)
      → ((v : Json) → is_number v ≡ true → is_ok (convert v) ≡ true)
      → (o : Option Json) → IsNumeric o
      → is_ok (
          convert_entry dumps read int_of float_of str_of key convert
            (unless_null (codes key) (or_else o null)))
        ≡ true
  convert_entry-is_ok key convert h none k = refl
  convert_entry-is_ok key convert h (some (int n)) k =
      bind-is_ok (convert (int n)) _ (h (int n) k) (λ a. refl)
  convert_entry-is_ok key convert h (some (float m e)) k =
      bind-is_ok (convert (float m e)) _ (h (float m e) k) (λ a. refl)
  convert_entry-is_ok key convert h (some null) k = refl
  convert_entry-is_ok key convert h (some (bool b)) k = cc
  convert_entry-is_ok key convert h (some (str t)) k = cc
  convert_entry-is_ok key convert h (some (arr xs)) k = cc
  convert_entry-is_ok key convert h (some (obj fs)) k = cc

  int_value-is_ok :
      (v : Json) → is_number v ≡ true → is_ok (int_value dumps read int_of float_of str_of v) ≡ true
  int_value-is_ok v h = bind-is_ok (int_of v) _ (ints v h) (λ n. refl)

  option_fields-is_ok :
      (values : Dict Json)
      → IsNumeric (Dict.get (codes "temperature") values)
      → IsNumeric (Dict.get (codes "top_p") values)
      → IsNumeric (Dict.get (codes "max_tokens") values)
      → is_ok (option_fields dumps read int_of float_of str_of values) ≡ true
  unfolding option_fields
  option_fields-is_ok values h k m =
      bind-is_ok _ _ (convert_entry-is_ok "temperature" float_of floats _ h) (λ a.
        bind-is_ok _ _ (convert_entry-is_ok "top_p" float_of floats _ k) (λ b.
          bind-is_ok _ _
            (convert_entry-is_ok "max_tokens" (int_value dumps read int_of float_of str_of)
              int_value-is_ok _ m)
            (λ c. refl)))

  max_history-is_ok :
      (o : Option Json)
      → IsNumeric o
      → is_ok (int_of (or_else o (int (pos 0))) >>= λ n. ok (pos_part n)) ≡ true
  max_history-is_ok none h = bind-is_ok _ _ (ints (int (pos 0)) refl) (λ n. refl)
  max_history-is_ok (some v) h = bind-is_ok _ _ (ints v h) (λ n. refl)

  configure-is_ok :
      (convert : Json → Result (Dict Json))
      → ((v : Json) → is_number v ≡ true → is_ok (convert v) ≡ true)
      → (o : Option Json) → IsNumeric o
      → is_ok (configure dumps read int_of float_of str_of convert o) ≡ true
  configure-is_ok convert h none k = refl
  configure-is_ok convert h (some v) k = h v k

  always :
      (f : Json → Dict Json) (o : Option Json)
      → is_ok (configure dumps read int_of float_of str_of (λ v. ok (f v)) o) ≡ true
  always f none = refl
  always f (some v) = refl

  module _ (data_at : Text → Text) (reads : (path : Text) → read path ≡ ok (data_at path)) where
    messages-is_ok :
        (convert : List Image → Content → Message) (m : Result ℕ) (log : List Content)
        → is_ok m ≡ true
        → some_unsupported log ≡ false
        → is_ok (request_messages read convert m log) ≡ true
    messages-is_ok convert (ok n) log h k =
        rw (request_messages-loaded read data_at reads convert log n, k) refl
    messages-is_ok convert (err e) log h k = cc

    pub build_body-is_ok :
        (values : Dict Json) (t : TurnRequest)
        → some_unsupported t.log ≡ false
        → IsNumeric (Dict.get (codes "max_history") values)
        → IsNumeric (Dict.get (codes "temperature") values)
        → IsNumeric (Dict.get (codes "top_p") values)
        → IsNumeric (Dict.get (codes "max_tokens") values)
        → is_ok (build_body dumps read int_of float_of str_of values t) ≡ true
    unfolding build_body max_history
    build_body-is_ok values t supported h a b c =
        bind-is_ok _ _
          (messages-is_ok (convert_for_openai dumps) _ t.log (max_history-is_ok _ h) supported)
          (λ messages. bind-is_ok _ _ (option_fields-is_ok values a b c) (λ d. refl))

    pub build_request-is_ok :
        (values : Dict Json) (t : TurnRequest)
        → some_unsupported t.log ≡ false
        → IsNumeric (Dict.get (codes "max_history") values)
        → IsNumeric (Dict.get (codes "num_ctx") values)
        → IsNumeric (Dict.get (codes "keep_alive") values)
        → is_ok (build_request dumps read int_of float_of str_of values t) ≡ true
    unfolding build_request max_history configured keep_alive_field
    build_request-is_ok values t supported h a b =
        bind-is_ok _ _
          (messages-is_ok (convert_for_ollama dumps) _ t.log (max_history-is_ok _ h) supported)
          (λ messages.
            bind-is_ok _ _ (always (λ v. entry "model" v ∷ []) (Dict.get (codes "model") values))
              (λ m.
                bind-is_ok _ _
                  (configure-is_ok _ (λ v k. bind-is_ok _ _ (ints v k) (λ n. refl)) _ a)
                  (λ x.
                    bind-is_ok _ _
                      (configure-is_ok _ (λ v k. bind-is_ok _ _ (ints v k) (λ n. refl)) _ b)
                      (λ y.
                        bind-is_ok _ _
                          (always
                            (λ v. entry "think" (think dumps read int_of float_of str_of v) ∷ [])
                            (Dict.get (codes "think") values))
                          (λ z. refl)))))
