-- ===== src/Tests/Selectors.antt =====
-- The form of an Ollama agent, with selectors that accept what Home Assistant documents.
use llm_middleman.Base.{
  ◌≡◌, refl, Bool, true, false, ◌&&◌, ◌||◌, Option, none, some, List, [], ◌∷◌, map, arith,
  if◌then◌else◌, any, all, Text, codes, text_eq,
}
use llm_middleman.Base.Int.{ℤ, pos}
use llm_middleman.Base.Dict
use llm_middleman.Base.Dict.{Dict}
use llm_middleman.Json.{Json, null, bool, int, float, str, arr, obj, Items, nil, item, to_items}
use llm_middleman.Fallible.{Result, ok, err, member_of}
use llm_middleman.Replay.{user, replayable_content}
use llm_middleman.Messages.Body.{TurnRequest}
use llm_middleman.OpenAi.Calls.{iterate}
use llm_middleman.Error.{raised, type_error}
use llm_middleman.Registry.{ollama}
use llm_middleman.Forms.{
  Selector, text, template, number, select, boolean, object, Schema, optional, suggested,
}
use llm_middleman.Forms.Accepts.{Selectors, is_typed, is_number, is_text, at_least, at_most}
use llm_middleman.Forms.Agent.{agent_schema, agent_fields}
use llm_middleman.Forms.Types.Agent.{agent_schema-typed}
use llm_middleman.Forms.Requests.{is_ok}
use llm_middleman.Forms.Submitted.{Builds, agent_schema-Builds}

abbrev among : List Text → Items → Bool
among options nil = true
among options (item (str t) xs) = if any (text_eq t) options then among options xs else false
among options (item _ xs) = false

abbrev takes : Selector → Json → Bool
takes (text k) v = is_text v
takes template v = is_text v
takes object v = true
takes boolean (bool b) = true
takes boolean v = false
takes (number low high step) (int n) = at_least low n && at_most high n
takes (number low high step) (float m e) = true
takes (number low high step) v = false
takes (select options custom false) (str t) = custom || any (text_eq t) options
takes (select options custom true) (arr xs) = among options xs
takes (select options custom multiple) v = false

choices :
    (options : List Text) (custom : Bool) (t : Text)
    → any (text_eq t) options ≡ true
    → takes (select options custom false) (str t) ≡ true
choices options custom t h = ground arith

among-texts :
    (options ts : List Text)
    → all (λ (t : Text). any (text_eq t) options) ts ≡ true
    → among options (to_items (map str ts)) ≡ true
among-texts options [] h = refl
among-texts options (t ∷ ts) h = ground (arith, among-texts options ts)

only_numbers :
    (low high : Option ℤ) (step v : Json)
    → takes (number low high step) v ≡ true
    → is_number v ≡ true
only_numbers low high step (int n) h = refl
only_numbers low high step (float m e) h = refl
only_numbers low high step null h = cc
only_numbers low high step (bool b) h = cc
only_numbers low high step (str t) h = cc
only_numbers low high step (arr xs) h = cc
only_numbers low high step (obj fs) h = cc

both : (a b : Bool) → a ≡ true → b ≡ true → (a && b) ≡ true
both a b h k = ground arith

abbrev ha : Selectors
ha = record {
  accepts = takes;
  texts = λ k t. refl;
  booleans = λ b. refl;
  choices = choices;
  lists = λ options custom ts h. among-texts options ts h;
  whole_numbers = λ low high step n h k. both (at_least low n) (at_most high n) h k;
  only_numbers = only_numbers;
}

abbrev options : Dict Json
options =
    (codes "think", bool true)
    ∷ (codes "llm_hass_api", arr (to_items (str (codes "assist") ∷ str (codes "gone") ∷ [])))
    ∷ (codes "num_ctx", int (pos 4096))
    ∷ []

abbrev ids : List Text
ids = codes "assist" ∷ []

abbrev form : Schema
form =
    agent_fields (codes "P") ollama false none
      (optional "llm_hass_api" (suggested (arr (to_items (str (codes "assist") ∷ []))))
          (select ids false true)
        ∷ [])
      options

agent_schema-typed_example : all (is_typed ha) form ≡ true
unfolding agent_schema text_eq Dict.get iterate member_of
agent_schema-typed_example =
    agent_schema-typed ha ids options (codes "P") refl ollama false (ok none)
      (some (codes "assist" ∷ codes "gone" ∷ [])) form refl refl refl

abbrev to_int : Json → Result ℤ
to_int (int n) = ok n
to_int (float m e) = ok m
to_int v = err (raised type_error)

to_int-is_ok : (v : Json) → is_number v ≡ true → is_ok (to_int v) ≡ true
to_int-is_ok (int n) h = refl
to_int-is_ok (float m e) h = refl
to_int-is_ok null h = cc
to_int-is_ok (bool b) h = cc
to_int-is_ok (str t) h = cc
to_int-is_ok (arr xs) h = cc
to_int-is_ok (obj fs) h = cc

abbrev submitted : Dict Json
submitted =
    (codes "num_ctx", int (pos 4096))
    ∷ (codes "max_history", float (pos 5) (pos 0))
    ∷ (codes "think", str (codes "low"))
    ∷ []

abbrev turn : TurnRequest
turn = record {
  log = user (codes "Hi") [] ∷ [];
  llm_api = none;
  subentry_id = none;
  output_schema = none;
}

agent_schema-Builds_example :
    Builds ha
      (λ d. [])
      (λ path. ok path)
      to_int
      (λ v. ok v)
      (λ v. [])
      to_int-is_ok
      (λ v h. refl)
      (λ path. path)
      (λ path. refl)
      ollama
      submitted
      turn
unfolding agent_schema text_eq Dict.get iterate member_of replayable_content
agent_schema-Builds_example =
    agent_schema-Builds ha (λ d. []) (λ path. ok path) to_int (λ v. ok v) (λ v. []) to_int-is_ok
      (λ v h. refl) (λ path. path) (λ path. refl) (codes "P") ollama false (ok none) ids options
      submitted form turn refl refl refl
