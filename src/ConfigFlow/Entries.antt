-- ===== src/ConfigFlow/Entries.antt =====
-- What is stored of a submission: its values, behind the type of the backend.
use llm_middleman.Base.{
  ◌≡◌, refl, ap, ◌∙◌, inl, inr, Bool, true, false, Option, none, some, List, [], ◌∷◌, arith,
  if◌then◌else◌, Bool-cases, any, all, Text, codes, text_eq, text_eq_iff,
}
use llm_middleman.Base.Dict
use llm_middleman.Base.Dict.{Dict, IsDistinct}
use llm_middleman.Json.{Json, str}
use llm_middleman.Registry.{
  Backend, openai_compat, langgraph, ollama, converse, n8n, dify, backend_name,
}
use llm_middleman.Forms.{Schema, keys_of}
use llm_middleman.Forms.Connection.{connection_schema}
use llm_middleman.ConfigFlow.{merge}
use llm_middleman.ConfigFlow.Connection.{overlay, get-merge}
use llm_middleman.ConfigFlow.Flow.{user_schema, Form, choose, connect}

-- Every key that was submitted is one of the form: Home Assistant lets no other through.
abbrev pub is_known : Schema → Dict Json → Bool
is_known schema values = all (λ (f : Text × Json). any (text_eq f.0) (keys_of schema)) values

abbrev pub backend_type : Text
backend_type = codes "backend_type"

pub get-unknown :
    (ks : List Text) (k : Text) (values : Dict Json)
    → any (text_eq k) ks ≡ false
    → all (λ (f : Text × Json). any (text_eq f.0) ks) values ≡ true
    → Dict.get k values ≡ none
unfolding Dict.get
get-unknown ks k [] h e = refl
get-unknown ks k ((j, v) ∷ values) h e =
    let same : (text_eq k j ≡ true → any (text_eq k) ks ≡ any (text_eq j) ks) =
      (λ q. ap (λ (u : Text). any (text_eq u) ks) ((text_eq_iff k j).0 q)) in
    ground (arith, same, get-unknown ks k values h)

pub no_backend_type :
    (b : Backend) → any (text_eq backend_type) (keys_of (connection_schema b)) ≡ false
unfolding connection_schema text_eq
no_backend_type openai_compat = refl
no_backend_type langgraph = refl
no_backend_type ollama = refl
no_backend_type converse = refl
no_backend_type n8n = refl
no_backend_type dify = refl

abbrev pub fields_of : Form → Schema
fields_of choose = user_schema
fields_of (connect b) = connection_schema b

-- What is stored of the values that the probe passed: they themselves, behind the backend's type.
abbrev pub IsEntry : Backend → Dict Json → Dict Json → Type 0
IsEntry b n d =
    (k : Text)
    → Dict.get k d ≡ (if text_eq k backend_type then some (str (backend_name b)) else Dict.get k n)

overlay-none : (o : Option Json) → overlay o none ≡ o
overlay-none none = refl
overlay-none (some v) = refl

pub merge-IsEntry :
    (b : Backend) (n : Dict Json)
    → IsDistinct n
    → Dict.get backend_type n ≡ none
    → IsEntry b n (merge ((backend_type, str (backend_name b)) ∷ []) n)
unfolding Dict.get merge
merge-IsEntry b n h e k =
    let absent : (text_eq k backend_type ≡ true → Dict.get k n ≡ none) =
      (λ q. ap (λ (u : Text). Dict.get u n) ((text_eq_iff k backend_type).0 q) ∙ e) in
    get-merge k ((backend_type, str (backend_name b)) ∷ []) n h
    ∙ elim (Bool-cases (text_eq k backend_type)) [
      | inl q ↦ rw (q, absent q) refl
      | inr q ↦ rw q (overlay-none (Dict.get k n))
    ]
