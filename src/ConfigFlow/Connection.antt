-- ===== src/ConfigFlow/Connection.antt =====
-- What the flow stores: the URL of a connection, and the credentials of a re-authentication.
use llm_middleman.Base.{
  ℕ, ◌≡◌, refl, ap, ◌∙◌, Bool, true, false, ◌&&◌, Option, none, some, List, [], ◌∷◌, ◌++◌, arith,
  if◌then◌else◌, or_else, is_some, any, Text, text_eq, text_eq_iff,
}
use llm_middleman.Base.Dict
use llm_middleman.Base.Dict.{Dict, get-set, get-pop, IsDistinct}
use llm_middleman.Json.{Json}
use llm_middleman.Error.{Exc}
use llm_middleman.Fallible.{Result, ok, err}
use llm_middleman.Url.{rstrip_slash, ends_with_text}
use llm_middleman.Url.Laws.{
  slashes, rstrip_slash-append, rstrip_slash-kept, removesuffix-append, removesuffix-none,
  ends_with_text-append,
}
use llm_middleman.Registry.{Backend, openai_compat, dify}
use llm_middleman.ConfigFlow.{
  v1, normalize, StepResult, update_entry, create_entry, reauth_fields, without_keys, merge,
  after_reauth, reauth_confirm, reauth_with,
}

-- A server's root, as the user may give it: with slashes behind it, and with `/v1` and slashes.
abbrev pub IsRoot : Text → Type 0
IsRoot root = (rstrip_slash root ≡ root) × (ends_with_text v1 root ≡ false)

abbrev pub stored_url : Backend → Text → Text
stored_url dify root = root ++ v1
stored_url _ root = root

rstrip_slash-v1 : (root : Text) (n : ℕ) → rstrip_slash ((root ++ v1) ++ slashes n) ≡ root ++ v1
unfolding rstrip_slash
rstrip_slash-v1 root n = rstrip_slash-append (root ++ v1) n ∙ rstrip_slash-kept root v1 refl refl

-- The OpenAI-compatible and the Dify preset store one URL for a server, whether its root is given
-- with `/v1` behind it or without, and with whatever number of slashes at the very end. The root ends
-- in no slash and not in `/v1` itself.
pub normalize-root :
    (root : Text) (n : ℕ)
    → IsRoot root
    → (normalize openai_compat (root ++ slashes n) ≡ stored_url openai_compat root)
      × (normalize openai_compat ((root ++ v1) ++ slashes n) ≡ stored_url openai_compat root)
      × (normalize dify (root ++ slashes n) ≡ stored_url dify root)
      × (normalize dify ((root ++ v1) ++ slashes n) ≡ stored_url dify root)
unfolding normalize
normalize-root root n (h, k) = (
  rw (rstrip_slash-append root n, h) (removesuffix-none v1 root k),
  rw (rstrip_slash-v1 root n) (removesuffix-append v1 root),
  rw (rstrip_slash-append root n, h, k) refl,
  rw (rstrip_slash-v1 root n, ends_with_text-append v1 root) refl,
)

abbrev pub has_key : Text → List Text → Bool
has_key k ks = any (text_eq k) ks

pub get-without_keys :
    (ks : List Text) (k : Text) (values : Dict Json)
    → Dict.get k (without_keys ks values) ≡ (if has_key k ks then none else Dict.get k values)
unfolding without_keys
get-without_keys [] k values = refl
get-without_keys (j ∷ ks) k values =
    ground (arith, get-without_keys ks k (Dict.pop j values), get-pop j k values)

-- A submitted value, else the one that was there.
abbrev pub overlay : Option Json → Option Json → Option Json
overlay (some v) old = some v
overlay none old = old

pub get-merge :
    (k : Text) (values other : Dict Json)
    → IsDistinct other
    → Dict.get k (merge values other) ≡ overlay (Dict.get k other) (Dict.get k values)
unfolding merge Dict.get
get-merge k values [] h = refl
get-merge k values ((j, v) ∷ other) (h, h') =
    let absent : (text_eq k j ≡ true → Dict.get k other ≡ none) =
      (λ e. ap (λ (u : Text). Dict.get u other) ((text_eq_iff k j).0 e) ∙ h) in
    ground (arith, get-merge k (Dict.set j v values) other h', get-set j k v values, absent)

-- Whether a step stores data, and whether a probe passes.
abbrev pub saves : StepResult → Bool
saves (update_entry b d) = true
saves (create_entry t d) = true
saves _ = false

abbrev pub passes : Result (Unit {0}) → Bool
passes (ok _) = true
passes (err e) = false

-- The data that a step stores.
abbrev pub Stores : (Dict Json → Type 0) → StepResult → Type 0
Stores P (update_entry b d) = P d
Stores P (create_entry t d) = P d
Stores P _ = Unit

module _ (str_of : Json → Text) (error_key : Exc → Text) (validate : Dict Json → Result (Unit {0}))
    (has_match : Dict Json → Bool) where
  after_reauth-Stores :
      (P : Dict Json → Type 0) (listened : Bool) (d : Dict Json) (r : Result (Unit {0}))
      → (r ≡ ok tt → P d)
      → Stores P (after_reauth str_of error_key validate has_match listened d r)
  after_reauth-Stores P listened d (ok tt) h = h refl
  after_reauth-Stores P listened d (err e) h = ground arith

  -- The data are those that pass the probe, with the credentials and the other keys as they are to
  -- be.
  abbrev pub IsRenewed : List Text → Dict Json → Dict Json → Text → Dict Json → Type 0
  IsRenewed keys entry_data values k d =
      (validate d ≡ ok tt)
      × (Dict.get k d
          ≡ overlay (Dict.get k values) (if has_key k keys then none else Dict.get k entry_data))

  reauth_with-Stores :
      (o : Option (List Text)) (entry_data values : Dict Json) (listened : Bool) (k : Text)
      → IsDistinct values
      → Stores
          (IsRenewed (or_else o []) entry_data values k)
          (reauth_with str_of error_key validate has_match entry_data listened o (some values))
  reauth_with-Stores none entry_data values listened k h = tt
  reauth_with-Stores (some keys) entry_data values listened k h =
      let d = merge (without_keys keys entry_data) values in
      after_reauth-Stores (IsRenewed keys entry_data values k) listened d (validate d) (λ q. (
        q,
        get-merge k (without_keys keys entry_data) values h
            ∙ ap (overlay (Dict.get k values)) (get-without_keys keys k entry_data),
      ))

  after_reauth-saves :
      (listened : Bool) (d : Dict Json) (r : Result (Unit {0}))
      → saves (after_reauth str_of error_key validate has_match listened d r) ≡ passes r
  after_reauth-saves listened d (ok tt) = refl
  after_reauth-saves listened d (err e) = ground arith

  -- The data that a re-authentication tries.
  abbrev pub renewed : Option (List Text) → Dict Json → Dict Json → Dict Json
  renewed o entry_data values = merge (without_keys (or_else o []) entry_data) values

  reauth_with-saves :
      (o : Option (List Text)) (entry_data values : Dict Json) (listened : Bool)
      → saves (reauth_with str_of error_key validate has_match entry_data listened o (some values))
        ≡ (is_some o && passes (validate (renewed o entry_data values)))
  reauth_with-saves none entry_data values listened = refl
  reauth_with-saves (some keys) entry_data values listened =
      after_reauth-saves listened (merge (without_keys keys entry_data) values)
        (validate (merge (without_keys keys entry_data) values))

  -- A re-authentication stores data just if the preset has credentials and the probe passes with
  -- the submitted ones. The stored data pass the probe; under a credential they have what was
  -- submitted, or nothing where that was left empty; and under every other key what was submitted,
  -- else what was stored before.
  pub reauth_confirm-Stores :
      (b : Backend) (entry_data values : Dict Json) (listened : Bool) (k : Text)
      → IsDistinct values
      → (saves
            (reauth_confirm str_of error_key validate has_match b entry_data listened (some values))
          ≡ (is_some (reauth_fields b entry_data)
              && passes (validate (renewed (reauth_fields b entry_data) entry_data values))))
        × Stores
            (IsRenewed (or_else (reauth_fields b entry_data) []) entry_data values k)
            (reauth_confirm str_of error_key validate has_match b entry_data listened (some values))
  unfolding reauth_confirm
  reauth_confirm-Stores b entry_data values listened k h = (
    reauth_with-saves (reauth_fields b entry_data) entry_data values listened,
    reauth_with-Stores (reauth_fields b entry_data) entry_data values listened k h,
  )
