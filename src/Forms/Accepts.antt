-- ===== src/Forms/Accepts.antt =====
-- What Home Assistant's selectors accept of a submission: a parameter, with the rules that it
-- documents for the selectors that the forms use.
use llm_middleman.Base.{
  ◌≡◌, Bool, true, false, ◌||◌, Option, none, some, List, map, leb, or_else, any, all, Text,
  text_eq,
}
use llm_middleman.Base.Int.{ℤ, pos, negsuc}
use llm_middleman.Base.Dict
use llm_middleman.Base.Dict.{Dict}
use llm_middleman.Json.{Json, null, bool, int, float, str, arr, to_items}
use llm_middleman.Forms.{
  TextType, Selector, text, number, select, boolean, Prefill, blank, default_value, suggested,
  Field,
}

-- `a <= b`, of integers.
abbrev pub leb_ℤ : ℤ → ℤ → Bool
leb_ℤ (pos a) (pos b) = leb a b
leb_ℤ (pos a) (negsuc b) = false
leb_ℤ (negsuc a) (pos b) = true
leb_ℤ (negsuc a) (negsuc b) = leb b a

abbrev pub at_least : Option ℤ → ℤ → Bool
at_least none n = true
at_least (some m) n = leb_ℤ m n

abbrev pub at_most : Option ℤ → ℤ → Bool
at_most none n = true
at_most (some m) n = leb_ℤ n m

abbrev pub is_number : Json → Bool
is_number (int n) = true
is_number (float m e) = true
is_number v = false

abbrev pub is_text : Json → Bool
is_text (str t) = true
is_text v = false

pub record Selectors : Type 0 where
  pub accepts : Selector → Json → Bool
  pub texts : (k : TextType) (t : Text) → accepts (text k) (str t) ≡ true
  pub booleans : (b : Bool) → accepts boolean (bool b) ≡ true
  pub choices :
      (options : List Text) (custom : Bool) (t : Text)
      → any (text_eq t) options ≡ true
      → accepts (select options custom false) (str t) ≡ true
  pub lists :
      (options : List Text) (custom : Bool) (ts : List Text)
      → all (λ (t : Text). any (text_eq t) options) ts ≡ true
      → accepts (select options custom true) (arr (to_items (map str ts))) ≡ true
  pub whole_numbers :
      (low high : Option ℤ) (step : Json) (n : ℤ)
      → at_least low n ≡ true
      → at_most high n ≡ true
      → accepts (number low high step) (int n) ≡ true
  pub only_numbers :
      (low high : Option ℤ) (step v : Json)
      → accepts (number low high step) v ≡ true
      → is_number v ≡ true

-- What stands in a field before the user types.
abbrev pub shown : Prefill → Json
shown blank = null
shown (default_value v) = v
shown (suggested v) = v

abbrev pub is_null : Json → Bool
is_null null = true
is_null v = false

module _ (ha : Selectors) where
  -- Nothing, or a value that the selector accepts.
  abbrev pub fits : Selector → Json → Bool
  fits selector v = is_null v || ha.accepts selector v

  -- What stands in the form may be submitted as it stands.
  abbrev pub is_typed : Field → Bool
  is_typed f = fits f.selector (shown f.prefill)

  -- The stored options are ones that the form could have been submitted with.
  abbrev pub is_stored : Dict Json → Field → Bool
  is_stored options f = fits f.selector (or_else (Dict.get f.key options) null)

  -- What was submitted for the field, if anything, is accepted by its selector.
  abbrev pub is_submitted : Dict Json → Field → Bool
  is_submitted values f = elim (Dict.get f.key values) [
    | none ↦ true
    | some v ↦ ha.accepts f.selector v
  ]
