-- ===== src/Forms.antt =====
-- config_flow.py: the forms that the flow shows. A form is the list of its fields, as the schema
-- dictionary has them in order; the selectors of Home Assistant are data.
pub mod Connection
pub mod Accepts
pub mod Agent
pub mod Requests
pub mod Submitted
pub mod Types
use llm_middleman.Base.{String, Bool, true, false, Option, List, [], ◌∷◌, or_else, Text, codes}
use llm_middleman.Base.Int.{ℤ}
use llm_middleman.Base.Dict
use llm_middleman.Base.Dict.{Dict}
use llm_middleman.Json.{Json}

-- A text selector's type.
pub data TextType : Type 0 where
  plain url password : TextType

-- The selectors in use. A number has its bounds and its step; a selection its options, whether others
-- may be typed, and whether several may be chosen.
pub data Selector : Type 0 where
  text : TextType → Selector
  template : Selector
  number : Option ℤ → Option ℤ → Json → Selector
  select : List Text → Bool → Bool → Selector
  boolean : Selector
  object : Selector

-- What stands in a field before the user types: a default, or a suggestion, which may be `None`.
pub data Prefill : Type 0 where
  blank : Prefill
  default_value : Json → Prefill
  suggested : Json → Prefill

pub record Field : Type 0 where
  pub key : Text
  pub required : Bool
  pub prefill : Prefill
  pub selector : Selector

abbrev pub Schema : Type 0
Schema = List Field

abbrev pub keys_of : Schema → List Text
keys_of [] = []
keys_of (f ∷ fs) = f.key ∷ keys_of fs

abbrev pub required : String → Prefill → Selector → Field
required key prefill selector = record {
  key = codes key;
  required = true;
  prefill = prefill;
  selector = selector;
}

abbrev pub optional : String → Prefill → Selector → Field
optional key prefill selector = record {
  key = codes key;
  required = false;
  prefill = prefill;
  selector = selector;
}

-- `options.get(key, default)`
abbrev pub stored_or : String → Json → Dict Json → Json
stored_or key default options = or_else (Dict.get (codes key) options) default

-- A field that suggests what is stored.
abbrev pub suggesting : String → Json → Dict Json → Selector → Field
suggesting key default options selector =
    optional key (suggested (stored_or key default options)) selector

abbrev pub drop_down : List Text → Selector
drop_down options = select options false false
