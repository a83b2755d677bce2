-- ===== src/Json.antt =====
-- The values that `json.loads` returns, and what the adapters do with a value of unknown type
-- (`json_object`, `json_list` and `loads_json_object` of backends/base.py). The parser is Python's:
-- a parameter `loads : Text → Option Json` of what uses it, `none` for `json.JSONDecodeError`.
use llm_middleman.Base.{zero, Bool, true, false, Option, none, some, List, [], ◌∷◌, or_else, Text}
use llm_middleman.Base.Int.{ℤ, pos}
use llm_middleman.Base.Dict
use llm_middleman.Base.Dict.{Dict}

-- `float m e` is the number m · 10 ^ e.
mutual
  pub data Json : Type 0 where
    null : Json
    bool : Bool → Json
    int : ℤ → Json
    float : ℤ → ℤ → Json
    str : Text → Json
    arr : Items → Json
    obj : Fields → Json

  pub data Items : Type 0 where
    nil : Items
    item : Json → Items → Items

  pub data Fields : Type 0 where
    end : Fields
    field : Text → Json → Fields → Fields

abbrev pub items : Items → List Json
items nil = []
items (item x xs) = x ∷ items xs

abbrev pub fields : Fields → Dict Json
fields end = []
fields (field k v fs) = (k, v) ∷ fields fs

abbrev pub to_items : List Json → Items
to_items [] = nil
to_items (x ∷ xs) = item x (to_items xs)

abbrev pub to_fields : Dict Json → Fields
to_fields [] = end
to_fields ((k, v) ∷ d) = field k v (to_fields d)

-- `json_object` and `json_list`: the value narrowed to an object or to an array.
abbrev pub json_object : Json → Option (Dict Json)
json_object (obj fs) = some (fields fs)
json_object _ = none

abbrev pub json_list : Json → Option (List Json)
json_list (arr xs) = some (items xs)
json_list _ = none

-- `json_object(value) or {}`
abbrev pub object_or_empty : Json → Dict Json
object_or_empty v = or_else (json_object v) []

-- `d.get(key)`: a missing key reads as `None`, as a `null` does.
abbrev pub get : Text → Dict Json → Json
get k d = or_else (Dict.get k d) null

-- `isinstance(value, str)`
abbrev pub as_str : Json → Option Text
as_str (str t) = some t
as_str _ = none

abbrev nonempty : Text → Bool
nonempty [] = false
nonempty (c ∷ t) = true

abbrev int_truthy : ℤ → Bool
int_truthy (pos zero) = false
int_truthy _ = true

-- `bool(value)`
abbrev pub truthy : Json → Bool
truthy null = false
truthy (bool b) = b
truthy (int n) = int_truthy n
truthy (float m e) = int_truthy m
truthy (str t) = nonempty t
truthy (arr nil) = false
truthy (arr (item x xs)) = true
truthy (obj end) = false
truthy (obj (field k v fs)) = true

-- `isinstance(value, int)`: Python's `bool` is a subclass of `int`.
abbrev pub as_int : Json → Option ℤ
as_int (int n) = some n
as_int (bool true) = some (pos 1)
as_int (bool false) = some (pos 0)
as_int _ = none

-- A text that is not empty, else nothing: `isinstance(value, str) and value`.
abbrev pub nonempty_str : Json → Option Text
nonempty_str (str []) = none
nonempty_str (str (c ∷ t)) = some (c ∷ t)
nonempty_str _ = none

-- `json_object(json.loads(raw))` with a parse failure read as `None` (`loads_json_object`).
abbrev pub loads_json_object : (Text → Option Json) → Text → Option (Dict Json)
loads_json_object loads raw = elim (loads raw) [ none ↦ none | some v ↦ json_object v ]
