-- ===== src/Url.antt =====
-- The methods of Python's `str` that the URLs of the backends go through: `rstrip("/")`,
-- `endswith`, `removesuffix`; and `str(data.get(key, ""))` of a stored connection.
pub mod Laws
use llm_middleman.Base.{
  Bool, ◌&&◌, Option, none, some, [], ◌∷◌, ◌==◌, if◌then◌else◌, or_else, is_some, is_empty, Text,
  text_eq,
}
use llm_middleman.Base.Dict
use llm_middleman.Base.Dict.{Dict}
use llm_middleman.Json.{Json, str, truthy, get}

-- `text.rstrip("/")`
unfoldable pub rstrip_slash : Text → Text
rstrip_slash [] = []
rstrip_slash (c ∷ cs) =
    let rest = rstrip_slash cs in if is_empty rest && c == b'/' then [] else c ∷ rest

-- `text.removesuffix(suffix)`, `none` where the text does not end in it.
unfoldable pub without_suffix : Text → Text → Option Text
without_suffix suffix [] = if is_empty suffix then some [] else none
without_suffix suffix (c ∷ cs) =
    let rest = without_suffix suffix cs in
    if text_eq (c ∷ cs) suffix then some [] else elim rest [ none ↦ none | some t ↦ some (c ∷ t) ]

unfoldable pub ends_with_text : Text → Text → Bool
unfolding without_suffix
ends_with_text suffix t = is_some (without_suffix suffix t)

unfoldable pub removesuffix : Text → Text → Text
unfolding without_suffix
removesuffix suffix t = or_else (without_suffix suffix t) t

-- Python's `str` of a value that is no text.
module _ (str_of : Json → Text) where
  abbrev pub as_text : Json → Text
  as_text (str t) = t
  as_text v = str_of v

  -- `str(values.get(key, default))`
  unfoldable pub text_at : Text → Text → Dict Json → Text
  text_at key default values = as_text (or_else (Dict.get key values) (str default))

  -- `str(values.get(key) or default)`
  unfoldable pub text_or : Text → Text → Dict Json → Text
  text_or key default values = if truthy (get key values) then as_text (get key values) else default
