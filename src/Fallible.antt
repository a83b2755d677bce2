-- ===== src/Fallible.antt =====
-- Code that may raise: its result, or the exception; and the membership tests of Python that raise
-- for a value that has no hash.
use llm_middleman.Base.{Bool, false, List, any, Text, text_eq}
use llm_middleman.Json.{Json, str, arr, obj}
use llm_middleman.Error.{Exc, raised, type_error}

pub data Result {ℓ} (A : Type ℓ) : Type ℓ where
  ok : A → Result A
  err : Exc → Result A

infixl 5 ◌>>=◌
abbrev pub ◌>>=◌ {ℓ κ} : {A : Type ℓ} {B : Type κ} → Result A → (A → Result B) → Result B
ok a >>= f = f a
err e >>= f = err e

-- `value in frozenset`: a value that has no hash is a `TypeError`.
unfoldable pub member_of : List Text → Json → Result Bool
member_of names (str t) = ok (any (text_eq t) names)
member_of names (arr xs) = err (raised type_error)
member_of names (obj fs) = err (raised type_error)
member_of names v = ok false
