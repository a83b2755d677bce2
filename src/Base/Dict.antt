-- ===== src/Base/Dict.antt =====
-- Python's `dict` with text keys, in insertion order: an assignment to a key that is there keeps its
-- place, and one to a new key goes to the end.
use mathlib.Core.Path.{◌≡◌, refl}
use mathlib.Core.Bool.{Bool}
use mathlib.Core.Option.{Option, none, some}
use mathlib.Core.List.{List, [], ◌∷◌}
use mathlib.Core.Logic.{inl, inr}
use native.Mathlib.Omega.{arith}
use llm_middleman.Base.Tests.{if◌then◌else◌, is_some, Bool-cases}
use llm_middleman.Base.Str.{Text, text_eq, text_eq_iff}

abbrev pub Dict {ℓ} : Type ℓ → Type ℓ
Dict V = List (Text × V)

module _ {ℓ} {V : Type ℓ} where
  unfoldable pub get : Text → Dict V → Option V
  get k [] = none
  get k ((j, v) ∷ m) = if text_eq k j then some v else get k m

  unfoldable pub set : Text → V → Dict V → Dict V
  set k v [] = (k, v) ∷ []
  set k v ((j, w) ∷ m) = if text_eq k j then (j, v) ∷ m else (j, w) ∷ set k v m

  unfoldable pub pop : Text → Dict V → Dict V
  pop k [] = []
  pop k ((j, w) ∷ m) = let rest = pop k m in if text_eq k j then rest else (j, w) ∷ rest

  abbrev pub contains : Text → Dict V → Bool
  contains k m = is_some (get k m)

  pub get-set :
      (k j : Text) (v : V) (m : Dict V)
      → get j (set k v m) ≡ (if text_eq j k then some v else get j m)
  unfolding get set
  get-set k j v [] = refl
  get-set k j v ((i, w) ∷ m) =
      ground
        (arith, text_eq_iff k j, text_eq_iff j k, text_eq_iff k i, text_eq_iff j i, get-set k j v m)

  pub get-pop :
      (k j : Text) (m : Dict V) → get j (pop k m) ≡ (if text_eq j k then none else get j m)
  unfolding get pop
  get-pop k j [] = ground arith
  get-pop k j ((i, w) ∷ m) =
      ground
        (arith, text_eq_iff k j, text_eq_iff j k, text_eq_iff k i, text_eq_iff j i, get-pop k j m)

-- No key stands twice.
abbrev pub IsDistinct {ℓ} : {V : Type ℓ} → Dict V → Type ℓ
IsDistinct [] = Unit
IsDistinct ((k, v) ∷ d) = (get k d ≡ none) × IsDistinct d

pub set-IsDistinct {ℓ} :
    {V : Type ℓ} (k : Text) (v : V) (d : Dict V) → IsDistinct d → IsDistinct (set k v d)
unfolding get set
set-IsDistinct k v [] h = (refl, tt)
set-IsDistinct k v ((j, w) ∷ d) h = elim (Bool-cases (text_eq k j)) [
  | inl e ↦ rw e h
  | inr e ↦ rw e (
    ground (arith, get-set k j v d, text_eq_iff j k, text_eq_iff k j, h.0),
    set-IsDistinct k v d h.1,
  )
]

pub pop-IsDistinct {ℓ} : {V : Type ℓ} (k : Text) (d : Dict V) → IsDistinct d → IsDistinct (pop k d)
unfolding get pop
pop-IsDistinct k [] h = tt
pop-IsDistinct k ((j, w) ∷ d) h = elim (Bool-cases (text_eq k j)) [
  | inl e ↦ rw e (pop-IsDistinct k d h.1)
  | inr e ↦ rw e (ground (arith, get-pop k j d, h.0), pop-IsDistinct k d h.1)
]
