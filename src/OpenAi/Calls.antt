-- ===== src/OpenAi/Calls.antt =====
-- backends/openai_compat.py: the tool calls of a turn, which the server sends in pieces
-- (`_accumulate_tool_call`, `_tool_input`), and Python's `int` and iteration of a value.
use llm_middleman.Base.{
  suc, ◌*◌, ◌/◌, ◌^◌, Bool, true, false, Option, none, some, List, [], ◌∷◌, ◌++◌, map, ◌==◌,
  if◌then◌else◌, is_empty, Text, codes,
}
use llm_middleman.Base.Int.{ℤ, pos, negsuc, sub_ℕ}
use llm_middleman.Base.Dict
use llm_middleman.Base.Dict.{Dict}
use llm_middleman.Json.{
  Json, bool, int, float, str, arr, nil, item, obj, items, fields, get, truthy, json_object,
  loads_json_object,
}
use llm_middleman.Error.{
  raised, backend_stream_error, type_error, key_error, value_error, index_error,
}
use llm_middleman.Fallible.{Result, ok, err, ◌>>=◌}
use llm_middleman.Stream.{ToolInput}

-- What a server sends in pieces of one call: `{"id": …, "name": …, "args": …}`.
pub record Slot : Type 0 where
  pub id : Text
  pub name : Text
  pub args : Text

abbrev pub Slots : Type 0
Slots = List (ℤ × Slot)

abbrev pub ℤ_eq : ℤ → ℤ → Bool
ℤ_eq (pos a) (pos b) = a == b
ℤ_eq (negsuc a) (negsuc b) = a == b
ℤ_eq _ _ = false

-- `value or ""`, added to a text: a value that is true and no text is a `TypeError`.
unfoldable pub text_or_empty : Json → Result Text
text_or_empty (str t) = ok t
text_or_empty v = if truthy v then err (raised type_error) else ok []

-- What the fragment adds to its slot.
unfoldable pub add_fragment : Dict Json → Slot → Result Slot
unfolding text_or_empty
add_fragment call slot = do
  id ← text_or_empty (get (codes "id") call)
  elim (json_object (get (codes "function") call)) [
    | none ↦ ok (record slot { id = slot.id ++ id })
    | some function ↦ (do
      name ← text_or_empty (get (codes "name") function)
      args ← text_or_empty (get (codes "arguments") function)
      ok (record { id = slot.id ++ id; name = slot.name ++ name; args = slot.args ++ args }))
  ]

abbrev pub empty_slot : Slot
empty_slot = record { id = []; name = []; args = [] }

-- `tool_calls.setdefault(index, …)` and the change of that slot.
unfoldable pub update_slot : ℤ → (Slot → Result Slot) → Slots → Result Slots
update_slot index f [] = do slot ← f empty_slot; ok ((index, slot) ∷ [])
update_slot index f ((i, slot) ∷ slots) =
    let later = update_slot index f slots in
    if ℤ_eq index i
    then (do slot' ← f slot; ok ((i, slot') ∷ slots))
    else (do slots' ← later; ok ((i, slot) ∷ slots'))

-- `for x in value`: a text gives its characters, an object its keys.
unfoldable pub iterate : Json → Result (List Json)
iterate (arr xs) = ok (items xs)
iterate (str t) = ok (map (λ c. str (c ∷ [])) t)
iterate (obj fs) = ok (map (λ (f : Text × Json). str f.0) (fields fs))
iterate _ = err (raised type_error)

-- `value[0]`
unfoldable pub first_of_choices : Json → Result Json
first_of_choices (arr nil) = err (raised index_error)
first_of_choices (arr (item x xs)) = ok x
first_of_choices (str (c ∷ t)) = ok (str (c ∷ []))
first_of_choices (obj fs) = err (raised key_error)
first_of_choices _ = err (raised type_error)

-- `int(text)`, `none` for a `ValueError`.
module _ (int_of_text : Text → Option ℤ) where
  -- `int(value)`: a float is cut towards 0.
  unfoldable pub py_int : Json → Result ℤ
  py_int (int n) = ok n
  py_int (bool true) = ok (pos 1)
  py_int (bool false) = ok (pos 0)
  py_int (str t) = elim (int_of_text t) [ some n ↦ ok n | none ↦ err (raised value_error) ]
  py_int (float (pos m) (pos e)) = ok (pos (m * 10 ^ e))
  py_int (float (pos m) (negsuc e)) = ok (pos (m / 10 ^ suc e))
  py_int (float (negsuc m) (pos e)) = ok (sub_ℕ 0 (suc m * 10 ^ e))
  py_int (float (negsuc m) (negsuc e)) = ok (sub_ℕ 0 (suc m / 10 ^ suc e))
  py_int _ = err (raised type_error)

  -- `int(call.get("index", 0))`
  unfoldable pub index_of : Dict Json → Result ℤ
  unfolding py_int
  index_of call = elim (Dict.get (codes "index") call) [ none ↦ ok (pos 0) | some v ↦ py_int v ]

  -- `_accumulate_tool_call`
  unfoldable pub accumulate_tool_call : Slots → Json → Result Slots
  unfolding index_of add_fragment update_slot
  accumulate_tool_call slots fragment = elim (json_object fragment) [
    | none ↦ err (raised backend_stream_error)
    | some call ↦ (do index ← index_of call; update_slot index (add_fragment call) slots)
  ]

  unfoldable pub accumulate_all : Slots → List Json → Result Slots
  accumulate_all slots [] = ok slots
  accumulate_all slots (f ∷ fs) = do slots' ← accumulate_tool_call slots f; accumulate_all slots' fs

  -- `if fragments: for fragment in fragments: …`
  unfoldable pub take_fragments : Slots → Json → Result Slots
  unfolding accumulate_all iterate
  take_fragments slots fragments =
      if truthy fragments then (do fs ← iterate fragments; accumulate_all slots fs) else ok slots

  -- `int(value or 0)`
  unfoldable pub int_or_zero : Json → Result ℤ
  unfolding py_int
  int_or_zero v = if truthy v then py_int v else ok (pos 0)

-- `json.loads`
module _ (loads : Text → Option Json) where
  -- `_tool_input`: a call whose arguments are no JSON object is left out.
  unfoldable pub tool_input : Slot → Option ToolInput
  tool_input call =
      let raw = if is_empty call.args then codes "{}" else call.args in
      elim (loads_json_object loads raw) [
        | none ↦ none
        | some args ↦
            some
              (record { id = call.id; tool_name = call.name; tool_args = args; external = false })
      ]

  unfoldable pub tool_inputs : Slots → List ToolInput
  unfolding tool_input
  tool_inputs [] = []
  tool_inputs ((i, slot) ∷ slots) = elim (tool_input slot) [
    | none ↦ tool_inputs slots
    | some call ↦ call ∷ tool_inputs slots
  ]
