-- ===== src/History.antt =====
-- backends/_history.py: the trimming of the provider messages that the stateless adapters replay.
pub mod Window
pub mod Short
use llm_middleman.Base.{
  ℕ, suc, ◌+◌, ◌-◌, ◌*◌, String, Bool, false, Option, none, some, List, [], ◌∷◌, ◌++◌, ltb,
  if◌then◌else◌, length, drop, Text, codes, ◌is◌,
}
use llm_middleman.Base.Int.{ℤ, pos, negsuc, sub_ℕ}
use llm_middleman.Base.Dict.{Dict}
use llm_middleman.Json.{Json, get, as_str}

abbrev pub Message : Type 0
Message = Dict Json

abbrev str_is : Option Text → String → Bool
str_is none s = false
str_is (some t) s = t is s

-- `message.get("role") == role`
unfoldable pub has_role : String → Message → Bool
has_role r m = str_is (as_str (get (codes "role") m)) r

-- `sum(1 for message in messages if message.get("role") == "user")`
unfoldable pub count_users : List Message → ℕ
count_users [] = 0
count_users (m ∷ ms) = (if has_role "user" m then 1 else 0) + count_users ms

-- `items[i:]`: a negative index counts from the end, and stops at the start.
unfoldable pub slice_from {ℓ} : {A : Type ℓ} → ℤ → List A → List A
slice_from (pos n) xs = drop n xs
slice_from (negsuc n) xs = drop (length xs - suc n) xs

-- `[result[0]]` if the first message is the system prompt.
unfoldable pub system_head : List Message → List Message
system_head [] = []
system_head (m ∷ ms) = if has_role "system" m then m ∷ [] else []

-- A negative `max_history` takes the first return, as 0 does. `num_previous_rounds < max_history` is
-- written with the 1 on the other side, since `num_previous_rounds` may be -1.
unfoldable pub trim_history : List Message → ℕ → List Message
unfolding system_head slice_from
trim_history messages max_history =
    if ltb max_history 1
    then messages
    else if ltb (count_users messages) (max_history + 1)
    then messages
    else let num_keep = 2 * max_history + 1 in
      let drop_index = sub_ℕ (length messages) num_keep in
      system_head messages ++ slice_from drop_index messages
