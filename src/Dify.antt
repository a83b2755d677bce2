-- ===== src/Dify.antt =====
-- backends/dify.py: the session map of the Dify adapter (`_lookup`, `_remember`, `_drop`,
-- `_persisted_map`), what a pre-stream error means, the inputs that an app declares, and the filter
-- of `<think>` blocks. Home Assistant's store is what it last saved. Dify/Tools has the tool
-- activity, Dify/Run and Dify/Turn the stream of a turn, Dify/Request its request and the probe.
pub mod Sessions
pub mod Think
pub mod Tools
pub mod Run
pub mod Request
pub mod Turn
pub mod Shape
use llm_middleman.Base.{
  ℕ, zero, suc, ◌-◌, min, String, Bool, true, false, not, ◌&&◌, ◌||◌, Option, none, some, List, [],
  ◌∷◌, ◌++◌, ltb, ◌==◌, if◌then◌else◌, or_else, length, is_empty, drop, take, Text, codes, text_eq,
  ◌is◌, starts_with, is_in, lower,
}
use llm_middleman.Base.Dict
use llm_middleman.Base.Dict.{Dict}
use llm_middleman.Base.Int.{ℤ, pos, negsuc}
use llm_middleman.Json.{Json, str, get, json_list, json_object, nonempty_str, as_int}

-- What the adapter holds (`_mem`, `_persisted`, which is `None` until it is loaded), and the store.
pub record Maps : Type 0 where
  pub mem : Dict Text
  pub persisted : Option (Dict Text)
  pub stored : Dict Text

-- `_persisted_map`: an empty store loads as an empty map.
abbrev pub persisted_map : Maps → Dict Text
persisted_map m = or_else m.persisted m.stored

abbrev pub loaded : Maps → Maps
loaded m = record m { persisted = some (persisted_map m) }

-- The map is changed and saved.
abbrev pub save : Dict Text → Maps → Maps
save d m = record m { persisted = some d; stored = d }

abbrev pub adopt : Text → Text → Option Text → Maps → Maps
adopt session_key legacy_key none m = loaded m
adopt session_key legacy_key (some id) m =
    save (Dict.set session_key id (Dict.pop legacy_key (persisted_map m))) m

-- The move of an entry under the legacy key to the session key.
unfoldable pub adopt_legacy : Text → Option Text → Maps → Maps
adopt_legacy session_key none m = loaded m
adopt_legacy session_key (some legacy_key) m =
    if Dict.contains session_key (persisted_map m)
    then loaded m
    else adopt session_key legacy_key (Dict.get legacy_key (persisted_map m)) m

unfoldable pub lookup : Text → Bool → Option Text → Maps → Option Text × Maps
unfolding adopt_legacy
lookup session_key persist legacy_key m =
    if not persist
    then (Dict.get session_key m.mem, m)
    else let m' = adopt_legacy session_key legacy_key m in
      (Dict.get session_key (persisted_map m'), m')

unfoldable pub remember : Text → Text → Bool → Maps → Maps
remember session_key conversation_id persist m =
    if not persist
    then record m { mem = Dict.set session_key conversation_id m.mem }
    else save (Dict.set session_key conversation_id (persisted_map m)) m

unfoldable pub drop_session : Text → Bool → Maps → Maps
drop_session session_key persist m =
    if not persist
    then record m { mem = Dict.pop session_key m.mem }
    else if Dict.contains session_key (persisted_map m)
    then save (Dict.pop session_key (persisted_map m)) m
    else loaded m

abbrev code_is : Json → String → Bool
code_is (str t) s = t is s
code_is v s = false

unfoldable pub is_stale_conversation : ℕ → Json → Text → Bool
is_stale_conversation status code message =
    if status == 404
    then code_is code "conversation_not_exists"
      || code_is code "not_found"
      || is_in (codes "conversation not exist") (lower message)
    else status == 400 && code_is code "conversation_completed"

-- An entry of the form with exactly one control.
abbrev only_control : Option (Dict Json) → Option (Dict Json)
only_control (some ((k, v) ∷ [])) = json_object v
only_control _ = none

abbrev declare : Option (Dict Json) → Dict (Dict Json) → Dict (Dict Json)
declare none declared = declared
declare (some control) declared = elim (nonempty_str (get (codes "variable") control)) [
  | none ↦ declared
  | some variable ↦ Dict.set variable control declared
]

unfoldable pub declare_all : List Json → Dict (Dict Json) → Dict (Dict Json)
declare_all [] declared = declared
declare_all (item ∷ items) declared =
    declare_all items (declare (only_control (json_object item)) declared)

unfoldable pub parse_user_input_form : Json → Dict (Dict Json)
unfolding declare_all
parse_user_input_form form = declare_all (or_else (json_list form) []) []

-- `isinstance(max_length, int) and max_length > 0 and len(value) > max_length`
abbrev pub limit_of : Option ℤ → Option ℕ
limit_of none = none
limit_of (some (pos zero)) = none
limit_of (some (pos (suc n))) = some (suc n)
limit_of (some (negsuc n)) = none

abbrev pub cut_to : Option ℕ → Text → Text
cut_to none value = value
cut_to (some n) value = if ltb n (length value) then take n value else value

unfoldable pub fit_input : Text → Dict Json → Text
fit_input value control = cut_to (limit_of (as_int (get (codes "max_length") control))) value

abbrev pub think_open : Text
think_open = codes "<think>"

abbrev pub think_close : Text
think_close = codes "</think>"

-- `text[-k:] == tag[:k]`, for the greatest k up to `k`.
unfoldable pub tag_tail_from : ℕ → Text → Text → ℕ
tag_tail_from zero text tag = 0
tag_tail_from (suc k) text tag =
    let less = tag_tail_from k text tag in
    if text_eq (drop (length text - suc k) text) (take (suc k) tag) then suc k else less

unfoldable pub tag_tail : Text → Text → ℕ
unfolding tag_tail_from
tag_tail text tag = tag_tail_from (min (length text) (length tag - 1)) text tag

abbrev pub cons_before : ℕ → Option (Text × Text) → Option (Text × Text)
cons_before c none = none
cons_before c (some (before, after)) = some (c ∷ before, after)

-- `text.find(tag)`: what stands before the tag, and after it.
unfoldable pub split_at : Text → Text → Option (Text × Text)
split_at tag [] = if is_empty tag then some ([], []) else none
split_at tag (c ∷ cs) =
    if starts_with tag (c ∷ cs)
    then some ([], drop (length tag) (c ∷ cs))
    else cons_before c (split_at tag cs)

-- `_buf` and `_in_think`.
pub record Stripper : Type 0 where
  pub buf : Text
  pub in_think : Bool

abbrev pub new_stripper : Stripper
new_stripper = record { buf = []; in_think = false }

-- All but a possible start of a tag, which is kept: outside a block it is emitted, inside dropped.
abbrev pub after_open : Text → Option (Text × Text) → (Text → Text × Stripper) → Text × Stripper
after_open buf none rest =
    let keep = length buf - tag_tail buf think_open in
    (take keep buf, record { buf = drop keep buf; in_think = false })
after_open buf (some (before, after)) rest = (before ++ (rest after).0, (rest after).1)

abbrev pub after_close : Text → Option (Text × Text) → (Text → Text × Stripper) → Text × Stripper
after_close buf none rest =
    let keep = length buf - tag_tail buf think_close in
    ([], record { buf = drop keep buf; in_think = true })
after_close buf (some (before, after)) rest = rest after

-- The loop of `feed`, for at most as many tags as there is fuel: what is emitted, and the state.
unfoldable pub strip : ℕ → Text → Bool → Text × Stripper
unfolding tag_tail split_at
strip zero buf in_think = ([], record { buf = buf; in_think = in_think })
strip (suc fuel) [] in_think = ([], record { buf = []; in_think = in_think })
strip (suc fuel) (c ∷ cs) false =
    after_open (c ∷ cs) (split_at think_open (c ∷ cs)) (λ after. strip fuel after true)
strip (suc fuel) (c ∷ cs) true =
    after_close (c ∷ cs) (split_at think_close (c ∷ cs)) (λ after. strip fuel after false)

-- `feed`: each tag takes at least one character, so the length of the buffer is fuel enough.
unfoldable pub feed : Stripper → Text → Text × Stripper
unfolding strip
feed s chunk = strip (suc (length (s.buf ++ chunk))) (s.buf ++ chunk) s.in_think

unfoldable pub flush : Stripper → Text × Stripper
flush s = (if s.in_think then [] else s.buf, record s { buf = [] })
