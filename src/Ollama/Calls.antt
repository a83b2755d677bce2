-- ===== src/Ollama/Calls.antt =====
-- backends/ollama.py: the tool calls of a message and the repair of their arguments
-- (`_parse_tool_args`, `_fix_invalid_arguments`, a part of `stream_turn`). `loads` is `json.loads`,
-- `ulid_now` gives ids, and `text_of` is the text that Home Assistant reads where a call has
-- another value for its id or its name.
use llm_middleman.Base.{
  ℕ, ◌+◌, Bool, true, false, not, ◌&&◌, ◌||◌, Option, none, some, List, [], ◌∷◌, ◌==◌,
  if◌then◌else◌, last?, Text, codes,
}
use llm_middleman.Base.Dict
use llm_middleman.Base.Dict.{Dict}
use llm_middleman.Json.{Json, null, str, obj, fields, get, truthy}
use llm_middleman.Error.{attribute_error, key_error, type_error, raised}
use llm_middleman.Fallible.{Result, ok, err, ◌>>=◌}
use llm_middleman.Stream.{ToolInput}

-- `value.endswith(c)` for one character.
abbrev ends_with : Text → ℕ → Bool
ends_with t c = elim (last? t) [ none ↦ false | some d ↦ d == c ]

abbrev starts : Text → ℕ → Bool
starts [] c = false
starts (d ∷ t) c = d == c

abbrev looks_nested : Text → Bool
looks_nested t = (starts t b'[' && ends_with t b']') || (starts t b'{' && ends_with t b'}')

abbrev is_empty_str : Json → Bool
is_empty_str (str []) = true
is_empty_str _ = false

-- `v is not None and v != ""`
abbrev pub is_given : Json → Bool
is_given null = false
is_given v = not (is_empty_str v)

-- `value[key]` with a text key.
abbrev pub index : Text → Json → Result Json
index k (obj fs) = elim (Dict.get k (fields fs)) [ none ↦ err (raised key_error) | some v ↦ ok v ]
index k _ = err (raised type_error)

-- A value on which a method of `dict` is called.
abbrev pub as_dict : Json → Result (Dict Json)
as_dict (obj fs) = ok (fields fs)
as_dict _ = err (raised attribute_error)

module _ (loads : Text → Option Json) (ulid_now : ℕ → Text) (text_of : Json → Text) where
  abbrev or_value : Json → Option Json → Json
  or_value v none = v
  or_value v (some parsed) = parsed

  unfoldable pub fix_invalid_arguments : Json → Json
  fix_invalid_arguments (str t) = if looks_nested t then or_value (str t) (loads t) else str t
  fix_invalid_arguments v = v

  unfoldable pub parse_tool_args : Dict Json → Dict Json
  unfolding fix_invalid_arguments
  parse_tool_args [] = []
  parse_tool_args ((k, v) ∷ arguments) =
      let rest = parse_tool_args arguments in
      if is_given v then (k, fix_invalid_arguments v) ∷ rest else rest

  abbrev text_or : Json → Text
  text_or (str t) = t
  text_or v = text_of v

  -- `tc.get("id") or ulid_now()`, and how many ids are minted then.
  abbrev call_id : ℕ → Json → Text × ℕ
  call_id minted id = if truthy id then (text_or id, minted) else (ulid_now minted, minted + 1)

  -- One call of a message, with its arguments repaired.
  unfoldable pub tool_input : ℕ → Json → Result (ToolInput × ℕ)
  unfolding parse_tool_args
  tool_input minted tc = do
    call ← as_dict tc
    function ← index (codes "function") tc
    name ← index (codes "name") function
    value ← index (codes "arguments") function
    arguments ← as_dict value
    let (id, minted') = call_id minted (get (codes "id") call)
    ok (
      record {
        id = id;
        tool_name = text_or name;
        tool_args = parse_tool_args arguments;
        external = false;
      },
      minted',
    )

  unfoldable pub tool_inputs : ℕ → List Json → Result (List ToolInput × ℕ)
  unfolding tool_input
  tool_inputs minted [] = ok ([], minted)
  tool_inputs minted (tc ∷ tcs) = do
    first ← tool_input minted tc
    rest ← tool_inputs first.1 tcs
    ok (first.0 ∷ rest.0, rest.1)
