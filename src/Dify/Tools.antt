-- ===== src/Dify/Tools.antt =====
-- backends/dify.py: the tool activity that the events of a turn report (`_ToolActivity`,
-- `_thought_tools`, `_node_tool`). Python's `str` of a value that is no text is a parameter.
use llm_middleman.Base.{
  String, Bool, true, false, not, Option, none, some, List, [], ◌∷◌, ◌++◌, map, ◌==◌, if◌then◌else◌,
  or_else, length, is_empty, filter, all, Text, codes, ◌is◌,
}
use llm_middleman.Base.Dict
use llm_middleman.Base.Dict.{Dict}
use llm_middleman.Json.{
  Json, null, str, obj, get, truthy, nonempty_str, json_object, object_or_empty, to_fields,
}
use llm_middleman.Fallible.{Result, ok, err, member_of}
use llm_middleman.Base.White.{is_white, strip_text}
use llm_middleman.Url.{text_or}

-- `result` is `null` for `None`.
pub record ToolActivity : Type 0 where
  pub call_id : Text
  pub name : Text
  pub args : Option (Dict Json)
  pub result : Json
  pub error : Bool

-- `text.split(";")`: what stands before the first semicolon, and the other parts.
unfoldable pub split_semicolons : Text → Text × List Text
split_semicolons [] = ([], [])
split_semicolons (c ∷ cs) =
    let (part, parts) = split_semicolons cs in
    if c == b';' then ([], part ∷ parts) else (c ∷ part, parts)

-- `isinstance(raw, str) and raw.strip()`
unfoldable pub nonblank_str : Json → Option Text
nonblank_str (str t) = if all is_white t then none else some t
nonblank_str v = none

abbrev is_null : Json → Bool
is_null null = true
is_null _ = false

abbrev kept : Text → Bool
kept part = not (is_empty part)

-- The arguments of one tool of a thought: those under its name, a value under its name, the whole
-- input if it is the only tool, or the text of the input.
abbrev pub keyed_args : Text → Bool → Option (Dict Json) → Json → Dict Json
keyed_args raw_input alone by_name keyed = elim (json_object keyed) [
  | some args ↦ args
  | none ↦
      if not (is_null keyed)
      then (codes "input", keyed) ∷ []
      else if alone
      then or_else by_name ((codes "input", str raw_input) ∷ [])
      else (codes "input", str raw_input) ∷ []
]

module _ (loads : Text → Option Json) (str_of : Json → Text) where
  -- `_loads_any`
  unfoldable pub loads_any : Json → Json
  unfolding nonblank_str
  loads_any raw = elim (nonblank_str raw) [ none ↦ null | some t ↦ or_else (loads t) null ]

  unfoldable pub tool_names : Dict Json → List Text
  unfolding strip_text split_semicolons
  tool_names payload =
      let (part, parts) = split_semicolons (text_or str_of (codes "tool") [] payload) in
      filter kept (map strip_text (part ∷ parts))

  abbrev args_of : Json → Bool → Text → Option (Dict Json)
  args_of raw_input alone name = elim (nonblank_str raw_input) [
    | none ↦ none
    | some t ↦
        let by_name = json_object (loads_any raw_input) in
        some (keyed_args t alone by_name (get name (or_else by_name [])))
  ]

  abbrev result_of : Json → Text → Json
  result_of raw_observation name = elim (nonblank_str raw_observation) [
    | none ↦ null
    | some t ↦ or_else (Dict.get name (object_or_empty (loads_any raw_observation))) (str t)
  ]

  abbrev activity_of : Dict Json → Text → Bool → Text → ToolActivity
  activity_of payload thought_id alone name = record {
    call_id = thought_id ++ b':' ∷ name;
    name = name;
    args = args_of (get (codes "tool_input") payload) alone name;
    result = result_of (get (codes "observation") payload) name;
    error = false;
  }

  -- `_thought_tools`
  unfoldable pub thought_tools : Dict Json → List ToolActivity
  unfolding tool_names loads_any nonblank_str
  thought_tools payload =
      let names = tool_names payload in
      let thought_id =
        text_or str_of (codes "id") (text_or str_of (codes "position") (codes "thought") payload)
          payload in
      map (activity_of payload thought_id (length names == 1)) names

  abbrev pub node_failed : List Text
  node_failed = codes "failed" ∷ codes "exception" ∷ []

  abbrev or_text : Json → Text → Json
  or_text v default = if truthy v then v else str default

  abbrev node_activity : Dict Json → Text → Json → Bool → ToolActivity
  node_activity values call_id result error = record {
    call_id = call_id;
    name =
        text_or str_of (codes "title") (text_or str_of (codes "node_id") (codes "tool") values)
          values;
    args = some (object_or_empty (get (codes "inputs") values));
    result = result;
    error = error;
  }

  -- A node that has finished: a failure, or its outputs.
  abbrev finished_node : Dict Json → Text → Bool → ToolActivity
  finished_node values call_id true =
      node_activity values call_id
        (obj (
          to_fields
            ((codes "error", or_text (get (codes "error") values) (codes "tool failed")) ∷ [])))
        true
  finished_node values call_id false =
      node_activity values call_id
        (obj (to_fields (object_or_empty (get (codes "outputs") values)))) false

  abbrev str_is : Json → String → Bool
  str_is (str t) s = t is s
  str_is v s = false

  abbrev pub after_status : Dict Json → Text → Result Bool → Result (Option ToolActivity)
  after_status values call_id (err e) = err e
  after_status values call_id (ok failing) = ok (some (finished_node values call_id failing))

  abbrev pub tool_node : Bool → Dict Json → Option Text → Result (Option ToolActivity)
  tool_node ends values none = ok none
  tool_node ends values (some call_id) =
      if not (str_is (get (codes "node_type") values) "tool")
      then ok none
      else if not ends
      then ok (some (node_activity values call_id null false))
      else after_status values call_id (member_of node_failed (get (codes "status") values))

  abbrev pub node_of : Bool → Option (Dict Json) → Result (Option ToolActivity)
  node_of ends none = ok none
  node_of ends (some values) = tool_node ends values (nonempty_str (get (codes "id") values))

  -- `_node_tool`; `ends` is whether the event is `node_finished`.
  unfoldable pub node_tool : Bool → Dict Json → Result (Option ToolActivity)
  unfolding member_of
  node_tool ends payload = node_of ends (json_object (get (codes "data") payload))
