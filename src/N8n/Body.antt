-- ===== src/N8n/Body.antt =====
-- backends/n8n.py: what is spoken of a JSON body (`_json_items`, `_reply_from_json`,
-- `_unwrap_json_content`) and the tool calls that it reports (`_intermediate_step_deltas`).
use llm_middleman.Base.{
  ℕ, ◌+◌, Bool, true, false, not, ◌||◌, Option, none, some, List, [], ◌∷◌, ◌++◌, map, ◌==◌,
  if◌then◌else◌, or_else, concat, Text, codes,
}
use llm_middleman.Base.Decimal.{decimal}
use llm_middleman.Base.Dict.{Dict}
use llm_middleman.Json.{
  Json, null, str, get, truthy, json_object, json_list, object_or_empty, nonempty_str,
}
use llm_middleman.Base.White.{lstrip}
use llm_middleman.Sse.{join_lines}
use llm_middleman.Stream.{Delta}
use llm_middleman.Backend.{external_tool_call_delta, external_tool_result_delta}

unfoldable pub objects_of : List Json → List (Dict Json)
objects_of [] = []
objects_of (v ∷ vs) = elim (json_object v) [ none ↦ objects_of vs | some o ↦ o ∷ objects_of vs ]

-- `_json_items`
unfoldable pub json_items : Json → List (Dict Json)
unfolding objects_of
json_items v = elim (json_list v) [ some xs ↦ objects_of xs | none ↦ objects_of (v ∷ []) ]

-- The replies of the items, and whether an item that has one asks to continue.
pub record Replies : Type 0 where
  pub replies : List Text
  pub asked : Bool

abbrev opens_json : Text → Bool
opens_json [] = false
opens_json (c ∷ cs) = c == b'{' || c == b'['

-- `json.loads` on a text, Python's `str` of a value, and the configured field of the reply.
module _ (loads : Text → Option Json) (str_of : Json → Text) (output_field : Text) where
  abbrev text_of : Json → Text
  text_of (str t) = t
  text_of v = str_of v

  abbrev pub or_null : Json → Json → Json
  or_null null fallback = fallback
  or_null v fallback = v

  -- `obj.get(output_field)`, or the fallback field if that is `None`.
  unfoldable pub reply_field : Dict Json → Json
  reply_field o = or_null (get output_field o) (get (codes "text") o)

  abbrev pub add_reply : Json → Bool → Replies → Replies
  add_reply null asks r = r
  add_reply v asks r = record { replies = text_of v ∷ r.replies; asked = asks || r.asked }

  unfoldable pub collect_replies : List (Dict Json) → Replies
  unfolding reply_field
  collect_replies [] = record { replies = []; asked = false }
  collect_replies (o ∷ os) =
      add_reply (reply_field o) (truthy (get (codes "continueConversation") o)) (collect_replies os)

  abbrev pub joined : List Text → Option Text
  joined [] = none
  joined (t ∷ ts) = some (join_lines (t ∷ ts))

  -- `_reply_from_json`: the reply, and whether the conversation is to go on.
  unfoldable pub reply_from_json : Json → Option Text × Bool
  unfolding collect_replies json_items
  reply_from_json v = let r = collect_replies (json_items v) in (joined r.replies, r.asked)

  abbrev unwrapped : Text → Option Json → Text × Bool
  unwrapped content none = (content, false)
  unwrapped content (some v) =
      let (reply, asked) = reply_from_json v in (or_else reply content, asked)

  -- `_unwrap_json_content`
  unfoldable pub unwrap_json_content : Text → Text × Bool
  unfolding lstrip reply_from_json
  unwrap_json_content content =
      if opens_json (lstrip content) then unwrapped content (loads content) else (content, false)

  -- `_decode_observation`
  unfoldable pub decode_observation : Json → Json
  decode_observation (str t) = or_else (loads t) (str t)
  decode_observation v = v

  abbrev is_null : Json → Bool
  is_null null = true
  is_null _ = false

  -- The deltas of one step, which has a tool's name.
  abbrev pub step_deltas : Text → Dict Json → Dict Json → Text → List Delta
  step_deltas minted step action name =
      let call_id = or_else (nonempty_str (get (codes "toolCallId") action)) minted in
      let result = decode_observation (get (codes "observation") step) in
      external_tool_call_delta call_id name (object_or_empty (get (codes "toolInput") action))
      ∷ external_tool_result_delta call_id name result
          (not (is_null (get (codes "error") (object_or_empty result))))
      ∷ []

  -- A step without a tool's name is skipped, and not counted.
  abbrev pub step_if :
      Text → Dict Json → Dict Json → Option Text → List Delta → List Delta → List Delta
  step_if minted step action none skipped later = skipped
  step_if minted step action (some name) skipped later =
      step_deltas minted step action name ++ later

  -- The deltas of the steps, counted from `count` on.
  unfoldable pub steps_deltas : ℕ → List Json → List Delta
  unfolding decode_observation
  steps_deltas count [] = []
  steps_deltas count (raw ∷ steps) =
      let step = object_or_empty raw in
      let action = object_or_empty (get (codes "action") step) in
      step_if (codes "n8n-step-" ++ decimal (count + 1)) step action
        (nonempty_str (get (codes "tool") action)) (steps_deltas count steps)
        (steps_deltas (count + 1) steps)

  abbrev pub steps_of : Dict Json → List Json
  steps_of item = or_else (json_list (get (codes "intermediateSteps") item)) []

  -- `_intermediate_step_deltas`: the count goes on from item to item.
  unfoldable pub intermediate_step_deltas : List (Dict Json) → List Delta
  unfolding steps_deltas
  intermediate_step_deltas items = steps_deltas 0 (concat (map steps_of items))
