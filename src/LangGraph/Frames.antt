-- ===== src/LangGraph/Frames.antt =====
-- backends/langgraph.py: what one `messages` and one `updates` frame of a run says
-- (`_parse_messages_frame`, `_parse_updates_frame` and their helpers).
use llm_middleman.Base.{
  String, Bool, true, false, Option, none, some, List, [], ◌∷◌, ◌++◌, map, if◌then◌else◌, or_else,
  concat, Text, codes, ◌is◌,
}
use llm_middleman.Base.Int.{ℤ, pos, ◌+ℤ◌}
use llm_middleman.Base.Dict.{Dict}
use llm_middleman.Json.{
  Json, null, str, arr, obj, get, as_int, as_str, json_object, json_list, object_or_empty,
  nonempty_str,
}
use llm_middleman.Fallible.{Result, ok, ◌>>=◌, member_of}
use llm_middleman.N8n.Body.{objects_of}

abbrev pub ai_types : List Text
ai_types = codes "ai" ∷ codes "AIMessage" ∷ codes "AIMessageChunk" ∷ []

abbrev pub tool_types : List Text
tool_types = codes "tool" ∷ codes "ToolMessage" ∷ []

abbrev block_text : Json → Text
block_text (str t) = t
block_text (obj fs) =
    let mapping = object_or_empty (obj fs) in
    elim (as_str (get (codes "text") mapping)) [
      | none ↦ []
      | some text ↦ elim (as_str (get (codes "type") mapping)) [
        | none ↦ []
        | some kind ↦ if kind is "text" then text else []
      ]
    ]
block_text v = []

-- `_extract_text`
unfoldable pub extract_text : Json → Text
extract_text (str t) = t
extract_text (arr xs) = concat (map block_text (or_else (json_list (arr xs)) []))
extract_text v = []

-- The message of a frame, whose node is `node`.
abbrev pub message_text : Option Text → Option (Dict Json) → Result (Option Text × Option Text)
message_text node none = ok (none, node)
message_text node (some message) = member_of ai_types (get (codes "type") message) >>= λ spoken.
    ok (
      if spoken then nonempty_str (str (extract_text (get (codes "content") message))) else none,
      node,
    )

abbrev pub messages_pair : Option (List Json) → Result (Option Text × Option Text)
messages_pair (some (message ∷ metadata ∷ [])) =
    message_text (as_str (get (codes "langgraph_node") (object_or_empty metadata)))
      (json_object message)
messages_pair _ = ok (none, none)

-- `_Updates`
pub record Updates : Type 0 where
  pub tool_calls : List (Text × Text × Dict Json)
  pub tool_results : List (Text × Text × Json × Bool)
  pub input_tokens : ℤ
  pub output_tokens : ℤ
  pub has_usage : Bool
  pub interrupt : Json
  pub interrupted : Bool

abbrev pub no_updates : Updates
no_updates = record {
  tool_calls = [];
  tool_results = [];
  input_tokens = pos 0;
  output_tokens = pos 0;
  has_usage = false;
  interrupt = null;
  interrupted = false;
}

-- `_node_messages`
unfoldable pub node_messages : Json → Text → List (Dict Json)
node_messages update messages_key = elim (json_object update) [
  | none ↦ []
  | some mapping ↦
      let value = get messages_key mapping in objects_of (or_else (json_list value) (value ∷ []))
]

-- A finished tool call: its id is not empty, its name a text.
abbrev finished_call : Option (Dict Json) → List (Text × Text × Dict Json)
finished_call none = []
finished_call (some call) = elim (nonempty_str (get (codes "id") call)) [
  | none ↦ []
  | some call_id ↦ elim (as_str (get (codes "name") call)) [
    | none ↦ []
    | some name ↦ (call_id, name, object_or_empty (get (codes "args") call)) ∷ []
  ]
]

abbrev add_tokens : Option ℤ → Option ℤ → Updates → Updates
add_tokens (some input_tokens) (some output_tokens) out = record out {
  input_tokens = out.input_tokens +ℤ input_tokens;
  output_tokens = out.output_tokens +ℤ output_tokens;
  has_usage = true;
}
add_tokens _ _ out = out

abbrev add_usage : Option (Dict Json) → Updates → Updates
add_usage none out = out
add_usage (some tokens) out =
    add_tokens (as_int (get (codes "input_tokens") tokens))
      (as_int (get (codes "output_tokens") tokens)) out

-- `_collect_ai_message`
unfoldable pub collect_ai_message : Dict Json → Updates → Updates
collect_ai_message message out =
    let raws = or_else (json_list (get (codes "tool_calls") message)) [] in
    let calls = concat (map (λ raw. finished_call (json_object raw)) raws) in
    add_usage (json_object (get (codes "usage_metadata") message))
      (record out { tool_calls = out.tool_calls ++ calls })

abbrev str_is : Json → String → Bool
str_is (str t) s = t is s
str_is v s = false

unfoldable pub add_tool_result : Dict Json → Updates → Updates
add_tool_result message out = elim (nonempty_str (get (codes "tool_call_id") message)) [
  | none ↦ out
  | some call_id ↦
      let name = or_else (as_str (get (codes "name") message)) [] in
      let error = str_is (get (codes "status") message) "error" in
      record out {
        tool_results =
            out.tool_results ++ (call_id, name, get (codes "content") message, error) ∷ [];
      }
]

-- A message that is no AI message.
abbrev on_other : Dict Json → Updates → Result Updates
on_other message out = do
  tool ← member_of tool_types (get (codes "type") message)
  ok (if tool then add_tool_result message out else out)

-- The body of the loop over the messages of a node.
unfoldable pub on_message : Dict Json → Updates → Result Updates
on_message message out =
    let other = on_other message out in
    member_of ai_types (get (codes "type") message) >>= λ ai.
    (if ai then ok (collect_ai_message message out) else other)

unfoldable pub on_messages : List (Dict Json) → Updates → Result Updates
unfolding on_message
on_messages [] out = ok out
on_messages (message ∷ messages) out = do out' ← on_message message out; on_messages messages out'

abbrev first_interrupt : Option (List Json) → Json
first_interrupt (some (first ∷ _)) = get (codes "value") (object_or_empty first)
first_interrupt _ = null

-- The body of the loop over the nodes.
unfoldable pub on_node : Text → Text → Json → Updates → Result Updates
unfolding on_messages
on_node messages_key node update out =
    if node is "__interrupt__"
    then ok (record out { interrupted = true; interrupt = first_interrupt (json_list update) })
    else on_messages (node_messages update messages_key) out

unfoldable pub on_nodes : Text → Dict Json → Updates → Result Updates
unfolding on_node
on_nodes messages_key [] out = ok out
on_nodes messages_key ((node, update) ∷ nodes) out = do
  out' ← on_node messages_key node update out
  on_nodes messages_key nodes out'

-- `_interrupt_text`
abbrev interrupt_fallback : Text
interrupt_fallback = codes "The assistant needs more information to continue."

abbrev pub question_of : Option (Dict Json) → Text
question_of none = interrupt_fallback
question_of (some mapping) =
    or_else (nonempty_str (get (codes "question") mapping))
      (or_else (nonempty_str (get (codes "message") mapping)) interrupt_fallback)

unfoldable pub interrupt_text : Json → Text
interrupt_text value = or_else (nonempty_str value) (question_of (json_object value))

-- `json.loads`, which fails on what is not JSON.
module _ (loads : Text → Option Json) where
  unfoldable pub parse_messages_frame : Text → Result (Option Text × Option Text)
  unfolding member_of extract_text
  parse_messages_frame payload = elim (loads payload) [
    | none ↦ ok (none, none)
    | some parsed ↦ messages_pair (json_list parsed)
  ]

  unfoldable pub parse_updates_frame : Text → Text → Result Updates
  unfolding on_nodes
  parse_updates_frame payload messages_key = elim (loads payload) [
    | none ↦ ok no_updates
    | some parsed ↦ elim (json_object parsed) [
      | none ↦ ok no_updates
      | some nodes ↦ on_nodes messages_key nodes no_updates
    ]
  ]
