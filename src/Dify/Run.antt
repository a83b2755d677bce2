-- ===== src/Dify/Run.antt =====
-- backends/dify.py: the local state of `_run_stream`, and what its handlers of the events do with it.
use llm_middleman.Base.{
  Bool, true, false, not, ◌&&◌, ◌||◌, Option, none, some, List, [], ◌∷◌, ◌++◌, if◌then◌else◌,
  or_else, is_some, is_empty, any, Text, codes, text_eq,
}
use llm_middleman.Base.Int.{ℤ}
use llm_middleman.Base.Dict.{Dict}
use llm_middleman.Json.{Json, null, str, get, as_int, nonempty_str, json_object, object_or_empty}
use llm_middleman.Error.{raised, backend_stream_error}
use llm_middleman.Fallible.{Result, ok, err}
use llm_middleman.Stream.{Delta, role, content, thinking, Flow, go, return, raise}
use llm_middleman.Backend.{
  Trace, stats, record_of, external_tool_call_delta, external_tool_result_delta,
}
use llm_middleman.Dify.{Maps, remember, Stripper, new_stripper, feed, flush}
use llm_middleman.Dify.Tools.{ToolActivity}

-- Of a turn: the session, and whether it is persisted.
pub record Session : Type 0 where
  pub session_key : Text
  pub legacy_key : Option Text
  pub persist : Bool

-- The local variables of `_run_stream`, `state["task_id"]`, the session map and what was traced.
pub record Run : Type 0 where
  pub block_open : Bool
  pub content_sent : Bool
  pub needs_reply : Bool
  pub replaced : Bool
  pub captured : Bool
  pub agent_streamed : Bool
  pub stripper : Stripper
  pub calls_sent : List Text
  pub results_sent : List Text
  pub task_id : Option Text
  pub maps : Maps
  pub traced : List Trace

abbrev pub initial : Option Text → Maps → List Trace → Run
initial task_id maps traced = record {
  block_open = false;
  content_sent = false;
  needs_reply = false;
  replaced = false;
  captured = false;
  agent_streamed = false;
  stripper = new_stripper;
  calls_sent = [];
  results_sent = [];
  task_id = task_id;
  maps = maps;
  traced = traced;
}

-- `id in ids`
abbrev pub has_id : Text → List Text → Bool
has_id id ids = any (text_eq id) ids

abbrev is_null : Json → Bool
is_null null = true
is_null _ = false

-- `opened`: the role, unless a block is open.
abbrev with_role : Bool → Delta → List Delta
with_role true d = d ∷ []
with_role false d = role ∷ d ∷ []

unfoldable pub say : Text → Run → List Delta × Run
say text s = (
  with_role s.block_open (content (str text)),
  record s { block_open = true; needs_reply = false },
)

unfoldable pub think : Text → Run → List Delta × Run
think text s = (with_role s.block_open (thinking (str text)), record s { block_open = true })

-- `tool_deltas`: a call that is not yet announced, and a result that is not.
unfoldable pub announce : ToolActivity → Run → List Delta × Run
announce a s =
    if not (has_id a.call_id s.calls_sent) && (is_some a.args || not (is_null a.result))
    then (
      external_tool_call_delta a.call_id a.name (or_else a.args []) ∷ [],
      record s { calls_sent = a.call_id ∷ s.calls_sent; block_open = false; needs_reply = true },
    )
    else ([], s)

unfoldable pub report : ToolActivity → Run → List Delta × Run
report a s =
    if not (is_null a.result) && not (has_id a.call_id s.results_sent)
    then (
      external_tool_result_delta a.call_id a.name a.result a.error ∷ [],
      record s {
        results_sent = a.call_id ∷ s.results_sent;
        block_open = false;
        needs_reply = true;
      },
    )
    else ([], s)

unfoldable pub tool_deltas : ToolActivity → Run → List Delta × Run
unfolding announce report
tool_deltas a s =
    let (call, s') = announce a s in let (result, s'') = report a s' in (call ++ result, s'')

unfoldable pub all_tool_deltas : List ToolActivity → Run → List Delta × Run
unfolding tool_deltas
all_tool_deltas [] s = ([], s)
all_tool_deltas (a ∷ more) s =
    let (out, s') = tool_deltas a s in
    let (later, s'') = all_tool_deltas more s' in (out ++ later, s'')

-- `_trace_usage`
abbrev counted : Option ℤ → Option ℤ → List Trace
counted (some prompt) (some completion) = stats prompt none completion none ∷ []
counted _ _ = []

abbrev traced_usage : Option (Dict Json) → List Trace
traced_usage none = []
traced_usage (some usage) =
    counted (as_int (get (codes "prompt_tokens") usage))
      (as_int (get (codes "completion_tokens") usage))
    ++ record_of (codes "dify_usage") (usage ∷ []) ∷ []

unfoldable pub usage_trace : Dict Json → List Trace
usage_trace message_end =
    traced_usage
      (json_object (get (codes "usage") (object_or_empty (get (codes "metadata") message_end))))

abbrev pub add_trace : List Trace → Run → Run
add_trace t s = record s { traced = s.traced ++ t }

-- The end of a reply: what the filter still holds, unless the answer was replaced.
unfoldable pub say_tail : Run → List Delta × Run
unfolding say
say_tail s =
    let (tail, stripper) = flush s.stripper in
    let s' = record s { stripper = stripper } in
    if not (is_empty tail) && not s.replaced then say tail s' else ([], s')

-- A run that used tools and said nothing behind them is an error, of a task that has ended.
abbrev pub finish : Run → Flow Run
finish s =
    if s.needs_reply
    then raise (raised backend_stream_error) (record s { task_id = none })
    else return s

unfoldable pub on_message_end : Dict Json → Run → List Delta × Flow Run
unfolding say_tail usage_trace
on_message_end payload s =
    let (out, s') = say_tail s in (out, finish (add_trace (usage_trace payload) s'))

abbrev pub paused_notice : Text
paused_notice = codes "The assistant paused and is waiting for input in Dify."

abbrev field : Text → Json → Dict Json
field key v = (key, v) ∷ []

unfoldable pub on_paused : Dict Json → Run → List Delta × Flow Run
unfolding say
on_paused payload s =
    let t =
      record_of (codes "dify_workflow_paused")
        (field (codes "data") (get (codes "data") payload) ∷ []) in
    let notice = if s.content_sent then b' ' ∷ paused_notice else paused_notice in
    let (out, s') = say notice (add_trace (t ∷ []) s) in (out, return s')

-- A replacement is spoken if nothing is yet.
abbrev pub replacement_of : Bool → Option Text → Option Text
replacement_of true answer = none
replacement_of false answer = answer

abbrev pub say_content : Option Text → Run → List Delta × Run
say_content none s = ([], s)
say_content (some text) s = say text (record s { content_sent = true })

abbrev pub replace : Dict Json → Run → Run
replace payload s =
    let t =
      field (codes "answer") (get (codes "answer") payload)
      ++ field (codes "reason") (get (codes "reason") payload) in
    add_trace (record_of (codes "dify_message_replace") (t ∷ []) ∷ [])
      (record s { replaced = true })

unfoldable pub on_replace : Dict Json → Run → List Delta × Run
unfolding say
on_replace payload s =
    say_content (replacement_of s.content_sent (nonempty_str (get (codes "answer") payload)))
      (replace payload s)

abbrev pub say_reasoning : Option Text → Run → List Delta × Run
say_reasoning none s = ([], s)
say_reasoning (some text) s = think text s

-- An answer's visible part, through the filter.
abbrev pub visible : Text → Option Text
visible [] = none
visible (c ∷ cs) = some (c ∷ cs)

abbrev pub say_answer : Option Text → Run → List Delta × Run
say_answer none s = ([], s)
say_answer (some answer) s =
    let (text, stripper) = feed s.stripper answer in
    say_content (visible text) (record s { stripper = stripper })

-- A content event: an Agent app closes with one `message` that holds the complete answer.
unfoldable pub on_content : Bool → Dict Json → Run → List Delta × Run
unfolding say
on_content from_agent payload s =
    let s' = if from_agent then record s { agent_streamed = true } else s in
    if (not from_agent && s.agent_streamed) || s.replaced
    then ([], s')
    else say_answer (nonempty_str (get (codes "answer") payload)) s'

abbrev pub and_go : List Delta × Run → List Delta × Flow Run
and_go (out, s) = (out, go s)

abbrev pub on_node_tool : Result (Option ToolActivity) → Run → List Delta × Flow Run
on_node_tool (err e) s = ([], raise e s)
on_node_tool (ok none) s = ([], go s)
on_node_tool (ok (some a)) s = and_go (tool_deltas a s)

abbrev keep_task : Option Text → Option Text → Option Text
keep_task (some id) seen = some id
keep_task none seen = seen

-- The conversation id that the turn was sent with.
abbrev same_id : Option Text → Text → Bool
same_id none cid = false
same_id (some id) cid = text_eq cid id

abbrev pub keep_conversation : Session → Option Text → Option Text → Run → Run
keep_conversation session sent none s = s
keep_conversation session sent (some cid) s = if s.captured then s else record s {
  captured = true;
  maps =
      if same_id sent cid then s.maps else remember session.session_key cid session.persist s.maps;
}

-- `task_id` and `conversation_id`, of the first events that carry them.
unfoldable pub capture : Session → Option Text → Dict Json → Run → Run
capture session sent payload s =
    keep_conversation session sent (nonempty_str (get (codes "conversation_id") payload))
      (record s { task_id = keep_task s.task_id (nonempty_str (get (codes "task_id") payload)) })
