-- ===== src/Dify/Shape/Steps.antt =====
-- What an event of a Dify turn yields keeps to the automaton.
use llm_middleman.Base.{
  ◌≡◌, refl, sym, ◌∙◌, inl, inr, Bool, true, false, ◌||◌, Option, none, some, List, [], ◌∷◌, ◌++◌,
  arith, if◌then◌else◌, Bool-cases, Option-cases, or_else, is_empty, Text, codes, text_eq_refl,
  ◌is◌,
}
use llm_middleman.Base.Dict.{Dict}
use llm_middleman.Dify.Shape.{IsOther, Tally, act}
use llm_middleman.Dify.Run.{
  Session, Run, say, think, announce, report, tool_deltas, all_tool_deltas, usage_trace, say_tail,
  finish, on_message_end, on_paused, say_content, on_replace, say_reasoning, say_answer, on_content,
  and_go, on_node_tool, capture, replace, replacement_of, visible, add_trace,
}
use llm_middleman.Dify.Turn.{on_named, on_event}
use llm_middleman.Stream.{Delta, Flow}
use llm_middleman.Stream.Laws.{Said, nonempty_str-Said}
use llm_middleman.Stream.Scan.{scan, Tracks, Returns, Raises, scan-append}
use llm_middleman.Sse.{ServerSentEvent}
use llm_middleman.Dify.{flush, feed}
use llm_middleman.Json.{
  loads_json_object, as_str, get, nonempty_str, object_or_empty, Json, str, arr, obj, json_object,
  truthy,
}
use llm_middleman.Fallible.{Result, ok, err, member_of}
use llm_middleman.Dify.Tools.{
  ToolActivity, thought_tools, node_tool, tool_node, node_of, after_status, node_failed,
}

abbrev pub view : Run → Tally
view s = record {
  open_block = s.block_open;
  waits = s.needs_reply;
  calls = s.calls_sent;
  results = s.results_sent;
}

abbrev Moves : Run → List Delta × Run → Type 0
Moves s r = scan act (view s) r.0 ≡ some (view r.1)

Moves-append :
    (s : Run) (out : List Delta) (s' : Run) (r : List Delta × Run)
    → Moves s (out, s')
    → Moves s' r
    → Moves s (out ++ r.0, r.1)
Moves-append s out s' r h k = scan-append act out r.0 (view s) (view s') h ∙ k

say-Moves : (text : Text) (s : Run) → truthy (str text) ≡ true → Moves s (say text s)
unfolding say
say-Moves text s h = ground (arith, h)

think-Moves : (text : Text) (s : Run) → Moves s (think text s)
unfolding think
think-Moves text s = ground arith

tool_deltas-Moves : (a : ToolActivity) (s : Run) → Moves s (tool_deltas a s)
unfolding tool_deltas announce report
tool_deltas-Moves a s = ground (arith, text_eq_refl a.call_id)

all_tool_deltas-Moves : (acts : List ToolActivity) (s : Run) → Moves s (all_tool_deltas acts s)
unfolding all_tool_deltas
all_tool_deltas-Moves [] s = refl
all_tool_deltas-Moves (a ∷ acts) s =
    Moves-append s (tool_deltas a s).0 (tool_deltas a s).1
      (all_tool_deltas acts (tool_deltas a s).1) (tool_deltas-Moves a s)
      (all_tool_deltas-Moves acts (tool_deltas a s).1)

truthy-nonempty : (t : Text) → is_empty t ≡ false → truthy (str t) ≡ true
truthy-nonempty [] h = cc
truthy-nonempty (c ∷ t) h = refl

say_tail-Moves : (s : Run) → Moves s (say_tail s)
unfolding say_tail
say_tail-Moves s =
    let t = record s { stripper = (flush s.stripper).1 } in
    ground (arith, truthy-nonempty (flush s.stripper).0, say-Moves (flush s.stripper).0 t)

-- An iteration: its deltas are in place, it returns with no reply owed, and its errors are others.
abbrev pub Steps : Run → List Delta × Flow Run → Type 0
Steps s r =
    Tracks act view (view s) r
    × Returns (λ (t : Run). t.needs_reply ≡ false) r.1
    × Raises IsOther r.1

and_go-Steps : (s : Run) (r : List Delta × Run) → Moves s r → Steps s (and_go r)
and_go-Steps s (out, t) h = (h, tt, tt)

finish-Steps : (s : Run) (out : List Delta) (t : Run) → Moves s (out, t) → Steps s (out, finish t)
finish-Steps s out t h = ground (arith, h)

on_message_end-Steps : (payload : Dict Json) (s : Run) → Steps s (on_message_end payload s)
unfolding on_message_end
on_message_end-Steps payload s =
    finish-Steps s (say_tail s).0 (add_trace (usage_trace payload) (say_tail s).1)
      (say_tail-Moves s)

on_paused-Steps : (payload : Dict Json) (s : Run) → Steps s (on_paused payload s)
unfolding on_paused say
on_paused-Steps payload s = ground arith

say_content-Moves : (o : Option Text) (s : Run) → Said o → Moves s (say_content o s)
say_content-Moves none s h = refl
say_content-Moves (some text) s h = say-Moves text (record s { content_sent = true }) h

replacement_of-Said : (sent : Bool) (o : Option Text) → Said o → Said (replacement_of sent o)
replacement_of-Said true o h = tt
replacement_of-Said false o h = h

visible-Said : (t : Text) → Said (visible t)
visible-Said [] = tt
visible-Said (c ∷ t) = refl

on_replace-Moves : (payload : Dict Json) (s : Run) → Moves s (on_replace payload s)
unfolding on_replace
on_replace-Moves payload s =
    let answer = get (codes "answer") payload in
    say_content-Moves (replacement_of s.content_sent (nonempty_str answer)) (replace payload s)
      (replacement_of-Said s.content_sent (nonempty_str answer) (nonempty_str-Said answer))

say_reasoning-Moves : (o : Option Text) (s : Run) → Moves s (say_reasoning o s)
say_reasoning-Moves none s = refl
say_reasoning-Moves (some text) s = think-Moves text s

say_answer-Moves : (o : Option Text) (s : Run) → Moves s (say_answer o s)
say_answer-Moves none s = refl
say_answer-Moves (some t) s =
    let (text, stripper) = feed s.stripper t in
    say_content-Moves (visible text) (record s { stripper = stripper }) (visible-Said text)

on_content-Moves : (b : Bool) (payload : Dict Json) (s : Run) → Moves s (on_content b payload s)
unfolding on_content
on_content-Moves b payload s =
    let answer = nonempty_str (get (codes "answer") payload) in
    ground (
      arith,
      say_answer-Moves answer s,
      say_answer-Moves answer (record s { agent_streamed = true }),
    )

abbrev ErrsOther {ℓ} : {A : Type ℓ} → Result A → Type 0
ErrsOther (err e) = IsOther e
ErrsOther (ok a) = Unit {0}

member_of-ErrsOther : (names : List Text) (v : Json) → ErrsOther (member_of names v)
unfolding member_of
member_of-ErrsOther names (str t) = tt
member_of-ErrsOther names (arr xs) = refl
member_of-ErrsOther names (obj fs) = refl
member_of-ErrsOther names _ = tt

on_node_tool-Steps :
    (r : Result (Option ToolActivity)) (s : Run) → ErrsOther r → Steps s (on_node_tool r s)
on_node_tool-Steps (err e) s h = (refl, tt, h)
on_node_tool-Steps (ok none) s h = (refl, tt, tt)
on_node_tool-Steps (ok (some a)) s h = (tool_deltas-Moves a s, tt, tt)

-- What a turn notes of its ids is no delta.
capture-view :
    (session : Session) (sent : Option Text) (payload : Dict Json) (s : Run)
    → view (capture session sent payload s) ≡ view s
unfolding capture
capture-view session sent payload s =
    elim (Option-cases (nonempty_str (get (codes "conversation_id") payload))) [
      | inl e ↦ rw e refl
      | inr (cid, e) ↦ rw e (elim (Bool-cases s.captured) [ inl c ↦ rw c refl | inr c ↦ rw c refl ])
    ]

equal-Tracks :
    (x y : Tally) (r : List Delta × Flow Run) → x ≡ y → Tracks act view x r → Tracks act view y r
equal-Tracks x y r e h = rw (sym e) h

if-holds {ℓ κ} :
    {A : Type ℓ} (P : A → Type κ) (b : Bool) {x y : A} → P x → P y → P (if b then x else y)
if-holds P true h k = h
if-holds P false h k = k

module _ (loads : Text → Option Json) (str_of : Json → Text) where
  after_status-ErrsOther :
      (values : Dict Json) (call_id : Text) (r : Result Bool)
      → ErrsOther r
      → ErrsOther (after_status loads str_of values call_id r)
  after_status-ErrsOther values call_id (err e) h = h
  after_status-ErrsOther values call_id (ok b) h = tt

  tool_node-ErrsOther :
      (ends : Bool) (values : Dict Json) (o : Option Text)
      → ErrsOther (tool_node loads str_of ends values o)
  tool_node-ErrsOther ends values none = tt
  tool_node-ErrsOther ends values (some call_id) =
      let status = member_of (node_failed loads str_of) (get (codes "status") values) in
      ground (
        arith,
        after_status-ErrsOther values call_id status
            (member_of-ErrsOther (node_failed loads str_of) (get (codes "status") values)),
      )

  node_of-ErrsOther :
      (ends : Bool) (o : Option (Dict Json)) → ErrsOther (node_of loads str_of ends o)
  node_of-ErrsOther ends none = tt
  node_of-ErrsOther ends (some values) =
      tool_node-ErrsOther ends values (nonempty_str (get (codes "id") values))

  node_tool-ErrsOther :
      (ends : Bool) (payload : Dict Json) → ErrsOther (node_tool loads str_of ends payload)
  unfolding node_tool
  node_tool-ErrsOther ends payload =
      node_of-ErrsOther ends (json_object (get (codes "data") payload))

  on_named-Steps :
      (event : Text) (payload : Dict Json) (s : Run)
      → Steps s (on_named loads str_of event payload s)
  on_named-Steps event payload s =
      let reasoning =
        nonempty_str (get (codes "reasoning") (object_or_empty (get (codes "data") payload))) in
      let P : (List Delta × Flow Run → Type 0) = Steps s in
      if-holds P (event is "error") (refl, tt, refl)
        (if-holds P (event is "message_end") (on_message_end-Steps payload s) (
          if-holds P (event is "workflow_paused") (on_paused-Steps payload s) (
            if-holds P (event is "message_replace")
              (and_go-Steps s (on_replace payload s) (on_replace-Moves payload s))
              (if-holds P (event is "reasoning_chunk")
                (and_go-Steps s (say_reasoning reasoning s) (say_reasoning-Moves reasoning s))
                (if-holds P (event is "agent_thought")
                  (and_go-Steps s (all_tool_deltas (thought_tools loads str_of payload) s)
                    (all_tool_deltas-Moves (thought_tools loads str_of payload) s))
                  (if-holds P (event is "node_started" || event is "node_finished")
                    (on_node_tool-Steps (node_tool loads str_of (event is "node_finished") payload)
                      s (node_tool-ErrsOther (event is "node_finished") payload))
                    (if-holds P (event is "agent_message" || event is "message")
                      (and_go-Steps s (on_content (event is "agent_message") payload s)
                        (on_content-Moves (event is "agent_message") payload s))
                      (refl, tt, tt))))))))

  pub on_event-Steps :
      (session : Session) (sent : Option Text) (s : Run) (sse : ServerSentEvent)
      → Steps s (on_event loads str_of session sent s sse)
  unfolding on_event
  on_event-Steps session sent s sse =
      let payload = or_else (loads_json_object loads sse.payload) [] in
      let event = or_else (as_str (get (codes "event") payload)) sse.event in
      let s' = capture session sent payload s in
      let (tracked, returns, raises) = on_named-Steps event payload s' in
      (
        equal-Tracks (view s') (view s) (on_named loads str_of event payload s')
            (capture-view session sent payload s) tracked,
        returns,
        raises,
      )
