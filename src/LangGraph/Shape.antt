-- ===== src/LangGraph/Shape.antt =====
-- The deltas of a LangGraph run.
use llm_middleman.Base.{
  ◌≡◌, refl, ◌∙◌, Bool, true, false, Option, none, some, List, [], ◌∷◌, ◌++◌, map, arith,
  if◌then◌else◌, is_some, Text, codes,
}
use llm_middleman.Base.Dict.{Dict}
use llm_middleman.Json.{
  Json, str, get, truthy, as_str, json_object, json_list, object_or_empty, nonempty_str,
}
use llm_middleman.Sse.{ServerSentEvent, async_iter_sse, max_line_bytes}
use llm_middleman.Error.{backend_stream_error}
use llm_middleman.Fallible.{Result, ok, err, ◌>>=◌, member_of}
use llm_middleman.Stream.{
  Delta, external_call, tool_result, Ending, finished, failed, Flow, go, leave, return, raise,
  run_events, role, content, thinking, tool_calls,
}
use llm_middleman.Stream.Laws.{
  run_block, run_block-append, Said, nonempty_str-Said, or_else-truthy, ends_spoken, Follows,
  run_events-Follows, Stays, run_events-Stays,
}
use llm_middleman.Stream.Owes.{owes, owes-append, owes-ends_spoken, Owes, run_events-Owes}
use llm_middleman.Backend.{Response, Reply, TurnEnd, no_hook, post_checked}
use llm_middleman.LangGraph.Frames.{
  Updates, interrupt_text, parse_messages_frame, parse_updates_frame, message_text, messages_pair,
  question_of, extract_text, ai_types,
}
use llm_middleman.LangGraph.{
  Run, initial, add_usage, call_delta, result_delta, after_tools, speak, ask, on_update, on_updates,
  on_text, on_message_frame, on_event, end_of, on_posted, run_stream,
}

-- What the deltas do to the block and to the debt: from `b` and `n` to those of the state.
abbrev Moves : Bool → Bool → List Delta → Run → Type 0
Moves b n ds s = (run_block b ds ≡ some s.block_open) × (owes n ds ≡ s.needs_reply)

Moves-append :
    (b n : Bool) (xs ys : List Delta) (s t : Run)
    → Moves b n xs s
    → Moves s.block_open s.needs_reply ys t
    → Moves b n (xs ++ ys) t
Moves-append b n xs ys s t (h, k) (h', k') =
    (run_block-append xs ys b s.block_open h ∙ h', owes-append n xs ys ∙ rw k k')

speak-Moves :
    (text : Text) (s : Run)
    → truthy (str text) ≡ true
    → Moves s.block_open s.needs_reply (speak text s).0 (speak text s).1
unfolding speak
speak-Moves text s h = ground (arith, h)

-- The question of an interrupt is not empty.
question_of-truthy : (o : Option (Dict Json)) → truthy (str (question_of o)) ≡ true
question_of-truthy none = refl
question_of-truthy (some d) =
    or_else-truthy (nonempty_str (get (codes "question") d)) _
      (nonempty_str-Said (get (codes "question") d))
      (or_else-truthy (nonempty_str (get (codes "message") d)) _
        (nonempty_str-Said (get (codes "message") d)) refl)

interrupt_text-truthy : (v : Json) → truthy (str (interrupt_text v)) ≡ true
unfolding interrupt_text
interrupt_text-truthy v =
    or_else-truthy (nonempty_str v) _ (nonempty_str-Said v) (question_of-truthy (json_object v))

-- The text of a frame is not empty.
abbrev SaysText : Result (Option Text × Option Text) → Type 0
SaysText (err e) = Unit {0}
SaysText (ok frame) = Said frame.0

text_if-Said : (b : Bool) (v : Json) → Said (if b then nonempty_str v else none)
text_if-Said false v = tt
text_if-Said true v = nonempty_str-Said v

message_text-SaysText :
    (place : Option Text) (o : Option (Dict Json)) → SaysText (message_text place o)
message_text-SaysText place none = tt
message_text-SaysText place (some m) =
    elim (member_of ai_types (get (codes "type") m))
      as (λ r. SaysText (
        r >>= λ spoken. ok (
          if spoken then nonempty_str (str (extract_text (get (codes "content") m))) else none,
          place,
        ))) [ err e ↦ tt | ok b ↦ text_if-Said b (str (extract_text (get (codes "content") m))) ]

messages_pair-SaysText : (o : Option (List Json)) → SaysText (messages_pair o)
messages_pair-SaysText none = tt
messages_pair-SaysText (some []) = tt
messages_pair-SaysText (some (m ∷ [])) = tt
messages_pair-SaysText (some (m ∷ metadata ∷ [])) =
    message_text-SaysText (as_str (get (codes "langgraph_node") (object_or_empty metadata)))
      (json_object m)
messages_pair-SaysText (some (m ∷ metadata ∷ x ∷ xs)) = tt

parse_messages_frame-SaysText :
    (loads : Text → Option Json) (payload : Text) → SaysText (parse_messages_frame loads payload)
unfolding parse_messages_frame
parse_messages_frame-SaysText loads payload =
    elim (loads payload)
      as (λ o.
        SaysText
          (elim o [ none ↦ ok (none, none) | some parsed ↦ messages_pair (json_list parsed) ])) [
            | none ↦ tt
            | some parsed ↦ messages_pair-SaysText (json_list parsed)
          ]

-- Deltas of tool activity, each of which leaves no block open and a reply owed.
abbrev Closes : List Delta → Type 0
Closes [] = Unit
Closes (external_call _ ∷ ds) = Closes ds
Closes (tool_result _ _ _ _ ∷ ds) = Closes ds
Closes _ = ⊥

Closes-closed :
    (ds : List Delta) → Closes ds → (run_block false ds ≡ some false) × (owes true ds ≡ true)
Closes-closed [] h = (refl, refl)
Closes-closed (external_call _ ∷ ds) h = Closes-closed ds h
Closes-closed (tool_result _ _ _ _ ∷ ds) h = Closes-closed ds h
Closes-closed (role ∷ ds) h = elim h [ ]
Closes-closed (content _ ∷ ds) h = elim h [ ]
Closes-closed (thinking _ ∷ ds) h = elim h [ ]
Closes-closed (tool_calls _ ∷ ds) h = elim h [ ]

results-Closes : (rs : List (Text × Text × Json × Bool)) → Closes (map result_delta rs)
results-Closes [] = tt
results-Closes (r ∷ rs) = results-Closes rs

tools-Closes :
    (cs : List (Text × Text × Dict Json)) (rs : List (Text × Text × Json × Bool))
    → Closes (map call_delta cs ++ map result_delta rs)
tools-Closes [] rs = results-Closes rs
tools-Closes (c ∷ cs) rs = tools-Closes cs rs

after_tools-Moves :
    (ds : List Delta) (s : Run) → Closes ds → Moves s.block_open s.needs_reply ds (after_tools ds s)
after_tools-Moves [] s h = (refl, refl)
after_tools-Moves (external_call _ ∷ ds) s h = Closes-closed ds h
after_tools-Moves (tool_result _ _ _ _ ∷ ds) s h = Closes-closed ds h
after_tools-Moves (role ∷ ds) s h = elim h [ ]
after_tools-Moves (content _ ∷ ds) s h = elim h [ ]
after_tools-Moves (thinking _ ∷ ds) s h = elim h [ ]
after_tools-Moves (tool_calls _ ∷ ds) s h = elim h [ ]

ask-Moves : (u : Updates) (s : Run) → Moves s.block_open s.needs_reply (ask u s).0 (ask u s).1
ask-Moves u s = ground (
  arith,
  speak-Moves (interrupt_text u.interrupt) (record s { interrupted = true })
      (interrupt_text-truthy u.interrupt),
)

add_usage-Moves : (u : Updates) (s : Run) → Moves s.block_open s.needs_reply [] (add_usage u s)
add_usage-Moves u s = ground arith

on_update-Moves :
    (s : Run) (u : Updates) → Moves s.block_open s.needs_reply (on_update s u).0 (on_update s u).1
unfolding on_update
on_update-Moves s u =
    let tools = map call_delta u.tool_calls ++ map result_delta u.tool_results in
    let s' = add_usage u s in
    Moves-append s.block_open s.needs_reply tools (ask u (after_tools tools s')).0
      (after_tools tools s') (ask u (after_tools tools s')).1
      (Moves-append s.block_open s.needs_reply [] tools s' (after_tools tools s')
        (add_usage-Moves u s)
        (after_tools-Moves tools s' (tools-Closes u.tool_calls u.tool_results)))
      (ask-Moves u (after_tools tools s'))

-- An iteration keeps to the block and to the debt, and never returns.
abbrev Keeps : Run → List Delta × Flow Run → Type 0
Keeps s r =
    Follows (λ (s : Run). s.block_open) s.block_open r
    × Owes (λ (s : Run). s.needs_reply) s.needs_reply r
    × Stays r.1

on_updates-Keeps : (s : Run) (r : Result Updates) → Keeps s (on_updates s r)
on_updates-Keeps s (err e) = (refl, tt, tt)
on_updates-Keeps s (ok u) = let (h, k) = on_update-Moves s u in (h, k, tt)

on_text-Moves :
    (node_filter : Text) (s : Run) (frame : Option Text × Option Text)
    → Said frame.0
    → Moves s.block_open s.needs_reply
        (on_text node_filter s frame).0
        (on_text node_filter s frame).1
on_text-Moves node_filter s (none, place) h = (refl, refl)
on_text-Moves node_filter s (some text, place) h = ground (arith, speak-Moves text s h)

on_message_frame-Keeps :
    (node_filter : Text) (s : Run) (r : Result (Option Text × Option Text))
    → SaysText r
    → Keeps s (on_message_frame node_filter s r)
on_message_frame-Keeps node_filter s (err e) q = (refl, tt, tt)
on_message_frame-Keeps node_filter s (ok frame) q =
    let (h, k) = on_text-Moves node_filter s frame q in (h, k, tt)

-- Every delta of the turn continues an open assistant block or opens one; and a turn that completes
-- is empty or ends on reply text that is not empty.
abbrev pub EndsSpoken : List Delta → Ending → Type 0
EndsSpoken ds finished = (is_some (run_block false ds) ≡ true) × (ends_spoken ds ≡ true)
EndsSpoken ds (failed e) = is_some (run_block false ds) ≡ true

abbrev Good : TurnEnd × Run → Type 0
Good r = EndsSpoken r.0.deltas r.0.ending

module _ (loads : Text → Option Json) (node_filter messages_key : Text) where
  on_event-Keeps :
      (s : Run) (e : ServerSentEvent) → Keeps s (on_event loads node_filter messages_key s e)
  unfolding on_event
  on_event-Keeps s e = ground (
    arith,
    on_updates-Keeps s (parse_updates_frame loads e.payload messages_key),
    on_message_frame-Keeps node_filter s (parse_messages_frame loads e.payload)
        (parse_messages_frame-SaysText loads e.payload),
  )

  end_of-Good :
      (r : List Delta × Flow Run) → Keeps initial r → Good (end_of loads node_filter messages_key r)
  end_of-Good (out, go s) (h, k, l) = ground (arith, owes-ends_spoken out)
  end_of-Good (out, leave s) (h, k, l) = ground (arith, owes-ends_spoken out)
  end_of-Good (out, return s) (h, k, l) = elim l [ ]
  end_of-Good (out, raise e s) (h, k, l) = h

  on_posted-Good : (r : Result Response) → Good (on_posted loads node_filter messages_key r)
  on_posted-Good (err e) = refl
  on_posted-Good (ok r) =
      let step = on_event loads node_filter messages_key in
      let events = async_iter_sse max_line_bytes r.chunks in
      end_of-Good (run_events step initial events r.ending) (
        run_events-Follows step (λ s. s.block_open) (λ s e. (on_event-Keeps s e).0) events initial
            r.ending,
        run_events-Owes step (λ s. s.needs_reply) (λ s e. (on_event-Keeps s e).1) events initial
            r.ending,
        run_events-Stays step (λ s e. (on_event-Keeps s e).2) events initial r.ending,
      )

  -- Every delta of a run continues an open assistant block or opens one; and a run that completes is
  -- empty or ends on reply text that is not empty.
  pub run_stream-EndsSpoken :
      (reply : Reply)
      → EndsSpoken
          (run_stream loads node_filter messages_key reply).0.deltas
          (run_stream loads node_filter messages_key reply).0.ending
  unfolding run_stream
  run_stream-EndsSpoken reply = on_posted-Good (post_checked backend_stream_error no_hook reply)
