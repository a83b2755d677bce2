-- ===== src/OpenAi/Shape.antt =====
-- The deltas of an OpenAI-compatible turn keep to one assistant block.
use llm_middleman.Base.{
  ◌≡◌, refl, ◌∙◌, Bool, true, false, Option, none, some, List, [], ◌∷◌, ◌++◌, arith, is_some, Text,
  codes,
}
use llm_middleman.Base.Int.{ℤ}
use llm_middleman.Base.Dict.{Dict}
use llm_middleman.Json.{Json, get, json_object, object_or_empty}
use llm_middleman.Fallible.{Result, ok, err}
use llm_middleman.Stream.{Delta, ToolInput, Ending, Flow, go, leave, return, raise, run_events}
use llm_middleman.Stream.Laws.{run_block, run_block-append, Follows, run_events-Follows}
use llm_middleman.Sse.{ServerSentEvent}
use llm_middleman.OpenAi.Calls.{Slots, take_fragments, first_of_choices, tool_inputs}
use llm_middleman.OpenAi.{
  State, initial, reasoning_of, content_of, say_reasoning, say_content, finish, speak_choice,
  on_slots, on_choice_dict, on_choice, keep_usage, on_first, on_choices, on_loaded, on_chunk,
  on_event, flush_calls, after_stream, end_of, run_turn,
}

abbrev Keeps : State → List Delta × Flow State → Type 0
Keeps s r = Follows (λ (s : State). s.role_sent) s.role_sent r

say_reasoning-run_block :
    (s : State) (t : Option Text)
    → run_block s.role_sent (say_reasoning s t).0 ≡ some (say_reasoning s t).1.role_sent
unfolding say_reasoning
say_reasoning-run_block s none = refl
say_reasoning-run_block s (some t) = ground arith

say_content-run_block :
    (s : State) (c : Option Json)
    → run_block s.role_sent (say_content s c).0 ≡ some (say_content s c).1.role_sent
unfolding say_content
say_content-run_block s none = refl
say_content-run_block s (some c) = ground arith

finish-Keeps :
    (s : State) (b : Bool) (out : List Delta) (reason : Json)
    → run_block b out ≡ some s.role_sent
    → Follows (λ (s : State). s.role_sent) b (out, finish s reason)
unfolding finish
finish-Keeps s b out reason h = ground arith

speak_choice-Keeps :
    (s : State) (delta : Dict Json) (reason : Json) → Keeps s (speak_choice s delta reason)
unfolding speak_choice
speak_choice-Keeps s delta reason =
    let s' = (say_reasoning s (reasoning_of delta)).1 in
    finish-Keeps (say_content s' (content_of delta)).1 s.role_sent
      ((say_reasoning s (reasoning_of delta)).0 ++ (say_content s' (content_of delta)).0) reason
      (run_block-append (say_reasoning s (reasoning_of delta)).0
          (say_content s' (content_of delta)).0 s.role_sent s'.role_sent
          (say_reasoning-run_block s (reasoning_of delta))
        ∙ say_content-run_block s' (content_of delta))

module _ (loads : Text → Option Json) (int_of_text : Text → Option ℤ) where
  on_slots-Keeps :
      (s : State) (c delta : Dict Json) (r : Result Slots)
      → Keeps s (on_slots loads int_of_text s c delta r)
  on_slots-Keeps s c delta (err e) = refl
  on_slots-Keeps s c delta (ok slots) =
      speak_choice-Keeps (record s { slots = slots }) delta (get (codes "finish_reason") c)

  on_choice_dict-Keeps :
      (s : State) (c : Option (Dict Json)) → Keeps s (on_choice_dict loads int_of_text s c)
  on_choice_dict-Keeps s none = refl
  on_choice_dict-Keeps s (some c) =
      let delta = object_or_empty (get (codes "delta") c) in
      on_slots-Keeps s c delta (take_fragments int_of_text s.slots (get (codes "tool_calls") delta))

  on_first-Keeps : (s : State) (r : Result Json) → Keeps s (on_first loads int_of_text s r)
  unfolding on_choice
  on_first-Keeps s (err e) = refl
  on_first-Keeps s (ok choice) = on_choice_dict-Keeps s (json_object choice)

  on_choices-Keeps : (s : State) (v : Json) → Keeps s (on_choices loads int_of_text s v)
  on_choices-Keeps s v = ground (arith, on_first-Keeps s (first_of_choices v))

  keep_usage-role_sent :
      (s : State) (v : Json) → (keep_usage loads int_of_text s v).role_sent ≡ s.role_sent
  keep_usage-role_sent s v = ground arith

  on_chunk-Keeps : (s : State) (chunk : Dict Json) → Keeps s (on_chunk loads int_of_text s chunk)
  unfolding on_chunk
  on_chunk-Keeps s chunk = ground (
    arith,
    keep_usage-role_sent s (get (codes "usage") chunk),
    on_choices-Keeps (keep_usage loads int_of_text s (get (codes "usage") chunk))
        (get (codes "choices") chunk),
  )

  on_loaded-Keeps : (s : State) (v : Option Json) → Keeps s (on_loaded loads int_of_text s v)
  on_loaded-Keeps s none = refl
  on_loaded-Keeps s (some v) = on_chunk-Keeps s (object_or_empty v)

  on_event-Keeps : (s : State) (e : ServerSentEvent) → Keeps s (on_event loads int_of_text s e)
  unfolding on_event
  on_event-Keeps s e = ground (arith, on_loaded-Keeps s (loads e.payload))

  flush_calls-is_some :
      (s : State) (calls : List ToolInput)
      → is_some (run_block s.role_sent (flush_calls loads int_of_text s calls)) ≡ true
  flush_calls-is_some s [] = refl
  flush_calls-is_some s (c ∷ cs) = ground arith

  after_stream-is_some :
      (out : List Delta) (s : State)
      → run_block false out ≡ some s.role_sent
      → is_some (run_block false (after_stream loads int_of_text out s).deltas) ≡ true
  unfolding after_stream
  after_stream-is_some out s h =
      let flushed = flush_calls loads int_of_text s (tool_inputs loads s.slots) in
      ground (
        arith,
        h,
        run_block-append out flushed false s.role_sent h,
        flush_calls-is_some s (tool_inputs loads s.slots),
      )

  end_of-is_some :
      (r : List Delta × Flow State)
      → Keeps initial r
      → is_some (run_block false (end_of loads int_of_text r).deltas) ≡ true
  end_of-is_some (out, go s) h = after_stream-is_some out s h
  end_of-is_some (out, leave s) h = after_stream-is_some out s h
  end_of-is_some (out, return s) h = h
  end_of-is_some (out, raise e s) h = h

  -- Whatever an OpenAI-compatible server streams and however the stream ends, every delta of the turn
  -- continues an open assistant block: the first text, reasoning or tool call follows a role.
  pub run_turn-opens :
      (events : List ServerSentEvent) (ending : Ending)
      → is_some (run_block false (run_turn loads int_of_text events ending).deltas) ≡ true
  unfolding run_turn
  run_turn-opens events ending =
      end_of-is_some (run_events (on_event loads int_of_text) initial events ending) (
        run_events-Follows (on_event loads int_of_text) (λ s. s.role_sent) on_event-Keeps events
          initial ending)
