-- ===== src/Converse/Shape.antt =====
-- The deltas of a converse turn keep to the assistant blocks, and end on reply text.
use llm_middleman.Base.{
  ℕ, ◌+◌, ◌≡◌, refl, ◌∙◌, Bool, true, false, ◌||◌, Option, none, some, List, [], ◌∷◌, ◌++◌, arith,
  if◌then◌else◌, or_else, is_some, Text, codes,
}
use llm_middleman.Base.Dict.{Dict}
use llm_middleman.Json.{Json, str, get, truthy, nonempty_str, loads_json_object}
use llm_middleman.Stream.{Delta, role, content, Ending, Flow, go, leave, return, raise, run_events}
use llm_middleman.Stream.Laws.{
  run_block, Said, nonempty_str-Said, ends_spoken, Follows, run_events-Follows,
  run_events-ends_with,
}
use llm_middleman.Sse.{ServerSentEvent}
use llm_middleman.Converse.{
  tool_activity_deltas, State, initial, on_text_delta, on_tool_activity, say_done, on_done, Kind,
  text_delta, tool_activity, error, done, ignored, kind_of, on_kind, on_event, end_of, run_turn,
}

run_block-tools :
    (b : Bool) (i : ℕ) (ps : List (Dict Json)) (c : Json)
    → run_block b (tool_activity_deltas i ps ++ role ∷ content c ∷ []) ≡ some true
unfolding tool_activity_deltas
run_block-tools b i [] c = refl
run_block-tools b i (p ∷ ps) c = run_block-tools false (i + 1) ps c

ends_spoken-tools :
    (i : ℕ) (ps : List (Dict Json)) (c : Json)
    → ends_spoken (tool_activity_deltas i ps ++ role ∷ content c ∷ []) ≡ truthy c
unfolding tool_activity_deltas
ends_spoken-tools i [] c = refl
ends_spoken-tools i (p ∷ []) c = refl
ends_spoken-tools i (p ∷ q ∷ ps) c = ends_spoken-tools (i + 1) (q ∷ ps) c

abbrev Speaks : State → List Delta × Flow State → Type 0
Speaks s r = Follows (λ (s : State). s.started) s.started r × (ends_spoken r.0 ≡ true)

on_text_delta-Speaks : (s : State) (p : Dict Json) → Speaks s (on_text_delta s p)
unfolding on_text_delta
on_text_delta-Speaks s p = ground (
  arith,
  run_block-tools false 1 s.pending_tools (get (codes "delta") p),
  ends_spoken-tools 1 s.pending_tools (get (codes "delta") p),
)

on_tool_activity-Speaks : (s : State) (p : Dict Json) → Speaks s (on_tool_activity s p)
unfolding on_tool_activity
on_tool_activity-Speaks s p = ground arith

say_done-Speaks : (s : State) (o : Option Text) → Said o → Speaks s (say_done s o)
say_done-Speaks s none h = (refl, refl)
say_done-Speaks s (some t) h = (
  rw (run_block-tools s.started 1 s.pending_tools (str t)) refl,
  ends_spoken-tools 1 s.pending_tools (str t) ∙ h,
)

done_text-Said : (b : Bool) (v : Json) → Said (if b then none else nonempty_str v)
done_text-Said true v = tt
done_text-Said false v = nonempty_str-Said v

on_done-Speaks : (s : State) (p : Dict Json) → Speaks s (on_done s p)
unfolding on_done
on_done-Speaks s p =
    let asked = truthy (get (codes "continue_conversation") p) in
    say_done-Speaks (record s { continue_conversation = s.continue_conversation || asked })
      (if s.started then none else nonempty_str (get (codes "text") p))
      (done_text-Said s.started (get (codes "text") p))

on_kind-Speaks : (k : Kind) (s : State) (p : Option (Dict Json)) → Speaks s (on_kind k s p)
unfolding on_kind
on_kind-Speaks text_delta s none = (refl, refl)
on_kind-Speaks text_delta s (some p) = on_text_delta-Speaks s p
on_kind-Speaks tool_activity s none = (refl, refl)
on_kind-Speaks tool_activity s (some p) = on_tool_activity-Speaks s p
on_kind-Speaks error s p = (refl, refl)
on_kind-Speaks done s p = on_done-Speaks s (or_else p [])
on_kind-Speaks ignored s p = (refl, refl)

module _ (loads : Text → Option Json) where
  on_event-Speaks : (s : State) (e : ServerSentEvent) → Speaks s (on_event loads s e)
  unfolding on_event
  on_event-Speaks s e = on_kind-Speaks (kind_of e.event) s (loads_json_object loads e.payload)

  deltas-end_of : (r : List Delta × Flow State) → (end_of loads r).deltas ≡ r.0
  deltas-end_of (out, go s) = refl
  deltas-end_of (out, leave s) = refl
  deltas-end_of (out, return s) = refl
  deltas-end_of (out, raise e s) = refl

  Follows-is_some :
      (b : Bool) (r : List Delta × Flow State)
      → Follows (λ (s : State). s.started) b r
      → is_some (run_block b r.0) ≡ true
  Follows-is_some b (out, go s) h = rw h refl
  Follows-is_some b (out, leave s) h = rw h refl
  Follows-is_some b (out, return s) h = h
  Follows-is_some b (out, raise e s) h = h

  -- Whatever the backend sends and however the stream ends, every text delta of a converse turn
  -- continues an open assistant block, and the deltas are empty or end on reply text that is not empty:
  -- never on a tool result, which would send the turn again.
  pub run_turn-ends_spoken :
      (events : List ServerSentEvent) (ending : Ending)
      → (is_some (run_block false (run_turn loads events ending).deltas) ≡ true)
        × (ends_spoken (run_turn loads events ending).deltas ≡ true)
  unfolding run_turn
  run_turn-ends_spoken events ending =
      let r = run_events (on_event loads) initial events ending in
      rw (deltas-end_of r) (
        Follows-is_some false r (
            run_events-Follows (on_event loads) (λ s. s.started) (λ s e. (on_event-Speaks s e).0)
              events initial ending),
        run_events-ends_with (on_event loads) truthy (λ s e. (on_event-Speaks s e).1) events initial
            ending,
      )
