-- ===== src/Converse/Spoken.antt =====
-- What a converse turn says, against a plain description of the events.
use llm_middleman.Base.{
  ℕ, ◌+◌, ◌≡◌, refl, ap, ◌∙◌, inl, inr, Bool, true, false, ◌||◌, Option, none, some, List, [], ◌∷◌,
  ◌++◌, arith, if◌then◌else◌, Bool-cases, or_else, Text, codes,
}
use llm_middleman.Base.Dict.{Dict}
use llm_middleman.Json.{Json, str, get, truthy, nonempty_str, loads_json_object}
use llm_middleman.Stream.{
  Delta, role, content, thinking, tool_calls, external_call, tool_result, Ending, finished, failed,
  Flow, go, leave, return, raise, and_then, run_events,
}
use llm_middleman.Sse.{ServerSentEvent}
use llm_middleman.Converse.{
  tool_activity_deltas, State, initial, first_text, on_text_delta, on_tool_activity, say_done,
  on_done, Kind, text_delta, tool_activity, error, done, ignored, kind_of, on_kind, on_event,
  end_of, run_turn,
}
use llm_middleman.Converse.Texts.{
  spoken, Terminal, completed, backend_error, cut_off, said, on_kind_texts, texts, reply_of,
  ending_of,
}

module _ (loads : Text → Option Json) where
  spoken-append : (xs ys : List Delta) → spoken (xs ++ ys) ≡ spoken xs ++ spoken ys
  spoken-append [] ys = refl
  spoken-append (content c ∷ ds) ys = ap (◌∷◌ c) (spoken-append ds ys)
  spoken-append (role ∷ ds) ys = spoken-append ds ys
  spoken-append (thinking _ ∷ ds) ys = spoken-append ds ys
  spoken-append (tool_calls _ ∷ ds) ys = spoken-append ds ys
  spoken-append (external_call _ ∷ ds) ys = spoken-append ds ys
  spoken-append (tool_result _ _ _ _ ∷ ds) ys = spoken-append ds ys

  spoken-tools :
      (i : ℕ) (ps : List (Dict Json)) (c : Json)
      → spoken (tool_activity_deltas i ps ++ role ∷ content c ∷ []) ≡ c ∷ []
  unfolding tool_activity_deltas
  spoken-tools i [] c = refl
  spoken-tools i (p ∷ ps) c = spoken-tools (i + 1) ps c

  -- What the loop says from a state on, and how the turn ends.
  abbrev Says : State → List Json × Terminal → Ending → List Delta × Flow State → Type 0
  Says s ts ending r =
      (spoken r.0 ≡ reply_of loads s.started ts)
      × ((end_of loads r).ending ≡ ending_of loads ts.1 ending)

  reply_of-true : (r : List Json × Terminal) → reply_of loads true r ≡ r.0
  reply_of-true ([], completed p) = refl
  reply_of-true ([], backend_error) = refl
  reply_of-true ([], cut_off) = refl
  reply_of-true (x ∷ ts, t) = refl

  -- What follows a step that ends no turn, of which it is known what it says from any state.
  abbrev Follow : List Json × Terminal → Ending → (State → List Delta × Flow State) → Type 0
  Follow ts ending rest = (s : State) → Says s ts ending (rest s)

  ending-append :
      (xs : List Delta) (r : List Delta × Flow State)
      → (end_of loads (xs ++ r.0, r.1)).ending ≡ (end_of loads r).ending
  ending-append xs (out, go s) = refl
  ending-append xs (out, leave s) = refl
  ending-append xs (out, return s) = refl
  ending-append xs (out, raise e s) = refl

  on_text_delta_more :
      (s : State) (p : Dict Json)
      → truthy (get (codes "delta") p) ≡ true
      → s.started ≡ true
      → on_text_delta s p ≡ (content (get (codes "delta") p) ∷ [], go s)
  unfolding on_text_delta
  on_text_delta_more s p a b = ground arith

  on_text_delta_first :
      (s : State) (p : Dict Json)
      → truthy (get (codes "delta") p) ≡ true
      → s.started ≡ false
      → on_text_delta s p ≡ (
        first_text s.pending_tools (get (codes "delta") p),
        go (record s { started = true; pending_tools = [] }),
      )
  unfolding on_text_delta
  on_text_delta_first s p a b = ground arith

  on_text_delta_none :
      (s : State) (p : Dict Json)
      → truthy (get (codes "delta") p) ≡ false
      → on_text_delta s p ≡ ([], go s)
  unfolding on_text_delta
  on_text_delta_none s p a = rw a

  on_text_delta-Says :
      (s : State) (p : Dict Json) (ts : List Json × Terminal) (ending : Ending)
      (rest : State → List Delta × Flow State)
      → Follow ts ending rest
      → Says s
          (on_kind_texts text_delta (some p) ts)
          ending
          (and_then (on_text_delta s p).0 (on_text_delta s p).1 rest)
  on_text_delta-Says s p ts ending rest ih = elim (Bool-cases (truthy (get (codes "delta") p))) [
    | inl a ↦ elim (Bool-cases s.started) [
      | inl b ↦
          let (says, ends) = ih s in
          let tail = says ∙ ap (λ st. reply_of loads st ts) b ∙ reply_of-true ts in
          rw (on_text_delta_more s p a b, a)
            (
              ap (◌∷◌ (get (codes "delta") p)) tail,
              ending-append (content (get (codes "delta") p) ∷ []) (rest s) ∙ ends,
            )
      | inr b ↦
          let s' = record s { started = true; pending_tools = [] } in
          let (says, ends) = ih s' in
          let first = first_text s.pending_tools (get (codes "delta") p) in
          rw (on_text_delta_first s p a b, a)
            (
              spoken-append first (rest s').0
                  ∙ ap (λ ds. ds ++ spoken (rest s').0)
                      (spoken-tools 1 s.pending_tools (get (codes "delta") p))
                  ∙ ap (◌∷◌ (get (codes "delta") p)) (says ∙ reply_of-true ts),
              ending-append first (rest s') ∙ ends,
            )
    ]
    | inr a ↦ rw (on_text_delta_none s p a, a) ((ih s).0, ending-append [] (rest s) ∙ (ih s).1)
  ]

  on_tool_activity-Says :
      (s : State) (p : Dict Json) (ts : List Json × Terminal) (ending : Ending)
      (rest : State → List Delta × Flow State)
      → Follow ts ending rest
      → Says s ts ending (and_then (on_tool_activity s p).0 (on_tool_activity s p).1 rest)
  unfolding on_tool_activity
  on_tool_activity-Says s p ts ending rest ih = ground (
    arith,
    ih s,
    ih (record s { late_tools = s.late_tools ++ p ∷ [] }),
    ih (record s { pending_tools = s.pending_tools ++ p ∷ [] }),
  )

  say_done-Says :
      (s : State) (o : Option Text) (ending : Ending) (rest : State → List Delta × Flow State)
      → (spoken (and_then (say_done s o).0 (say_done s o).1 rest).0 ≡ said o)
        × ((end_of loads (and_then (say_done s o).0 (say_done s o).1 rest)).ending ≡ finished)
  say_done-Says s none ending rest = (refl, refl)
  say_done-Says s (some t) ending rest = (spoken-tools 1 s.pending_tools (str t), refl)

  said_if : (b : Bool) (o : Option Text) → said (if b then none else o) ≡ (if b then [] else said o)
  said_if true o = refl
  said_if false o = refl

  on_done-Says :
      (s : State) (p : Dict Json) (ending : Ending) (rest : State → List Delta × Flow State)
      → Says s ([], completed p) ending (and_then (on_done s p).0 (on_done s p).1 rest)
  unfolding on_done
  on_done-Says s p ending rest =
      let asked = truthy (get (codes "continue_conversation") p) in
      let s' = record s { continue_conversation = s.continue_conversation || asked } in
      let text = nonempty_str (get (codes "text") p) in
      let (says, ends) = say_done-Says s' (if s.started then none else text) ending rest in
      (says ∙ said_if s.started text, ends)

  on_kind-Says :
      (k : Kind) (s : State) (p : Option (Dict Json)) (ts : List Json × Terminal) (ending : Ending)
      (rest : State → List Delta × Flow State)
      → Follow ts ending rest
      → Says s (on_kind_texts k p ts) ending (and_then (on_kind k s p).0 (on_kind k s p).1 rest)
  unfolding on_kind
  on_kind-Says text_delta s none ts ending rest ih = ih s
  on_kind-Says text_delta s (some p) ts ending rest ih = on_text_delta-Says s p ts ending rest ih
  on_kind-Says tool_activity s none ts ending rest ih = ih s
  on_kind-Says tool_activity s (some p) ts ending rest ih =
      on_tool_activity-Says s p ts ending rest ih
  on_kind-Says error s p ts ending rest ih = (refl, refl)
  on_kind-Says done s p ts ending rest ih = on_done-Says s (or_else p []) ending rest
  on_kind-Says ignored s p ts ending rest ih = ih s

  run_events-Says :
      (events : List ServerSentEvent) (s : State) (ending : Ending)
      → Says s (texts loads events) ending (run_events (on_event loads) s events ending)
  unfolding run_events on_event
  run_events-Says [] s finished = (refl, refl)
  run_events-Says [] s (failed e) = (refl, refl)
  run_events-Says (e ∷ es) s ending =
      on_kind-Says (kind_of e.event) s (loads_json_object loads e.payload) (texts loads es) ending
        (λ s'. run_events (on_event loads) s' es ending) (λ s'. run_events-Says es s' ending)

  deltas-end_of : (r : List Delta × Flow State) → (end_of loads r).deltas ≡ r.0
  deltas-end_of (out, go s) = refl
  deltas-end_of (out, leave s) = refl
  deltas-end_of (out, return s) = refl
  deltas-end_of (out, raise e s) = refl

  -- A converse turn says the texts streamed before the first `done` or `error`, in order, or, if
  -- there are none, the text of `done`. It completes exactly if `done` comes, and before any
  -- `error`; otherwise it fails, also on a stream that just ends.
  pub run_turn-texts :
      (events : List ServerSentEvent) (ending : Ending)
      → (spoken (run_turn loads events ending).deltas ≡ reply_of loads false (texts loads events))
        × ((run_turn loads events ending).ending ≡ ending_of loads (texts loads events).1 ending)
  unfolding run_turn
  run_turn-texts events ending =
      let says = run_events-Says events initial ending in (rw deltas-end_of says.0, says.1)
