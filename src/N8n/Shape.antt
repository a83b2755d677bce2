-- ===== src/N8n/Shape.antt =====
-- An n8n turn that completes ends on the content of its reply.
use llm_middleman.Base.{
  ℕ, ◌+◌, ◌≡◌, refl, Bool, true, false, not, ◌&&◌, Option, none, some, List, [], ◌∷◌, ◌++◌, map,
  arith, is_some, is_empty, concat, Bytes, Text, codes, lower,
}
use llm_middleman.Base.Decimal.{decimal}
use llm_middleman.Base.Dict.{Dict}
use llm_middleman.Json.{Json, str, get, object_or_empty, nonempty_str}
use llm_middleman.Error.{Exc, backend_stream_error}
use llm_middleman.Fallible.{Result, ok, err}
use llm_middleman.Stream.{
  Delta, role, content, Ending, finished, failed, Flow, go, leave, return, raise, run_events,
}
use llm_middleman.Stream.Laws.{
  run_block, ends_with, Follows, run_events-Follows, run_events-ends_with, Stays, run_events-Stays,
}
use llm_middleman.Backend.{Response, Reply, TurnEnd, no_hook, post_checked}
use llm_middleman.N8n.Body.{
  step_if, steps_deltas, steps_of, json_items, reply_from_json, intermediate_step_deltas,
}
use llm_middleman.N8n.Sniff.{
  Mode, html, ndjson, text_reply, blocking, Sniffed, sniff, sniff_mode, first_line, read_whole,
  object_of,
}
use llm_middleman.N8n.Worded.{Worded, silent_reply, stream_turn-Worded}
use llm_middleman.N8n.{
  State, initial, say_item, on_text, on_item, on_structured_chunk, on_object, on_line, end_of,
  stream_lines, text_deltas, say_reply, on_loaded, blocking_deltas, with_body, in_mode, fails_early,
  after_sniff, iter_deltas, wrapped, on_posted, stream_turn,
}

-- The turn keeps to the assistant blocks; one that completes has deltas, and ends on a content, which
-- may be empty.
abbrev pub SpeaksOrFails : List Delta → Ending → Type 0
SpeaksOrFails ds finished =
    (is_some (run_block false ds) ≡ true) × ((not (is_empty ds) && ends_with (λ c. true) ds) ≡ true)
SpeaksOrFails ds (failed e) = is_some (run_block false ds) ≡ true

abbrev Good : TurnEnd → Type 0
Good t = SpeaksOrFails t.deltas t.ending

nonempty-run_block : (ds : List Delta) → run_block false ds ≡ some true → not (is_empty ds) ≡ true
nonempty-run_block [] h = cc
nonempty-run_block (d ∷ ds) h = refl

abbrev Speaks : State → List Delta × Flow State → Type 0
Speaks s r =
    Follows (λ (s : State). s.started) s.started r × (ends_with (λ c. true) r.0 ≡ true) × Stays r.1

module _ (loads : Text → Option Json) (loads_bytes : Bytes → Result Json) (str_of : Json → Text)
    (output_field : Text) where
  on_text-Speaks :
      (s : State) (o : Option Text) → Speaks s (on_text loads loads_bytes str_of output_field s o)
  unfolding say_item
  on_text-Speaks s none = (refl, refl, tt)
  on_text-Speaks s (some text) = ground arith

  on_structured_chunk-Speaks :
      (s : State) (chunk : Dict Json)
      → Speaks s (on_structured_chunk loads loads_bytes str_of output_field s chunk)
  unfolding on_structured_chunk on_item
  on_structured_chunk-Speaks s chunk =
      ground (arith, on_text-Speaks s (nonempty_str (get (codes "content") chunk)))

  on_object-Speaks :
      (s : State) (r : Result (Option (Dict Json)))
      → Speaks s (on_object loads loads_bytes str_of output_field s r)
  on_object-Speaks s (err e) = (refl, refl, tt)
  on_object-Speaks s (ok none) = (refl, refl, tt)
  on_object-Speaks s (ok (some chunk)) = on_structured_chunk-Speaks s chunk

  on_line-Speaks :
      (s : State) (line : Bytes) → Speaks s (on_line loads loads_bytes str_of output_field s line)
  unfolding on_line
  on_line-Speaks s line = ground (arith, on_object-Speaks s (object_of (loads_bytes line)))

  end_of-Good :
      (r : List Delta × Flow State)
      → Speaks initial r
      → Good (end_of loads loads_bytes str_of output_field r)
  end_of-Good (out, go s) h = ground (arith, nonempty-run_block out)
  end_of-Good (out, leave s) h = ground (arith, nonempty-run_block out)
  end_of-Good (out, return s) h = elim h.2 [ ]
  end_of-Good (out, raise e s) h = h.0

  stream_lines-Good :
      (lines : List Bytes) (ending : Ending)
      → Good (stream_lines loads loads_bytes str_of output_field lines ending)
  unfolding stream_lines
  stream_lines-Good lines ending =
      let keep = on_line-Speaks in
      end_of-Good (run_events (on_line loads loads_bytes str_of output_field) initial lines ending)
        (
          run_events-Follows (on_line loads loads_bytes str_of output_field) (λ s. s.started)
              (λ s l. (keep s l).0) lines initial ending,
          run_events-ends_with (on_line loads loads_bytes str_of output_field) (λ c. true)
              (λ s l. (keep s l).1) lines initial ending,
          run_events-Stays (on_line loads loads_bytes str_of output_field) (λ s l. (keep s l).2)
              lines initial ending,
        )

  text_deltas-Good : (raw : Bytes) → Good (text_deltas loads loads_bytes str_of output_field raw)
  unfolding text_deltas
  text_deltas-Good raw = ground arith

  -- What stands before a reply leaves a block open behind it, and the reply last.
  abbrev Leads : Bool → Json → List Delta → Type 0
  Leads b c ds =
      (run_block b (ds ++ role ∷ content c ∷ []) ≡ some true)
      × (ends_with (λ c. true) (ds ++ role ∷ content c ∷ []) ≡ true)

  step_if-Leads :
      (b : Bool) (c : Json) (minted : Text) (step action : Dict Json) (o : Option Text)
      (skipped later : List Delta)
      → Leads b c skipped
      → Leads false c later
      → Leads b c (step_if loads str_of output_field minted step action o skipped later)
  step_if-Leads b c minted step action none skipped later h k = h
  step_if-Leads b c minted step action (some name) skipped [] h k = k
  step_if-Leads b c minted step action (some name) skipped (d ∷ ds) h k = k

  steps_deltas-Leads :
      (b : Bool) (c : Json) (count : ℕ) (steps : List Json)
      → Leads b c (steps_deltas loads str_of output_field count steps)
  unfolding steps_deltas
  steps_deltas-Leads b c count [] = (refl, refl)
  steps_deltas-Leads b c count (raw ∷ steps) =
      let step = object_or_empty raw in
      let action = object_or_empty (get (codes "action") step) in
      step_if-Leads b c (codes "n8n-step-" ++ decimal (count + 1)) step action
        (nonempty_str (get (codes "tool") action)) _ _ (steps_deltas-Leads b c count steps)
        (steps_deltas-Leads false c (count + 1) steps)

  nonempty-append :
      (ds : List Delta) (d : Delta) (es : List Delta) → not (is_empty (ds ++ d ∷ es)) ≡ true
  nonempty-append [] d es = refl
  nonempty-append (e ∷ ds) d es = refl

  Leads-Good :
      (c : Json) (ds : List Delta)
      → Leads false c ds
      → SpeaksOrFails (ds ++ role ∷ content c ∷ []) finished
  Leads-Good c ds (h, k) = (rw h refl, rw (nonempty-append ds role (content c ∷ []), k) refl)

  say_reply-Good :
      (v : Json) (r : Option Text × Bool)
      → Good (say_reply loads loads_bytes str_of output_field v r)
  unfolding intermediate_step_deltas
  say_reply-Good v (none, asked) = refl
  say_reply-Good v (some reply, asked) =
      let steps = concat (map (steps_of loads str_of output_field) (json_items v)) in
      Leads-Good (str reply) (steps_deltas loads str_of output_field 0 steps)
        (steps_deltas-Leads false (str reply) 0 steps)

  on_loaded-Good : (r : Result Json) → Good (on_loaded loads loads_bytes str_of output_field r)
  on_loaded-Good (err e) = refl
  on_loaded-Good (ok v) = say_reply-Good v (reply_from_json loads str_of output_field v)

  with_body-Good :
      (f : Bytes → TurnEnd)
      → ((raw : Bytes) → Good (f raw))
      → (r : Result Bytes) → Good (with_body loads loads_bytes str_of output_field f r)
  with_body-Good f h (err e) = refl
  with_body-Good f h (ok raw) = h raw

  in_mode-Good :
      (m : Result Mode) (s : Sniffed) (ending : Ending)
      → Good (in_mode loads loads_bytes str_of output_field m s ending)
  unfolding blocking_deltas
  in_mode-Good (err e) s ending = refl
  in_mode-Good (ok html) s ending = refl
  in_mode-Good (ok text_reply) s ending =
      with_body-Good (text_deltas loads loads_bytes str_of output_field) text_deltas-Good
        (read_whole s.buffer s.rest ending)
  in_mode-Good (ok blocking) s ending =
      with_body-Good (blocking_deltas loads loads_bytes str_of output_field)
        (λ raw. on_loaded-Good (loads_bytes raw)) (read_whole s.buffer s.rest ending)
  in_mode-Good (ok ndjson) s ending = stream_lines-Good _ ending

  after_sniff-Good :
      (o : Option Exc) (s : Sniffed) (r : Response)
      → Good (after_sniff loads loads_bytes str_of output_field o s r)
  after_sniff-Good (some e) s r = refl
  after_sniff-Good none s r =
      in_mode-Good (sniff_mode loads_bytes (first_line s.buffer) (lower r.content_type)) s r.ending

  on_posted-Good : (r : Result Response) → Good (on_posted loads loads_bytes str_of output_field r)
  unfolding iter_deltas
  on_posted-Good (err e) = refl
  on_posted-Good (ok r) =
      let s = sniff [] r.chunks in
      after_sniff-Good (fails_early loads loads_bytes str_of output_field s.exhausted r.ending) s r

  wrapped-SpeaksOrFails :
      (ds : List Delta) (ending : Ending)
      → SpeaksOrFails ds ending
      → SpeaksOrFails ds (wrapped loads loads_bytes str_of output_field ending)
  wrapped-SpeaksOrFails ds finished h = h
  wrapped-SpeaksOrFails ds (failed e) h = h

  -- Whatever a workflow replies, streamed, as a text or as one JSON body with tool steps in it, every
  -- text delta of the turn continues an open assistant block; and a turn that completes has yielded
  -- deltas and ends on a content delta, with no tool activity behind it. That content is reply text
  -- that is not empty, unless the turn has no tool activity at all, or the reply is one JSON body
  -- whose reply text is empty.
  pub stream_turn-SpeaksOrFails :
      (reply : Reply)
      → let t = stream_turn loads loads_bytes str_of output_field reply in
        SpeaksOrFails t.deltas t.ending
        × Worded (silent_reply loads loads_bytes str_of output_field reply) t.deltas t.ending
  unfolding stream_turn
  stream_turn-SpeaksOrFails reply =
      let posted = post_checked backend_stream_error no_hook reply in
      (
        wrapped-SpeaksOrFails (on_posted loads loads_bytes str_of output_field posted).deltas
            (on_posted loads loads_bytes str_of output_field posted).ending (on_posted-Good posted),
        stream_turn-Worded loads loads_bytes str_of output_field reply,
      )
