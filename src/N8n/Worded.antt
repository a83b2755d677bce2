-- ===== src/N8n/Worded.antt =====
-- Behind its tool activity, an n8n turn says a text that is empty in one case only: where the JSON
-- body of a blocking reply holds an empty text.
use llm_middleman.Base.{
  ◌≡◌, refl, ◌∙◌, inl, inr, Bool, true, false, ◌||◌, Option, none, some, List, [], ◌∷◌, ◌++◌,
  append-nil, append_assoc, arith, leb, Bool-cases, all, concat, Bytes, Text, codes, lower,
}
use llm_middleman.Base.Dict.{Dict}
use llm_middleman.Json.{Json, str, get, truthy, nonempty_str}
use llm_middleman.Error.{Exc, backend_stream_error}
use llm_middleman.Fallible.{Result, ok, err}
use llm_middleman.Stream.{
  Delta, Ending, finished, failed, Flow, go, leave, return, raise, run_events,
}
use llm_middleman.Stream.Laws.{ends_spoken}
use llm_middleman.Stream.Plain.{is_plain, ends_with-last, run_events-is_plain}
use llm_middleman.Backend.{Response, Reply, answer, no_response, TurnEnd, no_hook, post_checked}
use llm_middleman.N8n.Body.{reply_from_json, intermediate_step_deltas, json_items}
use llm_middleman.N8n.Sniff.{
  Mode, html, ndjson, text_reply, blocking, Sniffed, sniff, sniff_mode, first_line, read_whole,
  object_of,
}
use llm_middleman.N8n.{
  State, initial, say_item, on_text, on_item, on_structured_chunk, on_object, on_line, end_of,
  stream_lines, text_deltas, say_reply, on_loaded, blocking_deltas, with_body, in_mode, fails_early,
  after_sniff, iter_deltas, on_posted, wrapped, stream_turn,
}

-- A turn that completes ends on reply text that is not empty, or has no tool activity, or is `silent`.
abbrev pub Worded : Bool → List Delta → Ending → Type 0
Worded silent ds finished = (ends_spoken ds || all is_plain ds || silent) ≡ true
Worded silent ds (failed e) = Unit {0}

read_whole-concat :
    (buffer : Bytes) (chunks : List Bytes) (ending : Ending) (raw : Bytes)
    → read_whole buffer chunks ending ≡ ok raw
    → raw ≡ buffer ++ concat chunks
unfolding read_whole
read_whole-concat buffer [] finished raw h = ground (arith, h, append-nil buffer)
read_whole-concat buffer [] (failed e) raw h = ground (arith, h)
read_whole-concat buffer (chunk ∷ chunks) ending raw h =
    let rest = read_whole-concat (buffer ++ chunk) chunks ending raw in
    ground (arith, h, rest, append_assoc buffer chunk (concat chunks))

sniff-concat :
    (buffer : Bytes) (chunks : List Bytes)
    → (sniff buffer chunks).buffer ++ concat (sniff buffer chunks).rest ≡ buffer ++ concat chunks
unfolding sniff
sniff-concat buffer [] = refl
sniff-concat buffer (chunk ∷ chunks) =
    ground (arith, sniff-concat (buffer ++ chunk) chunks, append_assoc buffer chunk (concat chunks))

module _ (loads : Text → Option Json) (loads_bytes : Bytes → Result Json) (str_of : Json → Text)
    (output_field : Text) where
  abbrev is_silent : Option Text → Bool
  is_silent (some []) = true
  is_silent _ = false

  -- A JSON body whose reply is an empty text.
  abbrev pub silent_body : Result Json → Bool
  silent_body (err e) = false
  silent_body (ok v) = is_silent (reply_from_json loads str_of output_field v).0

  abbrev WordedTurn : Bool → TurnEnd → Type 0
  WordedTurn silent t = Worded silent t.deltas t.ending

  plain-Worded :
      (silent : Bool) (ds : List Delta) (ending : Ending)
      → all is_plain ds ≡ true
      → Worded silent ds ending
  plain-Worded silent ds finished h = ground (arith, h)
  plain-Worded silent ds (failed e) h = tt

  plain_turn-Worded :
      (silent : Bool) (t : TurnEnd) → all is_plain t.deltas ≡ true → WordedTurn silent t
  plain_turn-Worded silent t h = plain-Worded silent t.deltas t.ending h

  on_text-is_plain :
      (s : State) (o : Option Text)
      → all is_plain (on_text loads loads_bytes str_of output_field s o).0 ≡ true
  unfolding say_item
  on_text-is_plain s none = refl
  on_text-is_plain s (some text) = ground arith

  on_structured_chunk-is_plain :
      (s : State) (chunk : Dict Json)
      → all is_plain (on_structured_chunk loads loads_bytes str_of output_field s chunk).0 ≡ true
  unfolding on_structured_chunk on_item
  on_structured_chunk-is_plain s chunk =
      ground (arith, on_text-is_plain s (nonempty_str (get (codes "content") chunk)))

  on_object-is_plain :
      (s : State) (r : Result (Option (Dict Json)))
      → all is_plain (on_object loads loads_bytes str_of output_field s r).0 ≡ true
  on_object-is_plain s (err e) = refl
  on_object-is_plain s (ok none) = refl
  on_object-is_plain s (ok (some chunk)) = on_structured_chunk-is_plain s chunk

  on_line-is_plain :
      (s : State) (line : Bytes)
      → all is_plain (on_line loads loads_bytes str_of output_field s line).0 ≡ true
  unfolding on_line
  on_line-is_plain s line = ground (arith, on_object-is_plain s (object_of (loads_bytes line)))

  end_of-is_plain :
      (r : List Delta × Flow State)
      → all is_plain r.0 ≡ true
      → all is_plain (end_of loads loads_bytes str_of output_field r).deltas ≡ true
  end_of-is_plain (out, go s) h = h
  end_of-is_plain (out, leave s) h = h
  end_of-is_plain (out, return s) h = h
  end_of-is_plain (out, raise e s) h = h

  stream_lines-is_plain :
      (lines : List Bytes) (ending : Ending)
      → all is_plain (stream_lines loads loads_bytes str_of output_field lines ending).deltas ≡ true
  unfolding stream_lines
  stream_lines-is_plain lines ending =
      end_of-is_plain
        (run_events (on_line loads loads_bytes str_of output_field) initial lines ending)
        (run_events-is_plain (on_line loads loads_bytes str_of output_field) on_line-is_plain lines
          initial ending)

  text_deltas-is_plain :
      (raw : Bytes)
      → all is_plain (text_deltas loads loads_bytes str_of output_field raw).deltas ≡ true
  unfolding text_deltas
  text_deltas-is_plain raw = ground arith

  say_reply-Worded :
      (v : Json) (r : Option Text × Bool)
      → WordedTurn (is_silent r.0) (say_reply loads loads_bytes str_of output_field v r)
  say_reply-Worded v (none, asked) = tt
  say_reply-Worded v (some [], asked) = ground arith
  say_reply-Worded v (some (c ∷ reply), asked) =
      rw
        (ends_with-last truthy (intermediate_step_deltas loads str_of output_field (json_items v))
          (str (c ∷ reply)))
        refl

  on_loaded-Worded :
      (r : Result Json)
      → WordedTurn (silent_body r) (on_loaded loads loads_bytes str_of output_field r)
  on_loaded-Worded (err e) = tt
  on_loaded-Worded (ok v) = say_reply-Worded v (reply_from_json loads str_of output_field v)

  blocking-Worded :
      (whole : Bytes) (r : Result Bytes)
      → ((raw : Bytes) → r ≡ ok raw → raw ≡ whole)
      → WordedTurn (silent_body (loads_bytes whole)) (
          with_body loads loads_bytes str_of output_field
            (blocking_deltas loads loads_bytes str_of output_field)
            r)
  unfolding blocking_deltas
  blocking-Worded whole (err e) h = tt
  blocking-Worded whole (ok raw) h = rw (← h raw refl) (on_loaded-Worded (loads_bytes raw))

  text-Worded :
      (silent : Bool) (r : Result Bytes)
      → WordedTurn silent (
          with_body loads loads_bytes str_of output_field
            (text_deltas loads loads_bytes str_of output_field)
            r)
  text-Worded silent (err e) = tt
  text-Worded silent (ok raw) =
      plain_turn-Worded silent (text_deltas loads loads_bytes str_of output_field raw)
        (text_deltas-is_plain raw)

  in_mode-Worded :
      (whole : Bytes) (m : Result Mode) (s : Sniffed) (ending : Ending)
      → s.buffer ++ concat s.rest ≡ whole
      → WordedTurn
          (silent_body (loads_bytes whole))
          (in_mode loads loads_bytes str_of output_field m s ending)
  in_mode-Worded whole (err e) s ending h = tt
  in_mode-Worded whole (ok html) s ending h = tt
  in_mode-Worded whole (ok text_reply) s ending h =
      text-Worded _ (read_whole s.buffer s.rest ending)
  in_mode-Worded whole (ok blocking) s ending h =
      blocking-Worded whole (read_whole s.buffer s.rest ending)
        (λ raw e. read_whole-concat s.buffer s.rest ending raw e ∙ h)
  in_mode-Worded whole (ok ndjson) s ending h =
      plain_turn-Worded _ (in_mode loads loads_bytes str_of output_field (ok ndjson) s ending)
        (stream_lines-is_plain _ ending)

  after_sniff-Worded :
      (o : Option Exc) (s : Sniffed) (r : Response)
      → s.buffer ++ concat s.rest ≡ concat r.chunks
      → WordedTurn
          (silent_body (loads_bytes (concat r.chunks)))
          (after_sniff loads loads_bytes str_of output_field o s r)
  after_sniff-Worded (some e) s r h = tt
  after_sniff-Worded none s r h =
      in_mode-Worded (concat r.chunks)
        (sniff_mode loads_bytes (first_line s.buffer) (lower r.content_type)) s r.ending h

  pub iter_deltas-Worded :
      (r : Response)
      → WordedTurn
          (silent_body (loads_bytes (concat r.chunks)))
          (iter_deltas loads loads_bytes str_of output_field r)
  unfolding iter_deltas
  iter_deltas-Worded r =
      let s = sniff [] r.chunks in
      after_sniff-Worded (fails_early loads loads_bytes str_of output_field s.exhausted r.ending) s
        r (sniff-concat [] r.chunks)

  -- A reply that is one JSON body whose text is empty.
  abbrev pub silent_reply : Reply → Bool
  silent_reply (no_response e) = false
  silent_reply (answer r) = silent_body (loads_bytes (concat r.chunks))

  on_posted-Worded :
      (reply : Reply)
      → WordedTurn (silent_reply reply) (
          on_posted loads loads_bytes str_of output_field
            (post_checked backend_stream_error no_hook reply))
  unfolding post_checked
  on_posted-Worded (no_response e) = tt
  on_posted-Worded (answer r) = elim (Bool-cases (leb 400 r.status)) [
    | inl e ↦ rw e tt
    | inr e ↦ rw e (iter_deltas-Worded r)
  ]

  wrapped-Worded :
      (silent : Bool) (ds : List Delta) (ending : Ending)
      → Worded silent ds ending
      → Worded silent ds (wrapped loads loads_bytes str_of output_field ending)
  wrapped-Worded silent ds finished h = h
  wrapped-Worded silent ds (failed e) h = tt

  pub stream_turn-Worded :
      (reply : Reply)
      → WordedTurn (silent_reply reply) (stream_turn loads loads_bytes str_of output_field reply)
  unfolding stream_turn
  stream_turn-Worded reply =
      let t =
        on_posted loads loads_bytes str_of output_field
          (post_checked backend_stream_error no_hook reply) in
      wrapped-Worded (silent_reply reply) t.deltas t.ending (on_posted-Worded reply)
