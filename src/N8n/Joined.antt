-- ===== src/N8n/Joined.antt =====
-- What an n8n turn says of a streamed reply, against a plain description of its lines.
use llm_middleman.Base.{
  ◌≡◌, refl, ap, ◌∙◌, inl, inr, false, ◌||◌, Option, none, some, List, [], ◌∷◌, ◌++◌, map,
  append_assoc, arith, ltb, Bool-cases, length, filter, any, concat, Bytes, Text, codes, lower,
}
use llm_middleman.Base.Dict.{Dict}
use llm_middleman.Json.{Json, get, nonempty_str}
use llm_middleman.Fallible.{Result, ok, err}
use llm_middleman.Stream.{
  Delta, Ending, finished, failed, Flow, go, leave, return, raise, run_events,
}
use llm_middleman.Backend.{TurnEnd, Response}
use llm_middleman.N8n.Sniff.{is_newline, ndjson, object_of, sniff, sniff_mode, first_line, prepend}
use llm_middleman.N8n.{
  State, initial, on_text, on_item, on_structured_chunk, on_object, on_line, end_of, stream_lines,
  iter_deltas, fails_early, completes,
}
use llm_middleman.N8n.Lines.{
  segments, joined, outcome, asks, item_of, line_of_chunk, line_of_object, line_of,
}
use llm_middleman.Sse.{max_line_bytes}
use llm_middleman.Sse.Ndjson.{async_iter_lines}
use llm_middleman.Sse.Reference.{fits, split_lf}
use llm_middleman.Sse.Lines.{async_iter_lines-split_lf}
use llm_middleman.N8n.Spoken.{spoken_text, on_read, Says, silence, or_false, on_read-Says}

module _ (loads : Text → Option Json) (loads_bytes : Bytes → Result Json) (str_of : Json → Text)
    (output_field : Text) where
  on_text-read :
      (s : State) (o : Option Text)
      → on_text loads loads_bytes str_of output_field s o
        ≡ on_read s (item_of loads loads_bytes str_of output_field o)
  on_text-read s none = refl
  on_text-read s (some text) = refl

  on_chunk-read :
      (s : State) (chunk : Dict Json)
      → on_structured_chunk loads loads_bytes str_of output_field s chunk
        ≡ on_read s (line_of_chunk loads loads_bytes str_of output_field chunk)
  unfolding on_structured_chunk on_item
  on_chunk-read s chunk =
      ground (arith, on_text-read s (nonempty_str (get (codes "content") chunk)))

  on_object-read :
      (s : State) (r : Result (Option (Dict Json)))
      → on_object loads loads_bytes str_of output_field s r
        ≡ on_read s (line_of_object loads loads_bytes str_of output_field r)
  on_object-read s (err e) = refl
  on_object-read s (ok none) = refl
  on_object-read s (ok (some chunk)) = on_chunk-read s chunk

  on_line-read :
      (s : State) (line : Bytes)
      → on_line loads loads_bytes str_of output_field s line
        ≡ on_read s (line_of loads loads_bytes str_of output_field line)
  unfolding on_line line_of
  on_line-read s line = ground (arith, on_object-read s (object_of (loads_bytes line)))

  run_events-Says :
      (lines : List Bytes) (s : State) (ending : Ending)
      → Says loads loads_bytes str_of output_field s
          (map (line_of loads loads_bytes str_of output_field) lines)
          ending
          (run_events (on_line loads loads_bytes str_of output_field) s lines ending)
  unfolding run_events segments outcome asks spoken_text
  run_events-Says [] s finished =
      (silence s, refl, or_false loads loads_bytes str_of output_field s.continue_conversation)
  run_events-Says [] s (failed e) =
      (silence s, refl, or_false loads loads_bytes str_of output_field s.continue_conversation)
  run_events-Says (l ∷ ls) s ending = rw (on_line-read s l) (
      on_read-Says loads loads_bytes str_of output_field s
        (line_of loads loads_bytes str_of output_field l)
        (map (line_of loads loads_bytes str_of output_field) ls) ending
        (λ s'. run_events (on_line loads loads_bytes str_of output_field) s' ls ending)
        (λ s'. run_events-Says ls s' ending))

  deltas-end :
      (r : List Delta × Flow State) → (end_of loads loads_bytes str_of output_field r).deltas ≡ r.0
  deltas-end (out, go s) = refl
  deltas-end (out, leave s) = refl
  deltas-end (out, return s) = refl
  deltas-end (out, raise e s) = refl

  -- What the lines come to.
  abbrev pub Joins : List Bytes → Ending → TurnEnd → Type 0
  Joins lines ending t =
      let read = map (line_of loads loads_bytes str_of output_field) lines in
      (spoken_text t.deltas ≡ joined (segments read))
      × (t.ending ≡ outcome false read ending)
      × (t.continue_conversation ≡ asks read)

  stream_lines-Joins :
      (lines : List Bytes) (ending : Ending)
      → Joins lines ending (stream_lines loads loads_bytes str_of output_field lines ending)
  unfolding stream_lines
  stream_lines-Joins lines ending =
      let (said, ended, asked) = run_events-Says lines initial ending in
      (ap spoken_text (deltas-end _) ∙ said, ended, asked)

  concat-prepend :
      (buffer : Bytes) (rest : List Bytes) → concat (prepend buffer rest) ≡ buffer ++ concat rest
  concat-prepend [] rest = refl
  concat-prepend (c ∷ cs) rest = refl

  concat-sniff :
      (buffer : Bytes) (chunks : List Bytes)
      → concat (prepend (sniff buffer chunks).buffer (sniff buffer chunks).rest)
        ≡ buffer ++ concat chunks
  unfolding sniff
  concat-sniff buffer [] = concat-prepend buffer []
  concat-sniff buffer (chunk ∷ chunks) =
      elim (Bool-cases (any is_newline buffer || ltb max_line_bytes (length buffer))) [
        | inl e ↦ rw e (concat-prepend buffer (chunk ∷ chunks))
        | inr e ↦
            rw e (concat-sniff (buffer ++ chunk) chunks ∙ append_assoc buffer chunk (concat chunks))
      ]

  -- The lines of a reply as a whole, without those over the cap.
  abbrev pub whole_lines : Response → List Bytes
  whole_lines r =
      filter (fits max_line_bytes)
        (split_lf (completes loads loads_bytes str_of output_field r.ending) [] (concat r.chunks))

  -- An n8n reply that is taken for a streamed one is said segment by segment, however it was cut into
  -- chunks: the texts of a segment run together, and a newline stands between two segments that have
  -- some. The turn ends at the first line that fails; otherwise as the stream did, but with an error
  -- if nothing was said. It asks for an answer if an item that was said does. Lines over the cap are
  -- left out, and the stream has not failed before its mode was known.
  pub iter_deltas-joined :
      (r : Response)
      → fails_early loads loads_bytes str_of output_field (sniff [] r.chunks).exhausted r.ending
        ≡ none
      → sniff_mode loads_bytes (first_line (sniff [] r.chunks).buffer) (lower r.content_type)
        ≡ ok ndjson
      → Joins (whole_lines r) r.ending (iter_deltas loads loads_bytes str_of output_field r)
  unfolding iter_deltas
  iter_deltas-joined r h k =
      let s = sniff [] r.chunks in
      let done = completes loads loads_bytes str_of output_field r.ending in
      let lines = async_iter_lines max_line_bytes done (prepend s.buffer s.rest) in
      let whole : lines ≡ whole_lines r =
        async_iter_lines-split_lf max_line_bytes done (prepend s.buffer s.rest)
        ∙ ap (λ (bs : Bytes). filter (fits max_line_bytes) (split_lf done [] bs))
            (concat-sniff [] r.chunks) in
      rw (h, k) (rw (← whole) (stream_lines-Joins lines r.ending))
