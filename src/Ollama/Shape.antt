-- ===== src/Ollama/Shape.antt =====
-- The deltas of an Ollama turn keep to one assistant block.
use llm_middleman.Base.{
  ℕ, ◌≡◌, refl, sym, ap, ◌∙◌, inl, inr, Bool, true, false, Option, none, some, List, [], ◌++◌,
  arith, Bool-cases, is_some, filter, concat, Bytes, Text, codes,
}
use llm_middleman.Base.Int.{ℤ}
use llm_middleman.Base.Dict.{Dict}
use llm_middleman.Json.{Json, get, truthy, json_object}
use llm_middleman.Fallible.{Result, ok, err, ◌>>=◌}
use llm_middleman.Stream.{
  Delta, content, thinking, ToolInput, Ending, Flow, go, leave, return, raise, run_events,
}
use llm_middleman.Stream.Laws.{
  run_block, run_block-append, Follows, and_then-Follows, run_events-Follows,
}
use llm_middleman.Backend.{Trace, Response, answer, post_checked}
use llm_middleman.Sse.{max_line_bytes}
use llm_middleman.Sse.Ndjson.{async_iter_lines}
use llm_middleman.Sse.Reference.{fits, split_lf}
use llm_middleman.Sse.Lines.{async_iter_lines-split_lf}
use llm_middleman.OpenAi.Calls.{iterate}
use llm_middleman.Ollama.Calls.{tool_inputs}
use llm_middleman.Ollama.{
  State, initial, say_if, say_message, with_calls, say_calls, with_counts, count_tokens, cut_off,
  end_if_done, say_rest, on_message, message_of, on_object, on_narrowed, on_parsed, on_line, end_of,
  run_turn, completes, stream_turn,
}

abbrev Keeps : State → List Delta × Flow State → Type 0
Keeps s r = Follows (λ (s : State). s.role_emitted) s.role_emitted r

say_thinking-run_block :
    (s : State) (v : Json)
    → run_block s.role_emitted (say_if thinking s v).0 ≡ some (say_if thinking s v).1.role_emitted
say_thinking-run_block s v = ground arith

say_content-run_block :
    (s : State) (v : Json)
    → run_block s.role_emitted (say_if content s v).0 ≡ some (say_if content s v).1.role_emitted
say_content-run_block s v = ground arith

say_message-run_block :
    (s : State) (m : Dict Json)
    → run_block s.role_emitted (say_message s m).0 ≡ some (say_message s m).1.role_emitted
unfolding say_message
say_message-run_block s m =
    let s' = (say_if thinking s (get (codes "thinking") m)).1 in
    run_block-append (say_if thinking s (get (codes "thinking") m)).0
      (say_if content s' (get (codes "content") m)).0 s.role_emitted s'.role_emitted
      (say_thinking-run_block s (get (codes "thinking") m))
    ∙ say_content-run_block s' (get (codes "content") m)

module _ (loads : Text → Option Json) (int_of_text : Text → Option ℤ)
    (loads_line : Bytes → Result Json) (ulid_now : ℕ → Text) (text_of : Json → Text) where
  with_calls-Keeps :
      (s : State) (r : Result (List ToolInput × ℕ))
      → Keeps s (with_calls loads int_of_text loads_line ulid_now text_of s r)
  with_calls-Keeps s (err e) = ground arith
  with_calls-Keeps s (ok (calls, minted)) = ground arith

  say_calls-Keeps :
      (s : State) (v : Json) → Keeps s (say_calls loads int_of_text loads_line ulid_now text_of s v)
  unfolding say_calls
  say_calls-Keeps s v =
      ground (arith, with_calls-Keeps s (iterate v >>= tool_inputs loads ulid_now text_of s.minted))

  with_counts-Follows :
      (b : Bool) (out : List Delta) (s : State) (r : Result (List Trace))
      → run_block b out ≡ some s.role_emitted
      → Follows
          (λ (s : State). s.role_emitted)
          b
          (out, with_counts loads int_of_text loads_line ulid_now text_of s r)
  with_counts-Follows b out s (err e) h = rw h refl
  with_counts-Follows b out s (ok counts) h = h

  end_if_done-Follows :
      (b : Bool) (out : List Delta) (s : State) (o : Dict Json)
      → run_block b out ≡ some s.role_emitted
      → Follows
          (λ (s : State). s.role_emitted)
          b
          (out, end_if_done loads int_of_text loads_line ulid_now text_of s o)
  unfolding end_if_done
  end_if_done-Follows b out s o h = elim (Bool-cases (truthy (get (codes "done") o))) [
    | inl a ↦
        let s' = record s {
          traced = s.traced ++ cut_off loads int_of_text loads_line ulid_now text_of o;
        } in
        rw a (
          with_counts-Follows b out s'
            (count_tokens loads int_of_text loads_line ulid_now text_of o) h)
    | inr a ↦ rw a h
  ]

  say_rest-Keeps :
      (o message : Dict Json) (s : State)
      → Keeps s (say_rest loads int_of_text loads_line ulid_now text_of o message s)
  say_rest-Keeps o message s =
      end_if_done-Follows s.role_emitted (say_message s message).0 (say_message s message).1 o
        (say_message-run_block s message)

  on_message-Keeps :
      (s : State) (o : Dict Json) (m : Result (Dict Json))
      → Keeps s (on_message loads int_of_text loads_line ulid_now text_of s o m)
  on_message-Keeps s o (err e) = refl
  on_message-Keeps s o (ok message) =
      let called =
        say_calls loads int_of_text loads_line ulid_now text_of s
          (get (codes "tool_calls") message) in
      and_then-Follows (λ s. s.role_emitted) s.role_emitted called.0 called.1
        (say_rest loads int_of_text loads_line ulid_now text_of o message)
        (say_calls-Keeps s (get (codes "tool_calls") message)) (say_rest-Keeps o message)

  on_object-Keeps :
      (s : State) (o : Dict Json)
      → Keeps s (on_object loads int_of_text loads_line ulid_now text_of s o)
  unfolding on_object
  on_object-Keeps s o =
      ground
        (arith, on_message-Keeps s o (message_of loads int_of_text loads_line ulid_now text_of o))

  on_narrowed-Keeps :
      (s : State) (o : Option (Dict Json))
      → Keeps s (on_narrowed loads int_of_text loads_line ulid_now text_of s o)
  on_narrowed-Keeps s none = refl
  on_narrowed-Keeps s (some o) = on_object-Keeps s o

  on_parsed-Keeps :
      (s : State) (r : Result Json)
      → Keeps s (on_parsed loads int_of_text loads_line ulid_now text_of s r)
  on_parsed-Keeps s (err e) = refl
  on_parsed-Keeps s (ok v) = on_narrowed-Keeps s (json_object v)

  on_line-Keeps :
      (s : State) (line : Bytes)
      → Keeps s (on_line loads int_of_text loads_line ulid_now text_of s line)
  unfolding on_line
  on_line-Keeps s line = ground (arith, on_parsed-Keeps s (loads_line line))

  end_of-is_some :
      (r : List Delta × Flow State)
      → Keeps initial r
      → is_some (run_block false (end_of loads int_of_text loads_line ulid_now text_of r).deltas)
        ≡ true
  end_of-is_some (out, go s) h = rw h refl
  end_of-is_some (out, leave s) h = rw h refl
  end_of-is_some (out, return s) h = h
  end_of-is_some (out, raise e s) h = h

  -- Whatever an Ollama server streams and however the stream ends, every delta of the turn continues
  -- an open assistant block, also where a malformed tool call ends the turn.
  pub run_turn-opens_block :
      (lines : List Bytes) (ending : Ending)
      → is_some (
          run_block false
            (run_turn loads int_of_text loads_line ulid_now text_of lines ending).deltas)
        ≡ true
  unfolding run_turn
  run_turn-opens_block lines ending =
      end_of-is_some
        (run_events (on_line loads int_of_text loads_line ulid_now text_of) initial lines ending)
        (run_events-Follows (on_line loads int_of_text loads_line ulid_now text_of)
          (λ s. s.role_emitted) on_line-Keeps lines initial ending)

  -- How the network cuts the reply into chunks changes nothing of an Ollama turn, whether the stream
  -- completes or fails.
  pub stream_turn-chunks :
      (r : Response) (chunks : List Bytes)
      → concat chunks ≡ concat r.chunks
      → stream_turn loads int_of_text loads_line ulid_now text_of
          (answer (record r { chunks = chunks }))
        ≡ stream_turn loads int_of_text loads_line ulid_now text_of (answer r)
  unfolding stream_turn post_checked
  stream_turn-chunks r chunks h =
      let done = completes loads int_of_text loads_line ulid_now text_of r.ending in
      let same : async_iter_lines max_line_bytes done chunks
          ≡ async_iter_lines max_line_bytes done r.chunks =
        async_iter_lines-split_lf max_line_bytes done chunks
        ∙ ap (λ bytes. filter (fits max_line_bytes) (split_lf done [] bytes)) h
        ∙ sym (async_iter_lines-split_lf max_line_bytes done r.chunks) in
      ground (
        arith,
        ap (λ lines. run_turn loads int_of_text loads_line ulid_now text_of lines r.ending) same,
      )
