-- ===== src/OpenAi/Turn.antt =====
-- backends/openai_compat.py: a whole turn (`stream_turn`): the body, its POSTs, and the stream of the
-- reply. The server is a parameter: what it replies to each POST, by number.
use llm_middleman.Base.{ℕ, ◌≡◌, refl, true, false, Option, none, some, [], is_some}
use llm_middleman.Base.Dict.{Dict}
use llm_middleman.Json.{Json}
use llm_middleman.Error.{Exc}
use llm_middleman.Fallible.{Result, ok, err}
use llm_middleman.Sse.{async_iter_sse, max_line_bytes}
use llm_middleman.Stream.{failed}
use llm_middleman.Stream.Laws.{run_block}
use llm_middleman.Backend.{Reply, TurnEnd}
use llm_middleman.Messages.Body.{Runtime, TurnRequest, build_body}
use llm_middleman.OpenAi.{ended, run_turn}
use llm_middleman.OpenAi.Calls.{py_int}
use llm_middleman.OpenAi.Shape.{run_turn-opens}
use llm_middleman.OpenAi.Request.{Learned, Opened, opened, failed_to_open, unfinished, open_stream}
use llm_middleman.OpenAi.Request.Retries.{Settles, open_stream-Settles}

module _ (py : Runtime) (server : ℕ → Dict Json → Reply) where
  abbrev refused : Exc → TurnEnd
  refused e = ended py.loads py.int_of_text [] (failed e) []

  -- What is streamed of the reply; nothing where the POSTs have no end.
  unfoldable pub on_opened : Learned × Opened py.str_of → Learned × Option TurnEnd
  on_opened (learned, opened r) = (
    learned,
    some (run_turn py.loads py.int_of_text (async_iter_sse max_line_bytes r.chunks) r.ending),
  )
  on_opened (learned, failed_to_open e) = (learned, some (refused e))
  on_opened (learned, unfinished) = (learned, none)

  abbrev pub on_body : Learned → Result (Dict Json) → Learned × Option TurnEnd
  on_body learned (err e) = (learned, some (refused e))
  on_body learned (ok body) = on_opened (open_stream py.str_of server 4 0 body learned)

  -- `stream_turn`, with what the connection has learned, and learns.
  unfoldable pub stream_turn : Dict Json → TurnRequest → Learned → Learned × Option TurnEnd
  unfolding build_body on_opened
  stream_turn options turn learned =
      on_body learned
        (build_body py.dumps py.read (py_int py.int_of_text) py.float_of py.str_of options turn)

  abbrev pub EndsInBlock : Learned × Option TurnEnd → Type 0
  EndsInBlock (learned, none) = ⊥
  EndsInBlock (learned, some t) = is_some (run_block false t.deltas) ≡ true

  on_opened-EndsInBlock :
      (o : Learned × Opened py.str_of) → Settles py.str_of o → EndsInBlock (on_opened o)
  unfolding on_opened
  on_opened-EndsInBlock (learned, opened r) h = run_turn-opens py.loads py.int_of_text _ r.ending
  on_opened-EndsInBlock (learned, failed_to_open e) h = refl
  on_opened-EndsInBlock (learned, unfinished) h = absurd h

  on_body-EndsInBlock :
      (learned : Learned) (body : Result (Dict Json)) → EndsInBlock (on_body learned body)
  on_body-EndsInBlock learned (err e) = refl
  on_body-EndsInBlock learned (ok body) =
      on_opened-EndsInBlock _ (open_stream-Settles py.str_of server body learned)

  -- Whatever the options, the chat log, the server and what the connection has learned, a turn comes
  -- to an end, and every delta of it continues an open assistant block.
  pub stream_turn-EndsInBlock :
      (options : Dict Json) (turn : TurnRequest) (learned : Learned)
      → EndsInBlock (stream_turn options turn learned)
  unfolding stream_turn
  stream_turn-EndsInBlock options turn learned = on_body-EndsInBlock learned _
