-- ===== src/Ollama/Turn.antt =====
-- backends/ollama.py: a whole turn (`stream_turn`): the request and the stream of the reply. The
-- server is a parameter: what it replies to a body.
use llm_middleman.Base.{ℕ, ◌≡◌, refl, true, false, List, [], is_some, concat, Bytes, Text}
use llm_middleman.Base.Dict.{Dict}
use llm_middleman.Json.{Json}
use llm_middleman.Error.{Exc}
use llm_middleman.Fallible.{Result, ok, err}
use llm_middleman.Stream.{failed}
use llm_middleman.Stream.Laws.{run_block}
use llm_middleman.Backend.{Reply, no_response, answer, TurnEnd, Response, post_checked, no_hook}
use llm_middleman.Error.{backend_connection_error}
use llm_middleman.Messages.Body.{Runtime, TurnRequest, build_request}
use llm_middleman.Ollama
use llm_middleman.Ollama.{ended, initial, on_posted}
use llm_middleman.Ollama.Shape.{run_turn-opens_block, stream_turn-chunks}
use llm_middleman.OpenAi.Calls.{py_int}

-- The reply, cut into other chunks.
abbrev pub rechunk : (List Bytes → List Bytes) → Reply → Reply
rechunk cut (no_response e) = no_response e
rechunk cut (answer r) = answer (record r { chunks = cut r.chunks })

module _ (py : Runtime) (loads_line : Bytes → Result Json) (ulid_now : ℕ → Text)
    (text_of : Json → Text) where
  abbrev refused : Exc → TurnEnd
  refused e = ended py.loads py.int_of_text loads_line ulid_now text_of [] (failed e) initial

  abbrev pub on_request : (Dict Json → Reply) → Result (Dict Json) → TurnEnd
  on_request server (err e) = refused e
  on_request server (ok body) =
      Ollama.stream_turn py.loads py.int_of_text loads_line ulid_now text_of (server body)

  unfoldable pub stream_turn : (Dict Json → Reply) → Dict Json → TurnRequest → TurnEnd
  unfolding build_request
  stream_turn server options turn =
      on_request server
        (build_request py.dumps py.read (py_int py.int_of_text) py.float_of py.str_of options turn)

  -- Every delta continues an open assistant block.
  abbrev pub IsOneBlock : TurnEnd → Type 0
  IsOneBlock t = is_some (run_block false t.deltas) ≡ true

  on_posted-IsOneBlock :
      (r : Result Response)
      → IsOneBlock (on_posted py.loads py.int_of_text loads_line ulid_now text_of r)
  on_posted-IsOneBlock (err e) = refl
  on_posted-IsOneBlock (ok r) =
      run_turn-opens_block py.loads py.int_of_text loads_line ulid_now text_of _ r.ending

  reply-IsOneBlock :
      (reply : Reply)
      → IsOneBlock (Ollama.stream_turn py.loads py.int_of_text loads_line ulid_now text_of reply)
  unfolding Ollama.stream_turn
  reply-IsOneBlock reply =
      on_posted-IsOneBlock (post_checked backend_connection_error no_hook reply)

  module _ (cut : List Bytes → List Bytes)
      (cuts : (chunks : List Bytes) → concat (cut chunks) ≡ concat chunks) where
    reply-rechunk :
        (reply : Reply)
        → Ollama.stream_turn py.loads py.int_of_text loads_line ulid_now text_of (rechunk cut reply)
          ≡ Ollama.stream_turn py.loads py.int_of_text loads_line ulid_now text_of reply
    reply-rechunk (no_response e) = refl
    reply-rechunk (answer r) =
        stream_turn-chunks py.loads py.int_of_text loads_line ulid_now text_of r (cut r.chunks)
          (cuts r.chunks)

    on_request_streams :
        (server : Dict Json → Reply) (r : Result (Dict Json))
        → IsOneBlock (on_request server r)
          × (on_request (λ body. rechunk cut (server body)) r ≡ on_request server r)
    on_request_streams server (err e) = (refl, refl)
    on_request_streams server (ok body) =
        (reply-IsOneBlock (server body), reply-rechunk (server body))

    -- Whatever the options, the chat log and the server: every delta of an Ollama turn continues an
    -- open assistant block, and how the network cuts the reply into chunks changes nothing of the
    -- turn, whether the stream completes or fails.
    pub stream_turn_streams :
        (server : Dict Json → Reply) (options : Dict Json) (turn : TurnRequest)
        → IsOneBlock (stream_turn server options turn)
          × (stream_turn (λ body. rechunk cut (server body)) options turn
              ≡ stream_turn server options turn)
    unfolding stream_turn
    stream_turn_streams server options turn = on_request_streams server _
