-- ===== src/Tests/Tasks.antt =====
-- AI tasks and n8n turns at concrete inputs.
use llm_middleman.Base.{
  ℕ, ◌+◌, ◌≡◌, refl, false, Option, none, some, [], ◌∷◌, if◌then◌else◌, Bytes, Text, codes, text_eq,
  ◌is◌, starts_with, lower,
}
use llm_middleman.Base.Dict.{get}
use llm_middleman.Json.{Json, str, obj, field, end}
use llm_middleman.Error.{Exc, raised, json_decode_error}
use llm_middleman.Fallible.{Result, ok, err}
use llm_middleman.Stream.{run_events, role, content, finished}
use llm_middleman.Backend.{Response, answer, post_checked}
use llm_middleman.Sse.Ndjson.{async_iter_lines, end_line, keep_rest}
use llm_middleman.N8n.Sniff.{sniff, sniff_mode, first_line}
use llm_middleman.N8n.{iter_deltas}
use llm_middleman.N8n.Lines.{line_of, segments, joined, separated, outcome, asks}
use llm_middleman.N8n.Spoken.{spoken_text}
use llm_middleman.N8n.Joined.{iter_deltas-joined}
use llm_middleman.Sse.Reference.{split_lf}
use llm_middleman.N8n.Body.{unwrap_json_content}
use llm_middleman.N8n.{stream_turn}
use llm_middleman.N8n.Worded.{Worded, silent_reply}
use llm_middleman.N8n.Shape.{SpeaksOrFails, stream_turn-SpeaksOrFails}

-- A log that counts its round-trips: a tool result waits after the first.
abbrev round : ℕ → ℕ × Option Exc
round n = (n + 1, none)

abbrev loads : Text → Option Json
loads t = if t is "[]" then some (str t) else none

abbrev loads_bytes : Bytes → Result Json
loads_bytes line =
    if line is "item"
    then ok (
        obj (
          field (codes "type") (str (codes "item"))
            (field (codes "content") (str (codes "Hi")) end)))
    else if line is "end"
    then ok (obj (field (codes "type") (str (codes "end")) end))
    else err (raised json_decode_error)

abbrev str_of : Json → Text
str_of v = []

abbrev response : Response
response = record {
  status = 200;
  body_text = [];
  content_type = codes "application/json";
  chunks = codes "it" ∷ codes "em\nend\nbad\nitem" ∷ [];
  ending = finished;
}

stream_turn-SpeaksOrFails_example :
    SpeaksOrFails
      (stream_turn loads loads_bytes str_of (codes "output") (answer response)).deltas
      (stream_turn loads loads_bytes str_of (codes "output") (answer response)).ending
    × Worded
        (silent_reply loads loads_bytes str_of (codes "output") (answer response))
        (stream_turn loads loads_bytes str_of (codes "output") (answer response)).deltas
        (stream_turn loads loads_bytes str_of (codes "output") (answer response)).ending
stream_turn-SpeaksOrFails_example =
    stream_turn-SpeaksOrFails loads loads_bytes str_of (codes "output") (answer response)

n8n_stream_turn_run :
    (stream_turn loads loads_bytes str_of (codes "output") (answer response)).deltas
    ≡ role ∷ content (str (codes "Hi")) ∷ content (str (codes "\nHi")) ∷ []
unfolding stream_turn text_eq post_checked starts_with lower get run_events async_iter_lines
    end_line keep_rest unwrap_json_content
n8n_stream_turn_run = refl

iter_deltas-joined_example :
    (spoken_text (iter_deltas loads loads_bytes str_of (codes "output") response).deltas
      ≡ codes "Hi\nHi")
    × ((iter_deltas loads loads_bytes str_of (codes "output") response).ending ≡ finished)
    × ((iter_deltas loads loads_bytes str_of (codes "output") response).continue_conversation
        ≡ false)
unfolding sniff sniff_mode first_line lower text_eq starts_with get line_of split_lf segments joined
    separated outcome asks unwrap_json_content
iter_deltas-joined_example =
    iter_deltas-joined loads loads_bytes str_of (codes "output") response refl refl
