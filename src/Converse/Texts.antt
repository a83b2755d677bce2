-- ===== src/Converse/Texts.antt =====
-- The events of a converse turn, described plainly: their texts, and how the turn ends.
use llm_middleman.Base.{
  Bool, Option, none, some, List, [], ◌∷◌, ◌++◌, if◌then◌else◌, or_else, Text, codes,
}
use llm_middleman.Base.Dict.{Dict}
use llm_middleman.Json.{Json, str, get, truthy, nonempty_str, loads_json_object}
use llm_middleman.Error.{raised, backend_stream_error}
use llm_middleman.Stream.{
  Delta, role, content, thinking, tool_calls, external_call, tool_result, Ending, finished, failed,
}
use llm_middleman.Sse.{ServerSentEvent}
use llm_middleman.Converse.{Kind, text_delta, tool_activity, error, done, ignored, kind_of}

-- The contents of the deltas.
abbrev pub spoken : List Delta → List Json
spoken [] = []
spoken (content c ∷ ds) = c ∷ spoken ds
spoken (role ∷ ds) = spoken ds
spoken (thinking _ ∷ ds) = spoken ds
spoken (tool_calls _ ∷ ds) = spoken ds
spoken (external_call _ ∷ ds) = spoken ds
spoken (tool_result _ _ _ _ ∷ ds) = spoken ds

-- The text of an event: of a `text_delta` with a delta that is not empty.
abbrev pub text_of : Option (Dict Json) → List Json
text_of none = []
text_of (some p) = let delta = get (codes "delta") p in if truthy delta then delta ∷ [] else []

-- What the stream comes to.
pub data Terminal : Type 0 where
  -- the payload of `done`
  completed : Dict Json → Terminal
  backend_error : Terminal
  -- no `done` and no `error`
  cut_off : Terminal

abbrev pub said : Option Text → List Json
said none = []
said (some t) = str t ∷ []

abbrev pub done_text : Dict Json → List Json
done_text p = said (nonempty_str (get (codes "text") p))

-- The texts before the first `done` or `error`, and which of them comes first.
abbrev pub on_kind_texts : Kind → Option (Dict Json) → List Json × Terminal → List Json × Terminal
on_kind_texts text_delta p (ts, t) = (text_of p ++ ts, t)
on_kind_texts tool_activity p r = r
on_kind_texts ignored p r = r
on_kind_texts error p r = ([], backend_error)
on_kind_texts done p r = ([], completed (or_else p []))

module _ (loads : Text → Option Json) where
  abbrev pub texts : List ServerSentEvent → List Json × Terminal
  texts [] = ([], cut_off)
  texts (e ∷ es) = on_kind_texts (kind_of e.event) (loads_json_object loads e.payload) (texts es)

  -- The reply: the streamed texts, or the text of `done` if nothing was streamed.
  abbrev pub reply_of : Bool → List Json × Terminal → List Json
  reply_of started ([], completed p) = if started then [] else done_text p
  reply_of started (ts, _) = ts

  abbrev pub ending_of : Terminal → Ending → Ending
  ending_of (completed p) ending = finished
  ending_of backend_error ending = failed (raised backend_stream_error)
  ending_of cut_off finished = failed (raised backend_stream_error)
  ending_of cut_off (failed e) = failed e
