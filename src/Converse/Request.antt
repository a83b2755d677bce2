-- ===== src/Converse/Request.antt =====
-- backends/converse.py: the request of a turn (the head of `stream_turn`).
use llm_middleman.Base.{Option, none, some, [], ◌∷◌, ◌++◌, or_else, Text, codes}
use llm_middleman.Base.Dict.{Dict}
use llm_middleman.Json.{Json, str, null}
use llm_middleman.Url.{rstrip_slash}
use llm_middleman.LangGraph.Request.{bearer_headers}

-- Of a turn: the fields of `user_input`; a language may be `None`.
pub record Input : Type 0 where
  pub text : Text
  pub language : Option Text
  pub device_id : Option Text

abbrev device_field : Option Text → Dict Json
device_field (some (c ∷ cs)) = (codes "device_id", str (c ∷ cs)) ∷ []
device_field device_id = []

unfoldable pub turn_body : Text → Input → Dict Json
turn_body memory_key i =
    (codes "conversation_id", str memory_key)
    ∷ (codes "text", str i.text)
    ∷ (codes "language", elim i.language [ none ↦ null | some t ↦ str t ])
    ∷ device_field i.device_id

-- The stored token may be absent.
unfoldable pub turn_headers : Option Text → Dict Text
unfolding bearer_headers
turn_headers token = (codes "Accept", codes "text/event-stream") ∷ bearer_headers (or_else token [])

unfoldable pub turn_url : Text → Text
unfolding rstrip_slash
turn_url base_url = rstrip_slash base_url ++ codes "/v1/converse"
