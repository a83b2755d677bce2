-- ===== src/Tests/DifyTurn.antt =====
-- A Dify turn at a concrete input.
use llm_middleman.Base.{
  ◌≡◌, refl, false, Option, none, some, [], ◌∷◌, ◌++◌, if◌then◌else◌, Text, codes, text_eq, ◌is◌,
  starts_with,
}
use llm_middleman.Base.Dict
use llm_middleman.Base.Dict.{Dict}
use llm_middleman.Json.{Json, str, obj, to_fields}
use llm_middleman.Stream
use llm_middleman.Stream.{role, content, finished}
use llm_middleman.Backend
use llm_middleman.Backend.{Reply, answer}
use llm_middleman.Sse
use llm_middleman.Dify
use llm_middleman.Dify.{Maps}
use llm_middleman.Dify.Run.{Session}
use llm_middleman.Dify.Turn.{Ran, stream_turn}
use llm_middleman.Dify.Shape.{IsProper}
use llm_middleman.Dify.Shape.Turns.{stream_turn-IsProper}

-- A parser that knows the events of a short reply, and the body of an error.
abbrev loads : Text → Option Json
loads t =
    if t is "say"
    then some (
        obj (
          to_fields (
            (codes "event", str (codes "message"))
            ∷ (codes "answer", str (codes "Hi"))
            ∷ (codes "conversation_id", str (codes "c2"))
            ∷ [])))
    else if t is "end"
    then some (obj (to_fields ((codes "event", str (codes "message_end")) ∷ [])))
    else if t is "gone"
    then some (obj (to_fields ((codes "code", str (codes "not_found")) ∷ [])))
    else none

abbrev session : Session
session = record { session_key = codes "kitchen"; legacy_key = none; persist = false }

abbrev maps : Maps
maps = record { mem = (codes "kitchen", codes "c1") ∷ []; persisted = none; stored = [] }

abbrev gone_reply : Reply
gone_reply = answer (record {
  status = 404;
  body_text = codes "gone";
  content_type = [];
  chunks = [];
  ending = finished;
})

abbrev spoken_reply : Reply
spoken_reply = answer (record {
  status = 200;
  body_text = [];
  content_type = [];
  chunks = (codes "data: say" ++ b'\n' ∷ b'\n' ∷ codes "data: end" ++ b'\n' ∷ b'\n' ∷ []) ∷ [];
  ending = finished;
})

abbrev turn : Ran
turn = stream_turn loads (λ v. []) session maps gone_reply spoken_reply

stream_turn-IsProper_example : IsProper turn.deltas turn.ending
stream_turn-IsProper_example =
    stream_turn-IsProper loads (λ v. []) session maps gone_reply spoken_reply tt tt

-- The conversation was gone: the turn is sent again, and the new conversation is kept.
turn_run :
    (turn.deltas ≡ role ∷ content (str (codes "Hi")) ∷ [])
    × (turn.ending ≡ finished)
    × (turn.state.maps.mem ≡ (codes "kitchen", codes "c2") ∷ [])
unfolding stream_turn Backend.post_checked Dify.lookup Dict.get text_eq Dify.is_stale_conversation
    Stream.run_events Sse.async_iter_sse Sse.end_line Sse.join_lines Dify.flush Dify.feed
    starts_with Dify.remember Dict.set Dify.drop_session Dict.pop
turn_run = (refl, refl, refl)
