-- ===== src/Tests/Bodies.antt =====
-- The request bodies at concrete inputs.
use llm_middleman.Base.{
  ℕ, ◌≡◌, refl, true, none, some, List, [], ◌∷◌, ◌++◌, append-nil, ◌==◌, if◌then◌else◌, concat,
  Bytes, Text, codes, text_eq, ◌is◌,
}
use llm_middleman.Base.Int.{ℤ, pos, negsuc}
use llm_middleman.Base.Dict
use llm_middleman.Base.Dict.{Dict}
use llm_middleman.Json.{Json, null, str, int, bool, as_int}
use llm_middleman.Error.{raised, value_error, translated_error}
use llm_middleman.Fallible.{Result, ok, err}
use llm_middleman.Backend.{Reply, answer}
use llm_middleman.OpenAi.Turn.{EndsInBlock, stream_turn, stream_turn-EndsInBlock}
use llm_middleman.OpenAi.Request.{nothing_learned}
use llm_middleman.Stream.{finished}
use llm_middleman.Converse.Request
use llm_middleman.Ollama.Turn
use llm_middleman.Ollama.Turn.{IsOneBlock, rechunk, stream_turn_streams}
use llm_middleman.Messages.{object, list, entry, text}
use llm_middleman.Messages.Body.{
  Runtime, Tool, TurnRequest, format_function_tool, tools_field, keep_alive_value, max_history,
  configured, keep_alive_field, think, build_request, build_body, converted, option_fields,
}
use llm_middleman.Messages.{build_messages, convert_for_openai}
use llm_middleman.Messages.Images.{request_messages}
use llm_middleman.Messages.Images.Loaded.{images_at, some_unsupported, request_messages-loaded}
use llm_middleman.Replay.{Content, user, replayable_content}
use llm_middleman.History.{trim_history}

abbrev int_of : Json → Result ℤ
int_of v = elim (as_int v) [ some n ↦ ok n | none ↦ err (raised value_error) ]

abbrev light : Tool
light = record { name = codes "light"; description = some []; parameters = object [] }

abbrev request : TurnRequest
request = record {
  log = [];
  llm_api = some (light ∷ []);
  subentry_id = some (codes "s");
  output_schema = none;
}

abbrev dumps : Dict Json → Text
dumps d = []

abbrev data_at : Text → Text
data_at path = codes "data of " ++ path

abbrev read : Text → Result Text
read path = ok (data_at path)

abbrev to_float : Json → Result Json
to_float v = ok v

abbrev str_of : Json → Text
str_of v = []

abbrev options : Dict Json
options =
    entry "keep_alive" (int (negsuc 0))
    ∷ entry "think" (text "on")
    ∷ entry "top_p" (int (pos 1))
    ∷ []

build_request_run :
    build_request dumps read int_of to_float str_of options request
    ≡ ok (
        entry "messages" (list [])
        ∷ entry "stream" (bool true)
        ∷ entry "keep_alive" (int (negsuc 0))
        ∷ entry "think" (bool true)
        ∷ entry "tools" (
            list (
              object (
                entry "type" (text "function")
                ∷ entry "function"
                    (object (entry "name" (text "light") ∷ entry "parameters" (object []) ∷ []))
                ∷ [])
              ∷ []))
        ∷ [])
unfolding build_request max_history configured think tools_field format_function_tool
    keep_alive_field keep_alive_value build_messages replayable_content trim_history Dict.get
    text_eq
build_request_run = refl

build_body_run :
    build_body dumps read int_of to_float str_of options request
    ≡ ok (
        entry "messages" (list [])
        ∷ entry "stream" (bool true)
        ∷ entry "top_p" (int (pos 1))
        ∷ entry "stream_options" (object (entry "include_usage" (bool true) ∷ []))
        ∷ entry "prompt_cache_key" (text "s")
        ∷ entry "tools" (
            list (
              object (
                entry "type" (text "function")
                ∷ entry "function" (
                    object (
                      entry "name" (text "light")
                      ∷ entry "parameters" (object [])
                      ∷ entry "description" (str [])
                      ∷ []))
                ∷ [])
              ∷ []))
        ∷ [])
unfolding build_body max_history converted option_fields tools_field format_function_tool
    build_messages replayable_content trim_history Dict.get text_eq
build_body_run = refl

abbrev log : List Content
log =
    user (codes "Look") (record { mime_type = codes "image/png"; path = codes "a.png" } ∷ [])
    ∷ user (codes "And") []
    ∷ []

request_messages-loaded_example : request_messages read (convert_for_openai dumps) (ok 1) log ≡ (
    if some_unsupported log
    then err (raised translated_error)
    else ok (build_messages (convert_for_openai dumps) (images_at data_at) log 1))
request_messages-loaded_example =
    request_messages-loaded read data_at (λ path. refl) (convert_for_openai dumps) log 1

abbrev py : Runtime
py = record {
  loads = λ t. none;
  dumps = dumps;
  int_of_text = λ t. none;
  float_of = to_float;
  str_of = str_of;
  read = read;
}

-- The first POST is refused for its `stream_options`.
abbrev server : ℕ → Dict Json → Reply
server n body = answer record {
  status = if n == 0 then 400 else 200;
  body_text = codes "unknown field: stream_options";
  content_type = codes "text/event-stream";
  chunks = codes "data: [DONE]\n\n" ∷ [];
  ending = finished;
}

stream_turn-EndsInBlock_example :
    EndsInBlock py server (stream_turn py server options request nothing_learned)
stream_turn-EndsInBlock_example = stream_turn-EndsInBlock py server options request nothing_learned

converse_turn_body_run :
    Request.turn_body
      (codes "k")
      (record { text = codes "hi"; language = none; device_id = some (codes "d") })
    ≡ entry "conversation_id" (text "k")
      ∷ entry "text" (text "hi")
      ∷ entry "language" null
      ∷ entry "device_id" (text "d")
      ∷ []
unfolding Request.turn_body
converse_turn_body_run = refl

abbrev loads_line : Bytes → Result Json
loads_line line = ok (
    object (
      entry "message" (object (entry "content" (str line) ∷ []))
      ∷ entry "done" (bool (line is "bye"))
      ∷ []))

abbrev line_server : Dict Json → Reply
line_server body = answer record {
  status = 200;
  body_text = [];
  content_type = codes "application/x-ndjson";
  chunks = codes "he" ∷ codes "llo\nb" ∷ codes "ye\n" ∷ [];
  ending = finished;
}

abbrev whole : List Bytes → List Bytes
whole chunks = concat chunks ∷ []

abbrev ulid_now : ℕ → Text
ulid_now n = codes "ulid" ++ n ∷ []

stream_turn_streams_example :
    IsOneBlock py loads_line ulid_now str_of
      (Turn.stream_turn py loads_line ulid_now str_of line_server options request)
    × (Turn.stream_turn py loads_line ulid_now str_of
          (λ body. rechunk whole (line_server body))
          options
          request
        ≡ Turn.stream_turn py loads_line ulid_now str_of line_server options request)
stream_turn_streams_example =
    stream_turn_streams py loads_line ulid_now str_of whole (λ chunks. append-nil (concat chunks))
      line_server options request
