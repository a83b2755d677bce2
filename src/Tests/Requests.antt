-- ===== src/Tests/Requests.antt =====
-- Requests and Ollama turns at concrete inputs.
use llm_middleman.Base.{
  ℕ, ◌≡◌, refl, true, false, Option, none, some, List, [], ◌∷◌, ◌++◌, if◌then◌else◌, is_some, head?,
  last?, Bytes, Text, codes, text_eq, ◌is◌, is_in,
}
use llm_middleman.Base.Int.{ℤ}
use llm_middleman.Base.Dict.{Dict, get}
use llm_middleman.Json.{Json, str, obj, bool, field, end}
use llm_middleman.Error.{raised, json_decode_error}
use llm_middleman.Fallible.{Result, ok, err}
use llm_middleman.Stream.{run_events, role, content, finished}
use llm_middleman.Backend.{Response, Reply, answer}
use llm_middleman.Replay.{Content, system, user, assistant, tool_result, external_ids, mem_text}
use llm_middleman.Messages.{Image, convert_for_openai, convert_for_ollama, build_messages}
use llm_middleman.Messages.Ends.{build_messages-ends, build_messages-result}
use llm_middleman.Ollama
use llm_middleman.OpenAi.Request.{nothing_learned, opened, open_stream}
use llm_middleman.OpenAi.Request.Retries.{Settles, open_stream-Settles}

abbrev loads : Text → Option Json
loads t = none

abbrev int_of_text : Text → Option ℤ
int_of_text t = none

-- The objects of the lines below.
abbrev loads_line : Bytes → Result Json
loads_line line =
    if line is "hi"
    then ok (
        obj (field (codes "message") (obj (field (codes "content") (str (codes "Hello")) end)) end))
    else if line is "done"
    then ok (obj (field (codes "done") (bool true) end))
    else err (raised json_decode_error)

abbrev ulid_now : ℕ → Text
ulid_now n = codes "ulid" ++ n ∷ []

abbrev text_of : Json → Text
text_of v = []

abbrev lines : List Bytes
lines = codes "hi" ∷ [] ∷ codes "hi" ∷ codes "done" ∷ codes "hi" ∷ []

ollama_run_turn_run :
    (Ollama.run_turn loads int_of_text loads_line ulid_now text_of lines finished).deltas
    ≡ role ∷ content (str (codes "Hello")) ∷ content (str (codes "Hello")) ∷ []
unfolding Ollama.run_turn text_eq get run_events
ollama_run_turn_run = refl

abbrev response : Response
response = record {
  status = 200;
  body_text = [];
  content_type = codes "application/x-ndjson";
  chunks = codes "hi\ndone\n" ∷ [];
  ending = finished;
}

abbrev dumps : Dict Json → Text
dumps d = codes "{}"

abbrev no_images : Content → List Image
no_images item = []

abbrev between : List Content
between = user (codes "on") [] ∷ assistant (some (codes "ok")) none none ∷ []

build_messages-ends_example :
    ((head? (
          build_messages
            (convert_for_openai dumps)
            no_images
            (system (codes "Be brief") ∷ (between ++ user (codes "off") [] ∷ []))
            1)
        ≡ some (convert_for_openai dumps [] (system (codes "Be brief"))))
      × (last? (
            build_messages
              (convert_for_openai dumps)
              no_images
              (system (codes "Be brief") ∷ (between ++ user (codes "off") [] ∷ []))
              1)
          ≡ some (convert_for_openai dumps [] (user (codes "off") []))))
    × ((head? (
            build_messages
              (convert_for_ollama dumps)
              no_images
              (system (codes "Be brief") ∷ (between ++ user (codes "off") [] ∷ []))
              1)
          ≡ some (convert_for_ollama dumps [] (system (codes "Be brief"))))
        × (last? (
              build_messages
                (convert_for_ollama dumps)
                no_images
                (system (codes "Be brief") ∷ (between ++ user (codes "off") [] ∷ []))
                1)
            ≡ some (convert_for_ollama dumps [] (user (codes "off") []))))
build_messages-ends_example =
    build_messages-ends dumps no_images (codes "Be brief") (codes "off") between [] 1

build_messages-result_example :
    last? (
      build_messages
        (convert_for_ollama dumps)
        no_images
        (between ++ tool_result (codes "1") (codes "light.on") [] false ∷ [])
        1)
    ≡ some (convert_for_ollama dumps [] (tool_result (codes "1") (codes "light.on") [] false))
unfolding external_ids mem_text
build_messages-result_example =
    build_messages-result (convert_for_ollama dumps) no_images between (codes "1")
      (codes "light.on") [] false 1 refl

-- Refuses the field `stream_options` of a request that has it.
abbrev server : ℕ → Dict Json → Reply
server n request =
    if is_some (get (codes "stream_options") request)
    then answer (record response { status = 400; body_text = codes "unknown field stream_options" })
    else answer response

abbrev str_of : Json → Text
str_of v = []

abbrev body : Dict Json
body = (codes "stream_options", str (codes "usage")) ∷ (codes "model", str (codes "m")) ∷ []

open_stream-Settles_example : Settles str_of (open_stream str_of server 4 0 body nothing_learned)
open_stream-Settles_example = open_stream-Settles str_of server body nothing_learned

open_stream_run : (open_stream str_of server 4 0 body nothing_learned).1 ≡ opened response
unfolding open_stream get text_eq is_in
open_stream_run = refl
