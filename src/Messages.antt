-- ===== src/Messages.antt =====
-- The messages of a request: `_convert_content` of backends/openai_compat.py and of
-- backends/ollama.py, `tool_result_json` of backends/_tools.py, and what both adapters do with the
-- chat log. `dumps` is `json.dumps`; the images of an item, which are read from files, are a
-- parameter.
pub mod Body
pub mod Ends
pub mod Images
use llm_middleman.Base.{
  ℕ, ◌+◌, String, Bool, Option, none, some, List, [], ◌∷◌, ◌++◌, map, if◌then◌else◌, or_else,
  is_empty, Text, codes,
}
use llm_middleman.Base.Int.{pos}
use llm_middleman.Base.Dict.{Dict}
use llm_middleman.Json.{Json, bool, int, str, obj, arr, to_items, to_fields}
use llm_middleman.Stream.{ToolInput}
use llm_middleman.History.{Message, trim_history}
use llm_middleman.Replay.{
  Content, system, user, assistant, tool_result, calls_of, replayable_content,
}

-- `EncodedImage`: the MIME type and the data in base64.
abbrev pub Image : Type 0
Image = Text × Text

abbrev pub object : Dict Json → Json
object d = obj (to_fields d)

abbrev pub list : List Json → Json
list xs = arr (to_items xs)

abbrev pub entry : String → Json → Text × Json
entry k v = (codes k, v)

abbrev pub text : String → Json
text s = str (codes s)

-- What `"tool_calls"` is added to: nothing, if there are no calls.
abbrev pub with_calls : Message → List Json → Message
with_calls message [] = message
with_calls message (c ∷ cs) = message ++ entry "tool_calls" (list (c ∷ cs)) ∷ []

-- `f"data:{mime_type};base64,{data}"`
abbrev pub data_url : Image → Text
data_url (mime_type, encoded) = codes "data:" ++ (mime_type ++ (codes ";base64," ++ encoded))

abbrev pub image_part : Image → Json
image_part image = object (
    entry "type" (text "image_url")
    ∷ entry "image_url" (object (entry "url" (str (data_url image)) ∷ []))
    ∷ [])

-- The content of a user's message for an OpenAI-compatible server.
abbrev pub user_content : Text → List Image → Json
user_content t [] = str t
user_content t (image ∷ images) = list (
    object (entry "type" (text "text") ∷ entry "text" (str t) ∷ [])
    ∷ map image_part (image ∷ images))

abbrev pub with_images : Message → List Image → Message
with_images message [] = message
with_images message (image ∷ images) =
    message ++ entry "images" (list (map (λ (i : Image). str i.1) (image ∷ images))) ∷ []

-- Ollama's calls, each with its place.
abbrev pub ollama_calls : ℕ → List ToolInput → List Json
ollama_calls index [] = []
ollama_calls index (call ∷ calls) =
    object (
      entry "id" (str call.id)
      ∷ entry "function" (
          object (
            entry "index" (int (pos index))
            ∷ entry "name" (str call.tool_name)
            ∷ entry "arguments" (object call.tool_args)
            ∷ []))
      ∷ [])
    ∷ ollama_calls (index + 1) calls

abbrev pub ollama_thinking : Option Text → Dict Json
ollama_thinking none = []
ollama_thinking (some thought) =
    if is_empty thought then [] else entry "thinking" (str thought) ∷ []

module _ (dumps : Dict Json → Text) where
  unfoldable pub tool_result_json : Dict Json → Bool → Text
  tool_result_json result error =
      dumps (entry "data" (object result) ∷ entry "error" (bool error) ∷ [])

  abbrev pub openai_call : ToolInput → Json
  openai_call call = object (
      entry "id" (str call.id)
      ∷ entry "type" (text "function")
      ∷ entry "function" (
          object (
            entry "name" (str call.tool_name)
            ∷ entry "arguments" (str (dumps call.tool_args))
            ∷ []))
      ∷ [])

  unfoldable pub convert_for_openai : List Image → Content → Message
  unfolding tool_result_json
  convert_for_openai images (system t) = entry "role" (text "system") ∷ entry "content" (str t) ∷ []
  convert_for_openai images (user t files) =
      entry "role" (text "user") ∷ entry "content" (user_content t images) ∷ []
  convert_for_openai images (assistant t thought calls) =
      with_calls (entry "role" (text "assistant") ∷ entry "content" (str (or_else t [])) ∷ [])
        (map openai_call (calls_of calls))
  convert_for_openai images (tool_result call_id name result error) =
      entry "role" (text "tool")
      ∷ entry "tool_call_id" (str call_id)
      ∷ entry "content" (str (tool_result_json result error))
      ∷ []

  unfoldable pub convert_for_ollama : List Image → Content → Message
  unfolding tool_result_json
  convert_for_ollama images (system t) = entry "role" (text "system") ∷ entry "content" (str t) ∷ []
  convert_for_ollama images (user t files) =
      with_images (entry "role" (text "user") ∷ entry "content" (str t) ∷ []) images
  convert_for_ollama images (assistant t thought calls) =
      with_calls
        (entry "role" (text "assistant")
          ∷ entry "content" (str (or_else t []))
          ∷ ollama_thinking thought)
        (ollama_calls 0 (calls_of calls))
  convert_for_ollama images (tool_result call_id name result error) =
      entry "role" (text "tool")
      ∷ entry "content" (str (tool_result_json result error))
      ∷ entry "tool_name" (str name)
      ∷ entry "tool_call_id" (str call_id)
      ∷ []

module _ (convert : List Image → Content → Message) (images_of : Content → List Image) where
  -- The log without backend-run calls, converted and trimmed.
  unfoldable pub build_messages : List Content → ℕ → List Message
  build_messages content max_history =
      trim_history (map (λ item. convert (images_of item) item) (replayable_content content))
        max_history
