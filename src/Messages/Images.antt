-- ===== src/Messages/Images.antt =====
-- The images of a request: `async_load_images` of backends/_tools.py, and how `_build_messages` of
-- backends/openai_compat.py and `_build_request` of backends/ollama.py pair them with the log.
-- `read` is the data of a file in base64, a parameter.
pub mod Loaded
use llm_middleman.Base.{
  ℕ, Bool, not, List, [], ◌∷◌, map, if◌then◌else◌, any, Text, codes, starts_with,
}
use llm_middleman.Error.{raised, translated_error, value_error}
use llm_middleman.Fallible.{Result, ok, err, ◌>>=◌}
use llm_middleman.History.{Message, trim_history}
use llm_middleman.Replay.{Attachment, Content, user, replayable_content}
use llm_middleman.Messages.{Image}

abbrev pub attachments_of : Content → List Attachment
attachments_of (user t files) = files
attachments_of c = []

abbrev is_unsupported : Attachment → Bool
is_unsupported a = not (starts_with (codes "image/") a.mime_type)

abbrev has_unsupported : List Attachment → Bool
has_unsupported files = any is_unsupported files

module _ (read : Text → Result Text) where
  unfoldable pub read_group : List Attachment → Result (List Image)
  read_group [] = ok []
  read_group (a ∷ group) =
      read a.path >>= λ encoded. read_group group >>= λ images. ok ((a.mime_type, encoded) ∷ images)

  unfoldable pub read_groups : List (List Attachment) → Result (List (List Image))
  unfolding read_group
  read_groups [] = ok []
  read_groups (group ∷ groups) =
      read_group group >>= λ images. read_groups groups >>= λ rest. ok (images ∷ rest)

  -- `async_load_images`: no file is read before every attachment is known to be an image.
  unfoldable pub load_images : List Content → Result (List (List Image))
  unfolding read_groups
  load_images items =
      let groups = map attachments_of items in
      if any has_unsupported groups then err (raised translated_error) else read_groups groups

  module _ (convert : List Image → Content → Message) where
    -- `zip(items, images, strict=True)`, with the conversion of each item.
    unfoldable pub convert_all : List Content → List (List Image) → Result (List Message)
    convert_all [] [] = ok []
    convert_all (c ∷ items) (group ∷ images) =
        convert_all items images >>= λ messages. ok (convert group c ∷ messages)
    convert_all _ images = err (raised value_error)

    -- The messages of a request, trimmed to what the option asks for, which may fail to be a number.
    unfoldable pub request_messages : Result ℕ → List Content → Result (List Message)
    unfolding load_images convert_all
    request_messages max_history log =
        let items = replayable_content log in
        load_images items >>= λ images.
        convert_all items images >>= λ messages. max_history >>= λ n. ok (trim_history messages n)
