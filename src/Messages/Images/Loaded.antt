-- ===== src/Messages/Images/Loaded.antt =====
-- The images of a request stand at the items that they came with.
use llm_middleman.Base.{
  ℕ, ◌≡◌, refl, inl, inr, Bool, List, [], ◌∷◌, map, if◌then◌else◌, Bool-cases, any, Text,
}
use llm_middleman.Error.{raised, translated_error}
use llm_middleman.Fallible.{Result, ok, err}
use llm_middleman.History.{Message}
use llm_middleman.Replay.{Attachment, Content, replayable_content}
use llm_middleman.Messages.{Image, build_messages}
use llm_middleman.Messages.Images.{
  attachments_of, has_unsupported, read_group, read_groups, load_images, convert_all,
  request_messages,
}

abbrev image_of : (Text → Text) → Attachment → Image
image_of data_at a = (a.mime_type, data_at a.path)

-- The images of an item, of files that can all be read.
abbrev pub images_at : (Text → Text) → Content → List Image
images_at data_at c = map (image_of data_at) (attachments_of c)

-- Some item that is sent has an attachment that is no image.
abbrev pub some_unsupported : List Content → Bool
some_unsupported log = any has_unsupported (map attachments_of (replayable_content log))

module _ (read : Text → Result Text) (data_at : Text → Text)
    (reads : (path : Text) → read path ≡ ok (data_at path)) where
  read_group-reads :
      (group : List Attachment) → read_group read group ≡ ok (map (image_of data_at) group)
  unfolding read_group
  read_group-reads [] = refl
  read_group-reads (a ∷ group) = rw (reads a.path, read_group-reads group) refl

  read_groups-reads :
      (groups : List (List Attachment))
      → read_groups read groups ≡ ok (map (map (image_of data_at)) groups)
  unfolding read_groups
  read_groups-reads [] = refl
  read_groups-reads (group ∷ groups) = rw (read_group-reads group, read_groups-reads groups) refl

  module _ (convert : List Image → Content → Message) where
    convert_all-reads :
        (items : List Content)
        → convert_all read convert items (map (map (image_of data_at)) (map attachments_of items))
          ≡ ok (map (λ item. convert (images_at data_at item) item) items)
    unfolding convert_all
    convert_all-reads [] = refl
    convert_all-reads (c ∷ items) = rw (convert_all-reads items) refl

    -- Where the files can be read and every attachment is an image, a request carries the log with
    -- each item's own images; where some attachment is none, the request fails with the translated
    -- error, whatever else it has.
    pub request_messages-loaded :
        (log : List Content) (n : ℕ)
        → request_messages read convert (ok n) log ≡ (
            if some_unsupported log
            then err (raised translated_error)
            else ok (build_messages convert (images_at data_at) log n))
    unfolding request_messages load_images build_messages
    request_messages-loaded log n =
        let items = replayable_content log in
        elim (Bool-cases (some_unsupported log)) [
          | inl a ↦ rw a refl
          | inr a ↦
              rw (a, read_groups-reads (map attachments_of items), convert_all-reads items) refl
        ]
