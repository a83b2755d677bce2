-- ===== src/Messages/Ends.antt =====
-- What a request starts and ends with.
use llm_middleman.Base.{
  ℕ, ◌≡◌, refl, ◌∙◌, inl, inr, Bool, true, false, ◌&&◌, some, List, [], ◌∷◌, ◌++◌, map, arith, ltb,
  Bool-cases, head?, last?, Text, text_eq,
}
use llm_middleman.Base.Dict
use llm_middleman.Base.Dict.{Dict}
use llm_middleman.Json.{Json}
use llm_middleman.History.{Message, has_role, count_users, system_head, trim_history}
use llm_middleman.History.Window.{last?-trim_history, trim_history-cut, trim_history-same}
use llm_middleman.Replay.{
  Attachment, Content, system, user, tool_result, mem_text, replayable_content,
}
use llm_middleman.Replay.Laws.{
  replayable_content-last_result, ran_externally, replayable_content-user,
  replayable_content-system,
}
use llm_middleman.Messages.{Image, convert_for_openai, convert_for_ollama, build_messages}

head?-trim_history :
    (s : Message) (ms : List Message) (m : ℕ)
    → has_role "system" s ≡ true
    → head? (trim_history (s ∷ ms) m) ≡ some s
unfolding system_head
head?-trim_history s ms m h = elim (Bool-cases (ltb 0 m && ltb m (count_users (s ∷ ms)))) [
  | inl a ↦ rw (trim_history-cut (s ∷ ms) m (ground arith) (ground arith), h) refl
  | inr a ↦ rw (trim_history-same (s ∷ ms) m a) refl
]

last?-map {ℓ κ} :
    {A : Type ℓ} {B : Type κ} (f : A → B) (xs : List A) (x : A)
    → last? (map f (xs ++ x ∷ [])) ≡ some (f x)
last?-map f [] x = refl
last?-map f (y ∷ []) x = refl
last?-map f (y ∷ z ∷ ys) x = last?-map f (z ∷ ys) x

module _ (convert : List Image → Content → Message) (images_of : Content → List Image) where
  abbrev message_of : Content → Message
  message_of item = convert (images_of item) item

  head?-build_messages :
      (t : Text) (items : List Content) (m : ℕ)
      → has_role "system" (message_of (system t)) ≡ true
      → head? (build_messages convert images_of (system t ∷ items) m) ≡ some (message_of (system t))
  unfolding build_messages
  head?-build_messages t items m h =
      rw (replayable_content-system t items) (head?-trim_history (message_of (system t)) _ m h)

  last?-build_messages :
      (items : List Content) (t : Text) (files : List Attachment) (m : ℕ)
      → last? (build_messages convert images_of (items ++ user t files ∷ []) m)
        ≡ some (message_of (user t files))
  unfolding build_messages
  last?-build_messages items t files m =
      last?-trim_history _ m
      ∙ rw (replayable_content-user items t files)
          (last?-map message_of (replayable_content items) (user t files))

  -- The result of a tool call that HA ran, which the next round-trip is to answer, is the last
  -- message of that round-trip's request, whatever the limit.
  pub build_messages-result :
      (items : List Content) (i n : Text) (r : Dict Json) (e : Bool) (m : ℕ)
      → mem_text i (ran_externally items) ≡ false
      → last? (build_messages convert images_of (items ++ tool_result i n r e ∷ []) m)
        ≡ some (message_of (tool_result i n r e))
  unfolding build_messages
  build_messages-result items i n r e m h =
      last?-trim_history _ m
      ∙ rw (replayable_content-last_result items i n r e, h)
          (last?-map message_of (replayable_content items) (tool_result i n r e))

-- A request of either stateless adapter starts with the system prompt and ends with the turn that
-- the user waits for an answer to, with any history between them and any limit on it.
pub build_messages-ends :
    (dumps : Dict Json → Text) (images_of : Content → List Image) (t u : Text)
    (items : List Content) (files : List Attachment) (m : ℕ)
    → ((head? (
            build_messages
              (convert_for_openai dumps)
              images_of
              (system t ∷ (items ++ user u files ∷ []))
              m)
          ≡ some (convert_for_openai dumps (images_of (system t)) (system t)))
        × (last? (
              build_messages
                (convert_for_openai dumps)
                images_of
                (system t ∷ (items ++ user u files ∷ []))
                m)
            ≡ some (convert_for_openai dumps (images_of (user u files)) (user u files))))
      × ((head? (
              build_messages
                (convert_for_ollama dumps)
                images_of
                (system t ∷ (items ++ user u files ∷ []))
                m)
            ≡ some (convert_for_ollama dumps (images_of (system t)) (system t)))
          × (last? (
                build_messages
                  (convert_for_ollama dumps)
                  images_of
                  (system t ∷ (items ++ user u files ∷ []))
                  m)
              ≡ some (convert_for_ollama dumps (images_of (user u files)) (user u files))))
unfolding convert_for_openai convert_for_ollama has_role Dict.get text_eq
build_messages-ends dumps images_of t u items files m = (
  (
    head?-build_messages (convert_for_openai dumps) images_of t (items ++ user u files ∷ []) m refl,
    last?-build_messages (convert_for_openai dumps) images_of (system t ∷ items) u files m,
  ),
  (
    head?-build_messages (convert_for_ollama dumps) images_of t (items ++ user u files ∷ []) m refl,
    last?-build_messages (convert_for_ollama dumps) images_of (system t ∷ items) u files m,
  ),
)
