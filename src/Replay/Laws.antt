-- ===== src/Replay/Laws.antt =====
-- What `replayable_content` removes, and what it leaves alone.
use llm_middleman.Base.{
  ◌≤◌, ◌≡◌, refl, sym, ap, ◌∙◌, inl, inr, Bool, true, false, Option, none, some, List, [], ◌∷◌,
  ◌++◌, append-nil, append_assoc, arith, ltb, if◌then◌else◌, Bool-cases, length, filter, all, Text,
}
use llm_middleman.Base.Dict.{Dict}
use llm_middleman.Json.{Json}
use llm_middleman.Stream.{ToolInput}
use llm_middleman.Replay.{
  Attachment, Content, system, user, assistant, tool_result, calls_of, is_local, external_ids,
  mem_text, some_calls, replay_item, keep_item, replay_from, replayable_content,
}

-- The item holds no backend-run call.
abbrev pub is_clean : Content → Bool
is_clean (assistant _ _ calls) = all is_local (calls_of calls)
is_clean _ = true

all-filter {ℓ} : {A : Type ℓ} (p : A → Bool) (xs : List A) → all p (filter p xs) ≡ true
all-filter p [] = refl
all-filter p (x ∷ xs) = ground (arith, all-filter p xs)

filter-all {ℓ} : {A : Type ℓ} (p : A → Bool) (xs : List A) → all p xs ≡ true → filter p xs ≡ xs
filter-all p [] h = refl
filter-all p (x ∷ xs) h = ground (arith, filter-all p xs)

length-filter-le {ℓ} : {A : Type ℓ} (p : A → Bool) (xs : List A) → length (filter p xs) ≤ length xs
length-filter-le p [] = omega arith
length-filter-le p (x ∷ xs) = ground (arith, length-filter-le p xs)

all_of_length {ℓ} :
    {A : Type ℓ} (p : A → Bool) (xs : List A)
    → ltb (length (filter p xs)) (length xs) ≡ false
    → all p xs ≡ true
all_of_length p [] h = refl
all_of_length p (x ∷ xs) h = ground (arith, all_of_length p xs, length-filter-le p xs)

calls_of-some_calls : (cs : List ToolInput) → calls_of (some_calls cs) ≡ cs
calls_of-some_calls [] = refl
calls_of-some_calls (c ∷ cs) = refl

abbrev clean_option : Option Content → Bool
clean_option none = true
clean_option (some c) = is_clean c

replay_item-clean :
    (ids : List Text) (item : Content) → clean_option (replay_item ids item).1 ≡ true
unfolding replay_item
replay_item-clean ids (system t) = refl
replay_item-clean ids (user t files) = refl
replay_item-clean ids (assistant text thought calls) = ground (
  arith,
  all-filter is_local (calls_of calls),
  all_of_length is_local (calls_of calls),
  calls_of-some_calls (filter is_local (calls_of calls)),
)
replay_item-clean ids (tool_result call_id name result error) = ground arith

keep_item-clean :
    (o : Option Content) (rest : List Content)
    → clean_option o ≡ true
    → all is_clean rest ≡ true
    → all is_clean (keep_item o rest) ≡ true
keep_item-clean none rest h r = r
keep_item-clean (some c) rest h r = rw h r

replay_from-clean :
    (ids : List Text) (items : List Content) → all is_clean (replay_from ids items) ≡ true
unfolding replay_from
replay_from-clean ids [] = refl
replay_from-clean ids (item ∷ items) =
    keep_item-clean (replay_item ids item).1 _ (replay_item-clean ids item)
      (replay_from-clean (replay_item ids item).0 items)

-- With nothing to leave out, a log without backend-run calls is replayed as it is.
replay_from-same : (items : List Content) → all is_clean items ≡ true → replay_from [] items ≡ items
unfolding replay_from mem_text
replay_from-same [] h = refl
replay_from-same (system t ∷ items) h = ap (◌∷◌ (system t)) (replay_from-same items h)
replay_from-same (user t files ∷ items) h = ap (◌∷◌ (user t files)) (replay_from-same items h)
replay_from-same (tool_result i n r e ∷ items) h =
    ap (◌∷◌ (tool_result i n r e)) (replay_from-same items h)
replay_from-same (assistant text thought calls ∷ items) h =
    ground (arith, filter-all is_local (calls_of calls), replay_from-same items)

-- No backend-run tool call is replayed, and a replay of what was replayed changes nothing more.
pub replayable_content-clean :
    (content : List Content)
    → (all is_clean (replayable_content content) ≡ true)
      × (replayable_content (replayable_content content) ≡ replayable_content content)
unfolding replayable_content
replayable_content-clean content =
    let clean = replay_from-clean [] content in (clean, replay_from-same _ clean)

-- The ids of all backend-run calls of a log.
abbrev pub ran_externally : List Content → List Text
ran_externally [] = []
ran_externally (assistant _ _ calls ∷ items) = external_ids (calls_of calls) ++ ran_externally items
ran_externally (_ ∷ items) = ran_externally items

external_ids-clean : (calls : List ToolInput) → all is_local calls ≡ true → external_ids calls ≡ []
unfolding external_ids
external_ids-clean [] h = refl
external_ids-clean (c ∷ cs) h = ground (arith, external_ids-clean cs)

ran_by : Content → List Text
ran_by (assistant _ _ calls) = external_ids (calls_of calls)
ran_by _ = []

ran_externally-cons :
    (item : Content) (items : List Content)
    → ran_externally (item ∷ items) ≡ ran_by item ++ ran_externally items
unfolding ran_by
ran_externally-cons (assistant _ _ calls) items = refl
ran_externally-cons _ items = refl

replay_item-ids : (ids : List Text) (item : Content) → (replay_item ids item).0 ≡ ids ++ ran_by item
unfolding replay_item ran_by
replay_item-ids ids (assistant text thought calls) =
    elim (Bool-cases (ltb (length (filter is_local (calls_of calls))) (length (calls_of calls)))) [
      | inl a ↦ rw a refl
      | inr a ↦
          rw (a, external_ids-clean (calls_of calls) (all_of_length is_local (calls_of calls) a))
            (sym (append-nil ids))
    ]
replay_item-ids ids _ = sym (append-nil ids)

keep_item-append :
    (o : Option Content) (xs ys : List Content) → keep_item o (xs ++ ys) ≡ keep_item o xs ++ ys
keep_item-append none xs ys = refl
keep_item-append (some c) xs ys = refl

replay_from-append :
    (ids : List Text) (xs ys : List Content)
    → replay_from ids (xs ++ ys) ≡ replay_from ids xs ++ replay_from (ids ++ ran_externally xs) ys
unfolding replay_from
replay_from-append ids [] ys = rw append-nil
replay_from-append ids (x ∷ xs) ys =
    rw
      (
        replay_from-append (replay_item ids x).0 xs ys,
        replay_item-ids,
        ran_externally-cons,
        append_assoc,
      )
      (keep_item-append (replay_item ids x).1 _ _)

-- A result at the end of the log.
pub replayable_content-last_result :
    (content : List Content) (i n : Text) (r : Dict Json) (e : Bool)
    → replayable_content (content ++ tool_result i n r e ∷ [])
      ≡ replayable_content content
        ++ (if mem_text i (ran_externally content) then [] else tool_result i n r e ∷ [])
unfolding replayable_content
replayable_content-last_result content i n r e =
    replay_from-append [] content (tool_result i n r e ∷ [])
    ∙ ap (λ k. replay_from [] content ++ k) (unfold replay_from replay_item in ground arith)

-- The result of a tool call, wherever it stands in the log, is replayed exactly if a backend-run call
-- with its id does not stand before it; where it stands, the log is otherwise replayed as it would be
-- without it, and what stands before it as if nothing stood behind.
pub replayable_content-result :
    (before : List Content) (i n : Text) (r : Dict Json) (e : Bool) (behind : List Content)
    → (rest : List Content) × (replayable_content (before ++ behind)
        ≡ replayable_content before ++ rest)
      × (replayable_content (before ++ tool_result i n r e ∷ behind)
          ≡ replayable_content before
            ++ (if mem_text i (ran_externally before) then rest else tool_result i n r e ∷ rest))
unfolding replayable_content
replayable_content-result before i n r e behind = (
  replay_from (ran_externally before) behind,
  replay_from-append [] before behind,
  replay_from-append [] before (tool_result i n r e ∷ behind)
      ∙ ap (λ k. replay_from [] before ++ k) (unfold replay_from replay_item in ground arith),
)

-- What the user and the system said.
abbrev pub is_prompt : Content → Bool
is_prompt (system _) = true
is_prompt (user _ _) = true
is_prompt _ = false

replay_from-prompts :
    (ids : List Text) (items : List Content)
    → filter is_prompt (replay_from ids items) ≡ filter is_prompt items
unfolding replay_from replay_item
replay_from-prompts ids [] = refl
replay_from-prompts ids (system t ∷ items) = ap (◌∷◌ (system t)) (replay_from-prompts ids items)
replay_from-prompts ids (user t files ∷ items) =
    ap (◌∷◌ (user t files)) (replay_from-prompts ids items)
replay_from-prompts ids (tool_result i n r e ∷ items) =
    ground (arith, replay_from-prompts ids items)
replay_from-prompts ids (assistant text thought calls ∷ items) = ground (
  arith,
  replay_from-prompts ids items,
  replay_from-prompts (ids ++ external_ids (calls_of calls)) items,
)

-- Every system and user message is replayed, in order and unchanged.
pub replayable_content-prompts :
    (content : List Content)
    → filter is_prompt (replayable_content content) ≡ filter is_prompt content
unfolding replayable_content
replayable_content-prompts content = replay_from-prompts [] content

pub replayable_content-user :
    (content : List Content) (t : Text) (files : List Attachment)
    → replayable_content (content ++ user t files ∷ [])
      ≡ replayable_content content ++ user t files ∷ []
unfolding replayable_content
replayable_content-user content t files =
    replay_from-append [] content (user t files ∷ []) ∙ (unfold replay_from replay_item in refl)

pub replayable_content-system :
    (t : Text) (content : List Content)
    → replayable_content (system t ∷ content) ≡ system t ∷ replayable_content content
unfolding replayable_content replay_from replay_item
replayable_content-system t content = refl
