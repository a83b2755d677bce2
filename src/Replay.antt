-- ===== src/Replay.antt =====
-- `replayable_content` of backends/_tools.py, over the contents of Home Assistant's chat log.
pub mod Laws
use llm_middleman.Base.{
  Bool, true, false, not, ◌&&◌, Option, none, some, List, [], ◌∷◌, ◌++◌, ltb, if◌then◌else◌, length,
  is_empty, filter, Text, text_eq,
}
use llm_middleman.Base.Dict.{Dict}
use llm_middleman.Json.{Json}
use llm_middleman.Stream.{ToolInput}

pub record Attachment : Type 0 where
  pub mime_type : Text
  pub path : Text

-- `conversation.Content`: a closed union. A text, a reasoning and a list of calls may be `None`.
pub data Content : Type 0 where
  system : Text → Content
  user : Text → List Attachment → Content
  assistant : Option Text → Option Text → Option (List ToolInput) → Content
  tool_result : Text → Text → Dict Json → Bool → Content

-- The truth of an optional text and of an optional list.
abbrev pub said : Option Text → Bool
said none = false
said (some t) = not (is_empty t)

abbrev pub calls_of : Option (List ToolInput) → List ToolInput
calls_of none = []
calls_of (some calls) = calls

abbrev pub is_local : ToolInput → Bool
is_local call = not call.external

unfoldable pub external_ids : List ToolInput → List Text
external_ids [] = []
external_ids (c ∷ cs) = let ids = external_ids cs in if c.external then c.id ∷ ids else ids

unfoldable pub mem_text : Text → List Text → Bool
mem_text t [] = false
mem_text t (s ∷ ss) = if text_eq t s then true else mem_text t ss

-- `local or None`
abbrev pub some_calls : List ToolInput → Option (List ToolInput)
some_calls [] = none
some_calls (c ∷ cs) = some (c ∷ cs)

-- What the loop does with one item: the ids to leave out from now on, and the item to keep, if any.
unfoldable pub replay_item : List Text → Content → List Text × Option Content
unfolding external_ids mem_text
replay_item ids (system t) = (ids, some (system t))
replay_item ids (user t files) = (ids, some (user t files))
replay_item ids (assistant text thought calls) =
    let local = filter is_local (calls_of calls) in
    if ltb (length local) (length (calls_of calls))
    then (
      ids ++ external_ids (calls_of calls),
      if is_empty local && not (said text) && not (said thought)
          then none
          else some (assistant text thought (some_calls local)),
    )
    else (ids, some (assistant text thought calls))
replay_item ids (tool_result call_id name result error) =
    (ids, if mem_text call_id ids then none else some (tool_result call_id name result error))

abbrev pub keep_item : Option Content → List Content → List Content
keep_item none items = items
keep_item (some item) items = item ∷ items

unfoldable pub replay_from : List Text → List Content → List Content
unfolding replay_item
replay_from ids [] = []
replay_from ids (item ∷ items) =
    let (ids', kept) = replay_item ids item in keep_item kept (replay_from ids' items)

unfoldable pub replayable_content : List Content → List Content
unfolding replay_from
replayable_content content = replay_from [] content

-- `rendered_system_prompt` of backends/base.py, none if it is empty.
unfoldable pub rendered_system_prompt : List Content → Option Text
rendered_system_prompt (system (c ∷ cs) ∷ items) = some (c ∷ cs)
rendered_system_prompt items = none
