-- ===== src/Diagnostics.antt =====
-- diagnostics.py: the dump of a connection (`async_get_config_entry_diagnostics`, `TO_REDACT`).
-- Home Assistant's `async_redact_data`, the state of an entry and its entities are parameters.
pub mod Secrets
pub mod Alike
pub mod Hides
use llm_middleman.Base.{Option, none, some, List, [], ◌∷◌, map, Text, codes}
use llm_middleman.Base.Dict
use llm_middleman.Base.Dict.{Dict}
use llm_middleman.Json.{Json, obj, str, to_fields, get}

-- `TO_REDACT`
abbrev pub to_redact : List Text
to_redact =
    codes "api_key"
    ∷ codes "token"
    ∷ codes "username"
    ∷ codes "password"
    ∷ codes "header_value"
    ∷ codes "url"
    ∷ codes "base_url"
    ∷ codes "webhook_url"
    ∷ codes "prompt"
    ∷ codes "system_prompt"
    ∷ codes "dify_inputs"
    ∷ []

pub record Subentry : Type 0 where
  pub subentry_id : Text
  pub title : Text
  pub subentry_type : Text
  pub options : Dict Json

pub record Entry : Type 0 where
  pub title : Text
  pub entry_id : Text
  -- `f"{entry.version}.{entry.minor_version}"`
  pub version : Text
  pub state : Text
  pub entry_data : Dict Json
  pub options : Dict Json
  pub subentries : List Subentry

abbrev pub object : Dict Json → Json
object d = obj (to_fields d)

module _ (redact : List Text → Dict Json → Dict Json) where
  abbrev pub subentry_dump : Subentry → Text × Json
  subentry_dump s = (
    s.subentry_id,
    object (
        (codes "title", str s.title)
        ∷ (codes "subentry_type", str s.subentry_type)
        ∷ (codes "data", object (redact to_redact s.options))
        ∷ []),
  )

  -- The dump, with the entities of the entry and what a loaded LangGraph adapter says.
  unfoldable pub entry_diagnostics : Entry → Dict Json → Option (Dict Json) → Dict Json
  entry_diagnostics e entities langgraph =
      (codes "title", str e.title)
      ∷ (codes "entry_id", str e.entry_id)
      ∷ (codes "entry_version", str e.version)
      ∷ (codes "state", str e.state)
      ∷ (codes "backend_type", get (codes "backend_type") e.entry_data)
      ∷ (codes "data", object (redact to_redact e.entry_data))
      ∷ (codes "options", object (redact to_redact e.options))
      ∷ (codes "subentries", object (map subentry_dump e.subentries))
      ∷ (codes "entities", object entities)
      ∷ elim langgraph [ none ↦ [] | some d ↦ (codes "langgraph", object d) ∷ [] ]
