-- ===== src/Registry.antt =====
-- backends/__init__.py: the presets by their type (`BACKEND_TO_CLS`, `get_backend_cls`), with the
-- capabilities that each adapter class declares.
use llm_middleman.Base.{
  Bool, true, false, Option, none, some, List, [], ◌∷◌, if◌then◌else◌, Text, codes, text_eq,
}
use llm_middleman.Error.{value_error, raised}
use llm_middleman.Fallible.{Result, ok, err}

-- The adapter classes, by `backend_type`.
pub data Backend : Type 0 where
  openai_compat langgraph ollama converse n8n dify : Backend

abbrev pub backend_name : Backend → Text
backend_name openai_compat = codes "openai_compat"
backend_name langgraph = codes "langgraph"
backend_name ollama = codes "ollama"
backend_name converse = codes "converse"
backend_name n8n = codes "n8n"
backend_name dify = codes "dify"

-- In the order of the dictionary, which is that of the form.
abbrev pub backends : List Backend
backends = converse ∷ dify ∷ langgraph ∷ n8n ∷ ollama ∷ openai_compat ∷ []

unfoldable pub find_backend : Text → List Backend → Option Backend
find_backend backend_type [] = none
find_backend backend_type (b ∷ bs) =
    if text_eq backend_type (backend_name b) then some b else find_backend backend_type bs

-- `get_backend_cls`
unfoldable pub get_backend_cls : Text → Result Backend
unfolding find_backend
get_backend_cls backend_type = elim (find_backend backend_type backends) [
  | none ↦ err (raised value_error)
  | some b ↦ ok b
]

-- The adapter replays the history that Home Assistant keeps, and may call its tools.
abbrev pub supports_ha_tools : Backend → Bool
supports_ha_tools openai_compat = true
supports_ha_tools ollama = true
supports_ha_tools _ = false

-- The backend keeps the history, under a session key.
abbrev pub supports_memory_scope : Backend → Bool
supports_memory_scope langgraph = true
supports_memory_scope converse = true
supports_memory_scope n8n = true
supports_memory_scope dify = true
supports_memory_scope _ = false

abbrev pub supports_ai_task : Backend → Bool
supports_ai_task openai_compat = true
supports_ai_task ollama = true
supports_ai_task _ = false

-- The text of a turn is prefixed with the time: not where the chat log or the system prompt has it.
abbrev pub wants_time_prefix : Backend → Bool
wants_time_prefix converse = true
wants_time_prefix dify = true
wants_time_prefix _ = false
