-- ===== src/Setup/Stores.antt =====
-- __init__.py: the removal of an entry (`async_remove_entry`); and the files that an adapter keeps
-- for it, as backends/dify.py and backends/langgraph.py name them (`store_keys`, `__init__`). Home
-- Assistant's store is a dictionary from the names of its files; its `slugify` is a parameter.
use llm_middleman.Base.{none, some, List, [], ◌∷◌, ◌++◌, Text, codes}
use llm_middleman.Base.Dict
use llm_middleman.Base.Dict.{Dict}
use llm_middleman.Json.{Json, str}
use llm_middleman.Error.{raised, key_error, value_error}
use llm_middleman.Fallible.{Result, ok, err}
use llm_middleman.LangGraph.Request.{entry_key_of}
use llm_middleman.Registry.{Backend, dify, langgraph, get_backend_cls}
use llm_middleman.Reachability.{Connection, async_delete_unreachable_issue}
use llm_middleman.ConfigFlow.{without_keys}

-- `store_keys`, of the slug of an entry's key.
unfoldable pub slug_keys : Backend → Text → List Text
slug_keys dify slug = (codes "llm_middleman.dify." ++ slug) ∷ []
slug_keys langgraph slug =
    (codes "llm_middleman.langgraph." ++ slug)
    ∷ (codes "llm_middleman.langgraph." ++ slug ++ codes ".pending_resume")
    ∷ []
slug_keys _ slug = []

-- `get_backend_cls(entry.data[CONF_BACKEND_TYPE])`
abbrev backend_named : Json → Result Backend
backend_named (str t) = get_backend_cls t
backend_named v = err (raised value_error)

unfoldable pub backend_of : Dict Json → Result Backend
unfolding get_backend_cls
backend_of entry_data = elim (Dict.get (codes "backend_type") entry_data) [
  | none ↦ err (raised key_error)
  | some v ↦ backend_named v
]

-- What an entry leaves in Home Assistant: the state of its connection, and the files.
pub record Home : Type 0 where
  pub connection : Connection
  pub stores : Dict Json

module _ (str_of : Json → Text) (slugify : Text → Text) where
  abbrev pub store_keys : Backend → Text → List Text
  store_keys b entry_key = slug_keys b (slugify entry_key)

  -- The files that an adapter opens, under the same key in both.
  unfoldable pub opened_stores : Backend → Dict Json → List Text
  unfolding entry_key_of slug_keys
  opened_stores b connection_data = store_keys b (entry_key_of str_of connection_data)

  abbrev pub delete_stores : Text → Home → Result Backend → Home × Result (Unit {0})
  delete_stores entry_id home (err e) = (home, err e)
  delete_stores entry_id home (ok b) =
      (record home { stores = without_keys (store_keys b entry_id) home.stores }, ok tt)

  -- `async_remove_entry`
  unfoldable pub remove_entry : Text → Dict Json → Home → Home × Result (Unit {0})
  unfolding backend_of slug_keys without_keys
  remove_entry entry_id entry_data home =
      let deleted = record home { connection = async_delete_unreachable_issue home.connection } in
      delete_stores entry_id deleted (backend_of entry_data)
