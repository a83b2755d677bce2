-- ===== src/Tests/Flows.antt =====
-- The flow of a connection, and the removal of an entry, at concrete inputs.
use llm_middleman.Base.{◌≡◌, refl, true, false, none, some, [], ◌∷◌, Text, codes, text_eq}
use llm_middleman.Base.Dict
use llm_middleman.Base.Dict.{Dict}
use llm_middleman.Json.{Json, str}
use llm_middleman.Error.{Exc, raised, backend_auth_error}
use llm_middleman.Fallible.{Result, ok, err}
use llm_middleman.Url
use llm_middleman.Registry.{converse, langgraph, dify}
use llm_middleman.Forms.Connection.{connection_schema}
use llm_middleman.ConfigFlow
use llm_middleman.ConfigFlow.{user, show_form}
use llm_middleman.ConfigFlow.Connection.{Stores, saves}
use llm_middleman.ConfigFlow.Flow.{
  choose, connect, Submission, on_form, start, next, supported_subentry_types,
}
use llm_middleman.ConfigFlow.Saved.{flow-Stores, IsSaved}
use llm_middleman.Url.{text_or}
use llm_middleman.Setup.{setup_entry}
use llm_middleman.Setup.Stores.{Home, slug_keys, backend_of, opened_stores, remove_entry}
use llm_middleman.Setup.Removed.{remove_entry-clears}

abbrev str_of : Json → Text
str_of v = []

abbrev error_key : Exc → Text
error_key e = codes "not_chat_app"

abbrev refuses : Dict Json → Result (Unit {0})
refuses values = err (raised backend_auth_error)

abbrev accepts : Dict Json → Result (Unit {0})
accepts values = ok tt

abbrev choice : Submission
choice = record {
  values = (codes "backend_type", str (codes "converse")) ∷ [];
  validate = accepts;
  has_match = λ d. false;
  listened = false;
}

abbrev wrong_token : Submission
wrong_token = record {
  values = (codes "base_url", str (codes "http://h/")) ∷ (codes "token", str (codes "x")) ∷ [];
  validate = refuses;
  has_match = λ d. false;
  listened = false;
}

abbrev right_token : Submission
right_token = record {
  values = (codes "base_url", str (codes "http://h/")) ∷ (codes "token", str (codes "y")) ∷ [];
  validate = accepts;
  has_match = λ d. false;
  listened = false;
}

-- The first submission of the form of a connection is refused, so that it is shown again.
form_run :
    on_form str_of error_key user (connect converse) wrong_token
    ≡ (connect converse, show_form (some (codes "base", codes "invalid_auth")))
unfolding on_form ConfigFlow.connection_step Dict.get Dict.set Url.rstrip_slash text_eq
form_run = refl

supported_run :
    supported_subentry_types ((codes "backend_type", str (codes "ollama")) ∷ [])
    ≡ codes "conversation" ∷ codes "ai_task_data" ∷ []
unfolding supported_subentry_types Dict.get text_eq
supported_run = refl

chosen : (on_form str_of error_key user choose choice).0 ≡ connect converse
unfolding on_form Dict.get text_eq
chosen = refl

flow-Stores_example :
    Unit {0}
    × Stores
        (IsSaved str_of error_key right_token (connect converse))
        (on_form str_of error_key user (connect converse) right_token).1
    × (saves (on_form str_of error_key user (connect converse) right_token).1 ≡ true)
unfolding on_form Dict.get Dict.set Url.rstrip_slash text_eq ConfigFlow.normalized connection_schema
flow-Stores_example =
    flow-Stores str_of error_key user choose (next (next start choice) wrong_token) right_token
      (refl, (refl, tt)) refl

abbrev langgraph_data : Dict Json
langgraph_data = (codes "backend_type", str (codes "langgraph")) ∷ []

abbrev home : Home
home = record {
  connection = record {
    unreachable_turns = 3;
    issue = true;
    available = false;
    reauths = 0;
    signals = 1;
  };
  stores =
      (codes "llm_middleman.langgraph.e1", str [])
      ∷ (codes "llm_middleman.langgraph.e1.pending_resume", str [])
      ∷ (codes "llm_middleman.dify.e2", str [])
      ∷ [];
}

abbrev slugify : Text → Text
slugify t = t

remove_entry_run :
    (remove_entry str_of slugify (codes "e1") langgraph_data home).0.stores
    ≡ (codes "llm_middleman.dify.e2", str []) ∷ []
unfolding remove_entry Dict.get Dict.pop text_eq
remove_entry_run = refl

remove_entry-clears_example :
    ((remove_entry str_of slugify (codes "e1") langgraph_data home).1 ≡ ok tt)
    × ((remove_entry str_of slugify (codes "e1") langgraph_data home).0.connection.issue ≡ false)
    × (Dict.get
          (codes "llm_middleman.langgraph.e1.pending_resume")
          (remove_entry str_of slugify (codes "e1") langgraph_data home).0.stores
        ≡ none)
    × (Dict.get
          (codes "llm_middleman.dify.e2")
          (remove_entry str_of slugify (codes "e1") langgraph_data home).0.stores
        ≡ some (str []))
unfolding Dict.get Dict.set text_eq slug_keys backend_of opened_stores setup_entry text_or
remove_entry-clears_example =
    remove_entry-clears str_of slugify langgraph dify (codes "e1") (codes "e2") langgraph_data home
      (codes "llm_middleman.langgraph.e1.pending_resume") (codes "llm_middleman.dify.e2") refl refl
      refl refl refl refl
