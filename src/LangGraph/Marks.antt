-- ===== src/LangGraph/Marks.antt =====
-- backends/langgraph.py: what the adapter keeps between turns. The threads that wait for the answer
-- to an interrupt (`_pending_map`, `_mark_pending_resume`, `_take_pending_resume`,
-- `_save_pending`), and the thread map of an earlier version (`_thread_id`). Home Assistant's store
-- is what it last saved; `uuid.uuid5` and `response.json()` are parameters.
pub mod Refine
pub mod Threads
use llm_middleman.Base.{
  Bool, true, false, Option, none, some, List, [], ◌∷◌, ◌++◌, leb, ◌==◌, if◌then◌else◌, or_else,
  Text, codes,
}
use llm_middleman.Base.Dict
use llm_middleman.Base.Dict.{Dict}
use llm_middleman.Json.{Json, get, truthy, object_or_empty}
use llm_middleman.Error.{raised, backend_stream_error}
use llm_middleman.Fallible.{Result, ok, err, ◌>>=◌}
use llm_middleman.Backend.{Response, Reply, no_response, answer}

-- `_pending`, which is `None` until it is loaded, and the store of the marks that outlive a restart.
pub record Pending : Type 0 where
  pub marks : Option (Dict Bool)
  pub stored : List Text

-- `dict.fromkeys(loaded, True)`, added to a map.
unfoldable pub from_keys : List Text → Dict Bool → Dict Bool
from_keys [] d = d
from_keys (k ∷ ks) d = from_keys ks (Dict.set k true d)

abbrev pub pending_map : Pending → Dict Bool
pending_map p = or_else p.marks (from_keys p.stored [])

-- The thread ids that `_save_pending` writes.
unfoldable pub persisted_ids : Dict Bool → List Text
persisted_ids [] = []
persisted_ids ((k, true) ∷ d) = k ∷ persisted_ids d
persisted_ids ((k, false) ∷ d) = persisted_ids d

abbrev pub save_if : Bool → Dict Bool → Pending → Pending
save_if true d p = record { marks = some d; stored = persisted_ids d }
save_if false d p = record p { marks = some d }

unfoldable pub mark_pending_resume : Text → Bool → Pending → Pending
mark_pending_resume thread_id persist p =
    save_if persist (Dict.set thread_id persist (pending_map p)) p

abbrev pub take_if : Text → Option Bool → Pending → Bool × Pending
take_if thread_id none p = (false, record p { marks = some (pending_map p) })
take_if thread_id (some persist) p = (true, save_if persist (Dict.pop thread_id (pending_map p)) p)

-- The mark is consumed before the server is asked.
unfoldable pub take_mark : Text → Pending → Bool × Pending
take_mark thread_id p = take_if thread_id (Dict.get thread_id (pending_map p)) p

-- `_legacy` and its store.
pub record ThreadMap : Type 0 where
  pub legacy : Option (Dict Text)
  pub stored_map : Dict Text

abbrev pub legacy_map : ThreadMap → Dict Text
legacy_map m = or_else m.legacy m.stored_map

abbrev pub loaded_map : ThreadMap → ThreadMap
loaded_map m = record m { legacy = some (legacy_map m) }

abbrev pub move : Text → Text → Option Text → ThreadMap → ThreadMap
move session_key legacy_key none m = loaded_map m
move session_key legacy_key (some id) m =
    let d = Dict.set session_key id (Dict.pop legacy_key (legacy_map m)) in
    record { legacy = some d; stored_map = d }

-- The move of the entry under the legacy key to the session key.
unfoldable pub adopt_thread : Text → Option Text → ThreadMap → ThreadMap
adopt_thread session_key none m = loaded_map m
adopt_thread session_key (some legacy_key) m =
    if Dict.contains session_key (legacy_map m)
    then loaded_map m
    else move session_key legacy_key (Dict.get legacy_key (legacy_map m)) m

-- The `uuid5` of `"<entry_key>:<session_key>"` in the namespace of the adapter.
unfoldable pub thread_id_of :
    (Text → Text) → Text → Text → Option Text → ThreadMap → Text × ThreadMap
unfolding adopt_thread
thread_id_of uuid5 entry_key session_key legacy_key m =
    let m' = adopt_thread session_key legacy_key m in
    (or_else (Dict.get session_key (legacy_map m')) (uuid5 (entry_key ++ b':' ∷ session_key)), m')

-- The answer to `GET /threads/{id}`.
module _ (response_json : Response → Result Json) where
  unfoldable pub still_interrupted : Reply → Result Bool
  still_interrupted (no_response e) = err e
  still_interrupted (answer r) =
      if r.status == 404
      then ok false
      else if leb 400 r.status
      then err (raised backend_stream_error)
      else (response_json r >>= λ thread.
          ok (truthy (get (codes "interrupts") (object_or_empty thread))))

  abbrev pub confirm : Bool → Reply → Result Bool
  confirm false looked_up = ok false
  confirm true looked_up = still_interrupted looked_up

  unfoldable pub take_pending_resume : Text → Pending → Reply → Result Bool × Pending
  unfolding take_mark still_interrupted
  take_pending_resume thread_id p looked_up =
      let (marked, p') = take_mark thread_id p in (confirm marked looked_up, p')
