-- ===== src/Setup.antt =====
-- __init__.py: what the probe of a connection means for its setup (`async_setup_entry`), and the
-- migration of an entry of version 1 (`async_migrate_entry`). Home Assistant's registries of entities
-- and of devices are a parameter, and so is the id that it gives to a new subentry.
pub mod Migrate
pub mod Stores
pub mod Removed
use llm_middleman.Base.{
  ℕ, Bool, true, false, ◌||◌, Option, none, some, List, [], ◌∷◌, ◌++◌, ltb, ◌==◌, if◌then◌else◌,
  Text, codes,
}
use llm_middleman.Base.Int.{pos}
use llm_middleman.Base.Dict
use llm_middleman.Base.Dict.{Dict}
use llm_middleman.Json.{Json, int, str, get, truthy}
use llm_middleman.Error.{
  Class, Exc, raised, class_of, key_error, is_auth_error, is_backend_connection_error,
  timeout_error, server_timeout_error,
}
use llm_middleman.Fallible.{Result, ok, err}

-- How a setup ends: the data of the adapter, a re-authentication, a retry, or another exception.
pub data SetupResult : Type 0 where
  loaded : Dict Json → SetupResult
  auth_failed : Exc → SetupResult
  not_ready : Exc → SetupResult
  raises : Exc → SetupResult

-- `isinstance(err, TimeoutError)`
abbrev pub is_timeout : Class → Bool
is_timeout timeout_error = true
is_timeout server_timeout_error = true
is_timeout _ = false

abbrev setup_error : Exc → SetupResult
setup_error e =
    if is_auth_error (class_of e)
    then auth_failed e
    else if is_backend_connection_error (class_of e) || is_timeout (class_of e)
    then not_ready e
    else raises e

-- `async_setup_entry`, on the result of the probe.
unfoldable pub setup_entry : Text → Dict Json → Result (Unit {0}) → SetupResult
setup_entry entry_id entry_data (ok _) =
    loaded (Dict.set (codes "entry_id") (str entry_id) entry_data)
setup_entry entry_id entry_data (err e) = setup_error e

-- `ConfigSubentry` of a conversation agent.
pub record Subentry : Type 0 where
  pub subentry_id : Text
  pub title : Json
  pub subentry_data : Dict Json

pub record Entry : Type 0 where
  pub entry_id : Text
  pub version : ℕ
  pub entry_data : Dict Json
  pub subentries : List Subentry

-- Home Assistant's registries: the entity and the device of a unique id, if there is one, and the
-- updates; `has_device_lookup` is `hasattr(dev_reg, "async_get_device_by_identifier")`.
pub record Registries (R : Type 0) : Type 0 where
  pub get_entity_id : R → Text → Option Text
  pub update_entity : Text → Text → Text → R → R
  pub has_device_lookup : Bool
  pub get_device_by_identifier : R → Text → Option Text
  pub move_device : Text → Text → R → R
  pub get_device : R → Text → Option Text
  pub add_to_subentry : Text → Text → Text → R → R
  pub remove_from_entry : Text → Text → R → R

-- What a migration returns or raises, and what it leaves.
pub record Migrated (R : Type 0) : Type 0 where
  pub result : Result Bool
  pub entry : Entry
  pub registries : R

abbrev or_default : Json → Json
or_default name = if truthy name then name else str (codes "LLM Middleman")

-- The agent that a flat entry becomes.
unfoldable pub subentry_of : Text → Dict Json → Subentry
subentry_of subentry_id old = record {
  subentry_id = subentry_id;
  title = or_default (get (codes "name") old);
  subentry_data =
      (codes "prompt", get (codes "system_prompt") old) ∷ (codes "timeout", int (pos 60)) ∷ [];
}

abbrev new_data : Json → Dict Json → Dict Json
new_data url old =
    (codes "backend_type", str (codes "converse"))
    ∷ (codes "base_url", url)
    ∷ (codes "token", get (codes "token") old)
    ∷ []

-- `old[CONF_URL]`, and the update of the entry.
abbrev pub finish : {R : Type 0} → Entry → R → Option Json → Migrated R
finish e r none = record { result = err (raised key_error); entry = e; registries = r }
finish e r (some url) = record {
  result = ok true;
  entry = record e { version = 2; entry_data = new_data url e.entry_data };
  registries = r;
}

module _ {R : Type 0} (ha : Registries R) where
  abbrev pub re_key : Text → Option Text → R → R
  re_key subentry_id none r = r
  re_key subentry_id (some entity_id) r = ha.update_entity entity_id subentry_id subentry_id r

  abbrev pub move : Text → Option Text → R → R
  move subentry_id none r = r
  move subentry_id (some device) r = ha.move_device device subentry_id r

  abbrev pub attach : Text → Text → Option Text → R → R
  attach entry_id subentry_id none r = r
  attach entry_id subentry_id (some device) r =
      ha.remove_from_entry device entry_id (ha.add_to_subentry device subentry_id entry_id r)

  -- The device goes to the subentry, in either version of the registry.
  unfoldable pub move_devices : Text → Text → R → R
  move_devices entry_id subentry_id r =
      if ha.has_device_lookup
      then move subentry_id (ha.get_device_by_identifier r entry_id) r
      else attach entry_id subentry_id (ha.get_device r entry_id) r

  unfoldable pub re_key_entity : Text → Text → R → R
  re_key_entity entry_id subentry_id r = re_key subentry_id (ha.get_entity_id r entry_id) r

  abbrev pub migrate_flat : Text → Entry → R → Migrated R
  migrate_flat subentry_id e r =
      finish (record e { subentries = e.subentries ++ subentry_of subentry_id e.entry_data ∷ [] })
        (move_devices e.entry_id subentry_id (re_key_entity e.entry_id subentry_id r))
        (Dict.get (codes "url") e.entry_data)

  -- `async_migrate_entry`; `subentry_id` is the id of the subentry, should one be made.
  unfoldable pub migrate_entry : Text → Entry → R → Migrated R
  unfolding subentry_of move_devices re_key_entity
  migrate_entry subentry_id e r =
      if ltb 2 e.version
      then record { result = ok false; entry = e; registries = r }
      else if e.version == 1
      then migrate_flat subentry_id e r
      else record { result = ok true; entry = e; registries = r }
