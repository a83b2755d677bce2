-- ===== src/Tests/Entries.antt =====
-- The config flow and the migration at concrete inputs.
use llm_middleman.Base.{
  ◌≡◌, refl, true, false, none, some, [], ◌∷◌, ◌++◌, Text, codes, text_eq, text_eq_refl,
}
use llm_middleman.Base.Dict
use llm_middleman.Base.Dict.{Dict, get-set}
use llm_middleman.Json.{Json, str}
use llm_middleman.Error.{Exc}
use llm_middleman.Fallible.{Result, ok}
use llm_middleman.Url
use llm_middleman.Url.Laws.{slashes}
use llm_middleman.Registry.{openai_compat, dify, converse}
use llm_middleman.ConfigFlow.{normalize, reauth_confirm, reauth_fields, v1}
use llm_middleman.ConfigFlow.Connection.{
  normalize-root, Stores, saves, IsRenewed, reauth_confirm-Stores,
}
use llm_middleman.Setup.{Entry, Registries, migrate_entry}
use llm_middleman.Setup.Migrate.{Documented, IsMigrated, migrate_entry-keeps}

abbrev root : Text
root = codes "http://h"

normalize-root_example :
    (normalize openai_compat (root ++ slashes 2) ≡ root)
    × (normalize openai_compat ((root ++ v1) ++ slashes 2) ≡ root)
    × (normalize dify (root ++ slashes 2) ≡ root ++ v1)
    × (normalize dify ((root ++ v1) ++ slashes 2) ≡ root ++ v1)
unfolding Url.rstrip_slash Url.ends_with_text text_eq
normalize-root_example = normalize-root root 2 (refl, refl)

-- A doubled slash before the suffix leaves one behind.
normalize_run : normalize openai_compat (codes "http://h//v1") ≡ codes "http://h/"
unfolding normalize Url.removesuffix Url.rstrip_slash text_eq
normalize_run = refl

abbrev error_key : Exc → Text
error_key e = codes "not_chat_app"

abbrev validate : Dict Json → Result (Unit {0})
validate values = ok tt

abbrev entry_data : Dict Json
entry_data = (codes "base_url", str root) ∷ (codes "token", str (codes "old")) ∷ []

reauth_confirm-Stores_example :
    (saves (
        reauth_confirm
          (λ v. [])
          error_key
          validate
          (λ d. false)
          converse
          entry_data
          true
          (some ((codes "token", str (codes "new")) ∷ [])))
      ≡ true)
    × Stores
        (IsRenewed
          (λ v. [])
          error_key
          validate
          (λ d. false)
          (codes "token" ∷ [])
          entry_data
          ((codes "token", str (codes "new")) ∷ [])
          (codes "base_url"))
        (reauth_confirm
          (λ v. [])
          error_key
          validate
          (λ d. false)
          converse
          entry_data
          true
          (some ((codes "token", str (codes "new")) ∷ [])))
unfolding Dict.get reauth_fields text_eq
reauth_confirm-Stores_example =
    reauth_confirm-Stores (λ v. []) error_key validate (λ d. false) converse entry_data
      ((codes "token", str (codes "new")) ∷ []) true (codes "base_url") (refl, tt)

-- Registries that know only the entities, by unique id.
abbrev registries : Registries (Dict Text)
registries = record {
  get_entity_id = λ r uid. Dict.get uid r;
  update_entity = λ entity_id subentry_id uid r. Dict.set uid entity_id r;
  has_device_lookup = true;
  get_device_by_identifier = λ r uid. none;
  move_device = λ device subentry_id r. r;
  get_device = λ r uid. none;
  add_to_subentry = λ device subentry_id entry_id r. r;
  remove_from_entry = λ device entry_id r. r;
}

registries-Documented : Documented registries
registries-Documented = record {
  re_keyed = λ r unique_id entity_id subentry_id found.
      rw (get-set subentry_id subentry_id entity_id r, text_eq_refl subentry_id) refl;
  moved = λ r device subentry_id uid. refl;
  added = λ r device subentry_id entry_id uid. refl;
  removed = λ r device entry_id uid. refl;
}

abbrev old_entry : Entry
old_entry = record {
  entry_id = codes "e1";
  version = 1;
  entry_data = (codes "url", str root) ∷ (codes "token", str (codes "t")) ∷ [];
  subentries = [];
}

abbrev entities : Dict Text
entities = (codes "e1", codes "conversation.llm") ∷ []

migrate_entry-keeps_example :
    IsMigrated registries registries-Documented
      (codes "s1")
      (codes "conversation.llm")
      old_entry
      (str root)
      (migrate_entry registries (codes "s2"))
      (migrate_entry registries (codes "s1") old_entry entities)
unfolding Dict.get text_eq
migrate_entry-keeps_example =
    migrate_entry-keeps registries registries-Documented (codes "s1") (codes "s2")
      (codes "conversation.llm") old_entry entities (str root) refl refl refl
