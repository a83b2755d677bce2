-- ===== src/Setup/Migrate.antt =====
-- What a migration keeps.
use llm_middleman.Base.{
  ◌≡◌, refl, ◌∙◌, inl, inr, true, Option, none, some, [], ◌∷◌, ◌++◌, if◌then◌else◌, Bool-cases,
  Text, codes, text_eq,
}
use llm_middleman.Base.Dict
use llm_middleman.Base.Dict.{Dict}
use llm_middleman.Json.{Json, str, get, truthy}
use llm_middleman.Fallible.{ok}
use llm_middleman.Setup.{
  Subentry, Entry, Registries, Migrated, subentry_of, move_devices, re_key_entity, migrate_entry,
  move, attach, finish,
}

-- What Home Assistant's registries document: an entity whose unique id is changed is found under
-- the new one, and a change of a device changes no entity.
pub record Documented {R : Type 0} (ha : Registries R) : Type 0 where
  pub re_keyed :
      (r : R) (unique_id entity_id subentry_id : Text)
      → ha.get_entity_id r unique_id ≡ some entity_id
      → ha.get_entity_id (ha.update_entity entity_id subentry_id subentry_id r) subentry_id
        ≡ some entity_id
  pub moved :
      (r : R) (device subentry_id uid : Text)
      → ha.get_entity_id (ha.move_device device subentry_id r) uid ≡ ha.get_entity_id r uid
  pub added :
      (r : R) (device subentry_id entry_id uid : Text)
      → ha.get_entity_id (ha.add_to_subentry device subentry_id entry_id r) uid
        ≡ ha.get_entity_id r uid
  pub removed :
      (r : R) (device entry_id uid : Text)
      → ha.get_entity_id (ha.remove_from_entry device entry_id r) uid ≡ ha.get_entity_id r uid

module _ {R : Type 0} (ha : Registries R) (law : Documented ha) where
  move-get_entity_id :
      (subentry_id : Text) (o : Option Text) (r : R) (uid : Text)
      → ha.get_entity_id (move ha subentry_id o r) uid ≡ ha.get_entity_id r uid
  move-get_entity_id subentry_id none r uid = refl
  move-get_entity_id subentry_id (some device) r uid = law.moved r device subentry_id uid

  attach-get_entity_id :
      (entry_id subentry_id : Text) (o : Option Text) (r : R) (uid : Text)
      → ha.get_entity_id (attach ha entry_id subentry_id o r) uid ≡ ha.get_entity_id r uid
  attach-get_entity_id entry_id subentry_id none r uid = refl
  attach-get_entity_id entry_id subentry_id (some device) r uid =
      law.removed (ha.add_to_subentry device subentry_id entry_id r) device entry_id uid
      ∙ law.added r device subentry_id entry_id uid

  move_devices-get_entity_id :
      (entry_id subentry_id : Text) (r : R) (uid : Text)
      → ha.get_entity_id (move_devices ha entry_id subentry_id r) uid ≡ ha.get_entity_id r uid
  unfolding move_devices
  move_devices-get_entity_id entry_id subentry_id r uid = elim (Bool-cases ha.has_device_lookup) [
    | inl b ↦ rw b (move-get_entity_id subentry_id (ha.get_device_by_identifier r entry_id) r uid)
    | inr b ↦ rw b (attach-get_entity_id entry_id subentry_id (ha.get_device r entry_id) r uid)
  ]

  re_key_entity-get_entity_id :
      (entry_id subentry_id entity_id : Text) (r : R)
      → ha.get_entity_id r entry_id ≡ some entity_id
      → ha.get_entity_id (re_key_entity ha entry_id subentry_id r) subentry_id ≡ some entity_id
  unfolding re_key_entity
  re_key_entity-get_entity_id entry_id subentry_id entity_id r h =
      rw h (law.re_keyed r entry_id entity_id subentry_id h)

  -- The name of a flat entry, or the default one.
  abbrev pub name_of : Json → Json
  name_of v = if truthy v then v else str (codes "LLM Middleman")

  -- The last agent of an entry is the one of a flat entry: its id, its name and its prompt.
  abbrev pub IsAgentOf : Text → Dict Json → Subentry → Type 0
  IsAgentOf subentry_id old agent =
      (agent.subentry_id ≡ subentry_id)
      × (agent.title ≡ name_of (get (codes "name") old))
      × (get (codes "prompt") agent.subentry_data ≡ get (codes "system_prompt") old)

  -- What the migration of the entry `e` is to leave, where `again` is what a second one does.
  abbrev pub IsMigrated :
      Text → Text → Entry → Json → (Entry → R → Migrated R) → Migrated R → Type 0
  IsMigrated subentry_id entity_id e url again done =
      (done.result ≡ ok true)
      × (done.entry.version ≡ 2)
      × (get (codes "base_url") done.entry.entry_data ≡ url)
      × (get (codes "token") done.entry.entry_data ≡ get (codes "token") e.entry_data)
      × ((agent : Subentry) × (done.entry.subentries ≡ e.subentries ++ agent ∷ [])
          × IsAgentOf subentry_id e.entry_data agent)
      × (ha.get_entity_id done.registries subentry_id ≡ some entity_id)
      × (again done.entry done.registries ≡ done)

  migrate_entry-flat :
      (subentry_id : Text) (e : Entry) (r : R) (url : Json)
      → e.version ≡ 1
      → Dict.get (codes "url") e.entry_data ≡ some url
      → migrate_entry ha subentry_id e r
        ≡ finish
            (record e { subentries = e.subentries ++ subentry_of subentry_id e.entry_data ∷ [] })
            (move_devices ha e.entry_id subentry_id (re_key_entity ha e.entry_id subentry_id r))
            (some url)
  unfolding migrate_entry
  migrate_entry-flat subentry_id e r url v u = rw (v, u) refl

  migrate_entry-done :
      (subentry_id : Text) (e : Entry) (r : R)
      → e.version ≡ 2
      → migrate_entry ha subentry_id e r ≡ record { result = ok true; entry = e; registries = r }
  unfolding migrate_entry
  migrate_entry-done subentry_id e r v = rw v refl

  -- A flat entry with a URL becomes a converse connection of version 2 with that URL and the token,
  -- and has one more agent, with its name and its prompt; the entity that had the entry's id is
  -- found under the agent's, if the registries do what they document; and a second migration
  -- changes nothing.
  pub migrate_entry-keeps :
      (subentry_id other entity_id : Text) (e : Entry) (r : R) (url : Json)
      → e.version ≡ 1
      → Dict.get (codes "url") e.entry_data ≡ some url
      → ha.get_entity_id r e.entry_id ≡ some entity_id
      → IsMigrated subentry_id entity_id e url
          (migrate_entry ha other)
          (migrate_entry ha subentry_id e r)
  unfolding Dict.get text_eq subentry_of
  migrate_entry-keeps subentry_id other entity_id e r url v u i =
      let r' = re_key_entity ha e.entry_id subentry_id r in
      rw (migrate_entry-flat subentry_id e r url v u) (
        refl,
        refl,
        refl,
        refl,
        (subentry_of subentry_id e.entry_data, refl, (refl, refl, refl)),
        move_devices-get_entity_id e.entry_id subentry_id r' subentry_id
            ∙ re_key_entity-get_entity_id e.entry_id subentry_id entity_id r i,
        migrate_entry-done other _ _ refl,
      )
