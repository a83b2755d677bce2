-- ===== src/Diagnostics/Hides.antt =====
-- No credential, URL, prompt or app input of a connection stands in its dump.
use llm_middleman.Base.{
  String, ◌≡◌, refl, inl, inr, Bool, true, false, not, ◌||◌, Option, List, [], ◌∷◌, map, arith,
  Bool-cases, is_empty, any, all, all_mono, Text, codes, text_eq, ◌is◌,
}
use llm_middleman.Base.Dict
use llm_middleman.Base.Dict.{Dict}
use llm_middleman.Json.{Json, null, str, get, fields, to_fields, object_or_empty}
use llm_middleman.Fallible.{Result, ok, err}
use llm_middleman.Registry.{Backend}
use llm_middleman.Forms.{Schema, Field}
use llm_middleman.Forms.Connection.{connection_schema}
use llm_middleman.Forms.Agent.{agent_schema, task_schema}
use llm_middleman.Diagnostics.{to_redact, Subentry, Entry, subentry_dump, entry_diagnostics}
use llm_middleman.Diagnostics.Alike.{Alike, AlikeEntries, entry_diagnostics-AlikeEntries}
use llm_middleman.Diagnostics.Secrets.{
  is_secret, is_covered, covered, IsCovered, connection_schema-covered, agent_schema-IsCovered,
  task_schema-IsCovered,
}

abbrev pub is_hidden : Json → Bool
is_hidden null = true
is_hidden (str t) = is_empty t || t is "**REDACTED**"
is_hidden v = false

-- What `async_redact_data` documents: under a key to redact stands no value but the marker, `None` or
-- an empty text, and which value the marker stands for is not seen.
pub record Redacts (redact : List Text → Dict Json → Dict Json) : Type 0 where
  pub hidden :
      (keys : List Text) (k : Text) (d : Dict Json)
      → any (text_eq k) keys ≡ true
      → is_hidden (get k (redact keys d)) ≡ true
  pub same :
      (keys : List Text) (d d' : Dict Json) → Alike keys d d' → redact keys d ≡ redact keys d'

-- Of every secret field of a form, nothing stands in the values.
abbrev pub hides : Schema → Dict Json → Bool
hides s d = all (λ (f : Field). not (is_secret f.selector) || is_hidden (get f.key d)) s

-- The object that stands under a key.
abbrev pub dumped : String → Dict Json → Dict Json
dumped k dump = object_or_empty (get (codes k) dump)

fields-to_fields : (d : Dict Json) → fields (to_fields d) ≡ d
fields-to_fields [] = refl
fields-to_fields ((k, v) ∷ d) = rw (fields-to_fields d) refl

or_mono : (a b c : Bool) → (b ≡ true → c ≡ true) → (a || b) ≡ true → (a || c) ≡ true
or_mono a b c h k = ground (arith, h)

-- Of the secret fields of a form that is built, nothing stands in the values.
abbrev pub Hides : Result Schema → Dict Json → Type 0
Hides (err e) d = Unit {0}
Hides (ok s) d = hides s d ≡ true

-- The values that stand in an entry of the dump's subentries.
abbrev pub subentry_options : Text → Dict Json → Dict Json
subentry_options id dump = dumped "data" (object_or_empty (get id (dumped "subentries" dump)))

module _ (redact : List Text → Dict Json → Dict Json) (redacts : Redacts redact) where
  hides-covered :
      (s : Schema) (d : Dict Json) → covered s ≡ true → hides s (redact to_redact d) ≡ true
  hides-covered s d h =
      all_mono is_covered _
        (λ f. or_mono (not (is_secret f.selector)) _ _ (redacts.hidden to_redact f.key d)) s h

  hides-dump :
      (s : Schema) (d : Dict Json)
      → covered s ≡ true
      → hides s (fields (to_fields (redact to_redact d))) ≡ true
  hides-dump s d h = rw (fields-to_fields (redact to_redact d)) (hides-covered s d h)

  hides-nothing : (s : Schema) → hides s [] ≡ true
  unfolding Dict.get
  hides-nothing [] = refl
  hides-nothing (f ∷ s) = ground (arith, hides-nothing s)

  hides-subentries :
      (s : Schema) (id : Text) (subentries : List Subentry)
      → covered s ≡ true
      → hides s (dumped "data" (object_or_empty (get id (map (subentry_dump redact) subentries))))
        ≡ true
  unfolding Dict.get text_eq
  hides-subentries s id [] h = hides-nothing s
  hides-subentries s id (sub ∷ subentries) h = elim (Bool-cases (text_eq id sub.subentry_id)) [
    | inl e ↦ rw e (hides-dump s sub.options h)
    | inr e ↦ rw e (hides-subentries s id subentries h)
  ]

  Hides-form :
      (form : Result Schema) (id : Text) (subentries : List Subentry)
      → IsCovered form
      → Hides form
          (dumped "data" (object_or_empty (get id (map (subentry_dump redact) subentries))))
  Hides-form (err e) id subentries h = tt
  Hides-form (ok s) id subentries h = hides-subentries s id subentries h

  -- Where Home Assistant redacts as it documents, two entries that differ only in values of redacted
  -- keys (in the data, the options and the subentries) have the same dump, so that no part of it shows
  -- any of these values; and the dump of an entry has no value of a field that
  -- asks for a secret (a password, a URL, a template or an object of free form): in the data, of
  -- the connection form of any preset; in each subentry, of the form of an agent or an AI task.
  pub entry_diagnostics-hides :
      (b : Backend) (e e' : Entry) (entities : Dict Json) (langgraph : Option (Dict Json))
      (default_prompt : Text) (is_new : Bool) (models : Result (Option (List Text)))
      (ids : List Text) (options : Dict Json) (id : Text)
      → AlikeEntries e e'
      → (entry_diagnostics redact e entities langgraph
          ≡ entry_diagnostics redact e' entities langgraph)
        × (hides
              (connection_schema b)
              (dumped "data" (entry_diagnostics redact e entities langgraph))
            ≡ true)
        × Hides
            (agent_schema default_prompt b is_new models ids options)
            (subentry_options id (entry_diagnostics redact e entities langgraph))
        × Hides
            (task_schema b is_new models options)
            (subentry_options id (entry_diagnostics redact e entities langgraph))
  unfolding entry_diagnostics Dict.get text_eq
  entry_diagnostics-hides b e e' entities langgraph default_prompt is_new models ids options id a =
      (
        entry_diagnostics-AlikeEntries redact redacts.same e e' entities langgraph a,
        hides-dump (connection_schema b) e.entry_data (connection_schema-covered b),
        rw (fields-to_fields (map (subentry_dump redact) e.subentries)) (
            Hides-form _ id e.subentries
              (agent_schema-IsCovered default_prompt b is_new options models ids)),
        rw (fields-to_fields (map (subentry_dump redact) e.subentries)) (
            Hides-form _ id e.subentries
              (task_schema-IsCovered default_prompt b is_new options models)),
      )
