-- ===== src/Tests/Forms.antt =====
-- The forms and the dump of a connection at concrete inputs.
use llm_middleman.Base.{
  String, ◌≡◌, refl, inl, inr, Bool, true, false, none, List, [], ◌∷◌, if◌then◌else◌, arith,
  Bool-cases, any, Text, codes, text_eq, text_eq_iff,
}
use llm_middleman.Base.Dict
use llm_middleman.Base.Dict.{Dict}
use llm_middleman.Json.{get, Json, null, bool, int, float, str, arr, obj, to_items}
use llm_middleman.Fallible.{Result, ok, err}
use llm_middleman.Registry.{ollama, n8n}
use llm_middleman.Forms.{Schema, Prefill, suggested}
use llm_middleman.Forms.Agent.{agent_schema}
use llm_middleman.Diagnostics.{Entry, Subentry, entry_diagnostics}
use llm_middleman.Diagnostics.Alike.{is_left, AlikeUnder, Alike, AlikeEntries}
use llm_middleman.Diagnostics.Hides.{
  is_hidden, Redacts, Hides, hides, dumped, subentry_options, entry_diagnostics-hides,
}
use llm_middleman.Forms.Connection.{connection_schema}
use llm_middleman.Forms.Agent.{task_schema}

abbrev hide : Json → Json
hide null = null
hide (str []) = str []
hide v = str (codes "**REDACTED**")

hide-is_hidden : (v : Json) → is_hidden (hide v) ≡ true
unfolding text_eq
hide-is_hidden null = refl
hide-is_hidden (bool b) = refl
hide-is_hidden (int n) = refl
hide-is_hidden (float m e) = refl
hide-is_hidden (str []) = refl
hide-is_hidden (str (c ∷ t)) = refl
hide-is_hidden (arr xs) = refl
hide-is_hidden (obj fs) = refl

abbrev redact : List Text → Dict Json → Dict Json
redact keys [] = []
redact keys ((k, v) ∷ d) = (k, if any (text_eq k) keys then hide v else v) ∷ redact keys d

redact-is_hidden :
    (keys : List Text) (k : Text) (d : Dict Json)
    → any (text_eq k) keys ≡ true
    → is_hidden (get k (redact keys d)) ≡ true
unfolding Dict.get
redact-is_hidden keys k [] h = refl
redact-is_hidden keys k ((j, v) ∷ d) h = elim (Bool-cases (text_eq k j)) [
  | inl e ↦ rw e (rw (← (text_eq_iff k j).0 e) (rw h (hide-is_hidden v)))
  | inr e ↦ rw e (redact-is_hidden keys k d h)
]

hide_shown : (v : Json) → is_left v ≡ false → hide v ≡ str (codes "**REDACTED**")
hide_shown null h = ground (arith, h)
hide_shown (bool b) h = refl
hide_shown (int n) h = refl
hide_shown (float m e) h = refl
hide_shown (str []) h = ground (arith, h)
hide_shown (str (c ∷ t)) h = refl
hide_shown (arr xs) h = refl
hide_shown (obj fs) h = refl

hide_if-AlikeUnder :
    (b : Bool) (v w : Json)
    → AlikeUnder b v w
    → (if b then hide v else v) ≡ (if b then hide w else w)
hide_if-AlikeUnder false v w a = a
hide_if-AlikeUnder true v w (inl e) = rw e refl
hide_if-AlikeUnder true v w (inr (h, k)) = rw (hide_shown v h, hide_shown w k) refl

redact-Alike :
    (keys : List Text) (d d' : Dict Json) → Alike keys d d' → redact keys d ≡ redact keys d'
redact-Alike keys [] [] a = refl
redact-Alike keys [] (p ∷ d') a = elim a [ ]
redact-Alike keys (p ∷ d) [] a = elim a [ ]
redact-Alike keys ((k, v) ∷ d) ((j, w) ∷ d') a =
    rw (← a.0) (
      rw (hide_if-AlikeUnder (any (text_eq k) keys) v w a.1) (rw (redact-Alike keys d d' a.2) refl))

redact-Redacts : Redacts redact
redact-Redacts = record { hidden = redact-is_hidden; same = redact-Alike }

abbrev agent : Subentry
agent = record {
  subentry_id = codes "s1";
  title = codes "Agent";
  subentry_type = codes "conversation";
  options = (codes "prompt", str (codes "Be kind")) ∷ (codes "think", bool true) ∷ [];
}

abbrev entry : Entry
entry = record {
  title = codes "n8n";
  entry_id = codes "e1";
  version = codes "2.1";
  state = codes "loaded";
  entry_data = (codes "webhook_url", str (codes "http://h/webhook/1")) ∷ [];
  options = [];
  subentries = agent ∷ [];
}

-- The same connection with another webhook and another prompt.
abbrev other_entry : Entry
other_entry = record entry {
  entry_data = (codes "webhook_url", str (codes "http://other/webhook/2")) ∷ [];
  subentries =
      record agent {
        options = (codes "prompt", str (codes "Be brief")) ∷ (codes "think", bool true) ∷ [];
      }
      ∷ [];
}

other_entry-AlikeEntries : AlikeEntries entry other_entry
unfolding text_eq
other_entry-AlikeEntries = (
  refl,
  refl,
  refl,
  refl,
  (refl, inr (refl, refl), tt),
  tt,
  (refl, refl, refl, (refl, inr (refl, refl), (refl, refl, tt)), tt),
)

entry_diagnostics-hides_example :
    (entry_diagnostics redact entry [] none ≡ entry_diagnostics redact other_entry [] none)
    × (hides (connection_schema n8n) (dumped "data" (entry_diagnostics redact entry [] none))
        ≡ true)
    × Hides
        (agent_schema (codes "P") n8n false (ok none) [] agent.options)
        (subentry_options (codes "s1") (entry_diagnostics redact entry [] none))
    × Hides
        (task_schema n8n false (ok none) agent.options)
        (subentry_options (codes "s1") (entry_diagnostics redact entry [] none))
entry_diagnostics-hides_example =
    entry_diagnostics-hides redact redact-Redacts n8n entry other_entry [] none (codes "P") false
      (ok none) [] agent.options (codes "s1") other_entry-AlikeEntries

abbrev prefill_of : Text → Schema → List Prefill
prefill_of k [] = []
prefill_of k (f ∷ s) = if text_eq k f.key then f.prefill ∷ prefill_of k s else prefill_of k s

-- Only the API that still exists is suggested, and a stored Boolean as a level.
abbrev stored : Dict Json
stored =
    (codes "llm_hass_api", arr (to_items (str (codes "assist") ∷ str (codes "gone") ∷ [])))
    ∷ (codes "think", bool true)
    ∷ []

abbrev shown : String → Result Schema → List Prefill
shown k (err e) = []
shown k (ok s) = prefill_of (codes k) s

agent_schema_run :
    shown "llm_hass_api"
      (agent_schema (codes "P") ollama false (ok none) (codes "assist" ∷ []) stored)
    ≡ suggested (arr (to_items (str (codes "assist") ∷ []))) ∷ []
unfolding agent_schema text_eq Dict.get llm_middleman.OpenAi.Calls.iterate
    llm_middleman.Fallible.member_of
agent_schema_run = refl

agent_schema_think :
    shown "think" (agent_schema (codes "P") ollama false (ok none) [] stored)
    ≡ suggested (str (codes "on")) ∷ []
unfolding agent_schema text_eq Dict.get llm_middleman.OpenAi.Calls.iterate
    llm_middleman.Fallible.member_of
agent_schema_think = refl
