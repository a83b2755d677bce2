-- ===== src/Diagnostics/Alike.antt =====
-- Entries that differ in the values of redacted keys only have the same dump.
use llm_middleman.Base.{
  ◌≡◌, refl, ◌⊎◌, inl, inr, Bool, true, false, Option, List, [], ◌∷◌, map, arith, Bool-cases,
  is_empty, any, Text, codes, text_eq, text_eq_iff,
}
use llm_middleman.Base.Dict
use llm_middleman.Base.Dict.{Dict}
use llm_middleman.Json.{Json, null, str, get}
use llm_middleman.Diagnostics.{to_redact, Subentry, Entry, subentry_dump, entry_diagnostics}

-- `None` or an empty text, which stands in a dump as it is.
abbrev pub is_left : Json → Bool
is_left null = true
is_left (str t) = is_empty t
is_left v = false

abbrev pub AlikeUnder : Bool → Json → Json → Type 0
AlikeUnder false v w = v ≡ w
AlikeUnder true v w = (v ≡ w) ⊎ ((is_left v ≡ false) × (is_left w ≡ false))

-- The same keys, and the same values but under the keys to redact.
abbrev pub Alike : List Text → Dict Json → Dict Json → Type 0
Alike keys [] [] = Unit {0}
Alike keys [] (p ∷ d') = ⊥
Alike keys (p ∷ d) [] = ⊥
Alike keys (p ∷ d) (q ∷ d') =
    (p.0 ≡ q.0) × AlikeUnder (any (text_eq p.0) keys) p.1 q.1 × Alike keys d d'

abbrev pub AlikeSubentries : List Subentry → List Subentry → Type 0
AlikeSubentries [] [] = Unit {0}
AlikeSubentries [] (s ∷ ss) = ⊥
AlikeSubentries (s ∷ ss) [] = ⊥
AlikeSubentries (s ∷ ss) (t ∷ ts) =
    (s.subentry_id ≡ t.subentry_id)
    × (s.title ≡ t.title)
    × (s.subentry_type ≡ t.subentry_type)
    × Alike to_redact s.options t.options
    × AlikeSubentries ss ts

-- The entries differ in the values of redacted keys only.
abbrev pub AlikeEntries : Entry → Entry → Type 0
AlikeEntries e e' =
    (e.title ≡ e'.title)
    × (e.entry_id ≡ e'.entry_id)
    × (e.version ≡ e'.version)
    × (e.state ≡ e'.state)
    × Alike to_redact e.entry_data e'.entry_data
    × Alike to_redact e.options e'.options
    × AlikeSubentries e.subentries e'.subentries

AlikeUnder-shown : (b : Bool) (v w : Json) → b ≡ false → AlikeUnder b v w → v ≡ w
AlikeUnder-shown false v w h a = a
AlikeUnder-shown true v w h a = ground (arith, h)

get-Alike :
    (keys : List Text) (k : Text) (d d' : Dict Json)
    → any (text_eq k) keys ≡ false
    → Alike keys d d'
    → get k d ≡ get k d'
unfolding Dict.get
get-Alike keys k [] [] h a = refl
get-Alike keys k [] (p ∷ d') h a = elim a [ ]
get-Alike keys k (p ∷ d) [] h a = elim a [ ]
get-Alike keys k ((j, v) ∷ d) ((i, w) ∷ d') h a = elim (Bool-cases (text_eq k j)) [
  | inl e ↦ rw e (
      rw (← a.0)
        (rw e (AlikeUnder-shown (any (text_eq j) keys) v w (rw (← (text_eq_iff k j).0 e) h) a.1)))
  | inr e ↦ rw e (rw (← a.0) (rw e (get-Alike keys k d d' h a.2)))
]

module _ (redact : List Text → Dict Json → Dict Json)
    (same : (keys : List Text) (d d' : Dict Json)
      → Alike keys d d'
      → redact keys d ≡ redact keys d') where
  subentry_dump-AlikeSubentries :
      (ss ts : List Subentry)
      → AlikeSubentries ss ts
      → map (subentry_dump redact) ss ≡ map (subentry_dump redact) ts
  subentry_dump-AlikeSubentries [] [] a = refl
  subentry_dump-AlikeSubentries [] (t ∷ ts) a = elim a [ ]
  subentry_dump-AlikeSubentries (s ∷ ss) [] a = elim a [ ]
  subentry_dump-AlikeSubentries (s ∷ ss) (t ∷ ts) (i, n, ty, o, a) = rw i (
      rw n (
        rw ty (
          rw (same to_redact s.options t.options o)
            (rw (subentry_dump-AlikeSubentries ss ts a) refl))))

  pub entry_diagnostics-AlikeEntries :
      (e e' : Entry) (entities : Dict Json) (langgraph : Option (Dict Json))
      → AlikeEntries e e'
      → entry_diagnostics redact e entities langgraph
        ≡ entry_diagnostics redact e' entities langgraph
  unfolding entry_diagnostics text_eq
  entry_diagnostics-AlikeEntries e e' entities langgraph (t, i, v, s, d, o, subs) = rw t (
      rw i (
        rw v (
          rw s (
            rw (get-Alike to_redact (codes "backend_type") e.entry_data e'.entry_data refl d) (
              rw (same to_redact e.entry_data e'.entry_data d) (
                rw (same to_redact e.options e'.options o)
                  (rw (subentry_dump-AlikeSubentries e.subentries e'.subentries subs) refl)))))))
