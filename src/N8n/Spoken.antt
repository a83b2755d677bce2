-- ===== src/N8n/Spoken.antt =====
-- What an n8n turn says of a streamed reply, line by line.
use llm_middleman.Base.{
  ◌≡◌, refl, sym, ap, ◌∙◌, inl, inr, Bool, false, ◌||◌, Option, List, [], ◌∷◌, ◌++◌, append-nil,
  append_assoc, arith, if◌then◌else◌, Bool-cases, concat, Bytes, Text,
}
use llm_middleman.Json.{Json, str}
use llm_middleman.Fallible.{Result}
use llm_middleman.Stream.{Delta, content, Ending, Flow, go, leave, return, raise, and_then}
use llm_middleman.Backend.{TurnEnd}
use llm_middleman.N8n.{State, say_item, end_of}
use llm_middleman.N8n.Lines.{
  Line, says, ends, fails, skipped, onto_first, segments, separated, joined, outcome, asks,
}

-- The text of the deltas.
unfoldable pub spoken_text : List Delta → Text
spoken_text [] = []
spoken_text (content (str t) ∷ ds) = t ++ spoken_text ds
spoken_text (_ ∷ ds) = spoken_text ds

-- What is said from a state on.
abbrev pub continued : List (List Text) → Text
continued [] = []
continued (ts ∷ rest) = concat ts ++ separated rest

abbrev pub rest_of : State → List (List Text) → Text
rest_of s segs =
    if s.started then (if s.separate then separated segs else continued segs) else joined segs

abbrev pub on_read : State → Line → List Delta × Flow State
on_read s (says t asked) = let (out, s') = say_item s (t, asked) in (out, go s')
on_read s ends = ([], go (record s { separate = s.started }))
on_read s (fails e) = ([], raise e s)
on_read s skipped = ([], go s)

append-glue : (t x y : Text) → t ++ [] ++ (x ++ y) ≡ (t ++ x) ++ y
append-glue t x y = ap (λ (u : Text). u ++ (x ++ y)) (append-nil t) ∙ sym (append_assoc t x y)

onto_first-rest_some :
    (s : State) (t : Text) (asked : Bool) (ts : List Text) (segs : List (List Text))
    → spoken_text (say_item s (t, asked)).0 ++ continued (ts ∷ segs) ≡ rest_of s ((t ∷ ts) ∷ segs)
unfolding say_item spoken_text joined separated
onto_first-rest_some s t asked ts segs = elim (Bool-cases s.started) [
  | inl e ↦ elim (Bool-cases s.separate) [
    | inl k ↦ rw (e, k) (ap (◌∷◌ b'\n') (append-glue t (concat ts) (separated segs)))
    | inr k ↦ rw (e, k) (append-glue t (concat ts) (separated segs))
  ]
  | inr e ↦ rw e (append-glue t (concat ts) (separated segs))
]

onto_first-rest :
    (s : State) (t : Text) (asked : Bool) (segs : List (List Text))
    → spoken_text (say_item s (t, asked)).0 ++ continued segs ≡ rest_of s (onto_first t segs)
unfolding separated
onto_first-rest s t asked [] = onto_first-rest_some s t asked [] []
onto_first-rest s t asked (ts ∷ segs) = onto_first-rest_some s t asked ts segs

spoken_text-append :
    (xs ys : List Delta) → spoken_text (xs ++ ys) ≡ spoken_text xs ++ spoken_text ys
unfolding spoken_text
spoken_text-append [] ys = refl
spoken_text-append (content (str t) ∷ ds) ys =
    rw (spoken_text-append ds ys) (sym (append_assoc t (spoken_text ds) (spoken_text ys)))
spoken_text-append (_ ∷ ds) ys = spoken_text-append ds ys

or_assoc : (a b c : Bool) → ((a || b) || c) ≡ (a || (b || c))
or_assoc a b c = ground arith

segment_end :
    (s : State) (segs : List (List Text))
    → rest_of (record s { separate = s.started }) segs ≡ rest_of s ([] ∷ segs)
unfolding joined separated
segment_end s segs = elim (Bool-cases s.started) [
  | inl e ↦ elim (Bool-cases s.separate) [ inl k ↦ rw (e, k) refl | inr k ↦ rw (e, k) refl ]
  | inr e ↦ rw e refl
]

pub silence : (s : State) → [] ≡ rest_of s ([] ∷ [])
unfolding joined separated
silence s = elim (Bool-cases s.started) [
  | inl e ↦ elim (Bool-cases s.separate) [ inl k ↦ rw (e, k) refl | inr k ↦ rw (e, k) refl ]
  | inr e ↦ rw e refl
]

module _ (loads : Text → Option Json) (loads_bytes : Bytes → Result Json) (str_of : Json → Text)
    (output_field : Text) where
  abbrev pub end : List Delta × Flow State → TurnEnd
  end r = end_of loads loads_bytes str_of output_field r

  -- What is said from a state on, how the turn ends, and whether it asks for an answer.
  abbrev pub Says : State → List Line → Ending → List Delta × Flow State → Type 0
  Says s lines ending r =
      (spoken_text r.0 ≡ rest_of s (segments lines))
      × ((end r).ending ≡ outcome s.started lines ending)
      × ((end r).continue_conversation ≡ (s.continue_conversation || asks lines))

  end-append :
      (xs : List Delta) (r : List Delta × Flow State)
      → ((end (xs ++ r.0, r.1)).ending ≡ (end r).ending)
        × ((end (xs ++ r.0, r.1)).continue_conversation ≡ (end r).continue_conversation)
  end-append xs (out, go s) = (refl, refl)
  end-append xs (out, leave s) = (refl, refl)
  end-append xs (out, return s) = (refl, refl)
  end-append xs (out, raise e s) = (refl, refl)

  pub or_false : (b : Bool) → b ≡ (b || false)
  or_false b = ground arith

  pub on_read-Says :
      (s : State) (line : Line) (lines : List Line) (ending : Ending)
      (rest : State → List Delta × Flow State)
      → ((s' : State) → Says s' lines ending (rest s'))
      → Says s (line ∷ lines) ending (and_then (on_read s line).0 (on_read s line).1 rest)
  unfolding say_item segments outcome asks spoken_text
  on_read-Says s (says t asked) lines ending rest ih =
      let out = (say_item s (t, asked)).0 in
      let s' = (say_item s (t, asked)).1 in
      let (said, ended, asked_for) = ih s' in
      (
        spoken_text-append out (rest s').0
            ∙ ap (λ (u : Text). spoken_text out ++ u) said
            ∙ onto_first-rest s t asked (segments lines),
        (end-append out (rest s')).0 ∙ ended,
        (end-append out (rest s')).1
            ∙ asked_for
            ∙ or_assoc s.continue_conversation asked (asks lines),
      )
  on_read-Says s ends lines ending rest ih =
      let s' = record s { separate = s.started } in
      let (said, ended, asked_for) = ih s' in
      (
        said ∙ segment_end s (segments lines),
        (end-append [] (rest s')).0 ∙ ended,
        (end-append [] (rest s')).1 ∙ asked_for,
      )
  on_read-Says s (fails e) lines ending rest ih =
      (silence s, refl, or_false s.continue_conversation)
  on_read-Says s skipped lines ending rest ih =
      let (said, ended, asked_for) = ih s in
      (said, (end-append [] (rest s)).0 ∙ ended, (end-append [] (rest s)).1 ∙ asked_for)
