-- ===== src/Conversation/Guard.antt =====
-- What `_guarded` yields, whatever the adapter's stream does.
use llm_middleman.Base.{
  ◌≡◌, refl, sym, ap, ◌∙◌, inl, inr, Bool, true, false, not, ◌&&◌, ◌||◌, List, [], ◌∷◌, ◌++◌,
  append-nil, append_assoc, arith, if◌then◌else◌, Bool-cases, is_empty, any, Text,
}
use llm_middleman.Json.{truthy, str}
use llm_middleman.Error.{class_of, is_cancelled}
use llm_middleman.Stream.{
  Delta, role, content, tool_calls, external_call, tool_result, has_role, has_text, Deltas, Ending,
  finished, failed,
}
use llm_middleman.Reachability.{Connection}
use llm_middleman.Conversation.{pass_deltas, say, guarded}

abbrev pub is_failed : Ending → Bool
is_failed finished = false
is_failed (failed e) = true

-- The stream was cut by a `CancelledError`.
abbrev pub is_cut : Ending → Bool
is_cut finished = false
is_cut (failed e) = is_cancelled (class_of e)

-- The stream was not cut and gave no reply: it raised, or it ended without a delta.
abbrev pub no_reply : Deltas → Bool
no_reply stream = not (is_cut stream.ending) && (is_failed stream.ending || is_empty stream.items)

-- The role that the guard opens a reply with, where the stream does not.
abbrev pub opening : List Delta → List Delta
opening [] = role ∷ []
opening (d ∷ ds) = if has_role d then [] else role ∷ []

-- No role opens a stream that was cut before its first delta.
abbrev pub opening_of : Deltas → List Delta
opening_of stream =
    if is_cut stream.ending && is_empty stream.items then [] else opening stream.items

-- The deltas of the last assistant block, its role included.
abbrev pub last_block : List Delta → List Delta
last_block [] = []
last_block (d ∷ ds) = let rest = last_block ds in if any has_role ds then rest else d ∷ ds

-- The fallback text, on a line of its own if the last block already has text.
abbrev pub fallback_text : List Delta → Text → Text
fallback_text ds message = if any has_text (last_block ds) then b'\n' ∷ message else message

has_text-role : (d : Delta) → has_role d ≡ true → has_text d ≡ false
has_text-role (Delta.content c) h = cc
has_text-role role h = refl
has_text-role _ h = ground arith

pass_deltas-spoke :
    (st b : Bool) (ds : List Delta)
    → (pass_deltas st b ds).spoke
      ≡ (if any has_role ds then any has_text (last_block ds) else b || any has_text ds)
unfolding pass_deltas
pass_deltas-spoke st b [] = ground arith
pass_deltas-spoke st b (d ∷ ds) =
    pass_deltas-spoke true (if has_text d then true else if has_role d then false else b) ds
    ∙ ground (arith, has_text-role d)

pass_deltas-started : (b : Bool) (ds : List Delta) → (pass_deltas true b ds).yielded ≡ ds
unfolding pass_deltas
pass_deltas-started b [] = refl
pass_deltas-started b (d ∷ ds) =
    ap (◌∷◌ d)
      (pass_deltas-started (if has_text d then true else if has_role d then false else b) ds)

started-pass_deltas :
    (st b : Bool) (ds : List Delta) → (pass_deltas st b ds).started ≡ (st || not (is_empty ds))
unfolding pass_deltas
started-pass_deltas true b [] = refl
started-pass_deltas false b [] = refl
started-pass_deltas true b (d ∷ ds) =
    started-pass_deltas true (if has_text d then true else if has_role d then false else b) ds
started-pass_deltas false b (d ∷ ds) =
    started-pass_deltas true (if has_text d then true else if has_role d then false else b) ds

any-last_block : (ds : List Delta) → any has_role ds ≡ false → last_block ds ≡ ds
any-last_block [] h = refl
any-last_block (d ∷ ds) h = ground arith

spoke-pass_deltas :
    (ds : List Delta) → (pass_deltas false false ds).spoke ≡ any has_text (last_block ds)
spoke-pass_deltas ds = ground (arith, pass_deltas-spoke false false ds, any-last_block ds)

yielded-pass_deltas :
    (d : Delta) (ds : List Delta)
    → (pass_deltas false false (d ∷ ds)).yielded ≡ opening (d ∷ ds) ++ d ∷ ds
unfolding pass_deltas
yielded-pass_deltas d ds = ground (
  arith,
  pass_deltas-started (if has_text d then true else if has_role d then false else false) ds,
)

-- What the guard makes of a stream: its deltas, the fallback text, its ending and the flag.
abbrev IsWrapped : Deltas → Text → Connection → Type 0
IsWrapped stream message s =
    ((guarded stream message s).stream.items
      ≡ opening_of stream
        ++ (stream.items
            ++ (if no_reply stream then say (fallback_text stream.items message) ∷ [] else [])))
    × ((guarded stream message s).stream.ending
        ≡ (if is_cut stream.ending then stream.ending else finished))
    × ((guarded stream message s).fallback ≡ no_reply stream)

guarded-IsWrapped :
    (ds : List Delta) (e : Ending) (message : Text) (s : Connection)
    → IsWrapped (record { items = ds; ending = e }) message s
unfolding guarded
guarded-IsWrapped [] finished message s = (refl, refl, refl)
guarded-IsWrapped [] (failed e) message s = elim (Bool-cases (is_cancelled (class_of e))) [
  | inl c ↦ rw c (refl, refl, refl)
  | inr c ↦ rw c (refl, refl, refl)
]
guarded-IsWrapped (d ∷ ds) finished message s = (
  rw (started-pass_deltas false false (d ∷ ds), append-nil, yielded-pass_deltas d ds)
      (rw append-nil),
  refl,
  rw (started-pass_deltas false false (d ∷ ds)),
)
guarded-IsWrapped (d ∷ ds) (failed e) message s = elim (Bool-cases (is_cancelled (class_of e))) [
  | inl c ↦ rw c (
    yielded-pass_deltas d ds ∙ ap (λ u. opening (d ∷ ds) ++ d ∷ u) (sym (append-nil ds)),
    refl,
    refl,
  )
  | inr c ↦ rw c (
    rw
        (
          started-pass_deltas false false (d ∷ ds),
          yielded-pass_deltas d ds,
          spoke-pass_deltas (d ∷ ds),
        )
        (append_assoc (opening (d ∷ ds)) (d ∷ ds) _),
    refl,
    refl,
  )
]

-- Whatever the stream does, the guarded stream is: a role if the stream does not open with one, the
-- deltas of the stream unchanged, and, exactly if the stream raised or was silent, the fallback text;
-- the fallback flag is set exactly then. A stream that was cut by a `CancelledError` gets no fallback
-- text, and no role either if it had no delta; it ends with that error, and any other one finishes.
pub guarded_lem :
    (stream : Deltas) (message : Text) (s : Connection)
    → ((guarded stream message s).stream.items
        ≡ opening_of stream
          ++ (stream.items
              ++ (if no_reply stream then say (fallback_text stream.items message) ∷ [] else [])))
      × ((guarded stream message s).stream.ending
          ≡ (if is_cut stream.ending then stream.ending else finished))
      × ((guarded stream message s).fallback ≡ no_reply stream)
guarded_lem stream message s = guarded-IsWrapped stream.items stream.ending message s

abbrev pub OpensWithRole : List Delta → Type 0
OpensWithRole [] = ⊥
OpensWithRole (d ∷ ds) = has_role d ≡ true

OpensWithRole-opening : (ds rest : List Delta) → OpensWithRole (opening ds ++ (ds ++ rest))
OpensWithRole-opening [] rest = refl
OpensWithRole-opening (d ∷ ds) rest = ground arith

-- The delta adds a content to the chat log: a text that is not empty, tool calls or a tool result.
abbrev pub adds : Delta → Bool
adds (content c) = truthy c
adds (tool_calls (call ∷ calls)) = true
adds (external_call _) = true
adds (tool_result _ _ _ _) = true
adds _ = false

-- The last block adds a content to the chat log.
abbrev pub adds_last : List Delta → Bool
adds_last ds = any adds (last_block ds)

-- A stream that finishes is empty, or its last block adds a content to the chat log.
abbrev pub IsSpoken : Deltas → Type 0
IsSpoken stream =
    stream.ending ≡ finished → (is_empty stream.items || adds_last stream.items) ≡ true

any-append_last : (ds : List Delta) (d : Delta) → adds d ≡ true → any adds (ds ++ d ∷ []) ≡ true
any-append_last [] d h = rw h refl
any-append_last (x ∷ ds) d h = ground (arith, any-append_last ds d h)

adds_last-append : (ds : List Delta) (d : Delta) → adds d ≡ true → adds_last (ds ++ d ∷ []) ≡ true
adds_last-append [] d h = rw h refl
adds_last-append (x ∷ ds) d h = ground (arith, adds_last-append ds d h, any-append_last ds d h)

adds_last-role : (ds : List Delta) → adds_last ds ≡ true → adds_last (role ∷ ds) ≡ true
adds_last-role ds h = ground (arith, any-last_block ds, h)

adds_last-opening : (ds : List Delta) → adds_last ds ≡ true → adds_last (opening ds ++ ds) ≡ true
adds_last-opening [] h = cc
adds_last-opening (d ∷ ds) h = ground (arith, adds_last-role (d ∷ ds) h, h)

fallback_text-truthy :
    (ds : List Delta) (message : Text)
    → is_empty message ≡ false
    → truthy (str (fallback_text ds message)) ≡ true
fallback_text-truthy ds [] h = cc
fallback_text-truthy ds (c ∷ cs) h = ground arith

-- What the chat log relies on in a stream that was not cut.
abbrev pub Reads : List Delta → Type 0
Reads ds = OpensWithRole ds × (adds_last ds ≡ true)

opened-Reads :
    (ds : List Delta) (e : Ending) (message : Text)
    → is_cut e ≡ false
    → is_empty message ≡ false
    → IsSpoken (record { items = ds; ending = e })
    → Reads (
        opening_of (record { items = ds; ending = e })
        ++ (ds
            ++ (if no_reply (record { items = ds; ending = e })
                then say (fallback_text ds message) ∷ []
                else [])))
opened-Reads [] finished message c h k = (
  refl,
  adds_last-append (role ∷ []) (say (fallback_text [] message)) (fallback_text-truthy [] message h),
)
opened-Reads [] (failed e) message c h k = rw c (
  refl,
  adds_last-append (role ∷ []) (say (fallback_text [] message)) (fallback_text-truthy [] message h),
)
opened-Reads (d ∷ ds) finished message c h k =
    (OpensWithRole-opening (d ∷ ds) [], rw append-nil (adds_last-opening (d ∷ ds) (k refl)))
opened-Reads (d ∷ ds) (failed e) message c h k = rw c (
  OpensWithRole-opening (d ∷ ds) (say (fallback_text (d ∷ ds) message) ∷ []),
  ap (λ (l : List Delta). adds_last l)
        (sym (append_assoc (opening (d ∷ ds)) (d ∷ ds) (say (fallback_text (d ∷ ds) message) ∷ [])))
      ∙ adds_last-append (opening (d ∷ ds) ++ d ∷ ds) (say (fallback_text (d ∷ ds) message))
          (fallback_text-truthy (d ∷ ds) message h),
)

-- Unless it is cut, the chat log is given a stream that opens with a role and whose last block adds a
-- content to it, if the adapter's stream does.
pub guarded-Reads :
    (stream : Deltas) (message : Text) (s : Connection)
    → is_cut stream.ending ≡ false
    → is_empty message ≡ false
    → IsSpoken stream
    → Reads (guarded stream message s).stream.items
guarded-Reads stream message s c h k =
    rw (guarded_lem stream message s).0 (opened-Reads stream.items stream.ending message c h k)
