-- ===== src/Stream/Laws.antt =====
-- The shape of an adapter's deltas: Home Assistant takes a delta without a role as a continuation of
-- the open assistant block.
use llm_middleman.Base.{
  ◌≡◌, refl, ◌∙◌, Bool, true, false, Option, none, some, List, [], ◌∷◌, ◌++◌, arith, or_else,
  is_some, Text,
}
use llm_middleman.Json.{Json, str, truthy, nonempty_str}
use llm_middleman.Stream.{
  Delta, role, content, thinking, tool_calls, external_call, tool_result, Ending, finished, failed,
  Flow, go, leave, return, raise, and_then, run_events,
}

-- Whether an assistant block is open after the deltas, `none` if one of them continued no block.
abbrev pub run_block : Bool → List Delta → Option Bool
run_block b [] = some b
run_block b (role ∷ ds) = run_block true ds
run_block b (external_call _ ∷ ds) = run_block false ds
run_block b (tool_result _ _ _ _ ∷ ds) = run_block false ds
run_block true (content _ ∷ ds) = run_block true ds
run_block true (thinking _ ∷ ds) = run_block true ds
run_block true (tool_calls _ ∷ ds) = run_block true ds
run_block false (content _ ∷ ds) = none
run_block false (thinking _ ∷ ds) = none
run_block false (tool_calls _ ∷ ds) = none

pub run_block-append :
    (xs ys : List Delta) (b c : Bool)
    → run_block b xs ≡ some c
    → run_block b (xs ++ ys) ≡ run_block c ys
run_block-append [] ys b c h = ground arith
run_block-append (role ∷ ds) ys b c h = run_block-append ds ys true c h
run_block-append (external_call _ ∷ ds) ys b c h = run_block-append ds ys false c h
run_block-append (tool_result _ _ _ _ ∷ ds) ys b c h = run_block-append ds ys false c h
run_block-append (content _ ∷ ds) ys true c h = run_block-append ds ys true c h
run_block-append (thinking _ ∷ ds) ys true c h = run_block-append ds ys true c h
run_block-append (tool_calls _ ∷ ds) ys true c h = run_block-append ds ys true c h
run_block-append (content _ ∷ ds) ys false c h = cc
run_block-append (thinking _ ∷ ds) ys false c h = cc
run_block-append (tool_calls _ ∷ ds) ys false c h = cc

-- The deltas are empty, or the last one has a content of which `p` holds.
abbrev pub ends_with : (Json → Bool) → List Delta → Bool
ends_with p [] = true
ends_with p (content c ∷ []) = p c
ends_with p (_ ∷ []) = false
ends_with p (_ ∷ d ∷ ds) = ends_with p (d ∷ ds)

-- The deltas are empty, or the last one is reply text that is not empty.
abbrev pub ends_spoken : List Delta → Bool
ends_spoken ds = ends_with truthy ds

pub ends_with-append :
    (p : Json → Bool) (xs ys : List Delta)
    → ends_with p xs ≡ true
    → ends_with p ys ≡ true
    → ends_with p (xs ++ ys) ≡ true
ends_with-append p [] ys h k = k
ends_with-append p (content c ∷ []) [] h k = h
ends_with-append p (content c ∷ []) (y ∷ ys) h k = k
ends_with-append p (role ∷ []) ys h k = cc
ends_with-append p (thinking _ ∷ []) ys h k = cc
ends_with-append p (tool_calls _ ∷ []) ys h k = cc
ends_with-append p (external_call _ ∷ []) ys h k = cc
ends_with-append p (tool_result _ _ _ _ ∷ []) ys h k = cc
ends_with-append p (content _ ∷ d ∷ ds) ys h k = ends_with-append p (d ∷ ds) ys h k
ends_with-append p (_ ∷ d ∷ ds) ys h k = ends_with-append p (d ∷ ds) ys h k

-- A text that is not empty, if there is one.
abbrev pub Said : Option Text → Type 0
Said none = Unit {0}
Said (some t) = truthy (str t) ≡ true

pub nonempty_str-Said : (v : Json) → Said (nonempty_str v)
nonempty_str-Said (str []) = tt
nonempty_str-Said (str (c ∷ t)) = refl
nonempty_str-Said _ = tt

pub or_else-truthy :
    (o : Option Text) (t : Text)
    → Said o
    → truthy (str t) ≡ true
    → truthy (str (or_else o t)) ≡ true
or_else-truthy none t h k = k
or_else-truthy (some u) t h k = h

-- The deltas of an iteration keep to the blocks, and where the loop goes on behind them, or is left,
-- a flag of the state says whether a block is open.
abbrev pub Follows {ℓ} : {S : Type ℓ} → (S → Bool) → Bool → List Delta × Flow S → Type 0
Follows opened b (out, go s) = run_block b out ≡ some (opened s)
Follows opened b (out, leave s) = run_block b out ≡ some (opened s)
Follows opened b (out, return s) = is_some (run_block b out) ≡ true
Follows opened b (out, raise e s) = is_some (run_block b out) ≡ true

-- The generator does not return.
abbrev pub Stays {ℓ} : {S : Type ℓ} → Flow S → Type 0
Stays (return s) = ⊥
Stays _ = Unit {0}

module _ {ℓ} {S : Type ℓ} where
  and_then-Stays :
      (out : List Delta) (flow : Flow S) (rest : S → List Delta × Flow S)
      → Stays flow
      → ((s : S) → Stays (rest s).1)
      → Stays (and_then out flow rest).1
  and_then-Stays out (go s) rest h k = k s
  and_then-Stays out (leave s) rest h k = tt
  and_then-Stays out (return s) rest h k = h
  and_then-Stays out (raise e s) rest h k = tt

  Follows-append :
      (opened : S → Bool) (b c : Bool) (xs : List Delta) (r : List Delta × Flow S)
      → run_block b xs ≡ some c
      → Follows opened c r
      → Follows opened b (xs ++ r.0, r.1)
  Follows-append opened b c xs (out, go s) h k = run_block-append xs out b c h ∙ k
  Follows-append opened b c xs (out, leave s) h k = run_block-append xs out b c h ∙ k
  Follows-append opened b c xs (out, return s) h k = rw (run_block-append xs out b c h) k
  Follows-append opened b c xs (out, raise e s) h k = rw (run_block-append xs out b c h) k

  pub and_then-Follows :
      (opened : S → Bool) (b : Bool) (out : List Delta) (flow : Flow S)
      (rest : S → List Delta × Flow S)
      → Follows opened b (out, flow)
      → ((s : S) → Follows opened (opened s) (rest s))
      → Follows opened b (and_then out flow rest)
  and_then-Follows opened b out (go s) rest h k =
      Follows-append opened b (opened s) out (rest s) h (k s)
  and_then-Follows opened b out (leave s) rest h k = h
  and_then-Follows opened b out (return s) rest h k = h
  and_then-Follows opened b out (raise e s) rest h k = h

  and_then-ends_with :
      (p : Json → Bool) (out : List Delta) (flow : Flow S) (rest : S → List Delta × Flow S)
      → ends_with p out ≡ true
      → ((s : S) → ends_with p (rest s).0 ≡ true)
      → ends_with p (and_then out flow rest).0 ≡ true
  and_then-ends_with p out (go s) rest h k = ends_with-append p out (rest s).0 h (k s)
  and_then-ends_with p out (leave s) rest h k = h
  and_then-ends_with p out (return s) rest h k = h
  and_then-ends_with p out (raise e s) rest h k = h

module _ {ℓ κ} {S : Type ℓ} {E : Type κ} (step : S → E → List Delta × Flow S) where
  -- A flag of the state that follows the block through each step follows it through the loop.
  pub run_events-Follows :
      (opened : S → Bool)
      → ((s : S) (e : E) → Follows opened (opened s) (step s e))
      → (events : List E) (s : S) (ending : Ending)
      → Follows opened (opened s) (run_events step s events ending)
  unfolding run_events
  run_events-Follows opened keep [] s finished = refl
  run_events-Follows opened keep [] s (failed e) = refl
  run_events-Follows opened keep (e ∷ es) s ending =
      and_then-Follows opened (opened s) (step s e).0 (step s e).1
        (λ s'. run_events step s' es ending) (keep s e)
        (λ s'. run_events-Follows opened keep es s' ending)

  -- If every step ends on such a content, or yields nothing, so does the loop.
  pub run_events-ends_with :
      (p : Json → Bool)
      → ((s : S) (e : E) → ends_with p (step s e).0 ≡ true)
      → (events : List E) (s : S) (ending : Ending)
      → ends_with p (run_events step s events ending).0 ≡ true
  unfolding run_events
  run_events-ends_with p keep [] s finished = refl
  run_events-ends_with p keep [] s (failed e) = refl
  run_events-ends_with p keep (e ∷ es) s ending =
      and_then-ends_with p (step s e).0 (step s e).1 (λ s'. run_events step s' es ending) (keep s e)
        (λ s'. run_events-ends_with p keep es s' ending)

  pub run_events-Stays :
      ((s : S) (e : E) → Stays (step s e).1)
      → (events : List E) (s : S) (ending : Ending) → Stays (run_events step s events ending).1
  unfolding run_events
  run_events-Stays keep [] s finished = tt
  run_events-Stays keep [] s (failed e) = tt
  run_events-Stays keep (e ∷ es) s ending =
      and_then-Stays (step s e).0 (step s e).1 (λ s'. run_events step s' es ending) (keep s e)
        (λ s'. run_events-Stays keep es s' ending)
