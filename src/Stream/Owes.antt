-- ===== src/Stream/Owes.antt =====
-- Whether a turn owes a reply: Home Assistant's tool loop runs on where the log ends on a tool
-- result.
use llm_middleman.Base.{◌≡◌, refl, ap, ◌∙◌, Bool, true, false, not, List, [], ◌∷◌, ◌++◌, arith}
use llm_middleman.Json.{truthy}
use llm_middleman.Stream.{
  Delta, role, content, thinking, tool_calls, external_call, tool_result, Ending, finished, failed,
  Flow, go, leave, return, raise, and_then, run_events,
}
use llm_middleman.Stream.Laws.{ends_spoken}

-- Whether something other than reply text, or an empty one, came behind the last of it, `b` before the
-- deltas.
abbrev pub owes : Bool → List Delta → Bool
owes b [] = b
owes b (content c ∷ ds) = owes (not (truthy c)) ds
owes b (_ ∷ ds) = owes true ds

pub owes-append : (b : Bool) (xs ys : List Delta) → owes b (xs ++ ys) ≡ owes (owes b xs) ys
owes-append b [] ys = refl
owes-append b (content c ∷ ds) ys = owes-append (not (truthy c)) ds ys
owes-append b (role ∷ ds) ys = owes-append true ds ys
owes-append b (thinking _ ∷ ds) ys = owes-append true ds ys
owes-append b (tool_calls _ ∷ ds) ys = owes-append true ds ys
owes-append b (external_call _ ∷ ds) ys = owes-append true ds ys
owes-append b (tool_result _ _ _ _ ∷ ds) ys = owes-append true ds ys

-- Behind a delta, what was owed before does not matter.
owes_start : (b c : Bool) (d : Delta) (ds : List Delta) → owes b (d ∷ ds) ≡ owes c (d ∷ ds)
owes_start b c (content _) ds = refl
owes_start b c _ ds = refl

pub owes-ends_spoken : (ds : List Delta) → ends_spoken ds ≡ not (owes false ds)
owes-ends_spoken [] = refl
owes-ends_spoken (content c ∷ []) = ground arith
owes-ends_spoken (role ∷ []) = refl
owes-ends_spoken (thinking _ ∷ []) = refl
owes-ends_spoken (tool_calls _ ∷ []) = refl
owes-ends_spoken (external_call _ ∷ []) = refl
owes-ends_spoken (tool_result _ _ _ _ ∷ []) = refl
owes-ends_spoken (content c ∷ d ∷ ds) =
    owes-ends_spoken (d ∷ ds) ∙ ap not (owes_start false (not (truthy c)) d ds)
owes-ends_spoken (_ ∷ d ∷ ds) = owes-ends_spoken (d ∷ ds) ∙ ap not (owes_start false true d ds)

-- A flag of the state says what the deltas of an iteration leave owed, where the loop goes on behind
-- them or is left.
abbrev pub Owes {ℓ} : {S : Type ℓ} → (S → Bool) → Bool → List Delta × Flow S → Type 0
Owes flag b (out, go s) = owes b out ≡ flag s
Owes flag b (out, leave s) = owes b out ≡ flag s
Owes flag b (out, return s) = Unit
Owes flag b (out, raise e s) = Unit

module _ {ℓ} {S : Type ℓ} where
  Owes-append :
      (flag : S → Bool) (b : Bool) (xs : List Delta) (r : List Delta × Flow S)
      → Owes flag (owes b xs) r
      → Owes flag b (xs ++ r.0, r.1)
  Owes-append flag b xs (out, go s) h = owes-append b xs out ∙ h
  Owes-append flag b xs (out, leave s) h = owes-append b xs out ∙ h
  Owes-append flag b xs (out, return s) h = tt
  Owes-append flag b xs (out, raise e s) h = tt

  pub and_then-Owes :
      (flag : S → Bool) (b : Bool) (out : List Delta) (flow : Flow S)
      (rest : S → List Delta × Flow S)
      → Owes flag b (out, flow)
      → ((s : S) → Owes flag (flag s) (rest s))
      → Owes flag b (and_then out flow rest)
  and_then-Owes flag b out (go s) rest h k = Owes-append flag b out (rest s) (rw h (k s))
  and_then-Owes flag b out (leave s) rest h k = h
  and_then-Owes flag b out (return s) rest h k = tt
  and_then-Owes flag b out (raise e s) rest h k = tt

module _ {ℓ κ} {S : Type ℓ} {E : Type κ} (step : S → E → List Delta × Flow S) where
  pub run_events-Owes :
      (flag : S → Bool)
      → ((s : S) (e : E) → Owes flag (flag s) (step s e))
      → (events : List E) (s : S) (ending : Ending)
      → Owes flag (flag s) (run_events step s events ending)
  unfolding run_events
  run_events-Owes flag keep [] s finished = refl
  run_events-Owes flag keep [] s (failed e) = tt
  run_events-Owes flag keep (e ∷ es) s ending =
      and_then-Owes flag (flag s) (step s e).0 (step s e).1 (λ s'. run_events step s' es ending)
        (keep s e) (λ s'. run_events-Owes flag keep es s' ending)
