-- ===== src/Stream/Plain.antt =====
-- Deltas without tool activity, and the content that ends deltas.
use llm_middleman.Base.{◌≡◌, refl, Bool, true, false, List, [], ◌∷◌, ◌++◌, all, all-append}
use llm_middleman.Json.{Json}
use llm_middleman.Stream.{
  Delta, role, content, tool_calls, external_call, tool_result, Ending, finished, failed, Flow, go,
  leave, return, raise, run_events, and_then,
}
use llm_middleman.Stream.Laws.{ends_with}

-- A delta without tool activity.
abbrev pub is_plain : Delta → Bool
is_plain (tool_calls _) = false
is_plain (external_call _) = false
is_plain (tool_result _ _ _ _) = false
is_plain d = true

pub ends_with-last :
    (p : Json → Bool) (ds : List Delta) (c : Json) → ends_with p (ds ++ role ∷ content c ∷ []) ≡ p c
ends_with-last p [] c = refl
ends_with-last p (content _ ∷ []) c = refl
ends_with-last p (_ ∷ []) c = refl
ends_with-last p (content _ ∷ d ∷ ds) c = ends_with-last p (d ∷ ds) c
ends_with-last p (_ ∷ d ∷ ds) c = ends_with-last p (d ∷ ds) c

module _ {ℓ κ} {S : Type ℓ} {E : Type κ} (step : S → E → List Delta × Flow S)
    (plain : (s : S) (e : E) → all is_plain (step s e).0 ≡ true) where
  and_then-is_plain :
      (out : List Delta) (flow : Flow S) (rest : S → List Delta × Flow S)
      → all is_plain out ≡ true
      → ((s : S) → all is_plain (rest s).0 ≡ true)
      → all is_plain (and_then out flow rest).0 ≡ true
  and_then-is_plain out (go s) rest h k = all-append is_plain out (rest s).0 h (k s)
  and_then-is_plain out (leave s) rest h k = h
  and_then-is_plain out (return s) rest h k = h
  and_then-is_plain out (raise e s) rest h k = h

  pub run_events-is_plain :
      (events : List E) (s : S) (ending : Ending)
      → all is_plain (run_events step s events ending).0 ≡ true
  unfolding run_events
  run_events-is_plain [] s finished = refl
  run_events-is_plain [] s (failed e) = refl
  run_events-is_plain (e ∷ es) s ending =
      and_then-is_plain (step s e).0 (step s e).1 (λ s'. run_events step s' es ending) (plain s e)
        (λ s'. run_events-is_plain es s' ending)
