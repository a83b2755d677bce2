-- ===== src/Stream/Scan.antt =====
-- Deltas read by an automaton: it goes from delta to delta, and stops where one is out of place.
use llm_middleman.Base.{◌≡◌, refl, ◌∙◌, Option, none, some, List, [], ◌∷◌, ◌++◌, arith}
use llm_middleman.Stream.{
  Delta, Ending, finished, failed, Flow, go, leave, return, raise, and_then, run_events,
}
use llm_middleman.Error.{Exc}

module _ {ℓ} {X : Type ℓ} (act : X → Delta → Option X) where
  abbrev pub after : Option X → (X → Option X) → Option X
  after none rest = none
  after (some x) rest = rest x

  abbrev pub scan : X → List Delta → Option X
  scan x [] = some x
  scan x (d ∷ ds) = after (act x d) (λ y. scan y ds)

  after-scan :
      (o : Option X) (xs ys : List Delta) (y : X)
      → ((x : X) → scan x xs ≡ some y → scan x (xs ++ ys) ≡ scan y ys)
      → after o (λ x. scan x xs) ≡ some y
      → after o (λ x. scan x (xs ++ ys)) ≡ scan y ys
  after-scan none xs ys y h e = cc
  after-scan (some x) xs ys y h e = h x e

  pub scan-append :
      (xs ys : List Delta) (x y : X) → scan x xs ≡ some y → scan x (xs ++ ys) ≡ scan y ys
  scan-append [] ys x y h = ground arith
  scan-append (d ∷ ds) ys x y h = after-scan (act x d) ds ys y (λ z. scan-append ds ys z y) h

  -- The deltas of an iteration are in place, and where the loop goes on behind them, or is left or
  -- returned from, the state of the automaton can be read off the loop's.
  abbrev pub Tracks {κ} : {S : Type κ} → (S → X) → X → List Delta × Flow S → Type ℓ
  Tracks view x (out, go s) = scan x out ≡ some (view s)
  Tracks view x (out, leave s) = scan x out ≡ some (view s)
  Tracks view x (out, return s) = scan x out ≡ some (view s)
  Tracks view x (out, raise e s) = scan x out ≡ some (view s)

  module _ {κ} {S : Type κ} (view : S → X) where
    pub Tracks-append :
        (x y : X) (xs : List Delta) (r : List Delta × Flow S)
        → scan x xs ≡ some y
        → Tracks view y r
        → Tracks view x (xs ++ r.0, r.1)
    Tracks-append x y xs (out, go s) h k = scan-append xs out x y h ∙ k
    Tracks-append x y xs (out, leave s) h k = scan-append xs out x y h ∙ k
    Tracks-append x y xs (out, return s) h k = scan-append xs out x y h ∙ k
    Tracks-append x y xs (out, raise e s) h k = scan-append xs out x y h ∙ k

    and_then-Tracks :
        (x : X) (out : List Delta) (flow : Flow S) (rest : S → List Delta × Flow S)
        → Tracks view x (out, flow)
        → ((s : S) → Tracks view (view s) (rest s))
        → Tracks view x (and_then out flow rest)
    and_then-Tracks x out (go s) rest h k = Tracks-append x (view s) out (rest s) h (k s)
    and_then-Tracks x out (leave s) rest h k = h
    and_then-Tracks x out (return s) rest h k = h
    and_then-Tracks x out (raise e s) rest h k = h

    pub run_events-Tracks {μ} :
        {E : Type μ} (step : S → E → List Delta × Flow S)
        → ((s : S) (e : E) → Tracks view (view s) (step s e))
        → (events : List E) (s : S) (ending : Ending)
        → Tracks view (view s) (run_events step s events ending)
    unfolding run_events
    run_events-Tracks step keep [] s finished = refl
    run_events-Tracks step keep [] s (failed e) = refl
    run_events-Tracks step keep (e ∷ es) s ending =
        and_then-Tracks (view s) (step s e).0 (step s e).1 (λ s'. run_events step s' es ending)
          (keep s e) (λ s'. run_events-Tracks step keep es s' ending)

-- What holds of the state that a generator returns with.
abbrev pub Returns {ℓ κ} : {S : Type ℓ} → (S → Type κ) → Flow S → Type κ
Returns P (return s) = P s
Returns P _ = Unit

module _ {ℓ κ μ} {S : Type ℓ} (P : S → Type κ) {E : Type μ}
    (step : S → E → List Delta × Flow S) where
  and_then-Returns :
      (out : List Delta) (flow : Flow S) (rest : S → List Delta × Flow S)
      → Returns P flow
      → ((s : S) → Returns P (rest s).1)
      → Returns P (and_then out flow rest).1
  and_then-Returns out (go s) rest h k = k s
  and_then-Returns out (leave s) rest h k = tt
  and_then-Returns out (return s) rest h k = h
  and_then-Returns out (raise e s) rest h k = tt

  pub run_events-Returns :
      ((s : S) (e : E) → Returns P (step s e).1)
      → (events : List E) (s : S) (ending : Ending) → Returns P (run_events step s events ending).1
  unfolding run_events
  run_events-Returns keep [] s finished = tt
  run_events-Returns keep [] s (failed e) = tt
  run_events-Returns keep (e ∷ es) s ending =
      and_then-Returns (step s e).0 (step s e).1 (λ s'. run_events step s' es ending) (keep s e)
        (λ s'. run_events-Returns keep es s' ending)

-- What holds of the errors that a generator raises, and of the error that its source ends in.
abbrev pub Raises {ℓ κ} : {S : Type ℓ} → (Exc → Type κ) → Flow S → Type κ
Raises P (raise e s) = P e
Raises P _ = Unit

abbrev pub EndsIn {κ} : (Exc → Type κ) → Ending → Type κ
EndsIn P finished = Unit
EndsIn P (failed e) = P e

module _ {ℓ κ μ} {S : Type ℓ} (P : Exc → Type κ) {E : Type μ}
    (step : S → E → List Delta × Flow S) where
  and_then-Raises :
      (out : List Delta) (flow : Flow S) (rest : S → List Delta × Flow S)
      → Raises P flow
      → ((s : S) → Raises P (rest s).1)
      → Raises P (and_then out flow rest).1
  and_then-Raises out (go s) rest h k = k s
  and_then-Raises out (leave s) rest h k = tt
  and_then-Raises out (return s) rest h k = tt
  and_then-Raises out (raise e s) rest h k = h

  pub run_events-Raises :
      ((s : S) (e : E) → Raises P (step s e).1)
      → (events : List E) (s : S) (ending : Ending) → EndsIn P ending
      → Raises P (run_events step s events ending).1
  unfolding run_events
  run_events-Raises keep [] s finished h = tt
  run_events-Raises keep [] s (failed e) h = h
  run_events-Raises keep (e ∷ es) s ending h =
      and_then-Raises (step s e).0 (step s e).1 (λ s'. run_events step s' es ending) (keep s e)
        (λ s'. run_events-Raises keep es s' ending h)
