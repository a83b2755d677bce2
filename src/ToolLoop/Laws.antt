-- ===== src/ToolLoop/Laws.antt =====
-- The tool loop ends, within the cap, and its result says how.
use llm_middleman.Base.{
  ℕ, zero, suc, ◌+◌, ◌≤◌, ◌<◌, ◌≡◌, refl, Bool, true, false, Option, none, some, arith,
}
use llm_middleman.Error.{Exc}
use llm_middleman.Fallible.{Result, ok, err}
use llm_middleman.ToolLoop.{after_round, run_rounds, async_run_tool_loop}

module _ {ℓ} {S : Type ℓ} (run_round : S → S × Option Exc) (unresponded : S → Bool) where
  -- The same round-trips, counted.
  abbrev pub counted : ℕ × S → (ℕ × S) × Option Exc
  counted (k, s) = ((k + 1, (run_round s).0), (run_round s).1)

  -- What a result says of the rounds made, of at most `n`, and of the log that they leave.
  abbrev pub Ended : ℕ → ℕ → (ℕ × S) × Result Bool → Type 0
  Ended k n ((made, s), ok true) = (k < made) × (made ≤ k + n) × (unresponded s ≡ false)
  Ended k n ((made, s), ok false) = (made ≡ k + n) × (unresponded s ≡ true)
  Ended k n ((made, s), err e) = (k < made) × (made ≤ k + n)

  Ended-suc : (k n : ℕ) (r : (ℕ × S) × Result Bool) → Ended (k + 1) n r → Ended k (suc n) r
  Ended-suc k n ((made, s), ok true) h = (omega arith, omega arith, h.2)
  Ended-suc k n ((made, s), ok false) h = (omega arith, h.1)
  Ended-suc k n ((made, s), err e) h = omega arith

  after_round-Ended :
      (b : Bool) (o : Option Exc) (s : S) (k n : ℕ) (rest : (ℕ × S) × Result Bool)
      → unresponded s ≡ b
      → (b ≡ true → Ended (k + 1) n rest)
      → Ended k (suc n) (after_round b o (k + 1, s) rest)
  after_round-Ended true (some e) s k n rest u h = omega arith
  after_round-Ended false (some e) s k n rest u h = omega arith
  after_round-Ended true none s k n rest u h = Ended-suc k n rest (h refl)
  after_round-Ended false none s k n rest u h = (omega arith, omega arith, u)

  run_rounds-Ended :
      (n k : ℕ) (s : S)
      → unresponded s ≡ true
      → Ended k n (run_rounds n counted (λ p. unresponded p.1) (k, s))
  unfolding run_rounds
  run_rounds-Ended zero k s u = (omega arith, u)
  run_rounds-Ended (suc n) k s u =
      after_round-Ended (unresponded (run_round s).0) (run_round s).1 (run_round s).0 k n _ refl
        (run_rounds-Ended n (k + 1) (run_round s).0)

  -- The loop ends after at least one and at most ten round-trips. It says that it completed only when
  -- no tool result waits for an answer; it says that it did not only after ten round-trips, with a
  -- tool result still waiting; otherwise a round-trip raised, and that error is passed on.
  pub async_run_tool_loop-Ended :
      (s : S) → Ended 0 10 (async_run_tool_loop counted (λ p. unresponded p.1) (0, s))
  unfolding async_run_tool_loop run_rounds
  async_run_tool_loop-Ended s =
      after_round-Ended (unresponded (run_round s).0) (run_round s).1 (run_round s).0 0 9 _ refl
        (run_rounds-Ended 9 (0 + 1) (run_round s).0)
