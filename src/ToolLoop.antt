-- ===== src/ToolLoop.antt =====
-- `async_run_tool_loop` of helpers.py: at most ten round-trips, each of which changes the state and
-- may raise. `unresponded` is `chat_log.unresponded_tool_results`.
pub mod Laws
use llm_middleman.Base.{ℕ, zero, suc, Bool, true, false, Option, none, some}
use llm_middleman.Error.{Exc}
use llm_middleman.Fallible.{Result, ok, err}

abbrev pub max_tool_iterations : ℕ
max_tool_iterations = 10

module _ {ℓ} {S : Type ℓ} where
  -- What follows a round-trip: an exception leaves the loop, and so does a log with no tool result
  -- that waits for an answer.
  abbrev pub after_round : Bool → Option Exc → S → S × Result Bool → S × Result Bool
  after_round unresponded (some e) s rest = (s, err e)
  after_round true none s rest = rest
  after_round false none s rest = (s, ok true)

  unfoldable pub run_rounds : ℕ → (S → S × Option Exc) → (S → Bool) → S → S × Result Bool
  run_rounds zero run_round unresponded s = (s, ok false)
  run_rounds (suc n) run_round unresponded s =
      let (s', raised) = run_round s in
      let rest = run_rounds n run_round unresponded s' in
      after_round (unresponded s') raised s' rest

  unfoldable pub async_run_tool_loop : (S → S × Option Exc) → (S → Bool) → S → S × Result Bool
  unfolding run_rounds
  async_run_tool_loop = run_rounds max_tool_iterations
