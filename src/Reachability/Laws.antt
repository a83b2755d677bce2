-- ===== src/Reachability/Laws.antt =====
-- The state of a connection after any sequence of round-trips and reloads.
use llm_middleman.Base.{
  ℕ, ◌+◌, ◌≡◌, refl, ap, ◌∙◌, Bool, not, List, [], ◌∷◌, arith, leb, ◌==◌, if◌then◌else◌,
}
use llm_middleman.Error.{Exc, class_of, is_auth_error}
use llm_middleman.Reachability.{
  Connection, unreachable_issue_threshold, is_unreachable, async_record_backend_reached,
  async_record_backend_failure, reload, new_connection, Outcome, reached, failure, reloaded,
  record_outcome, record_outcomes,
}

-- The entities show what the count says, and the issue is open from the third failure on.
pub record IsConsistent (s : Connection) : Type 0 where
  pub shown : s.available ≡ (s.unreachable_turns == 0)
  pub raised : s.issue ≡ leb unreachable_issue_threshold s.unreachable_turns

record_outcome-IsConsistent :
    (s : Connection) (o : Outcome) → IsConsistent s → IsConsistent (record_outcome s o)
unfolding record_outcome
record_outcome-IsConsistent s reached h = ground arith
record_outcome-IsConsistent s (failure err) h = ground arith
record_outcome-IsConsistent s reloaded h = ground arith

pub record_outcomes-IsConsistent :
    (os : List Outcome) (s : Connection) → IsConsistent s → IsConsistent (record_outcomes s os)
unfolding record_outcomes
record_outcomes-IsConsistent [] s h = h
record_outcomes-IsConsistent (o ∷ os) s h =
    record_outcomes-IsConsistent os (record_outcome s o) (record_outcome-IsConsistent s o h)

-- The round-trips at the end of a history that never reached the backend: a count that goes on with
-- `n` at the first of them.
abbrev pub unreached : ℕ → List Outcome → ℕ
unreached n [] = n
unreached n (reached ∷ os) = unreached 0 os
unreached n (reloaded ∷ os) = unreached 0 os
unreached n (failure err ∷ os) = unreached (if is_unreachable err then n + 1 else 0) os

turns-record_outcomes :
    (os : List Outcome) (s : Connection)
    → (record_outcomes s os).unreachable_turns ≡ unreached s.unreachable_turns os
unfolding record_outcomes record_outcome
turns-record_outcomes [] s = refl
turns-record_outcomes (reached ∷ os) s =
    turns-record_outcomes os (async_record_backend_reached s)
    ∙ ap (λ n. unreached n os) (ground arith)
turns-record_outcomes (reloaded ∷ os) s =
    turns-record_outcomes os (reload s) ∙ ap (λ n. unreached n os) (ground arith)
turns-record_outcomes (failure err ∷ os) s =
    turns-record_outcomes os (async_record_backend_failure s err)
    ∙ ap (λ n. unreached n os) (ground arith)

-- After any history of a new connection: the adapter counts the failures in a row, up to now, that
-- never reached the backend; the entities are available exactly if that is 0; and the repair issue
-- is open exactly if it is 3 or more.
pub record_outcomes_lem :
    (os : List Outcome)
    → ((record_outcomes new_connection os).unreachable_turns ≡ unreached 0 os)
      × ((record_outcomes new_connection os).available ≡ (unreached 0 os == 0))
      × ((record_outcomes new_connection os).issue
          ≡ leb unreachable_issue_threshold (unreached 0 os))
record_outcomes_lem os =
    let turns = turns-record_outcomes os new_connection in
    let v =
      record_outcomes-IsConsistent os new_connection (record { shown = refl; raised = refl }) in
    (turns, v.shown ∙ ap (λ n. n == 0) turns, v.raised ∙ ap (λ n. leb 3 n) turns)

-- The availability changed.
abbrev pub changed : Connection → Connection → Bool
changed s s' = if s.available then not s'.available else s'.available

-- In a consistent state a round-trip, failed or not, sends a signal exactly if it changes the
-- availability of the entities, and asks for a reauth flow exactly if it failed on a rejected
-- credential.
pub signals-record_outcome :
    (s : Connection) (err : Exc)
    → IsConsistent s
    → ((async_record_backend_failure s err).signals
        ≡ s.signals + (if changed s (async_record_backend_failure s err) then 1 else 0))
      × ((async_record_backend_reached s).signals
          ≡ s.signals + (if changed s (async_record_backend_reached s) then 1 else 0))
      × ((async_record_backend_failure s err).reauths
          ≡ s.reauths + (if is_auth_error (class_of err) then 1 else 0))
      × ((async_record_backend_reached s).reauths ≡ s.reauths)
unfolding async_record_backend_failure async_record_backend_reached
signals-record_outcome s err h = ground arith
