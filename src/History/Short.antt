-- ===== src/History/Short.antt =====
-- Histories for which the slice index of `trim_history` is not positive.
use llm_middleman.Base.{
  ℕ, ◌+◌, ◌-◌, ◌*◌, ◌≤◌, ◌<◌, ◌≡◌, ap, true, List, ◌∷◌, ◌++◌, arith, length, drop, length-drop,
}
use llm_middleman.History.{Message, count_users, has_role, system_head, trim_history}
use llm_middleman.History.Window.{count_users-le-length, cut, trim_history-cut}

-- For a positive max_history, a history that is shorter than the window of 2 * max_history + 1
-- messages, and has more than max_history user messages, is cut all the same, to its last 2 *
-- max_history + 1 - length messages behind the system prompt, which are at most max_history.
pub trim_history_short :
    (ms : List Message) (m : ℕ)
    → 0 < m
    → m < count_users ms
    → length ms < 2 * m + 1
    → (trim_history ms m ≡ system_head ms ++ drop (2 * length ms - (2 * m + 1)) ms)
      × (length (drop (2 * length ms - (2 * m + 1)) ms) ≤ m)
trim_history_short ms m p h short = (
  rw (trim_history-cut ms m p h)
      (ap (λ k. system_head ms ++ drop k ms) (ground (arith, count_users-le-length ms))),
  rw length-drop (omega (arith, count_users-le-length ms)),
)

-- For a positive max_history, a history of exactly the length of the window that has more user
-- messages than max_history and starts with the system prompt comes back with that
-- prompt twice.
pub trim_history_twice :
    (s : Message) (ms : List Message) (m : ℕ)
    → 0 < m
    → m < count_users (s ∷ ms)
    → length (s ∷ ms) ≡ 2 * m + 1
    → has_role "system" s ≡ true
    → trim_history (s ∷ ms) m ≡ s ∷ s ∷ ms
unfolding system_head
trim_history_twice s ms m p h e r =
    rw (trim_history-cut (s ∷ ms) m p h, r)
      (let none_cut : cut (length (s ∷ ms)) (2 * m + 1) ≡ 0 = ground arith in
        ap (λ k. s ∷ drop k (s ∷ ms)) none_cut)
