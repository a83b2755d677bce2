-- ===== src/History/Window.antt =====
-- What `trim_history` keeps, on every history.
use llm_middleman.Base.{
  ℕ, zero, suc, ◌+◌, ◌-◌, ◌*◌, ◌≤◌, ◌<◌, ◌≡◌, refl, ap, ◌∙◌, inl, inr, false, ◌&&◌, List, [], ◌∷◌,
  ◌++◌, arith, ltb, leb, if◌then◌else◌, Bool-cases, length, drop, last?, length-append, length-drop,
}
use llm_middleman.History.{Message, count_users, system_head, trim_history}

module _ {ℓ} {A : Type ℓ} where
  last?-drop : (n : ℕ) (xs : List A) → n < length xs → last? (drop n xs) ≡ last? xs
  last?-drop zero xs h = refl
  last?-drop (suc n) [] h = elim h [ ]
  last?-drop (suc n) (x ∷ []) h = absurd (omega arith)
  last?-drop (suc n) (x ∷ y ∷ ys) h = last?-drop n (y ∷ ys) (omega arith)

  last?-append : (xs ys : List A) → 0 < length ys → last? (xs ++ ys) ≡ last? ys
  last?-append [] ys h = refl
  last?-append (x ∷ []) [] h = elim h [ ]
  last?-append (x ∷ []) (y ∷ ys) h = refl
  last?-append (x ∷ z ∷ xs) ys h = last?-append (z ∷ xs) ys h

pub count_users-le-length : (ms : List Message) → count_users ms ≤ length ms
unfolding count_users
count_users-le-length [] = omega arith
count_users-le-length (m ∷ ms) = ground (arith, count_users-le-length ms)

length-system_head : (ms : List Message) → length (system_head ms) ≤ 1
unfolding system_head
length-system_head [] = omega arith
length-system_head (m ∷ ms) = ground arith

-- How many messages the slice leaves out.
abbrev pub cut : ℕ → ℕ → ℕ
cut len keep = if leb keep len then len - keep else len - (keep - len)

-- A history with more user messages than `max_history` becomes the system prompt and a suffix of it.
pub trim_history-cut :
    (ms : List Message) (m : ℕ)
    → 0 < m
    → m < count_users ms
    → trim_history ms m ≡ system_head ms ++ drop (cut (length ms) (2 * m + 1)) ms
unfolding trim_history
trim_history-cut ms m p h = elim (Bool-cases (leb (2 * m + 1) (length ms))) [
  | inl a ↦ ground arith
  | inr a ↦
      let e : suc (2 * m + 1 - length ms - 1) ≡ 2 * m + 1 - length ms = ground arith in
      ground (arith, ap (λ (k : ℕ). drop (length ms - k) ms) e)
]

pub trim_history-same :
    (ms : List Message) (m : ℕ)
    → (ltb 0 m && ltb m (count_users ms)) ≡ false
    → trim_history ms m ≡ ms
unfolding trim_history
trim_history-same ms m h = ground arith

-- Trimming never drops the message that is being answered: the last message stays the last, with any
-- history and any `max_history`.
pub last?-trim_history : (ms : List Message) (m : ℕ) → last? (trim_history ms m) ≡ last? ms
last?-trim_history ms m = elim (Bool-cases (ltb 0 m && ltb m (count_users ms))) [
  | inl a ↦
      let keep : cut (length ms) (2 * m + 1) < length ms =
        ground (arith, count_users-le-length ms) in
      rw (trim_history-cut ms m (ground arith) (ground arith))
        (last?-append (system_head ms) _ (rw length-drop (omega arith)) ∙ last?-drop _ ms keep)
  | inr a ↦ ap last? (trim_history-same ms m a)
]

-- A history with more user messages than a positive max_history is trimmed to at most the system
-- prompt and 2 * max_history + 1 messages.
pub length-trim_history :
    (ms : List Message) (m : ℕ)
    → 0 < m
    → m < count_users ms
    → length (trim_history ms m) ≤ 2 * m + 2
length-trim_history ms m p h =
    rw (trim_history-cut ms m p h, length-append, length-drop)
      (ground (arith, length-system_head ms, count_users-le-length ms))
