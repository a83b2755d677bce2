-- ===== src/Dify/Think.antt =====
-- The filter of `<think>` blocks.
use llm_middleman.Base.{
  ℕ, zero, suc, ◌<◌, ◌≡◌, refl, inl, inr, Bool, true, false, Option, none, some, [], ◌∷◌, ◌++◌,
  arith, Bool-cases, length, length-drop, Text, starts_with,
}
use llm_middleman.Dify.{
  think_open, think_close, cons_before, split_at, Stripper, after_open, after_close, strip, feed,
}

abbrev Shrinks : ℕ → Option (Text × Text) → Type 0
Shrinks n none = Unit {0}
Shrinks n (some (before, after)) = length after < n

cons_before-Shrinks :
    (c n : ℕ) (o : Option (Text × Text)) → Shrinks n o → Shrinks (suc n) (cons_before c o)
cons_before-Shrinks c n none h = tt
cons_before-Shrinks c n (some (before, after)) h = omega arith

split_at-Shrinks : (tag text : Text) → 0 < length tag → Shrinks (length text) (split_at tag text)
unfolding split_at
split_at-Shrinks (t ∷ tag) [] h = tt
split_at-Shrinks [] text h = absurd (omega arith)
split_at-Shrinks (t ∷ tag) (c ∷ cs) h = elim (Bool-cases (starts_with (t ∷ tag) (c ∷ cs))) [
  | inl a ↦ rw (a, length-drop) (omega arith)
  | inr a ↦
      rw a (
        cons_before-Shrinks c (length cs) (split_at (t ∷ tag) cs) (split_at-Shrinks (t ∷ tag) cs h))
]

after_open-same :
    (buf : Text) (n : ℕ) (o : Option (Text × Text)) (f g : Text → Text × Stripper)
    → Shrinks n o
    → ((after : Text) → length after < n → f after ≡ g after)
    → after_open buf o f ≡ after_open buf o g
after_open-same buf n none f g h e = refl
after_open-same buf n (some (before, after)) f g h e = rw (e after h) refl

after_close-same :
    (buf : Text) (n : ℕ) (o : Option (Text × Text)) (f g : Text → Text × Stripper)
    → Shrinks n o
    → ((after : Text) → length after < n → f after ≡ g after)
    → after_close buf o f ≡ after_close buf o g
after_close-same buf n none f g h e = refl
after_close-same buf n (some (before, after)) f g h e = e after h

strip-same :
    (n m : ℕ) (buf : Text) (b : Bool)
    → length buf < n
    → length buf < m
    → strip n buf b ≡ strip m buf b
unfolding strip
strip-same zero m buf b h k = absurd (omega arith)
strip-same (suc n) zero buf b h k = absurd (omega arith)
strip-same (suc n) (suc m) [] b h k = refl
strip-same (suc n) (suc m) (c ∷ cs) false h k =
    after_open-same (c ∷ cs) (length (c ∷ cs)) (split_at think_open (c ∷ cs))
      (λ after. strip n after true) (λ after. strip m after true)
      (split_at-Shrinks think_open (c ∷ cs) (omega arith))
      (λ after less. strip-same n m after true (omega arith) (omega arith))
strip-same (suc n) (suc m) (c ∷ cs) true h k =
    after_close-same (c ∷ cs) (length (c ∷ cs)) (split_at think_close (c ∷ cs))
      (λ after. strip n after false) (λ after. strip m after false)
      (split_at-Shrinks think_close (c ∷ cs) (omega arith))
      (λ after less. strip-same n m after false (omega arith) (omega arith))

-- The loop of `feed` ends by itself: each tag that it finds shortens the buffer, and any fuel above
-- the length of the buffer gives the same text and the same state.
pub strip-feed :
    (n : ℕ) (s : Stripper) (chunk : Text)
    → length (s.buf ++ chunk) < n
    → strip n (s.buf ++ chunk) s.in_think ≡ feed s chunk
unfolding feed
strip-feed n s chunk h =
    strip-same n (suc (length (s.buf ++ chunk))) (s.buf ++ chunk) s.in_think h (omega arith)
