-- ===== src/Url/Laws.antt =====
-- How the slashes and the suffixes of a URL come off.
use llm_middleman.Base.{
  ℕ, zero, suc, ◌≡◌, refl, ap, inl, inr, true, false, some, [], ◌∷◌, ◌++◌, arith, Bool-cases,
  length, is_empty, length-append, Text, text_eq, text_eq_iff, text_eq_refl,
}
use llm_middleman.Url.{rstrip_slash, without_suffix, ends_with_text, removesuffix}

-- A text of slashes.
abbrev pub slashes : ℕ → Text
slashes zero = []
slashes (suc n) = b'/' ∷ slashes n

rstrip_slash-slashes : (n : ℕ) → rstrip_slash (slashes n) ≡ []
unfolding rstrip_slash
rstrip_slash-slashes zero = refl
rstrip_slash-slashes (suc n) = rw (rstrip_slash-slashes n) refl

-- Slashes at the end are not seen.
pub rstrip_slash-append : (t : Text) (n : ℕ) → rstrip_slash (t ++ slashes n) ≡ rstrip_slash t
unfolding rstrip_slash
rstrip_slash-append [] n = rstrip_slash-slashes n
rstrip_slash-append (c ∷ cs) n = rw (rstrip_slash-append cs n) refl

is_empty-append : (t u : Text) → is_empty u ≡ false → is_empty (t ++ u) ≡ false
is_empty-append [] u h = h
is_empty-append (c ∷ cs) u h = refl

-- What ends in a text that has no slash to strip has none either.
pub rstrip_slash-kept :
    (t u : Text) → rstrip_slash u ≡ u → is_empty u ≡ false → rstrip_slash (t ++ u) ≡ t ++ u
unfolding rstrip_slash
rstrip_slash-kept [] u h k = h
rstrip_slash-kept (c ∷ cs) u h k =
    rw (rstrip_slash-kept cs u h k) (rw (is_empty-append cs u k) refl)

-- A text is not equal to a proper suffix of it.
text_eq-suffix : (c : ℕ) (t suffix : Text) → text_eq (c ∷ (t ++ suffix)) suffix ≡ false
text_eq-suffix c t suffix = elim (Bool-cases (text_eq (c ∷ (t ++ suffix)) suffix)) [
  | inl e ↦
      let same = ap length ((text_eq_iff (c ∷ (t ++ suffix)) suffix).0 e) in
      absurd (omega (arith, same, length-append t suffix))
  | inr e ↦ e
]

without_suffix-append : (suffix t : Text) → without_suffix suffix (t ++ suffix) ≡ some t
unfolding without_suffix
without_suffix-append [] [] = refl
without_suffix-append (c ∷ cs) [] = rw (text_eq_refl (c ∷ cs)) refl
without_suffix-append suffix (c ∷ t) =
    rw (text_eq-suffix c t suffix, without_suffix-append suffix t) refl

pub removesuffix-append : (suffix t : Text) → removesuffix suffix (t ++ suffix) ≡ t
unfolding removesuffix
removesuffix-append suffix t = rw (without_suffix-append suffix t) refl

pub ends_with_text-append : (suffix t : Text) → ends_with_text suffix (t ++ suffix) ≡ true
unfolding ends_with_text
ends_with_text-append suffix t = rw (without_suffix-append suffix t) refl

pub removesuffix-none :
    (suffix t : Text) → ends_with_text suffix t ≡ false → removesuffix suffix t ≡ t
unfolding removesuffix ends_with_text
removesuffix-none suffix t h = ground arith
