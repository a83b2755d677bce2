-- ===== src/Base/White.antt =====
-- White space as Python's `str` reads it: `lstrip`, `rstrip` and `strip`.
use Prim.Native.Nat.{ℕ}
use mathlib.Core.Bool.{Bool, ◌&&◌, ◌||◌}
use mathlib.Core.List.{[], ◌∷◌}
use llm_middleman.Base.Tests.{leb, ◌==◌, if◌then◌else◌}
use llm_middleman.Base.Lists.{is_empty}
use llm_middleman.Base.Str.{Text}

-- `str.isspace`, of one character.
abbrev pub is_white : ℕ → Bool
is_white c =
    (leb 9 c && leb c 13)
    || (leb 28 c && leb c 32)
    || c == 133
    || c == 160
    || c == 5760
    || (leb 8192 c && leb c 8202)
    || c == 8232
    || c == 8233
    || c == 8239
    || c == 8287
    || c == 12288

-- `text.lstrip()`
unfoldable pub lstrip : Text → Text
lstrip [] = []
lstrip (c ∷ cs) = let rest = lstrip cs in if is_white c then rest else c ∷ cs

-- `text.rstrip()`
unfoldable pub rstrip : Text → Text
rstrip [] = []
rstrip (c ∷ cs) = let rest = rstrip cs in if is_empty rest && is_white c then [] else c ∷ rest

-- `text.strip()`
unfoldable pub strip_text : Text → Text
unfolding rstrip
strip_text t = lstrip (rstrip t)
