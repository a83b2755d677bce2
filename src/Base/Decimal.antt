-- ===== src/Base/Decimal.antt =====
-- `str(n)` of a number: its decimal digits.
use Prim.Native.Nat.{ℕ, zero, suc, ◌+◌, ◌/◌, ◌%◌}
use mathlib.Core.List.{[], ◌∷◌, ◌++◌}
use llm_middleman.Base.Tests.{ltb, if◌then◌else◌}
use llm_middleman.Base.Str.{Text}

-- A number has at most as many digits as one more than its value, the fuel that `decimal` gives.
digits : ℕ → ℕ → Text
digits zero n = []
digits (suc fuel) n =
    let rest = digits fuel (n / 10) in
    if ltb n 10 then (b'0' + n) ∷ [] else rest ++ (b'0' + n % 10) ∷ []

unfoldable pub decimal : ℕ → Text
unfolding digits
decimal n = digits (suc n) n
