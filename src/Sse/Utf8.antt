-- ===== src/Sse/Utf8.antt =====
-- `bytes.decode("utf-8", errors="replace")` of Python's `str` type: a malformed sequence gives one
-- U+FFFD for each of its maximal subparts, and never raises. `encode` is `str.encode("utf-8")`.
pub mod RoundTrip
use llm_middleman.Base.{
  ℕ, ◌+◌, ◌-◌, ◌*◌, ◌/◌, ◌%◌, ◌<◌, ◌⊎◌, Bool, ◌&&◌, [], ◌∷◌, ◌++◌, ltb, leb, ◌==◌, if◌then◌else◌,
  Bytes, Text,
}

-- What is still wanted of a sequence: its number of bytes, the code point so far, and the range that
-- the next byte must lie in.
pub record Pending : Type 0 where
  pub wanted : ℕ
  pub point : ℕ
  pub low : ℕ
  pub high : ℕ

abbrev pub ready : Pending
ready = record { wanted = 0; point = 0; low = 0x80; high = 0xbf }

abbrev pub replacement : ℕ
replacement = 0xfffd

abbrev within : ℕ → ℕ → ℕ → Bool
within lo hi b = leb lo b && leb b hi

-- The first byte of a sequence.
pub lead : ℕ → Pending × Text
lead b =
    if ltb b 0x80
    then (ready, b ∷ [])
    else if within 0xc2 0xdf b
    then (record ready { wanted = 1; point = b - 0xc0 }, [])
    else if within 0xe0 0xef b
    then (
      record {
        wanted = 2;
        point = b - 0xe0;
        low = if b == 0xe0 then 0xa0 else 0x80;
        high = if b == 0xed then 0x9f else 0xbf;
      },
      [],
    )
    else if within 0xf0 0xf4 b
    then (
      record {
        wanted = 3;
        point = b - 0xf0;
        low = if b == 0xf0 then 0x90 else 0x80;
        high = if b == 0xf4 then 0x8f else 0xbf;
      },
      [],
    )
    else (ready, replacement ∷ [])

-- A byte that does not continue the sequence replaces what was read of it, and starts anew.
pub next : Pending → ℕ → Pending × Text
unfolding lead
next p b =
    if p.wanted == 0
    then lead b
    else if within p.low p.high b
    then if p.wanted == 1
      then (ready, (p.point * 64 + (b - 0x80)) ∷ [])
      else (record ready { wanted = p.wanted - 1; point = p.point * 64 + (b - 0x80) }, [])
    else (let (q, out) = lead b in (q, replacement ∷ out))

unfoldable pub decode_from : Pending → Bytes → Text
unfolding next
decode_from p [] = if p.wanted == 0 then [] else replacement ∷ []
decode_from p (b ∷ bs) = let (q, out) = next p b in out ++ decode_from q bs

unfoldable pub decode : Bytes → Text
unfolding decode_from
decode bs = decode_from ready bs

unfoldable pub encode_point : ℕ → Bytes
encode_point c =
    if ltb c 0x80
    then c ∷ []
    else if ltb c 0x800
    then (0xc0 + c / 64) ∷ (0x80 + c % 64) ∷ []
    else if ltb c 0x10000
    then (0xe0 + c / 4096) ∷ (0x80 + c / 64 % 64) ∷ (0x80 + c % 64) ∷ []
    else (0xf0 + c / 262144) ∷ (0x80 + c / 4096 % 64) ∷ (0x80 + c / 64 % 64) ∷ (0x80 + c % 64) ∷ []

unfoldable pub encode : Text → Bytes
unfolding encode_point
encode [] = []
encode (c ∷ cs) = encode_point c ++ encode cs

-- A code point that is no surrogate.
abbrev pub IsScalar : ℕ → Type 0
IsScalar c = (c < 0xd800) ⊎ ((0xdfff < c) × (c < 0x110000))

abbrev pub AllScalar : Text → Type 0
AllScalar [] = Unit {0}
AllScalar (c ∷ cs) = IsScalar c × AllScalar cs
