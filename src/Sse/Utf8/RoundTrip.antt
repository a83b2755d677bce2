-- ===== src/Sse/Utf8/RoundTrip.antt =====
-- What `encode` writes, `decode` reads.
use llm_middleman.Base.{
  ℕ, suc, ◌+◌, ◌-◌, ◌*◌, ◌/◌, ◌%◌, ◌≤◌, ◌<◌, ◌≡◌, refl, sym, ap, ◌∙◌, [], ◌∷◌, ◌++◌, append-nil,
  append_assoc, arith, ◌==◌, if◌then◌else◌, Bytes, Text,
}
use llm_middleman.Sse.Utf8.{
  ready, lead, next, decode_from, IsScalar, decode, encode_point, encode, AllScalar,
}

-- A byte of the form 10xxxxxx, the last one of a sequence, and one before it.
last_byte :
    (p lo hi b : ℕ)
    → lo ≤ b
    → b ≤ hi
    → next (record ready { wanted = 1; point = p; low = lo; high = hi }) b
      ≡ (ready, (p * 64 + (b - 0x80)) ∷ [])
unfolding next
last_byte p lo hi b h k = ground arith

inner_byte :
    (w p lo hi b : ℕ)
    → lo ≤ b
    → b ≤ hi
    → next (record ready { wanted = suc (suc w); point = p; low = lo; high = hi }) b
      ≡ (record ready { wanted = suc w; point = p * 64 + (b - 0x80) }, [])
unfolding next
inner_byte w p lo hi b h k = ground arith

one_byte : (c : ℕ) (bs : Bytes) → c < 0x80 → decode_from ready (c ∷ bs) ≡ c ∷ decode_from ready bs
unfolding decode_from next lead
one_byte c bs h = ground arith

two_bytes :
    (c : ℕ) (bs : Bytes)
    → 0x80 ≤ c
    → c < 0x800
    → decode_from ready ((0xc0 + c / 64) ∷ (0x80 + c % 64) ∷ bs) ≡ c ∷ decode_from ready bs
unfolding decode_from next lead
two_bytes c bs h k = ground (arith)

lead_three :
    (c : ℕ)
    → 0x800 ≤ c
    → c < 0x10000
    → lead (0xe0 + c / 4096) ≡ (
      record {
        wanted = 2;
        point = c / 4096;
        low = if c / 4096 == 0 then 0xa0 else 0x80;
        high = if c / 4096 == 13 then 0x9f else 0xbf;
      },
      [],
    )
unfolding lead
lead_three c h k = ground arith

lead_four :
    (c : ℕ)
    → 0x10000 ≤ c
    → c < 0x110000
    → lead (0xf0 + c / 262144) ≡ (
      record {
        wanted = 3;
        point = c / 262144;
        low = if c / 262144 == 0 then 0x90 else 0x80;
        high = if c / 262144 == 4 then 0x8f else 0xbf;
      },
      [],
    )
unfolding lead
lead_four c h k = ground arith

-- The bounds on the second byte of three, and of four.
second_of_three :
    (c : ℕ)
    → IsScalar c
    → 0x800 ≤ c
    → c < 0x10000
    → ((if c / 4096 == 0 then 0xa0 else 0x80) ≤ 0x80 + c / 64 % 64)
      × (0x80 + c / 64 % 64 ≤ (if c / 4096 == 13 then 0x9f else 0xbf))
second_of_three c s h k = ground arith

second_of_four :
    (c : ℕ)
    → 0x10000 ≤ c
    → c < 0x110000
    → ((if c / 262144 == 0 then 0x90 else 0x80) ≤ 0x80 + c / 4096 % 64)
      × (0x80 + c / 4096 % 64 ≤ (if c / 262144 == 4 then 0x8f else 0xbf))
second_of_four c h k = ground arith

three_point :
    (c : ℕ) → (c / 4096 * 64 + (0x80 + c / 64 % 64 - 0x80)) * 64 + (0x80 + c % 64 - 0x80) ≡ c
three_point c = omega arith

four_point :
    (c : ℕ)
    → ((c / 262144 * 64 + (0x80 + c / 4096 % 64 - 0x80)) * 64 + (0x80 + c / 64 % 64 - 0x80)) * 64
        + (0x80 + c % 64 - 0x80)
      ≡ c
four_point c = omega arith

starts : (b : ℕ) → next ready b ≡ lead b
unfolding next
starts b = refl

below_64 : (n : ℕ) → (0x80 ≤ 0x80 + n % 64) × (0x80 + n % 64 ≤ 0xbf)
below_64 n = omega arith

three_bytes :
    (c : ℕ) (bs : Bytes)
    → IsScalar c
    → 0x800 ≤ c
    → c < 0x10000
    → decode_from ready ((0xe0 + c / 4096) ∷ (0x80 + c / 64 % 64) ∷ (0x80 + c % 64) ∷ bs)
      ≡ c ∷ decode_from ready bs
unfolding decode_from
three_bytes c bs s h k =
    rw
      (
        starts (0xe0 + c / 4096),
        lead_three c h k,
        inner_byte 0 (c / 4096) (if c / 4096 == 0 then 0xa0 else 0x80)
            (if c / 4096 == 13 then 0x9f else 0xbf) (0x80 + c / 64 % 64) (second_of_three c s h k).0
            (second_of_three c s h k).1,
        last_byte (c / 4096 * 64 + (0x80 + c / 64 % 64 - 0x80)) 0x80 0xbf (0x80 + c % 64)
            (below_64 c).0 (below_64 c).1,
      )
      (ap (λ (n : ℕ). n ∷ decode_from ready bs) (three_point c))

four_bytes :
    (c : ℕ) (bs : Bytes)
    → 0x10000 ≤ c
    → c < 0x110000
    → decode_from ready
        ((0xf0 + c / 262144) ∷ (0x80 + c / 4096 % 64) ∷ (0x80 + c / 64 % 64) ∷ (0x80 + c % 64) ∷ bs)
      ≡ c ∷ decode_from ready bs
unfolding decode_from
four_bytes c bs h k =
    rw
      (
        starts (0xf0 + c / 262144),
        lead_four c h k,
        inner_byte 1 (c / 262144) (if c / 262144 == 0 then 0x90 else 0x80)
            (if c / 262144 == 4 then 0x8f else 0xbf) (0x80 + c / 4096 % 64) (second_of_four c h k).0
            (second_of_four c h k).1,
        inner_byte 0 (c / 262144 * 64 + (0x80 + c / 4096 % 64 - 0x80)) 0x80 0xbf
            (0x80 + c / 64 % 64) (below_64 (c / 64)).0 (below_64 (c / 64)).1,
        last_byte
            ((c / 262144 * 64 + (0x80 + c / 4096 % 64 - 0x80)) * 64 + (0x80 + c / 64 % 64 - 0x80))
            0x80 0xbf (0x80 + c % 64) (below_64 c).0 (below_64 c).1,
      )
      (ap (λ (n : ℕ). n ∷ decode_from ready bs) (four_point c))

decode_from-encode_point :
    (c : ℕ) (bs : Bytes)
    → IsScalar c
    → decode_from ready (encode_point c ++ bs) ≡ c ∷ decode_from ready bs
unfolding encode_point
decode_from-encode_point c bs s =
    ground (arith, one_byte c bs, two_bytes c bs, three_bytes c bs s, four_bytes c bs)

decode_from-encode :
    (t : Text) (bs : Bytes)
    → AllScalar t
    → decode_from ready (encode t ++ bs) ≡ t ++ decode_from ready bs
unfolding encode
decode_from-encode [] bs h = refl
decode_from-encode (c ∷ cs) bs (h, k) =
    rw (append_assoc (encode_point c) (encode cs) bs)
      (decode_from-encode_point c (encode cs ++ bs) h ∙ ap (◌∷◌ c) (decode_from-encode cs bs k))

-- A text of scalar values comes back from its UTF-8 bytes.
pub decode-encode : (t : Text) → AllScalar t → decode (encode t) ≡ t
unfolding decode decode_from
decode-encode t h =
    ap decode (sym (append-nil (encode t))) ∙ decode_from-encode t [] h ∙ append-nil t
