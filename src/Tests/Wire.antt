-- ===== src/Tests/Wire.antt =====
-- What a server writes, read back at a concrete input.
use llm_middleman.Base.{◌≡◌, refl, inl, List, [], ◌∷◌, arith, drop, take, codes}
use llm_middleman.Sse.{ServerSentEvent, async_iter_sse}
use llm_middleman.Sse.Wire
use llm_middleman.Sse.Utf8.{encode}
use llm_middleman.Sse.Wire
use llm_middleman.Sse.Wire.{write, AllSendable}
use llm_middleman.Sse.Wire.RoundTrip.{async_iter_sse-write, ascii_scalar}

-- An event whose payload has an `é` and two lines, and one with an empty payload.
abbrev sent : List ServerSentEvent
sent =
    record { event = codes "message"; payload = 0xe9 ∷ b'\n' ∷ codes "b" }
    ∷ record { event = codes "done"; payload = [] }
    ∷ []

sent-AllSendable : AllSendable 20 sent
unfolding encode Wire.split_payload
sent-AllSendable = (
  (
    ascii_scalar (codes "message") refl,
    (inl (omega arith), ascii_scalar (b'\n' ∷ codes "b") refl),
    refl,
    refl,
    refl,
  ),
  ((ascii_scalar (codes "done") refl, tt, refl, refl, refl), tt),
)

async_iter_sse-write_example :
    async_iter_sse 20 (take 17 (write sent) ∷ drop 17 (write sent) ∷ []) ≡ sent
unfolding write encode
async_iter_sse-write_example =
    async_iter_sse-write 20 sent (take 17 (write sent) ∷ drop 17 (write sent) ∷ []) sent-AllSendable
      refl
