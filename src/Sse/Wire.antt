-- ===== src/Sse/Wire.antt =====
-- How a server writes events: the lines of an event stream, as the HTML standard describes them.
pub mod RoundTrip
use llm_middleman.Base.{
  ℕ, ◌≡◌, Bool, true, not, ◌||◌, List, [], ◌∷◌, ◌++◌, map, if◌then◌else◌, all, Bytes, Text, codes,
}
use llm_middleman.Sse.{ServerSentEvent, is_lf, is_cr}
use llm_middleman.Sse.Utf8.{encode, AllScalar}
use llm_middleman.Sse.Reference.{fits}

-- The lines of a payload: the first, and the others.
unfoldable pub split_payload : Text → Text × List Text
split_payload [] = ([], [])
split_payload (c ∷ cs) =
    let (line, lines) = split_payload cs in
    if is_lf c then ([], line ∷ lines) else (c ∷ line, lines)

abbrev pub data_line : Text → Text
data_line line = codes "data: " ++ line

-- The lines of an event: its type, one for each line of its payload, and a blank one.
abbrev pub event_lines : ServerSentEvent → List Text
event_lines e =
    (codes "event: " ++ e.event)
    ∷ data_line (split_payload e.payload).0
    ∷ (map data_line (split_payload e.payload).1 ++ [] ∷ [])

unfoldable pub stream_lines : List ServerSentEvent → List Text
unfolding split_payload
stream_lines [] = []
stream_lines (e ∷ es) = event_lines e ++ stream_lines es

-- Each line in UTF-8, with an LF behind it.
unfoldable pub write_lines : List Text → Bytes
write_lines [] = []
write_lines (t ∷ ts) = encode t ++ b'\n' ∷ write_lines ts

unfoldable pub write : List ServerSentEvent → Bytes
unfolding stream_lines write_lines
write es = write_lines (stream_lines es)

abbrev pub is_break : ℕ → Bool
is_break c = is_cr c || is_lf c

abbrev pub is_line : List ℕ → Bool
is_line t = all (λ c. not (is_break c)) t

-- An event that a stream can carry to a framer with this cap: scalar values; no line break in its
-- type and no CR in its payload; and no line over the cap.
abbrev pub IsSendable : ℕ → ServerSentEvent → Type 0
IsSendable max_bytes e =
    AllScalar e.event
    × AllScalar e.payload
    × (is_line e.event ≡ true)
    × (all (λ c. not (is_cr c)) e.payload ≡ true)
    × (all (λ t. fits max_bytes (encode t)) (event_lines e) ≡ true)

abbrev pub AllSendable : ℕ → List ServerSentEvent → Type 0
AllSendable max_bytes [] = Unit {0}
AllSendable max_bytes (e ∷ es) = IsSendable max_bytes e × AllSendable max_bytes es
