-- ===== src/Sse/Wire/RoundTrip.antt =====
-- What a server writes, `async_iter_sse` reads back.
use llm_middleman.Base.{
  ℕ, ◌≡◌, refl, sym, ap, ◌∙◌, inl, inr, true, false, not, List, [], ◌∷◌, ◌++◌, map, append-nil,
  append_assoc, arith, ltb, ==_iff, Bool-cases, filter, all, concat, all-append, Bytes, Text, codes,
  text_eq,
}
use llm_middleman.Sse.{
  ServerSentEvent, Frame, new_frame, join_lines, partition_colon, strip_space, set_field, dispatch,
  handle_text, handle_line, yield_event, is_lf, is_cr, async_iter_sse,
}
use llm_middleman.Sse.Utf8.{encode_point, encode, AllScalar}
use llm_middleman.Sse.Utf8.RoundTrip.{decode-encode}
use llm_middleman.Sse.Reference.{split_sse, fits, handle_lines, events_of}
use llm_middleman.Sse.Framing.{async_iter_sse-events_of}
use llm_middleman.Sse.Wire.{
  split_payload, data_line, event_lines, stream_lines, write_lines, write, is_break, is_line,
  IsSendable, AllSendable,
}

encode_point-is_line : (c : ℕ) → not (is_break c) ≡ true → is_line (encode_point c) ≡ true
unfolding encode_point
encode_point-is_line c h = ground arith

encode-is_line : (t : Text) → is_line t ≡ true → is_line (encode t) ≡ true
unfolding encode
encode-is_line [] h = refl
encode-is_line (c ∷ cs) h =
    all-append (λ b. not (is_break b)) (encode_point c) (encode cs)
      (encode_point-is_line c (ground arith)) (encode-is_line cs (ground arith))

-- A line is split off where its LF stands.
split_sse-line :
    (acc line rest : Bytes)
    → is_line line ≡ true
    → split_sse acc false (line ++ b'\n' ∷ rest) ≡ (acc ++ line) ∷ split_sse [] false rest
unfolding split_sse
split_sse-line acc [] rest h = rw (append-nil acc) refl
split_sse-line acc (c ∷ cs) rest h =
    ground (arith, split_sse-line (acc ++ c ∷ []) cs rest, append_assoc acc (c ∷ []) cs)

-- Lines of scalar values without breaks.
abbrev AllLines : List Text → Type 0
AllLines [] = Unit {0}
AllLines (t ∷ ts) = AllScalar t × (is_line t ≡ true) × AllLines ts

split_sse-write_lines :
    (ts : List Text) → AllLines ts → split_sse [] false (write_lines ts) ≡ map encode ts
unfolding write_lines split_sse
split_sse-write_lines [] h = refl
split_sse-write_lines (t ∷ ts) (_, h, k) =
    split_sse-line [] (encode t) (write_lines ts) (encode-is_line t h)
    ∙ ap (◌∷◌ (encode t)) (split_sse-write_lines ts k)

-- What the frames come to on the lines as texts.
unfoldable handle_texts : Frame → List Text → List ServerSentEvent
handle_texts f [] = []
handle_texts f (t ∷ ts) =
    let (f', event) = handle_text f t in yield_event event (handle_texts f' ts)

handle_lines-encode :
    (f : Frame) (ts : List Text) → AllLines ts → handle_lines f (map encode ts) ≡ handle_texts f ts
unfolding handle_lines handle_texts handle_line
handle_lines-encode f [] h = refl
handle_lines-encode f (t ∷ ts) (s, _, k) =
    rw (decode-encode t s, handle_lines-encode (handle_text f t).0 ts k) refl

filter-fits :
    (max_bytes : ℕ) (ts : List Text)
    → all (λ t. fits max_bytes (encode t)) ts ≡ true
    → filter (fits max_bytes) (map encode ts) ≡ map encode ts
filter-fits max_bytes [] h = refl
filter-fits max_bytes (t ∷ ts) h = ground (arith, filter-fits max_bytes ts)

handle_texts-data :
    (f : Frame) (lines ts : List Text)
    → handle_texts f (map data_line lines ++ ts)
      ≡ handle_texts (record f { data_values = f.data_values ++ lines }) ts
unfolding handle_texts handle_text partition_colon strip_space set_field text_eq
handle_texts-data f [] ts = rw (append-nil f.data_values) refl
handle_texts-data f (l ∷ ls) ts =
    handle_texts-data (record f { data_values = f.data_values ++ l ∷ [] }) ls ts
    ∙ rw (append_assoc f.data_values (l ∷ []) ls) refl

join_lines-cons :
    (c : ℕ) (l : Text) (ls : List Text) → join_lines ((c ∷ l) ∷ ls) ≡ c ∷ join_lines (l ∷ ls)
unfolding join_lines
join_lines-cons c l [] = refl
join_lines-cons c l (m ∷ ls) = refl

join_lines-split_payload : (t : Text) → join_lines ((split_payload t).0 ∷ (split_payload t).1) ≡ t
unfolding split_payload join_lines
join_lines-split_payload [] = refl
join_lines-split_payload (c ∷ cs) = elim (Bool-cases (is_lf c)) [
  | inl e ↦ rw e (
      ap (◌∷◌ b'\n') (join_lines-split_payload cs)
      ∙ ap (λ (n : ℕ). n ∷ cs) (sym ((==_iff c b'\n').0 e)))
  | inr e ↦ rw e (
      join_lines-cons c (split_payload cs).0 (split_payload cs).1
      ∙ ap (◌∷◌ c) (join_lines-split_payload cs))
]

handle_texts-event :
    (e : ServerSentEvent) (ts : List Text)
    → handle_texts new_frame (event_lines e ++ ts) ≡ e ∷ handle_texts new_frame ts
unfolding handle_texts handle_text partition_colon strip_space set_field dispatch text_eq
handle_texts-event e ts =
    let f : Frame = record {
      data_values = (split_payload e.payload).0 ∷ [];
      event_type = e.event;
    } in
    rw (append_assoc (map data_line (split_payload e.payload).1) ([] ∷ []) ts) (
      handle_texts-data f (split_payload e.payload).1 ([] ∷ ts)
      ∙ rw (join_lines-split_payload e.payload) refl)

handle_texts-stream_lines :
    (es : List ServerSentEvent) → handle_texts new_frame (stream_lines es) ≡ es
unfolding stream_lines handle_texts
handle_texts-stream_lines [] = refl
handle_texts-stream_lines (e ∷ es) =
    handle_texts-event e (stream_lines es) ∙ ap (◌∷◌ e) (handle_texts-stream_lines es)

AllScalar-append : (s t : Text) → AllScalar s → AllScalar t → AllScalar (s ++ t)
AllScalar-append [] t h k = k
AllScalar-append (c ∷ cs) t (h, h') k = (h, AllScalar-append cs t h' k)

pub ascii_scalar : (t : Text) → all (λ c. ltb c 128) t ≡ true → AllScalar t
ascii_scalar [] h = tt
ascii_scalar (c ∷ cs) h = (inl (ground arith), ascii_scalar cs (ground arith))

AllLines-append : (ss ts : List Text) → AllLines ss → AllLines ts → AllLines (ss ++ ts)
AllLines-append [] ts h k = k
AllLines-append (t ∷ ss) ts (s, l, h) k = (s, l, AllLines-append ss ts h k)

data_line-AllLines : (ls : List Text) → AllLines ls → AllLines (map data_line ls)
data_line-AllLines [] h = tt
data_line-AllLines (l ∷ ls) (s, b, h) = (
  AllScalar-append (codes "data: ") l (ascii_scalar (codes "data: ") refl) s,
  all-append (λ c. not (is_break c)) (codes "data: ") l refl b,
  data_line-AllLines ls h,
)

-- The lines of a payload are lines.
split_payload-AllLines :
    (t : Text)
    → AllScalar t
    → all (λ c. not (is_cr c)) t ≡ true
    → AllLines ((split_payload t).0 ∷ (split_payload t).1)
unfolding split_payload
split_payload-AllLines [] s h = (tt, refl, tt)
split_payload-AllLines (c ∷ cs) (s, s') h =
    let (scalar, line, lines) = split_payload-AllLines cs s' (ground arith) in
    elim (Bool-cases (is_lf c)) [
      | inl e ↦ rw e (tt, refl, (scalar, line, lines))
      | inr e ↦ rw e ((s, scalar), ground arith, lines)
    ]

event_lines-AllLines :
    (max_bytes : ℕ) (e : ServerSentEvent) → IsSendable max_bytes e → AllLines (event_lines e)
event_lines-AllLines max_bytes e (s, s', l, n, fit) =
    let (first, line, lines) =
      data_line-AllLines ((split_payload e.payload).0 ∷ (split_payload e.payload).1)
        (split_payload-AllLines e.payload s' n) in
    (
      AllScalar-append (codes "event: ") e.event (ascii_scalar (codes "event: ") refl) s,
      all-append (λ c. not (is_break c)) (codes "event: ") e.event refl l,
      (
        first,
        line,
        AllLines-append (map data_line (split_payload e.payload).1) ([] ∷ []) lines (tt, refl, tt),
      ),
    )

stream_lines-AllLines :
    (max_bytes : ℕ) (es : List ServerSentEvent)
    → AllSendable max_bytes es
    → AllLines (stream_lines es) × (all (λ t. fits max_bytes (encode t)) (stream_lines es) ≡ true)
unfolding stream_lines
stream_lines-AllLines max_bytes [] h = (tt, refl)
stream_lines-AllLines max_bytes (e ∷ es) (h, k) =
    let (lines, fit) = stream_lines-AllLines max_bytes es k in
    (
      AllLines-append (event_lines e) (stream_lines es) (event_lines-AllLines max_bytes e h) lines,
      all-append (λ t. fits max_bytes (encode t)) (event_lines e) (stream_lines es) h.4 fit,
    )

-- However the bytes that a server writes for some events are cut into chunks, `async_iter_sse`
-- yields those events, in their order, if their texts are scalar values, there is no line break in
-- a type and no CR in a payload, and no line is over the cap.
pub async_iter_sse-write :
    (max_bytes : ℕ) (es : List ServerSentEvent) (chunks : List Bytes)
    → AllSendable max_bytes es
    → concat chunks ≡ write es
    → async_iter_sse max_bytes chunks ≡ es
unfolding write events_of
async_iter_sse-write max_bytes es chunks h cut =
    let (lines, fit) = stream_lines-AllLines max_bytes es h in
    async_iter_sse-events_of max_bytes chunks
    ∙ rw
        (
          cut,
          split_sse-write_lines (stream_lines es) lines,
          filter-fits max_bytes (stream_lines es) fit,
        )
        (handle_lines-encode new_frame (stream_lines es) lines ∙ handle_texts-stream_lines es)
