-- ===== src/Sse.antt =====
-- backends/_sse.py: the framers of a raw byte stream. `async_iter_sse` here, `async_iter_lines` in
-- Sse/Ndjson, `bytes.decode("utf-8", errors="replace")` in Sse/Utf8. The proofs are in the modules
-- below. The byte stream is the list of its chunks; a framer is a state that each chunk changes and
-- that yields events. What is logged is not modelled.
pub mod Utf8
pub mod Ndjson
pub mod Reference
pub mod Buffering
pub mod Framing
pub mod Lines
pub mod Wire
use llm_middleman.Base.{
  ℕ, Bool, true, false, ◌&&◌, ◌||◌, Option, none, some, List, [], ◌∷◌, ◌++◌, ltb, ◌==◌,
  if◌then◌else◌, length, is_empty, Bytes, Text, codes, ◌is◌,
}
use llm_middleman.Sse.Utf8.{decode}

pub record ServerSentEvent : Type 0 where
  pub event : Text
  pub payload : Text

abbrev pub max_line_bytes : ℕ
max_line_bytes = 65536

-- `data_values` and `event_type`, the variables that `_handle_line` writes.
pub record Frame : Type 0 where
  pub data_values : List Text
  pub event_type : Text

abbrev pub new_frame : Frame
new_frame = record { data_values = []; event_type = codes "message" }

-- `"\n".join(values)`
unfoldable pub join_lines : List Text → Text
join_lines [] = []
join_lines (v ∷ []) = v
join_lines (v ∷ w ∷ vs) = v ++ b'\n' ∷ join_lines (w ∷ vs)

-- `line.partition(":")` without the separator: what stands before the first colon, and after it.
unfoldable pub partition_colon : Text → Text × Text
partition_colon [] = ([], [])
partition_colon (c ∷ cs) =
    let (field, value) = partition_colon cs in if c == b':' then ([], cs) else (c ∷ field, value)

unfoldable pub strip_space : Text → Text
strip_space [] = []
strip_space (c ∷ cs) = if c == b' ' then cs else c ∷ cs

-- A blank line dispatches what the frame has gathered, if that is anything.
unfoldable pub dispatch : Frame → Option ServerSentEvent
dispatch f =
    if is_empty f.data_values
    then none
    else some (record { event = f.event_type; payload = join_lines f.data_values })

unfoldable pub set_field : Frame → Text → Text → Frame
set_field f field value =
    if field is "event"
    then record f { event_type = value }
    else if field is "data"
    then record f { data_values = f.data_values ++ value ∷ [] }
    else f

-- `_handle_line` behind the decoding.
unfoldable pub handle_text : Frame → Text → Frame × Option ServerSentEvent
unfolding dispatch set_field partition_colon strip_space
handle_text f [] = (new_frame, dispatch f)
handle_text f (c ∷ cs) =
    if c == b':'
    then (f, none)
    else let (field, value) = partition_colon (c ∷ cs) in
      (set_field f field (strip_space value), none)

unfoldable pub handle_line : Frame → Bytes → Frame × Option ServerSentEvent
unfolding handle_text decode
handle_line f raw = handle_text f (decode raw)

pub record Framer : Type 0 where
  pub line_buf : Bytes
  pub frame : Frame
  pub prev_was_cr : Bool
  pub line_overflowed : Bool

abbrev pub initial : Framer
initial = record { line_buf = []; frame = new_frame; prev_was_cr = false; line_overflowed = false }

-- `if event is not None: yield event`
abbrev pub yield_event : Option ServerSentEvent → List ServerSentEvent → List ServerSentEvent
yield_event none events = events
yield_event (some e) events = e ∷ events

-- The body of the loop over the terminators of a chunk: `segment` is `chunk[pos:match.start()]`, and
-- `ends_in_cr` says that the chunk ends in this match and the match is a lone CR. After `_overflow`
-- the buffer is cleared and the flag reset at once, so a line over the cap is skipped.
unfoldable pub end_line : ℕ → Framer → Bytes → Bool → Framer × Option ServerSentEvent
unfolding handle_line
end_line max_bytes s segment ends_in_cr =
    let raw = s.line_buf ++ segment in
    let (frame, event) =
      if s.line_overflowed
      then (s.frame, none)
      else if ltb max_bytes (length raw)
      then (s.frame, none)
      else handle_line s.frame raw in
    (
      record { line_buf = []; frame = frame; prev_was_cr = ends_in_cr; line_overflowed = false },
      event,
    )

-- What follows the last terminator of a chunk is buffered up to the cap.
unfoldable pub keep_rest : ℕ → Framer → Bytes → Framer
keep_rest max_bytes s rest =
    if s.line_overflowed || is_empty rest
    then s
    else if ltb max_bytes (length (s.line_buf ++ rest))
    then record s { line_buf = []; line_overflowed = true }
    else record s { line_buf = s.line_buf ++ rest }

abbrev pub is_lf : ℕ → Bool
is_lf c = c == b'\n'

abbrev pub is_cr : ℕ → Bool
is_cr c = c == b'\r'

-- The loop over the matches of `\r\n?|\n` in a chunk, read byte by byte: `segment` has what was read
-- since the last match, and `in_crlf` says that the byte before was a CR, so that an LF here belongs
-- to the same match.
unfoldable pub scan : ℕ → Framer → Bool → Bytes → Bytes → Framer × List ServerSentEvent
scan max_bytes s in_crlf segment [] = (keep_rest max_bytes s segment, [])
scan max_bytes s in_crlf segment (c ∷ cs) =
    let (s', event) = end_line max_bytes s segment (is_cr c && is_empty cs) in
    let after_lf = scan max_bytes s false [] cs in
    let (t, events) = scan max_bytes s' (is_cr c) [] cs in
    let in_line = scan max_bytes s false (segment ++ c ∷ []) cs in
    if in_crlf && is_lf c
    then after_lf
    else if is_cr c || is_lf c
    then (t, yield_event event events)
    else in_line

unfoldable pub on_chunk : ℕ → Framer → Bytes → Framer × List ServerSentEvent
unfolding scan
on_chunk max_bytes s [] = (s, [])
on_chunk max_bytes s (c ∷ cs) =
    let s' = record s { prev_was_cr = false } in
    if s.prev_was_cr && is_lf c
    then scan max_bytes s' false [] cs
    else scan max_bytes s' false [] (c ∷ cs)

unfoldable pub iter_sse_from : ℕ → Framer → List Bytes → List ServerSentEvent
unfolding on_chunk
iter_sse_from max_bytes s [] = []
iter_sse_from max_bytes s (chunk ∷ chunks) =
    let (s', events) = on_chunk max_bytes s chunk in events ++ iter_sse_from max_bytes s' chunks

-- At the end of the stream neither an unterminated line nor an undispatched frame is emitted.
unfoldable pub async_iter_sse : ℕ → List Bytes → List ServerSentEvent
unfolding iter_sse_from
async_iter_sse max_bytes chunks = iter_sse_from max_bytes initial chunks
