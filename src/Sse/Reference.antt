-- ===== src/Sse/Reference.antt =====
-- What the framers are to do, with no chunks, no buffer and no flags of the code: split the whole
-- stream into lines, leave out those over the cap, and handle the rest in order.
use llm_middleman.Base.{
  ℕ, Bool, false, not, ◌&&◌, ◌||◌, List, [], ◌∷◌, ◌++◌, ltb, ◌==◌, if◌then◌else◌, length, is_empty,
  filter, Bytes,
}
use llm_middleman.Sse.{ServerSentEvent, Frame, new_frame, handle_line, yield_event, is_lf, is_cr}

-- `line` is what was read of the current line; `after_cr` says that the byte before was a CR.
unfoldable pub split_sse : Bytes → Bool → Bytes → List Bytes
split_sse line after_cr [] = []
split_sse line after_cr (c ∷ cs) =
    let skipped = split_sse [] false cs in
    let ended = split_sse [] (is_cr c) cs in
    let in_line = split_sse (line ++ c ∷ []) false cs in
    if after_cr && is_lf c then skipped else if is_cr c || is_lf c then line ∷ ended else in_line

abbrev pub fits : ℕ → Bytes → Bool
fits max_bytes line = not (ltb max_bytes (length line))

unfoldable pub handle_lines : Frame → List Bytes → List ServerSentEvent
handle_lines f [] = []
handle_lines f (line ∷ lines) =
    let (f', event) = handle_line f line in yield_event event (handle_lines f' lines)

-- The events of a whole stream.
unfoldable pub events_of : ℕ → Bytes → List ServerSentEvent
unfolding split_sse handle_lines
events_of max_bytes bytes =
    handle_lines new_frame (filter (fits max_bytes) (split_sse [] false bytes))

-- The lines of a whole NDJSON stream, the unterminated last one included if it is not empty and the
-- stream completes.
unfoldable pub split_lf : Bool → Bytes → Bytes → List Bytes
split_lf completes line [] = if completes && not (is_empty line) then line ∷ [] else []
split_lf completes line (c ∷ cs) =
    let ended = split_lf completes [] cs in
    let in_line = split_lf completes (line ++ c ∷ []) cs in
    if c == b'\n' then line ∷ ended else in_line
