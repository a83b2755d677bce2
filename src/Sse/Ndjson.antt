-- ===== src/Sse/Ndjson.antt =====
-- `async_iter_lines` of backends/_sse.py: newline-delimited lines, without the newline.
use llm_middleman.Base.{
  ℕ, Bool, true, false, List, [], ◌∷◌, ◌++◌, ltb, ◌==◌, if◌then◌else◌, not, ◌&&◌, length, is_empty,
  Bytes,
}

pub record Liner : Type 0 where
  pub line_buf : Bytes
  pub line_overflowed : Bool

abbrev pub initial : Liner
initial = record { line_buf = []; line_overflowed = false }

-- At a newline: the line is yielded, unless it passed the cap.
unfoldable pub end_line : ℕ → Liner → Bytes → List Bytes → List Bytes
end_line max_bytes s segment lines =
    let raw = s.line_buf ++ segment in
    if s.line_overflowed then lines else if ltb max_bytes (length raw) then lines else raw ∷ lines

unfoldable pub keep_rest : ℕ → Liner → Bytes → Liner
keep_rest max_bytes s rest =
    if s.line_overflowed
    then s
    else if ltb max_bytes (length (s.line_buf ++ rest))
    then record { line_buf = []; line_overflowed = true }
    else record { line_buf = s.line_buf ++ rest; line_overflowed = false }

-- The `while` loop over the newlines of a chunk, read byte by byte: `segment` is what stands between
-- `start` and the byte that is read.
unfoldable pub scan : ℕ → Liner → Bytes → Bytes → Liner × List Bytes
scan max_bytes s segment [] = (keep_rest max_bytes s segment, [])
scan max_bytes s segment (c ∷ cs) =
    let (t, lines) = scan max_bytes initial [] cs in
    let in_line = scan max_bytes s (segment ++ c ∷ []) cs in
    if c == b'\n' then (t, end_line max_bytes s segment lines) else in_line

-- `completes` says that the stream ends, and does not raise: only then is the last line flushed.
unfoldable pub iter_lines_from : ℕ → Bool → Liner → List Bytes → List Bytes
unfolding scan
iter_lines_from max_bytes completes s [] =
    if completes && not (is_empty s.line_buf) then s.line_buf ∷ [] else []
iter_lines_from max_bytes completes s (chunk ∷ chunks) =
    let (s', lines) = scan max_bytes s [] chunk in
    lines ++ iter_lines_from max_bytes completes s' chunks

unfoldable pub async_iter_lines : ℕ → Bool → List Bytes → List Bytes
unfolding iter_lines_from
async_iter_lines max_bytes completes chunks = iter_lines_from max_bytes completes initial chunks
