-- ===== src/Sse/Buffering.antt =====
-- What the state of a framer says of the line that is being read, and what a line of the whole stream
-- is to the frame.
use llm_middleman.Base.{
  ℕ, ◌≤◌, ◌<◌, ◌≡◌, ◌⊎◌, Bool, true, false, ◌&&◌, ◌||◌, Option, none, List, [], ◌∷◌, ◌++◌,
  append-nil, arith, if◌then◌else◌, length, filter, length-append, Bytes,
}
use llm_middleman.Sse.{
  ServerSentEvent, Frame, handle_line, yield_event, is_lf, is_cr, Framer, end_line, keep_rest,
}
use llm_middleman.Sse.Reference.{split_sse, fits, handle_lines}

module _ (max_bytes : ℕ) where
  -- What the buffer and the flag of a framer say of the line that is being read.
  abbrev pub Buffers : Bytes → Framer → Type 0
  Buffers line s =
      ((s.line_overflowed ≡ true) × (s.line_buf ≡ []) × (max_bytes < length line))
      ⊎ ((s.line_overflowed ≡ false) × (s.line_buf ≡ line) × (length line ≤ max_bytes))

  abbrev pub handled : Frame → Bytes → Bool → Bytes → List ServerSentEvent
  handled f line skip bytes = handle_lines f (filter (fits max_bytes) (split_sse line skip bytes))

  -- One line, left out if it is over the cap.
  abbrev pub handle_fit : Frame → Bytes → Frame × Option ServerSentEvent
  handle_fit f line = if fits max_bytes line then handle_line f line else (f, none)

  pub handle_lines-cons :
      (f : Frame) (line : Bytes) (lines : List Bytes)
      → handle_lines f (filter (fits max_bytes) (line ∷ lines))
        ≡ yield_event
            (handle_fit f line).1
            (handle_lines (handle_fit f line).0 (filter (fits max_bytes) lines))
  unfolding handle_lines
  handle_lines-cons f line lines = ground arith

  pub handled_skip :
      (f : Frame) (line : Bytes) (c : ℕ) (cs : Bytes)
      → is_lf c ≡ true
      → handled f line true (c ∷ cs) ≡ handled f [] false cs
  unfolding split_sse
  handled_skip f line c cs e = rw e

  pub handled_end :
      (f : Frame) (line : Bytes) (skip : Bool) (c : ℕ) (cs : Bytes)
      → (skip && is_lf c) ≡ false
      → (is_cr c || is_lf c) ≡ true
      → handled f line skip (c ∷ cs)
        ≡ yield_event (handle_fit f line).1 (handled (handle_fit f line).0 [] (is_cr c) cs)
  unfolding split_sse
  handled_end f line skip c cs e h =
      rw (e, h) (handle_lines-cons f line (split_sse [] (is_cr c) cs))

  pub handled_in :
      (f : Frame) (line : Bytes) (skip : Bool) (c : ℕ) (cs : Bytes)
      → (skip && is_lf c) ≡ false
      → (is_cr c || is_lf c) ≡ false
      → handled f line skip (c ∷ cs) ≡ handled f (line ++ c ∷ []) false cs
  unfolding split_sse
  handled_in f line skip c cs e h = rw (e, h)

  -- A framer at the start of a line.
  abbrev pub fresh : Frame → Bool → Framer
  fresh f b = record { line_buf = []; frame = f; prev_was_cr = b; line_overflowed = false }

  pub end_line-handle_fit :
      (s : Framer) (line segment : Bytes) (b : Bool)
      → Buffers line s
      → ((end_line max_bytes s segment b).0 ≡ fresh (handle_fit s.frame (line ++ segment)).0 b)
        × ((end_line max_bytes s segment b).1 ≡ (handle_fit s.frame (line ++ segment)).1)
  unfolding end_line
  end_line-handle_fit s line segment b h = ground (arith, length-append line segment)

  pub keep_rest-Buffers :
      (s : Framer) (line rest : Bytes)
      → Buffers line s
      → Buffers (line ++ rest) (keep_rest max_bytes s rest)
        × ((keep_rest max_bytes s rest).frame ≡ s.frame)
        × ((keep_rest max_bytes s rest).prev_was_cr ≡ s.prev_was_cr)
  unfolding keep_rest
  keep_rest-Buffers s line [] h = ground (arith, append-nil line)
  keep_rest-Buffers s line (c ∷ cs) h = ground (arith, length-append line (c ∷ cs))
