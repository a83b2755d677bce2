-- ===== src/Sse/Lines.antt =====
-- `async_iter_lines` yields the lines of the whole stream, however it is cut into chunks.
use llm_middleman.Base.{
  ℕ, ◌≤◌, ◌<◌, ◌≡◌, refl, Bool, sym, ap, ◌∙◌, ◌⊎◌, inl, inr, true, false, List, [], ◌∷◌, ◌++◌,
  append-nil, append_assoc, arith, ◌==◌, Bool-cases, length, filter, concat, length-append, Bytes,
}
use llm_middleman.Sse.Ndjson.{
  Liner, initial, end_line, keep_rest, scan, iter_lines_from, async_iter_lines,
}
use llm_middleman.Sse.Reference.{fits, split_lf}

module _ (max_bytes : ℕ) (completes : Bool) where
  abbrev Buffers : Bytes → Liner → Type 0
  Buffers line s =
      ((s.line_overflowed ≡ true) × (s.line_buf ≡ []) × (max_bytes < length line))
      ⊎ ((s.line_overflowed ≡ false) × (s.line_buf ≡ line) × (length line ≤ max_bytes))

  abbrev kept : Bytes → Bytes → List Bytes
  kept line bytes = filter (fits max_bytes) (split_lf completes line bytes)

  end_line-filter :
      (s : Liner) (line segment : Bytes) (lines : List Bytes)
      → Buffers line s
      → end_line max_bytes s segment (filter (fits max_bytes) lines)
        ≡ filter (fits max_bytes) ((line ++ segment) ∷ lines)
  unfolding end_line
  end_line-filter s line segment lines h = ground (arith, length-append line segment)

  end_line-append :
      (s : Liner) (segment : Bytes) (xs ys : List Bytes)
      → end_line max_bytes s segment (xs ++ ys) ≡ end_line max_bytes s segment xs ++ ys
  unfolding end_line
  end_line-append s segment xs ys = ground arith

  kept_end :
      (line segment : Bytes) (c : ℕ) (cs : Bytes)
      → (c == b'\n') ≡ true
      → (s : Liner) → Buffers line s
      → (more : Bytes)
      → kept (line ++ segment) (c ∷ (cs ++ more))
        ≡ end_line max_bytes s segment (kept [] (cs ++ more))
  unfolding split_lf
  kept_end line segment c cs a s h more = rw a (sym (end_line-filter s line segment _ h))

  kept_in :
      (line : Bytes) (c : ℕ) (cs : Bytes)
      → (c == b'\n') ≡ false
      → kept line (c ∷ cs) ≡ kept (line ++ c ∷ []) cs
  unfolding split_lf
  kept_in line c cs a = rw a

  keep_rest-Buffers :
      (s : Liner) (line rest : Bytes)
      → Buffers line s
      → Buffers (line ++ rest) (keep_rest max_bytes s rest)
  unfolding keep_rest
  keep_rest-Buffers s line rest h = ground (arith, length-append line rest)

  record Scanned (line bytes : Bytes) (r : Liner × List Bytes) : Type 0 where
    line' : Bytes
    buffers : Buffers line' r.0
    same : (more : Bytes) → kept line (bytes ++ more) ≡ r.1 ++ kept line' more

  scan-Scanned :
      (bytes : Bytes) (s : Liner) (line segment : Bytes)
      → Buffers line s
      → Scanned (line ++ segment) bytes (scan max_bytes s segment bytes)
  unfolding scan
  scan-Scanned [] s line segment h = record {
    line' = line ++ segment;
    buffers = keep_rest-Buffers s line segment h;
    same = λ more. refl;
  }
  scan-Scanned (c ∷ cs) s line segment h = elim (Bool-cases (c == b'\n')) [
    | inl a ↦
        let z = scan-Scanned cs initial [] [] (inr (refl, refl, omega arith)) in
        rw a (record {
          line' = z.line';
          buffers = z.buffers;
          same = λ more.
              kept_end line segment c cs a s h more
              ∙ ap (end_line max_bytes s segment) (z.same more)
              ∙ end_line-append s segment _ _;
        })
    | inr a ↦
        let z =
          rw (← append_assoc line segment (c ∷ [])) at
            (scan-Scanned cs s line (segment ++ c ∷ []) h) in
        rw a (record {
          line' = z.line';
          buffers = z.buffers;
          same = λ more. kept_in (line ++ segment) c (cs ++ more) a ∙ z.same more;
        })
  ]

  iter_lines_from-kept :
      (chunks : List Bytes) (s : Liner) (line : Bytes)
      → Buffers line s
      → iter_lines_from max_bytes completes s chunks ≡ kept line (concat chunks)
  unfolding iter_lines_from split_lf
  iter_lines_from-kept [] s [] h = ground arith
  iter_lines_from-kept [] s (c ∷ cs) h = ground arith
  iter_lines_from-kept (chunk ∷ chunks) s line h =
      let z = rw append-nil at (scan-Scanned chunk s line [] h) in
      let rest = iter_lines_from-kept chunks (scan max_bytes s [] chunk).0 z.line' z.buffers in
      ap (λ ls. (scan max_bytes s [] chunk).1 ++ ls) rest ∙ sym (z.same (concat chunks))

  -- The lines of a stream are those of the whole stream split at LF, the unterminated last one
  -- included if it is not empty and the stream does not raise, without the ones over the cap,
  -- however the stream was cut into chunks.
  pub async_iter_lines-split_lf :
      (chunks : List Bytes)
      → async_iter_lines max_bytes completes chunks
        ≡ filter (fits max_bytes) (split_lf completes [] (concat chunks))
  unfolding async_iter_lines
  async_iter_lines-split_lf chunks =
      iter_lines_from-kept chunks initial [] (inr (refl, refl, omega arith))
