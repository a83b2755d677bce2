-- ===== src/Sse/Framing.antt =====
-- `async_iter_sse` yields the events of the whole stream, however it is cut into chunks.
use llm_middleman.Base.{
  ℕ, ◌≡◌, refl, sym, ap, ◌∙◌, inl, inr, Bool, true, false, ◌&&◌, ◌||◌, Option, none, some, List, [],
  ◌∷◌, ◌++◌, append-nil, append_assoc, arith, Bool-cases, is_empty, concat, Bytes,
}
use llm_middleman.Sse.{
  ServerSentEvent, Frame, yield_event, is_lf, is_cr, Framer, initial, scan, on_chunk, iter_sse_from,
  async_iter_sse,
}
use mathlib.Core.Path.{subst}
use llm_middleman.Sse.Reference.{split_sse, handle_lines, events_of}
use llm_middleman.Sse.Buffering.{
  Buffers, handled, handle_fit, handled_skip, handled_end, handled_in, fresh, end_line-handle_fit,
  keep_rest-Buffers,
}

module _ (max_bytes : ℕ) where
  -- What is left to read, after the bytes of one chunk: the line so far, and whether an LF is due.
  record Scanned (f : Frame) (line : Bytes) (skip : Bool) (bytes : Bytes)
      (r : Framer × List ServerSentEvent) : Type 0 where
    line' : Bytes
    buffers : Buffers max_bytes line' r.0
    cr_ends : r.0.prev_was_cr ≡ true → line' ≡ []
    same :
        (more : Bytes)
        → handled max_bytes f line skip (bytes ++ more)
          ≡ r.1 ++ handled max_bytes r.0.frame line' r.0.prev_was_cr more

  yield_event-append :
      (e : Option ServerSentEvent) (xs ys : List ServerSentEvent)
      → yield_event e (xs ++ ys) ≡ yield_event e xs ++ ys
  yield_event-append none xs ys = refl
  yield_event-append (some e) xs ys = refl

  and-true : (b : Bool) → (b && true) ≡ b
  and-true true = refl
  and-true false = refl

  and-false : (b : Bool) → (b && false) ≡ false
  and-false true = refl
  and-false false = refl

  and-eq-true : (b c : Bool) → (b && c) ≡ true → (b ≡ true) × (c ≡ true)
  and-eq-true true c h = (refl, h)
  and-eq-true false c h = cc

  append-eq-nil : (xs ys : Bytes) → xs ++ ys ≡ [] → xs ≡ []
  append-eq-nil [] ys h = refl
  append-eq-nil (x ∷ xs) ys h = cc

  Scanned-skip :
      {f : Frame} (line : Bytes) (c : ℕ) (cs : Bytes) {r : Framer × List ServerSentEvent}
      → is_lf c ≡ true
      → Scanned f [] false cs r
      → Scanned f line true (c ∷ cs) r
  Scanned-skip {f} line c cs e z = record {
    line' = z.line';
    buffers = z.buffers;
    cr_ends = z.cr_ends;
    same = λ more. handled_skip max_bytes f line c (cs ++ more) e ∙ z.same more;
  }

  Scanned-end :
      {f : Frame} (line : Bytes) (skip : Bool) (c : ℕ) (cs : Bytes)
      {r : Framer × List ServerSentEvent}
      → (skip && is_lf c) ≡ false
      → (is_cr c || is_lf c) ≡ true
      → Scanned (handle_fit max_bytes f line).0 [] (is_cr c) cs r
      → Scanned f line skip (c ∷ cs) (r.0, yield_event (handle_fit max_bytes f line).1 r.1)
  Scanned-end {f} line skip c cs e h z = record {
    line' = z.line';
    buffers = z.buffers;
    cr_ends = z.cr_ends;
    same = λ more.
        handled_end max_bytes f line skip c (cs ++ more) e h
        ∙ ap (yield_event (handle_fit max_bytes f line).1) (z.same more)
        ∙ yield_event-append (handle_fit max_bytes f line).1 _ _;
  }

  Scanned-in :
      {f : Frame} (line : Bytes) (skip : Bool) (c : ℕ) (cs : Bytes)
      {r : Framer × List ServerSentEvent}
      → (skip && is_lf c) ≡ false
      → (is_cr c || is_lf c) ≡ false
      → Scanned f (line ++ c ∷ []) false cs r
      → Scanned f line skip (c ∷ cs) r
  Scanned-in {f} line skip c cs e h z = record {
    line' = z.line';
    buffers = z.buffers;
    cr_ends = z.cr_ends;
    same = λ more. handled_in max_bytes f line skip c (cs ++ more) e h ∙ z.same more;
  }

  Scanned-not_due :
      {f : Frame} (line : Bytes) (skip : Bool) (c : ℕ) (cs : Bytes)
      {r : Framer × List ServerSentEvent}
      → (skip && is_lf c) ≡ false
      → Scanned f line false (c ∷ cs) r
      → Scanned f line skip (c ∷ cs) r
  unfolding split_sse
  Scanned-not_due line skip c cs e z = record {
    line' = z.line';
    buffers = z.buffers;
    cr_ends = z.cr_ends;
    same = λ more. rw e (z.same more);
  }

  scan-Scanned :
      (bytes : Bytes) (s : Framer) (skip : Bool) (line segment : Bytes)
      → Buffers max_bytes line s
      → s.prev_was_cr ≡ (skip && is_empty bytes)
      → (skip ≡ true → line ++ segment ≡ [])
      → Scanned s.frame (line ++ segment) skip bytes (scan max_bytes s skip segment bytes)
  unfolding scan
  scan-Scanned [] s skip line segment h p e =
      let (b, f, q) = keep_rest-Buffers max_bytes s line segment h in
      record {
        line' = line ++ segment;
        buffers = b;
        cr_ends = λ t. e (cc (q, p, t, and-true skip));
        same = λ more. cc (f, q, p, and-true skip);
      }
  scan-Scanned (c ∷ cs) s skip line segment h p e =
      let (ends, event) = end_line-handle_fit max_bytes s line segment (is_cr c && is_empty cs) h in
      let quiet : s.prev_was_cr ≡ false = cc (p, and-false skip) in
      elim (Bool-cases (skip && is_lf c)) [
        | inl a ↦
            let (due, lf) = and-eq-true skip (is_lf c) a in
            let empty = append-eq-nil line segment (e due) in
            rw (a, due)
              (Scanned-skip (line ++ segment) c cs lf
                (scan-Scanned cs s false [] [] (rw empty at h) quiet (λ _. refl)))
        | inr a ↦ elim (Bool-cases (is_cr c || is_lf c)) [
          | inl b ↦
              let s' =
                fresh max_bytes (handle_fit max_bytes s.frame (line ++ segment)).0
                  (is_cr c && is_empty cs) in
              rw (a, b, ends, event)
                (Scanned-end (line ++ segment) skip c cs a b (
                  scan-Scanned cs s' (is_cr c) [] [] (inr (refl, refl, omega arith)) refl
                    (λ _. refl)))
          | inr b ↦
              rw (a, b)
                (Scanned-in (line ++ segment) skip c cs a b (
                  rw append_assoc
                    (scan-Scanned cs s false line (segment ++ c ∷ []) h quiet (λ t. cc))))
        ]
      ]

  on_chunk-Scanned :
      (chunk : Bytes) (s : Framer) (line : Bytes)
      → Buffers max_bytes line s
      → (s.prev_was_cr ≡ true → line ≡ [])
      → Scanned s.frame line s.prev_was_cr chunk (on_chunk max_bytes s chunk)
  unfolding on_chunk
  on_chunk-Scanned [] s line h e = record {
    line' = line;
    buffers = h;
    cr_ends = e;
    same = λ more. refl;
  }
  on_chunk-Scanned (c ∷ cs) s line h e = elim (Bool-cases (s.prev_was_cr && is_lf c)) [
    | inl a ↦
        let (due, lf) = and-eq-true s.prev_was_cr (is_lf c) a in
        let s' = record s { prev_was_cr = false } in
        rw a (
          subst (λ b. Scanned s.frame line b (c ∷ cs) (scan max_bytes s' false [] cs)) (sym due)
            (Scanned-skip line c cs lf
              (scan-Scanned cs s' false [] [] (rw (e due) at h) refl (λ _. refl))))
    | inr a ↦ rw a (
        Scanned-not_due line s.prev_was_cr c cs a (
          rw append-nil at (
            scan-Scanned (c ∷ cs) (record s { prev_was_cr = false }) false line [] h refl
              (λ t. cc))))
  ]

  iter_sse_from-handled :
      (chunks : List Bytes) (s : Framer) (line : Bytes)
      → Buffers max_bytes line s
      → (s.prev_was_cr ≡ true → line ≡ [])
      → iter_sse_from max_bytes s chunks
        ≡ handled max_bytes s.frame line s.prev_was_cr (concat chunks)
  unfolding iter_sse_from
  iter_sse_from-handled [] s line h e = unfold split_sse handle_lines in refl
  iter_sse_from-handled (chunk ∷ chunks) s line h e =
      let z = on_chunk-Scanned chunk s line h e in
      let rest =
        iter_sse_from-handled chunks (on_chunk max_bytes s chunk).0 z.line' z.buffers z.cr_ends in
      ap (λ es. (on_chunk max_bytes s chunk).1 ++ es) rest ∙ sym (z.same (concat chunks))

  -- The events of a stream are those of its lines: the whole stream is split at LF, CR and CRLF, the
  -- lines over the cap are left out, and the others are handled max_bytes in order. How the stream was cut
  -- into chunks, a CRLF in two included, changes nothing.
  pub async_iter_sse-events_of :
      (chunks : List Bytes) → async_iter_sse max_bytes chunks ≡ events_of max_bytes (concat chunks)
  unfolding async_iter_sse events_of
  async_iter_sse-events_of chunks =
      iter_sse_from-handled chunks initial [] (inr (refl, refl, omega arith)) (λ _. refl)
