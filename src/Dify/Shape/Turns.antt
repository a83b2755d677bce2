-- ===== src/Dify/Shape/Turns.antt =====
-- The deltas of a whole Dify turn.
use llm_middleman.Base.{
  ◌≡◌, refl, ap, ◌∙◌, ◌⊎◌, inl, inr, Bool, true, false, Option, none, some, List, [], arith,
  Option-cases, is_some, Text,
}
use llm_middleman.Dify.Shape.{IsOther, act, fresh, waits_of, IsProper, PostedOutside, FailsOutside}
use llm_middleman.Dify.Shape.Steps.{view, on_event-Steps}
use llm_middleman.Dify.Run.{Session, Run, initial}
use llm_middleman.Dify.Turn.{
  on_event, on_error_status, Ran, end_of, on_posted, run_stream, retry_if, gone, stream_turn,
}
use llm_middleman.Stream.{Delta, Flow, go, leave, return, raise, run_events}
use llm_middleman.Stream.Scan.{
  Tracks, run_events-Tracks, Returns, run_events-Returns, Raises, run_events-Raises,
}
use llm_middleman.Sse.{async_iter_sse, max_line_bytes}
use llm_middleman.Backend.{Response, Reply, no_response, answer, post_checked, Trace}
use llm_middleman.Dify.{Maps, lookup, drop_session}
use llm_middleman.Json.{Json}
use llm_middleman.Error.{Exc, backend_connection_error, Class}
use llm_middleman.Fallible.{Result, ok, err}

module _ (loads : Text → Option Json) (str_of : Json → Text) where
  end_of-IsProper :
      (r : List Delta × Flow Run)
      → Tracks act view fresh r
      → Returns (λ (t : Run). t.needs_reply ≡ false) r.1
      → Raises IsOther r.1
      → IsProper (end_of loads str_of r).deltas (end_of loads str_of r).ending
        × (gone (end_of loads str_of r).ending ≡ false)
  end_of-IsProper (out, go t) h k l = (ap is_some h, refl)
  end_of-IsProper (out, leave t) h k l = (ap is_some h, refl)
  end_of-IsProper (out, return t) h k l = (ap waits_of h ∙ ap some k, refl)
  end_of-IsProper (out, raise e t) h k l = (ap is_some h, l)

  on_posted-IsProper :
      (session : Session) (sent task_id : Option Text) (maps : Maps) (traced : List Trace)
      (r : Result Response)
      → let ran = on_posted loads str_of session sent (initial task_id maps traced) r in
        PostedOutside r
        → IsProper ran.deltas ran.ending × ((gone ran.ending ≡ false) ⊎ (ran.deltas ≡ []))
  on_posted-IsProper session sent task_id maps traced (err e) h = (refl, inr refl)
  on_posted-IsProper session sent task_id maps traced (ok r) h =
      let step = on_event loads str_of session sent in
      let keep = on_event-Steps loads str_of session sent in
      let events = async_iter_sse max_line_bytes r.chunks in
      let s = initial task_id maps traced in
      let (proper, other) =
        end_of-IsProper (run_events step s events r.ending)
          (run_events-Tracks act view step (λ s e. (keep s e).0) events s r.ending)
          (run_events-Returns (λ (t : Run). t.needs_reply ≡ false) step (λ s e. (keep s e).1) events
            s r.ending)
          (run_events-Raises IsOther step (λ s e. (keep s e).2) events s r.ending h) in
      (proper, inl other)

  post_checked-PostedOutside :
      (cls : Class) (hook : Response → Option Exc) (reply : Reply)
      → FailsOutside reply
      → PostedOutside (post_checked cls hook reply)
  unfolding post_checked
  post_checked-PostedOutside cls hook (no_response e) h = tt
  post_checked-PostedOutside cls hook (answer r) h = elim (Option-cases (hook r)) [
    | inl e ↦ ground (arith, e, h)
    | inr (x, e) ↦ ground (arith, e, h)
  ]

  run_stream-IsProper :
      (session : Session) (sent task_id : Option Text) (maps : Maps) (traced : List Trace)
      (reply : Reply)
      → FailsOutside reply
      → let ran = run_stream loads str_of session sent (initial task_id maps traced) reply in
        IsProper ran.deltas ran.ending × ((gone ran.ending ≡ false) ⊎ (ran.deltas ≡ []))
  unfolding run_stream
  run_stream-IsProper session sent task_id maps traced reply h =
      let hook = on_error_status loads str_of sent in
      on_posted-IsProper session sent task_id maps traced
        (post_checked backend_connection_error hook reply)
        (post_checked-PostedOutside backend_connection_error hook reply h)

  retry_if-IsProper :
      (b : Bool) (session : Session) (first : Ran) (again : Reply)
      → IsProper first.deltas first.ending
      → (b ≡ false) ⊎ (first.deltas ≡ [])
      → FailsOutside again
      → IsProper
          (retry_if loads str_of b session first again).deltas
          (retry_if loads str_of b session first again).ending
  retry_if-IsProper false session first again h k l = h
  retry_if-IsProper true session first again h (inl e) l = cc
  retry_if-IsProper true session first again h (inr e) l =
      let maps = drop_session session.session_key session.persist first.state.maps in
      rw e (run_stream-IsProper session none first.state.task_id maps first.state.traced again l).0

  -- In a Dify turn, sent again where its conversation is gone: every text is not empty and continues an open block,
  -- each tool call is announced once, and a result once and behind its call; and a turn that
  -- completes has no tool activity behind the last reply text. aiohttp is not to raise the
  -- adapter's own exception.
  pub stream_turn-IsProper :
      (session : Session) (maps : Maps) (reply again : Reply)
      → FailsOutside reply
      → FailsOutside again
      → IsProper
          (stream_turn loads str_of session maps reply again).deltas
          (stream_turn loads str_of session maps reply again).ending
  unfolding stream_turn
  stream_turn-IsProper session maps reply again h k =
      let (sent, maps') = lookup session.session_key session.persist session.legacy_key maps in
      let first = run_stream loads str_of session sent (initial none maps' []) reply in
      let (proper, other) = run_stream-IsProper session sent none maps' [] reply h in
      retry_if-IsProper (gone first.ending) session first again proper other k
