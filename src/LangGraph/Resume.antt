-- ===== src/LangGraph/Resume.antt =====
-- An interrupt and the turn that answers it.
use llm_middleman.Base.{
  ◌≡◌, refl, sym, ap, ◌∙◌, Bool, true, false, Option, List, Text, text_eq_refl,
}
use llm_middleman.Base.Dict.{get-set}
use llm_middleman.Json.{Json}
use llm_middleman.Sse.{async_iter_sse, max_line_bytes}
use llm_middleman.Error.{backend_stream_error}
use llm_middleman.Fallible.{Result, ok, err}
use llm_middleman.Stream.{Delta, finished, Flow, go, leave, return, raise, run_events}
use llm_middleman.Backend.{Response, Reply, TurnEnd, no_hook, post_checked}
use llm_middleman.LangGraph.Marks.{
  Pending, pending_map, mark_pending_resume, take_mark, still_interrupted, confirm,
  take_pending_resume, thread_id_of,
}
use llm_middleman.LangGraph.Marks.Threads.{adopt_thread-twice}
use llm_middleman.LangGraph.{Run, initial, end_of, on_posted, run_stream, on_event}
use llm_middleman.LangGraph.Turns.{Adapter, Turn, Session, run_on, stream_turn}

take_mark-mark_pending_resume :
    (thread_id : Text) (persist : Bool) (p : Pending)
    → (take_mark thread_id (mark_pending_resume thread_id persist p)).0 ≡ true
unfolding take_mark mark_pending_resume
take_mark-mark_pending_resume thread_id true p =
    rw (get-set thread_id thread_id true (pending_map p), text_eq_refl thread_id) refl
take_mark-mark_pending_resume thread_id false p =
    rw (get-set thread_id thread_id false (pending_map p), text_eq_refl thread_id) refl

-- Whether the lookup of a thread answers that it waits.
abbrev pub says_yes : Result Bool → Bool
says_yes (ok b) = b
says_yes (err e) = false

module _ (loads : Text → Option Json) (node_filter messages_key : Text) where
  abbrev SaysInterrupted : TurnEnd × Run → Type 0
  SaysInterrupted r = r.0.continue_conversation ≡ r.1.interrupted

  end_of-SaysInterrupted :
      (r : List Delta × Flow Run) → SaysInterrupted (end_of loads node_filter messages_key r)
  end_of-SaysInterrupted (out, go s) = refl
  end_of-SaysInterrupted (out, leave s) = refl
  end_of-SaysInterrupted (out, return s) = refl
  end_of-SaysInterrupted (out, raise e s) = refl

  on_posted-SaysInterrupted :
      (r : Result Response) → SaysInterrupted (on_posted loads node_filter messages_key r)
  on_posted-SaysInterrupted (err e) = refl
  on_posted-SaysInterrupted (ok r) = end_of-SaysInterrupted (
      run_events (on_event loads node_filter messages_key) initial
        (async_iter_sse max_line_bytes r.chunks) r.ending)

  run_stream-SaysInterrupted :
      (reply : Reply) → SaysInterrupted (run_stream loads node_filter messages_key reply)
  unfolding run_stream
  run_stream-SaysInterrupted reply =
      on_posted-SaysInterrupted (post_checked backend_stream_error no_hook reply)

module _ (uuid5 : Text → Text) (response_json : Response → Result Json) (entry_key : Text)
    (loads : Text → Option Json) (node_filter messages_key : Text) where
  run_on-resumed :
      (thread_id : Text) (persist : Bool) (a : Adapter) (r : Result Bool) (reply : Reply)
      → (run_on uuid5 response_json entry_key loads node_filter messages_key thread_id persist a r
          reply).resumed
        ≡ says_yes r
  run_on-resumed thread_id persist a (err e) reply = refl
  run_on-resumed thread_id persist a (ok b) reply = refl

  -- A turn that completes with an interrupt leaves the mark of its thread.
  run_on-marks :
      (thread_id : Text) (persist : Bool) (a : Adapter) (r : Result Bool) (reply : Reply)
      → let t =
          run_on uuid5 response_json entry_key loads node_filter messages_key thread_id persist a r
            reply in
        t.result.ending ≡ finished
        → t.result.continue_conversation ≡ true
        → ((take_mark thread_id t.adapter.pending).0 ≡ true) × (t.adapter.threads ≡ a.threads)
  run_on-marks thread_id persist a (err e) reply h k = cc
  run_on-marks thread_id persist a (ok b) reply h k =
      let s = run_stream-SaysInterrupted loads node_filter messages_key reply in
      (rw (sym s ∙ k, h) (take_mark-mark_pending_resume thread_id persist a.pending), refl)

  -- What a turn of a session with a thread has come to.
  abbrev turn : Session → Adapter → Reply → Reply → Turn
  turn = stream_turn uuid5 response_json entry_key loads node_filter messages_key

  -- The adapter of a turn on a thread, when the thread is known and its mark is taken.
  abbrev ready : Session → Adapter → Adapter
  ready session a =
      let (thread_id, threads) =
        thread_id_of uuid5 entry_key session.memory_key session.legacy_memory_key a.threads in
      record a { threads = threads; pending = (take_mark thread_id a.pending).1 }

  abbrev thread_of : Session → Adapter → Text
  thread_of session a =
      (thread_id_of uuid5 entry_key session.memory_key session.legacy_memory_key a.threads).0

  stream_turn-run_on :
      (session : Session) (a : Adapter) (looked_up reply : Reply)
      → session.stateless ≡ false
      → turn session a looked_up reply
        ≡ run_on uuid5 response_json entry_key loads node_filter messages_key
            (thread_of session a)
            session.persist
            (ready session a)
            (confirm response_json (take_mark (thread_of session a) a.pending).0 looked_up)
            reply
  unfolding stream_turn take_pending_resume
  stream_turn-run_on session a looked_up reply h = rw h refl

  thread_of-ready :
      (session : Session) (a b : Adapter)
      → b.threads ≡ (ready session a).threads
      → thread_of session b ≡ thread_of session a
  unfolding thread_id_of
  thread_of-ready session a b h =
      rw (h, adopt_thread-twice session.memory_key session.legacy_memory_key a.threads) refl

  resumed_from :
      (session : Session) (a b : Adapter) (looked_up reply : Reply)
      → session.stateless ≡ false
      → ((take_mark (thread_of session a) b.pending).0 ≡ true)
        × (b.threads ≡ (ready session a).threads)
      → (turn session b looked_up reply).resumed
        ≡ says_yes (still_interrupted response_json looked_up)
  resumed_from session a b looked_up reply h (m, q) =
      let marked = (take_mark (thread_of session b) b.pending).0 in
      ap (λ (t : Turn). t.resumed) (stream_turn-run_on session b looked_up reply h)
      ∙ run_on-resumed (thread_of session b) session.persist (ready session b)
          (confirm response_json marked looked_up) reply
      ∙ rw (thread_of-ready session a b q, m) refl

  -- When a turn on a thread completes and its graph has asked the user, the next turn of the session
  -- is sent as the answer just if the server says, when it is asked, that the thread still waits.
  pub stream_turn-resumed :
      (session : Session) (a : Adapter) (looked_up reply looked_up' reply' : Reply)
      → session.stateless ≡ false
      → (turn session a looked_up reply).result.ending ≡ finished
      → (turn session a looked_up reply).result.continue_conversation ≡ true
      → (turn session (turn session a looked_up reply).adapter looked_up' reply').resumed
        ≡ says_yes (still_interrupted response_json looked_up')
  stream_turn-resumed session a looked_up reply looked_up' reply' h e k =
      let first = stream_turn-run_on session a looked_up reply h in
      let answer = confirm response_json (take_mark (thread_of session a) a.pending).0 looked_up in
      let marks =
        run_on-marks (thread_of session a) session.persist (ready session a) answer reply
          (ap (λ (t : Turn). t.result.ending) (sym first) ∙ e)
          (ap (λ (t : Turn). t.result.continue_conversation) (sym first) ∙ k) in
      rw first (resumed_from session a _ looked_up' reply' h marks)
