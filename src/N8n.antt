-- ===== src/N8n.antt =====
-- backends/n8n.py: the turn of the n8n adapter, which sniffs from the first line of the reply
-- whether it is streamed, a text or one JSON body. What is spoken of a JSON body is in N8n/Body;
-- the request and the connection probe are in N8n/Request. What is logged is not modelled.
pub mod Body
pub mod Request
pub mod Shape
pub mod Worded
pub mod Sniff
pub mod Lines
pub mod Spoken
pub mod Joined
use llm_middleman.Base.{
  String, Bool, true, false, ◌&&◌, ◌||◌, Option, none, some, List, [], ◌∷◌, ◌++◌, if◌then◌else◌,
  all, Bytes, Text, codes, ◌is◌, lower,
}
use llm_middleman.Base.Dict.{Dict}
use llm_middleman.Json.{Json, str, get, nonempty_str}
use llm_middleman.Error.{backend_stream_error, Exc, raised, raised_from}
use llm_middleman.Fallible.{Result, ok, err}
use llm_middleman.Sse.{max_line_bytes}
use llm_middleman.Sse.Utf8.{decode}
use llm_middleman.Sse.Ndjson.{async_iter_lines}
use llm_middleman.Stream.{
  Delta, role, content, Ending, finished, failed, Flow, go, leave, return, raise, run_events,
}
use llm_middleman.Backend.{Response, Reply, no_hook, post_checked, TurnEnd, wrap_transport_error}
use llm_middleman.Base.White.{is_white}
use llm_middleman.N8n.Sniff.{
  is_space, Mode, html, ndjson, text_reply, blocking, is_space, object_of, Sniffed, sniff,
  first_line, read_whole, prepend, sniff_mode,
}
use llm_middleman.N8n.Body.{
  json_items, reply_from_json, unwrap_json_content, intermediate_step_deltas,
}

pub record State : Type 0 where
  pub started : Bool
  pub separate : Bool
  pub continue_conversation : Bool

abbrev pub initial : State
initial = record { started = false; separate = false; continue_conversation = false }

-- What an item says, unwrapped: a role if it is the first.
unfoldable pub say_item : State → Text × Bool → List Delta × State
say_item s (text, asked) =
    let spoken = if s.started && s.separate then b'\n' ∷ text else text in
    (
      if s.started then content (str spoken) ∷ [] else role ∷ content (str spoken) ∷ [],
      record {
        started = true;
        separate = false;
        continue_conversation = s.continue_conversation || asked;
      },
    )

abbrev pub type_is : Json → String → Bool
type_is (str t) s = t is s
type_is v s = false

abbrev pub ended : List Delta → Ending → Bool → TurnEnd
ended out ending asked = record {
  deltas = out;
  ending = ending;
  traced = [];
  continue_conversation = asked;
}

module _ (loads : Text → Option Json) (loads_bytes : Bytes → Result Json) (str_of : Json → Text)
    (output_field : Text) where
  abbrev pub on_text : State → Option Text → List Delta × Flow State
  on_text s none = ([], go s)
  on_text s (some text) =
      let (out, s') = say_item s (unwrap_json_content loads str_of output_field text) in
      (out, go s')

  -- The body of an `item` chunk.
  unfoldable pub on_item : State → Dict Json → List Delta × Flow State
  unfolding say_item
  on_item s chunk = on_text s (nonempty_str (get (codes "content") chunk))

  unfoldable pub on_structured_chunk : State → Dict Json → List Delta × Flow State
  unfolding on_item
  on_structured_chunk s chunk =
      let kind = get (codes "type") chunk in
      if type_is kind "error"
      then ([], raise (raised backend_stream_error) s)
      else if type_is kind "end"
      then ([], go (record s { separate = s.started }))
      else if type_is kind "item"
      then on_item s chunk
      else ([], go s)

  abbrev pub on_object : State → Result (Option (Dict Json)) → List Delta × Flow State
  on_object s (err e) = ([], raise e s)
  on_object s (ok none) = ([], go s)
  on_object s (ok (some chunk)) = on_structured_chunk s chunk

  -- One line: `_structured_chunk` skips a blank one and one that is no object.
  unfoldable pub on_line : State → Bytes → List Delta × Flow State
  unfolding on_structured_chunk object_of
  on_line s line =
      if all is_space line then ([], go s) else on_object s (object_of (loads_bytes line))

  -- The end of the stream without any content is an error.
  abbrev pub end_of : List Delta × Flow State → TurnEnd
  end_of (out, go s) =
      ended out (if s.started then finished else failed (raised backend_stream_error))
        s.continue_conversation
  end_of (out, leave s) =
      ended out (if s.started then finished else failed (raised backend_stream_error))
        s.continue_conversation
  end_of (out, return s) = ended out finished s.continue_conversation
  end_of (out, raise e s) = ended out (failed e) s.continue_conversation

  unfoldable pub stream_lines : List Bytes → Ending → TurnEnd
  unfolding on_line
  stream_lines lines ending = end_of (run_events on_line initial lines ending)

  -- `_text_deltas`
  unfoldable pub text_deltas : Bytes → TurnEnd
  text_deltas raw =
      let text = decode raw in
      if all is_white text
      then ended [] (failed (raised backend_stream_error)) false
      else ended (role ∷ content (str text) ∷ []) finished false

  abbrev pub say_reply : Json → Option Text × Bool → TurnEnd
  say_reply v (none, asked) = ended [] (failed (raised backend_stream_error)) asked
  say_reply v (some reply, asked) =
      ended
        (intermediate_step_deltas loads str_of output_field (json_items v)
          ++ role ∷ content (str reply) ∷ [])
        finished asked

  abbrev pub on_loaded : Result Json → TurnEnd
  on_loaded (err e) = ended [] (failed (raised_from backend_stream_error e)) false
  on_loaded (ok v) = say_reply v (reply_from_json loads str_of output_field v)

  -- `_blocking_deltas`: every error of `json.loads` is a `ValueError`.
  unfoldable pub blocking_deltas : Bytes → TurnEnd
  blocking_deltas raw = on_loaded (loads_bytes raw)

  abbrev pub with_body : (Bytes → TurnEnd) → Result Bytes → TurnEnd
  with_body f (err e) = ended [] (failed e) false
  with_body f (ok raw) = f raw

  abbrev pub completes : Ending → Bool
  completes finished = true
  completes (failed e) = false

  abbrev pub in_mode : Result Mode → Sniffed → Ending → TurnEnd
  in_mode (err e) s ending = ended [] (failed e) false
  in_mode (ok html) s ending = ended [] (failed (raised backend_stream_error)) false
  in_mode (ok text_reply) s ending = with_body text_deltas (read_whole s.buffer s.rest ending)
  in_mode (ok blocking) s ending = with_body blocking_deltas (read_whole s.buffer s.rest ending)
  in_mode (ok ndjson) s ending =
      stream_lines (async_iter_lines max_line_bytes (completes ending) (prepend s.buffer s.rest))
        ending

  -- A failure of the stream in phase 1, before anything is sniffed.
  abbrev pub fails_early : Bool → Ending → Option Exc
  fails_early exhausted finished = none
  fails_early exhausted (failed e) = if exhausted then some e else none

  abbrev pub after_sniff : Option Exc → Sniffed → Response → TurnEnd
  after_sniff (some e) s r = ended [] (failed e) false
  after_sniff none s r =
      in_mode (sniff_mode loads_bytes (first_line s.buffer) (lower r.content_type)) s r.ending

  -- `_iter_deltas`
  unfoldable pub iter_deltas : Response → TurnEnd
  unfolding sniff sniff_mode first_line read_whole stream_lines text_deltas blocking_deltas
  iter_deltas r = let s = sniff [] r.chunks in after_sniff (fails_early s.exhausted r.ending) s r

  -- A transport error is wrapped as `BackendStreamError`.
  abbrev pub wrapped : Ending → Ending
  wrapped finished = finished
  wrapped (failed e) = failed (wrap_transport_error backend_stream_error e)

  abbrev pub on_posted : Result Response → TurnEnd
  on_posted (err e) = ended [] (failed e) false
  on_posted (ok r) = iter_deltas r

  -- `stream_turn` behind the request body.
  unfoldable pub stream_turn : Reply → TurnEnd
  unfolding iter_deltas
  stream_turn reply =
      let t = on_posted (post_checked backend_stream_error no_hook reply) in
      record t { ending = wrapped t.ending }
