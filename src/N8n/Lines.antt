-- ===== src/N8n/Lines.antt =====
-- The lines of a streamed n8n reply, described plainly: what each one is, the segments of the text,
-- how the turn ends, and whether it asks for an answer.
use llm_middleman.Base.{
  Bool, true, false, ◌||◌, Option, none, some, List, [], ◌∷◌, ◌++◌, if◌then◌else◌, all, concat,
  Bytes, Text, codes,
}
use llm_middleman.Base.Dict.{Dict}
use llm_middleman.Json.{Json, get, nonempty_str}
use llm_middleman.Error.{Exc, raised, backend_stream_error}
use llm_middleman.Fallible.{Result, ok, err}
use llm_middleman.Stream.{Ending, finished, failed}
use llm_middleman.N8n.Body.{unwrap_json_content}
use llm_middleman.N8n.Sniff.{is_space, object_of}
use llm_middleman.N8n.{type_is}

-- What a line is: an item with its text, and whether it asks for an answer; the end of a segment; a
-- failure; or nothing to the turn.
pub data Line : Type 0 where
  says : Text → Bool → Line
  ends : Line
  fails : Exc → Line
  skipped : Line

-- The texts of each segment, up to a failure.
abbrev pub onto_first : Text → List (List Text) → List (List Text)
onto_first t [] = (t ∷ []) ∷ []
onto_first t (ts ∷ segments) = (t ∷ ts) ∷ segments

unfoldable pub segments : List Line → List (List Text)
segments [] = [] ∷ []
segments (says t asked ∷ lines) = onto_first t (segments lines)
segments (ends ∷ lines) = [] ∷ segments lines
segments (fails e ∷ lines) = [] ∷ []
segments (skipped ∷ lines) = segments lines

-- Each segment that is not empty, behind a newline.
unfoldable pub separated : List (List Text) → Text
separated [] = []
separated ([] ∷ rest) = separated rest
separated ((t ∷ ts) ∷ rest) = b'\n' ∷ concat (t ∷ ts) ++ separated rest

-- The segments that are not empty, with newlines between them.
unfoldable pub joined : List (List Text) → Text
unfolding separated
joined [] = []
joined ([] ∷ rest) = joined rest
joined ((t ∷ ts) ∷ rest) = concat (t ∷ ts) ++ separated rest

-- The end of the turn: a failure, or that of the stream, or an error if nothing was said.
unfoldable pub outcome : Bool → List Line → Ending → Ending
outcome said [] finished = if said then finished else failed (raised backend_stream_error)
outcome said [] (failed e) = failed e
outcome said (says t asked ∷ lines) ending = outcome true lines ending
outcome said (ends ∷ lines) ending = outcome said lines ending
outcome said (fails e ∷ lines) ending = failed e
outcome said (skipped ∷ lines) ending = outcome said lines ending

-- Whether an item before a failure asks for an answer.
unfoldable pub asks : List Line → Bool
asks [] = false
asks (says t asked ∷ lines) = let rest = asks lines in asked || rest
asks (ends ∷ lines) = asks lines
asks (fails e ∷ lines) = false
asks (skipped ∷ lines) = asks lines

module _ (loads : Text → Option Json) (loads_bytes : Bytes → Result Json) (str_of : Json → Text)
    (output_field : Text) where
  -- A line is read: what its JSON object is, and the text of an item, unwrapped.
  abbrev pub item_of : Option Text → Line
  item_of none = skipped
  item_of (some text) =
      let (spoken, asked) = unwrap_json_content loads str_of output_field text in says spoken asked

  abbrev pub line_of_chunk : Dict Json → Line
  line_of_chunk chunk =
      let kind = get (codes "type") chunk in
      if type_is kind "error"
      then fails (raised backend_stream_error)
      else if type_is kind "end"
      then ends
      else if type_is kind "item"
      then item_of (nonempty_str (get (codes "content") chunk))
      else skipped

  abbrev pub line_of_object : Result (Option (Dict Json)) → Line
  line_of_object (err e) = fails e
  line_of_object (ok none) = skipped
  line_of_object (ok (some chunk)) = line_of_chunk chunk

  unfoldable pub line_of : Bytes → Line
  line_of line =
      if all is_space line then skipped else line_of_object (object_of (loads_bytes line))
