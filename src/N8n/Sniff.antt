-- ===== src/N8n/Sniff.antt =====
-- backends/n8n.py: how the reply is read before it is known what it is (`_sniff_mode`, `_prepend`,
-- and phase 1 of `_iter_deltas`), and the reading of a blocking one. `json.loads` on bytes is a
-- parameter.
use llm_middleman.Base.{
  ℕ, Bool, true, false, not, ◌&&◌, ◌||◌, Option, none, some, List, [], ◌∷◌, ◌++◌, ltb, leb, ◌==◌,
  if◌then◌else◌, length, take, any, Bytes, Text, codes, ◌is◌, starts_with, is_in, lower,
}
use llm_middleman.Base.Dict.{Dict}
use llm_middleman.Json.{Json, str, arr, obj, get, json_object}
use llm_middleman.Error.{
  Class, json_decode_error, type_error, backend_stream_error, raised, class_of,
}
use llm_middleman.Fallible.{Result, ok, err, ◌>>=◌}
use llm_middleman.Sse.{max_line_bytes}
use llm_middleman.Stream.{Ending, finished, failed}

abbrev pub max_blocking_bytes : ℕ
max_blocking_bytes = 1048576

pub data Mode : Type 0 where
  html ndjson text_reply blocking : Mode

-- The white space of `bytes.strip`.
abbrev pub is_space : ℕ → Bool
is_space c = c == b' ' || (leb 9 c && leb c 13)

unfoldable pub lstrip_bytes : Bytes → Bytes
lstrip_bytes [] = []
lstrip_bytes (c ∷ cs) = let rest = lstrip_bytes cs in if is_space c then rest else c ∷ cs

abbrev pub is_html : Bytes → Bool
is_html sample =
    let start = lower (take 16 (lstrip_bytes sample)) in
    starts_with (codes "<!doctype") start || starts_with (codes "<html") start

-- `value in _STRUCTURED_CHUNK_TYPES`: a value that has no hash is a `TypeError`.
abbrev pub is_chunk_type : Json → Result Bool
is_chunk_type (str t) =
    ok (t is "begin" || t is "item" || t is "end" || t is "error" || t is "keepalive")
is_chunk_type (arr xs) = err (raised type_error)
is_chunk_type (obj fs) = err (raised type_error)
is_chunk_type v = ok false

abbrev pub has_hint : Text → Bool
has_hint content_type =
    is_in (codes "ndjson") content_type
    || is_in (codes "json-lines") content_type
    || is_in (codes "jsonl") content_type

abbrev by_type : Text → Bool → Mode
by_type content_type structured =
    if structured || has_hint content_type
    then ndjson
    else if starts_with (codes "text/") content_type
    then text_reply
    else blocking

-- `loads_json_object` on bytes, of which `json.loads` may raise another error than
-- `JSONDecodeError`.
abbrev is_decode_error : Class → Bool
is_decode_error json_decode_error = true
is_decode_error _ = false

unfoldable pub object_of : Result Json → Result (Option (Dict Json))
object_of (ok v) = ok (json_object v)
object_of (err e) = if is_decode_error (class_of e) then ok none else err e

-- What phase 1 has read: the buffer, the chunks that are left, and how the stream went on.
pub record Sniffed : Type 0 where
  pub buffer : Bytes
  pub rest : List Bytes
  pub exhausted : Bool

abbrev pub is_newline : ℕ → Bool
is_newline c = c == b'\n'

-- The loop of phase 1: up to a newline, the cap or the end.
unfoldable pub sniff : Bytes → List Bytes → Sniffed
sniff buffer [] =
    let enough = any is_newline buffer || ltb max_line_bytes (length buffer) in
    record { buffer = buffer; rest = []; exhausted = not enough }
sniff buffer (chunk ∷ chunks) =
    let enough = any is_newline buffer || ltb max_line_bytes (length buffer) in
    let more = sniff (buffer ++ chunk) chunks in
    if enough then record { buffer = buffer; rest = chunk ∷ chunks; exhausted = false } else more

-- What stands before the first newline.
unfoldable pub first_line : Bytes → Bytes
first_line [] = []
first_line (c ∷ cs) = let line = first_line cs in if is_newline c then [] else c ∷ line

-- The body of a blocking reply, read up to the cap.
unfoldable pub read_whole : Bytes → List Bytes → Ending → Result Bytes
read_whole buffer [] finished =
    if ltb max_blocking_bytes (length buffer) then err (raised backend_stream_error) else ok buffer
read_whole buffer [] (failed e) = err e
read_whole buffer (chunk ∷ chunks) ending =
    let buffer' = buffer ++ chunk in
    let more = read_whole buffer' chunks ending in
    if ltb max_blocking_bytes (length buffer') then err (raised backend_stream_error) else more

-- `_prepend`
abbrev pub prepend : Bytes → List Bytes → List Bytes
prepend [] rest = rest
prepend (c ∷ cs) rest = (c ∷ cs) ∷ rest

module _ (loads_bytes : Bytes → Result Json) where
  unfoldable pub sniff_mode : Bytes → Text → Result Mode
  unfolding lstrip_bytes object_of
  sniff_mode sample content_type =
      if is_html sample
      then ok html
      else (object_of (loads_bytes sample) >>= λ o. elim o [
        | none ↦ ok (by_type content_type false)
        | some chunk ↦
            (is_chunk_type (get (codes "type") chunk) >>= λ structured.
            ok (by_type content_type structured))
      ])
