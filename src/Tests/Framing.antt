-- ===== src/Tests/Framing.antt =====
-- Byte streams at concrete inputs.
use llm_middleman.Base.{◌≡◌, refl, true, List, [], ◌∷◌, ◌++◌, filter, concat, Bytes, codes, text_eq}
use llm_middleman.Sse.{ServerSentEvent, end_line, keep_rest, async_iter_sse, join_lines}
use llm_middleman.Sse.Utf8.{decode, encode}
use llm_middleman.Sse.Ndjson.{async_iter_lines}
use llm_middleman.Sse.Reference.{events_of, split_lf, fits}
use llm_middleman.Sse.Framing.{async_iter_sse-events_of}
use llm_middleman.Sse.Lines.{async_iter_lines-split_lf}

-- Two events, the CRLF that ends the first cut in two.
abbrev split_chunks : List Bytes
split_chunks =
    codes "event: done\rdata: a\r" ∷ codes "\n\r" ∷ codes "\ndata:b\n\n: comment\ndata: lost" ∷ []

abbrev two_events : List ServerSentEvent
two_events =
    record { event = codes "done"; payload = codes "a" }
    ∷ record { event = codes "message"; payload = codes "b" }
    ∷ []

async_iter_sse_run : async_iter_sse 20 split_chunks ≡ two_events
unfolding async_iter_sse end_line keep_rest join_lines text_eq
async_iter_sse_run = refl

-- A line over the cap is skipped, and the frame around it goes on.
async_iter_sse_capped :
    async_iter_sse 8 (codes "data: a\ndata: 123456789\n\n" ∷ [])
    ≡ record { event = codes "message"; payload = codes "a" } ∷ []
unfolding async_iter_sse end_line keep_rest join_lines text_eq
async_iter_sse_capped = refl

-- A sequence that is cut short, and a byte that starts none.
decode_run :
    decode (0x61 ∷ 0xc3 ∷ 0xa9 ∷ 0xe2 ∷ 0x82 ∷ 0x62 ∷ 0xff ∷ [])
    ≡ codes "aé" ++ 0xfffd ∷ 0x62 ∷ 0xfffd ∷ []
unfolding decode
decode_run = refl

decode-encode_run : decode (encode (codes "aé€😀")) ≡ codes "aé€😀"
unfolding decode encode
decode-encode_run = refl

async_iter_lines_run :
    async_iter_lines 4 true (codes "ab" ∷ codes "c\nlong!\n" ∷ codes "e" ∷ [])
    ≡ codes "abc" ∷ codes "e" ∷ []
unfolding async_iter_lines llm_middleman.Sse.Ndjson.end_line llm_middleman.Sse.Ndjson.keep_rest
async_iter_lines_run = refl

async_iter_sse-events_of_example :
    async_iter_sse 20 split_chunks ≡ events_of 20 (concat split_chunks)
async_iter_sse-events_of_example = async_iter_sse-events_of 20 split_chunks

async_iter_lines-split_lf_example :
    async_iter_lines 4 true (codes "ab" ∷ codes "c\nlong!\n" ∷ codes "e" ∷ [])
    ≡ filter (fits 4) (split_lf true [] (codes "abc\nlong!\ne"))
async_iter_lines-split_lf_example =
    async_iter_lines-split_lf 4 true (codes "ab" ∷ codes "c\nlong!\n" ∷ codes "e" ∷ [])
