-- ===== src/Sse/Tests.antt =====
-- Streams at concrete inputs.
use vais_lang.Prelude.{
  pos, negsuc, split, lacks, lacks→Lacks, All, String, some, none, List, [], ◌∷◌, ◌≡◌, refl, false,
  true,
}
use vais_lang.Sse.{SseEvent, parse_int, parse_sse_stream, consume_text_stream}
use vais_lang.Sse.Encoding.{Message, IsPlain, message, concat_events, parse_sse_stream-encode}

numbers : parse_int " 12x" ≡ some (pos 12)
unfolding parse_int
numbers = refl

negative : parse_int "-3" ≡ some (negsuc 2)
unfolding parse_int
negative = refl

no_number : parse_int "x" ≡ none
unfolding parse_int
no_number = refl

abbrev hello : SseEvent
hello = record { event = "greet"; data_text = "a\nb"; id = some "7"; retry = some (pos 50) }

-- A comment, line endings of both kinds, an identifier that stays, and a last event without a blank line.
fields :
    parse_sse_stream
      (some (
        ": hi\nid: 7\r\nretry: 50\nevent: gr" ∷ "eet\ndata:a\ndata: b\n\nda"
        ∷ "ta: [DONE]\n\ndata: c" ∷ []))
      ""
    ≡ some (hello ∷ record hello { event = "message"; data_text = "c" } ∷ [])
unfolding parse_sse_stream
fields = refl

-- The type of a leftover line is not read.
leftover_type :
    parse_sse_stream (some ("data: c\nevent: last" ∷ [])) ""
    ≡ some (record { event = "message"; data_text = "c"; id = none; retry = none } ∷ [])
unfolding parse_sse_stream
leftover_type = refl

abbrev messages : List Message
messages = message "a" "x\ny" ∷ message "b" "[DONE]" ∷ message "c" "" ∷ []

abbrev pieces : List String
pieces =
    "event: a\nda" ∷ "ta: x\ndata: y\n" ∷ "\nevent: b\ndata: [DONE]\n\nevent: c\ndata: \n\n" ∷ []

plain :
    (type text : String)
    → lacks b'\n' type ≡ true
    → lacks b'\r' type ≡ true
    → lacks b'\r' text ≡ true
    → IsPlain (message type text)
plain type text h k l =
    (lacks→Lacks b'\n' type h, lacks→Lacks b'\r' type k, lacks→Lacks b'\r' text l)

messages-IsPlain : All IsPlain messages
messages-IsPlain = (
  plain "a" "x\ny" refl refl refl,
  (plain "b" "[DONE]" refl refl refl, (plain "c" "" refl refl refl, tt)),
)

parse_sse_stream-encode_example : parse_sse_stream (some pieces) "" ≡ some (concat_events messages)
unfolding split
parse_sse_stream-encode_example = parse_sse_stream-encode messages pieces messages-IsPlain refl

tokens :
    consume_text_stream (
      (hello, false)
      ∷ (record hello { data_text = "" }, false)
      ∷ (hello, false)
      ∷ (hello, true)
      ∷ [])
    ≡ ("a\nba\nb", "a\nb" ∷ "a\nb" ∷ [])
unfolding consume_text_stream
tokens = refl
