-- ===== src/Sse/Encoding.antt =====
-- A server's events, written as lines and read back.
use Prim.Native.Char.{Char, code}
use Prim.Native.String
use text.Mathlib.TextLemmas.{nil-append, cons-append, append-nil as text-append-nil}
use vais_lang.Prelude.{
  join_with-split, lacks→Lacks, split-All-Lacks, split-Lacks_other, Lacks-append, All-append, lacks,
  false, true, split-append, none, arith, map, Lacks, str_eq, All, String, List, [], ◌∷◌, ◌++◌, ◌≡◌,
  refl, ap, sym, ◌∙◌, some, nat_beq, append_assoc, append-nil, split, split-ne-nil, if◌then◌else◌,
}
use vais_lang.Sse.{
  start, set_field, drop_return, cut_colon, Frame, SseEvent, new_parser, pop, each_line,
  process_line, feed, finish, parse_sse_stream, join_lines,
}
use vais_lang.Sse.Chunks.{
  pop-append, take_lines, each_line-append, joined, and_then, parse_sse_stream-joined,
}

-- A field as a server writes it: its name, a colon, a space, and its value.
abbrev pub field_line : String → String → String
field_line field value = String.◌++◌ field (String.◌∷◌ ":" (String.◌∷◌ " " value))

-- The lines of an event: its type, each line of its data, and the blank line.
abbrev pub event_lines : String → String → List String
event_lines type text =
    field_line "event" type ∷ map (field_line "data") (split b'\n' text) ++ "" ∷ []

-- Each line with its line ending.
abbrev pub ended : List String → String
ended [] = ""
ended (l ∷ ls) = String.◌++◌ l (String.◌∷◌ "\n" (ended ls))

pub data Message : Type 0 where
  message : String → String → Message

abbrev pub message_lines : List Message → List String
message_lines [] = []
message_lines (message type text ∷ ms) = event_lines type text ++ message_lines ms

abbrev pub encode : List Message → String
encode ms = ended (message_lines ms)

abbrev pub to_events : Message → List SseEvent
to_events (message type text) =
    if str_eq text "[DONE]"
    then []
    else record { event = type; data_text = text; id = none; retry = none } ∷ []

abbrev pub concat_events : List Message → List SseEvent
concat_events [] = []
concat_events (m ∷ ms) = to_events m ++ concat_events ms

-- A type on one line, and a text without carriage returns.
abbrev pub IsPlain : Message → Type 0
IsPlain (message type text) = Lacks b'\n' type × Lacks b'\r' type × Lacks b'\r' text

drop_return-Lacks : (s : String) → Lacks b'\r' s → drop_return s ≡ s
drop_return-Lacks String.[] h = refl
drop_return-Lacks (String.◌∷◌ c String.[]) (p, h) = ground (arith, p)
drop_return-Lacks (String.◌∷◌ c (String.◌∷◌ d s)) (p, h) =
    ap (λ t. String.◌∷◌ c t) (drop_return-Lacks (String.◌∷◌ d s) h)

cut_colon-append :
    (field rest : String)
    → Lacks b':' field
    → cut_colon (String.◌++◌ field (String.◌∷◌ ":" rest)) ≡ some (field, rest)
unfolding cut_colon
cut_colon-append String.[] rest h = rw nil-append refl
cut_colon-append (String.◌∷◌ c field) rest (p, h) =
    rw (cons-append, cut_colon-append field rest h) (ground (arith, p))

split-ended : (ls : List String) → All (Lacks b'\n') ls → split b'\n' (ended ls) ≡ ls ++ "" ∷ []
unfolding split
split-ended [] h = refl
split-ended (l ∷ ls) (p, h) =
    split-append b'\n' l (String.◌∷◌ "\n" (ended ls)) p
    ∙ ap (λ w. w ∷ split b'\n' (ended ls)) (text-append-nil l)
    ∙ ap (λ ws. l ∷ ws) (split-ended ls h)

process_line-field :
    (c : Char) (field value : String) (f : Frame)
    → Lacks b':' (String.◌∷◌ c field)
    → process_line (field_line (String.◌∷◌ c field) value) f
      ≡ (set_field (String.◌∷◌ c field) value f, [])
unfolding process_line
process_line-field c field value f (p, h) =
    let e : nat_beq (code c) b':' ≡ false = ground (arith, p) in
    rw (cons-append, e, cut_colon-append field (String.◌∷◌ " " value) h) refl

raw_field :
    (c : Char) (field value : String) (f : Frame)
    → lacks b':' (String.◌∷◌ c field) ≡ true
    → lacks b'\r' (String.◌∷◌ c field) ≡ true
    → Lacks b'\r' value
    → process_line (drop_return (field_line (String.◌∷◌ c field) value)) f
      ≡ (set_field (String.◌∷◌ c field) value f, [])
raw_field c field value f h k l =
    let tail : Lacks b'\r' (String.◌∷◌ ":" (String.◌∷◌ " " value)) =
      (omega arith, (omega arith, l)) in
    let whole =
      Lacks-append b'\r' (String.◌∷◌ c field) _ (lacks→Lacks b'\r' (String.◌∷◌ c field) k) tail in
    ap (λ raw. process_line raw f) (drop_return-Lacks _ whole)
    ∙ process_line-field c field value f (lacks→Lacks b':' (String.◌∷◌ c field) h)

each_line-data :
    (vs : List String) (f : Frame)
    → All (Lacks b'\r') vs
    → each_line process_line (map (field_line "data") vs) f
      ≡ (record f { data_lines = f.data_lines ++ vs }, [])
unfolding set_field
each_line-data [] f h = rw append-nil refl
each_line-data (v ∷ vs) f (p, h) =
    ap (λ r. and_then r (each_line process_line (map (field_line "data") vs)))
      (raw_field "d" "ata" v f refl refl p)
    ∙ each_line-data vs (record f { data_lines = f.data_lines ++ v ∷ [] }) h
    ∙ ap (λ l. (record f { data_lines = l }, [])) (append_assoc f.data_lines (v ∷ []) vs)

blank_line :
    (type text : String)
    → each_line process_line
        ("" ∷ [])
        (record start { event_type = type; data_lines = split b'\n' text })
      ≡ (start, to_events (message type text))
unfolding process_line
blank_line type text =
    let (v, vs, k) = split-ne-nil b'\n' text in
    let back : join_lines (v ∷ vs) ≡ text = ap join_lines (sym k) ∙ join_with-split "\n" text in
    rw (k, append-nil) (ap (λ t. (start, to_events (message type t))) back)

each_line-message :
    (type text : String)
    → IsPlain (message type text)
    → each_line process_line (event_lines type text) start ≡ (start, to_events (message type text))
unfolding set_field
each_line-message type text (p, q, r) =
    let pieces = map (field_line "data") (split b'\n' text) in
    let f = record start { event_type = type } in
    ap (λ s. and_then s (each_line process_line (pieces ++ "" ∷ [])))
      (raw_field "e" "vent" type start refl refl q)
    ∙ each_line-append process_line pieces ("" ∷ []) f
    ∙ ap (λ s. and_then s (each_line process_line ("" ∷ [])))
        (each_line-data (split b'\n' text) f (split-Lacks_other b'\n' b'\r' text r))
    ∙ blank_line type text

each_line-messages :
    (ms : List Message)
    → All IsPlain ms
    → each_line process_line (message_lines ms) start ≡ (start, concat_events ms)
each_line-messages [] h = refl
each_line-messages (message type text ∷ ms) (p, h) =
    each_line-append process_line (event_lines type text) (message_lines ms) start
    ∙ ap (λ s. and_then s (each_line process_line (message_lines ms)))
        (each_line-message type text p)
    ∙ ap (λ s. (s.0, to_events (message type text) ++ s.1)) (each_line-messages ms h)

field_line-Lacks :
    (field value : String)
    → lacks b'\n' field ≡ true
    → Lacks b'\n' value
    → Lacks b'\n' (field_line field value)
field_line-Lacks field value h k =
    Lacks-append b'\n' field _ (lacks→Lacks b'\n' field h) (omega arith, (omega arith, k))

data_lines-Lacks :
    (vs : List String) → All (Lacks b'\n') vs → All (Lacks b'\n') (map (field_line "data") vs)
data_lines-Lacks [] h = tt
data_lines-Lacks (v ∷ vs) (p, h) = (field_line-Lacks "data" v refl p, data_lines-Lacks vs h)

message_lines-Lacks : (ms : List Message) → All IsPlain ms → All (Lacks b'\n') (message_lines ms)
message_lines-Lacks [] h = tt
message_lines-Lacks (message type text ∷ ms) ((p, q, r), h) = (
  field_line-Lacks "event" type refl p,
  All-append _ (map (field_line "data") (split b'\n' text) ++ "" ∷ []) (message_lines ms)
      (All-append _ (map (field_line "data") (split b'\n' text)) ("" ∷ [])
        (data_lines-Lacks (split b'\n' text) (split-All-Lacks b'\n' text)) (tt, tt))
      (message_lines-Lacks ms h),
)

feed-encode :
    (ms : List Message)
    → All IsPlain ms
    → feed (encode ms) new_parser ≡ (new_parser, concat_events ms)
unfolding feed
feed-encode ms h =
    let lines = message_lines ms in
    ap (λ s. take_lines start (pop (split b'\n' s))) (nil-append (encode ms))
    ∙ ap (λ ls. take_lines start (pop ls)) (split-ended lines (message_lines-Lacks ms h))
    ∙ ap (take_lines start) (pop-append lines "" [])
    ∙ ap (λ ls. take_lines start (ls, "")) (append-nil lines)
    ∙ ap (λ r. (record { buffer = ""; frame = r.0 }, r.1)) (each_line-messages ms h)

-- For messages whose type is on one line and whose type and data have no carriage return: their
-- events come out in order, however the text of the messages is cut into chunks. A message whose
-- data is the end mark of an OpenAI stream gives no event, and those after it are given.
pub parse_sse_stream-encode :
    (ms : List Message) (chunks : List String)
    → All IsPlain ms
    → joined chunks ≡ encode ms
    → parse_sse_stream (some chunks) "" ≡ some (concat_events ms)
unfolding parse_sse_stream
parse_sse_stream-encode ms chunks h e =
    parse_sse_stream-joined chunks ""
    ∙ ap (λ text. parse_sse_stream (some (text ∷ [])) "") e
    ∙ ap (λ r. some ((r.1 ++ []) ++ finish "" r.0)) (feed-encode ms h)
    ∙ ap some (append-nil (concat_events ms ++ []) ∙ append-nil (concat_events ms))
