-- ===== src/Sse.antt =====
-- ai/src/stream.ts: the parser of server-sent events. A chunk is the text that the decoder gives for
-- it, and the tail is what the decoder still holds when the stream ends.
pub mod Chunks
pub mod Encoding
mod Tests
use Prim.Native.Char.{code}
use Prim.Native.String
use vais_lang.Prelude.{
  is_white, is_digit, join_with, ℤ, pos, negsuc, ℕ, ◌+◌, ◌*◌, ◌-◌, String, Option, none, some, List,
  [], ◌∷◌, ◌++◌, Bool, true, false, ◌&&◌, ◌||◌, if◌then◌else◌, nat_beq, leb, or_else, zero, suc,
  str_eq, split,
}

pub record SseEvent : Type 0 where
  pub event : String
  pub data_text : String
  pub id : Option String
  pub retry : Option ℤ

-- The accumulated fields of the current event.
pub record Frame : Type 0 where
  pub event_type : String
  pub data_lines : List String
  pub last_event_id : Option String
  pub retry_ms : Option ℤ

abbrev pub start : Frame
start = record { event_type = "message"; data_lines = []; last_event_id = none; retry_ms = none }

-- `lines.join("\n")`
abbrev pub join_lines : List String → String
join_lines lines = join_with "\n" lines

unfoldable pub dispatch_event : Frame → Frame × List SseEvent
dispatch_event f = elim f.data_lines [
  | [] ↦ (f, [])
  | l ∷ ls ↦
      let text = join_lines (l ∷ ls) in
      let ev : SseEvent = record {
        event = f.event_type;
        data_text = text;
        id = f.last_event_id;
        retry = f.retry_ms;
      } in
      (
        record f { event_type = "message"; data_lines = [] },
        if str_eq text "[DONE]" then [] else ev ∷ [],
      )
]

-- `raw.endsWith("\r") ? raw.slice(0, -1) : raw`
abbrev pub drop_return : String → String
drop_return String.[] = ""
drop_return (String.◌∷◌ c String.[]) = if nat_beq (code c) b'\r' then "" else String.◌∷◌ c String.[]
drop_return (String.◌∷◌ c (String.◌∷◌ d s)) = String.◌∷◌ c (drop_return (String.◌∷◌ d s))

-- The text before the first colon and the text after it.
unfoldable pub cut_colon : String → Option (String × String)
cut_colon String.[] = none
cut_colon (String.◌∷◌ c s) =
    let rest = cut_colon s in
    if nat_beq (code c) b':'
    then some ("", s)
    else elim rest [ none ↦ none | some (field, value) ↦ some (String.◌∷◌ c field, value) ]

-- `.replace(/^ /, "")`
abbrev pub drop_space : String → String
drop_space String.[] = ""
drop_space (String.◌∷◌ c s) = if nat_beq (code c) b' ' then s else String.◌∷◌ c s

-- The number of the digits that the text begins with, after those in `acc`.
abbrev pub digits : Option ℕ → String → Option ℕ
digits acc String.[] = acc
digits acc (String.◌∷◌ c s) =
    let rest = digits (some (10 * or_else acc 0 + (code c - b'0'))) s in
    if is_digit (code c) then rest else acc

abbrev pub negate : ℕ → ℤ
negate zero = pos 0
negate (suc n) = negsuc n

abbrev pub parse_signed : String → Option ℤ
parse_signed String.[] = none
parse_signed (String.◌∷◌ c s) =
    if nat_beq (code c) b'-'
    then elim (digits none s) [ none ↦ none | some n ↦ some (negate n) ]
    else elim (digits none (if nat_beq (code c) b'+' then s else String.◌∷◌ c s)) [
      | none ↦ none
      | some n ↦ some (pos n)
    ]

-- `parseInt(text, 10)`, where `none` stands for NaN
unfoldable pub parse_int : String → Option ℤ
parse_int String.[] = none
parse_int (String.◌∷◌ c s) =
    let rest = parse_int s in if is_white (code c) then rest else parse_signed (String.◌∷◌ c s)

-- The `switch` on the field.
unfoldable pub set_field : String → String → Frame → Frame
unfolding parse_int
set_field field value f =
    if str_eq field "event"
    then record f { event_type = value }
    else if str_eq field "data"
    then record f { data_lines = f.data_lines ++ value ∷ [] }
    else if str_eq field "id"
    then record f { last_event_id = some value }
    else if str_eq field "retry"
    then elim (parse_int value) [ none ↦ f | some ms ↦ record f { retry_ms = some ms } ]
    else f

-- What one complete line does, without its line ending.
unfoldable pub process_line : String → Frame → Frame × List SseEvent
unfolding cut_colon dispatch_event set_field
process_line String.[] f = dispatch_event f
process_line (String.◌∷◌ c s) f =
    if nat_beq (code c) b':' then (f, []) else elim (cut_colon (String.◌∷◌ c s)) [
      | none ↦ (set_field (String.◌∷◌ c s) "" f, [])
      | some (field, value) ↦ (set_field field (drop_space value) f, [])
    ]

-- What a line of the leftover text does.
unfoldable pub process_leftover : String → Frame → Frame × List SseEvent
unfolding cut_colon dispatch_event
process_leftover String.[] f = dispatch_event f
process_leftover (String.◌∷◌ c s) f =
    if nat_beq (code c) b':' then (f, []) else elim (cut_colon (String.◌∷◌ c s)) [
      | none ↦ (f, [])
      | some (field, value) ↦ (
        if str_eq field "data"
            then record f { data_lines = f.data_lines ++ drop_space value ∷ [] }
            else f,
        [],
      )
    ]

-- The loop over the lines of a text.
abbrev pub each_line :
    (String → Frame → Frame × List SseEvent) → List String → Frame → Frame × List SseEvent
each_line process [] f = (f, [])
each_line process (raw ∷ raws) f =
    let (g, events) = process (drop_return raw) f in
    let (h, more) = each_line process raws g in (h, events ++ more)

-- The array without its last line, and that line.
abbrev pub pop : List String → List String × String
pop [] = ([], "")
pop (l ∷ []) = ([], l)
pop (l ∷ k ∷ ls) = let (lines, last) = pop (k ∷ ls) in (l ∷ lines, last)

pub record Parser : Type 0 where
  pub buffer : String
  pub frame : Frame

abbrev pub new_parser : Parser
new_parser = record { buffer = ""; frame = start }

-- The body of the loop over the chunks.
unfoldable pub feed : String → Parser → Parser × List SseEvent
unfolding split process_line
feed chunk p =
    let (lines, buffer) = pop (split b'\n' (String.◌++◌ p.buffer chunk)) in
    let (frame, events) = each_line process_line lines p.frame in
    (record { buffer = buffer; frame = frame }, events)

abbrev pub feed_each : List String → Parser → Parser × List SseEvent
feed_each [] p = (p, [])
feed_each (chunk ∷ chunks) p =
    let (q, events) = feed chunk p in let (r, more) = feed_each chunks q in (r, events ++ more)

-- `text.trim() === ""`
unfoldable pub is_blank : String → Bool
is_blank String.[] = true
is_blank (String.◌∷◌ c s) = is_white (code c) && is_blank s

-- What happens after the last chunk.
unfoldable pub finish : String → Parser → List SseEvent
unfolding is_blank split process_leftover dispatch_event
finish tail p =
    let remaining = String.◌++◌ p.buffer tail in
    let (f, events) =
      if is_blank remaining
      then (p.frame, [])
      else each_line process_leftover (split b'\n' remaining) p.frame in
    events ++ (dispatch_event f).1

-- The events of a body; `none` is the error on a response without a body.
unfoldable pub parse_sse_stream : Option (List String) → String → Option (List SseEvent)
unfolding feed finish
parse_sse_stream none tail = none
parse_sse_stream (some chunks) tail =
    let (p, events) = feed_each chunks new_parser in some (events ++ finish tail p)

-- The events with whether the signal is aborted when each arrives; the text and the tokens.
unfoldable pub consume_text_stream : List (SseEvent × Bool) → String × List String
consume_text_stream [] = ("", [])
consume_text_stream ((ev, aborted) ∷ events) =
    let (full, tokens) = consume_text_stream events in
    if aborted
    then ("", [])
    else if str_eq ev.data_text ""
    then (full, tokens)
    else (String.◌++◌ ev.data_text full, ev.data_text ∷ tokens)
