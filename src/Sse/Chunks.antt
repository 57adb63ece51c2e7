-- ===== src/Sse/Chunks.antt =====
-- The events do not depend on where the text is cut into chunks.
use Prim.Native.Char.{Char, code}
use Prim.Native.String
use text.Mathlib.TextLemmas.{
  cons-append, append_assoc as text-append_assoc, append-nil as text-append-nil,
}
use vais_lang.Prelude.{
  false, ℕ, String, List, [], ◌∷◌, ◌++◌, ◌≡◌, refl, ap, sym, ◌∙◌, some, nat_beq, Bool-cases, inl,
  inr, append_assoc, append-nil, split, push_head, split-ne-nil,
}
use vais_lang.Sse.{
  drop_return, Frame, Parser, SseEvent, new_parser, pop, each_line, process_line, feed, feed_each,
  finish, parse_sse_stream,
}

-- The text that the chunks make together.
abbrev pub joined : List String → String
joined [] = ""
joined (chunk ∷ chunks) = String.◌++◌ chunk (joined chunks)

module _ (sep : ℕ) (b : String) where
  -- The pieces of a text that goes on with `b` after the given pieces.
  abbrev go_on : List String → List String
  go_on pieces = (pop pieces).0 ++ split sep (String.◌++◌ (pop pieces).1 b)

  push_head-go_on :
      (c : Char) (v : String) (vs : List String)
      → nat_beq (code c) sep ≡ false
      → push_head c (go_on (v ∷ vs)) ≡ go_on (push_head c (v ∷ vs))
  unfolding split
  push_head-go_on c v [] e = rw (cons-append, e) refl
  push_head-go_on c v (w ∷ ws) e = refl

  split-append-go_on : (a : String) → split sep (String.◌++◌ a b) ≡ go_on (split sep a)
  unfolding split
  split-append-go_on String.[] = refl
  split-append-go_on (String.◌∷◌ c a) =
      let (v, vs, k) = split-ne-nil sep a in
      let rest : split sep (String.◌++◌ a b) ≡ go_on (v ∷ vs) = split-append-go_on a ∙ ap go_on k in
      elim (Bool-cases (nat_beq (code c) sep)) [
        | inl e ↦ rw (cons-append, e, k) (ap (λ l. "" ∷ l) rest)
        | inr e ↦ rw (cons-append, e, k) (ap (push_head c) rest ∙ push_head-go_on c v vs e)
      ]

pub pop-append :
    (xs : List String) (y : String) (ys : List String)
    → pop (xs ++ y ∷ ys) ≡ (xs ++ (pop (y ∷ ys)).0, (pop (y ∷ ys)).1)
pop-append [] y ys = refl
pop-append (x ∷ []) y ys = refl
pop-append (x ∷ w ∷ xs) y ys = ap (λ r. (x ∷ r.0, r.1)) (pop-append (w ∷ xs) y ys)

-- One after the other, with the events of both.
abbrev pub and_then {ℓ} :
    {S : Type ℓ} → S × List SseEvent → (S → S × List SseEvent) → S × List SseEvent
and_then (s, events) run = let (t, more) = run s in (t, events ++ more)

pub each_line-append :
    (process : String → Frame → Frame × List SseEvent) (a b : List String) (f : Frame)
    → each_line process (a ++ b) f ≡ and_then (each_line process a f) (each_line process b)
each_line-append process [] b f = refl
each_line-append process (raw ∷ a) b f =
    let (g, events) = process (drop_return raw) f in
    let (h, more) = each_line process a g in
    let (i, rest) = each_line process b h in
    ap (λ r. (r.0, events ++ r.1)) (each_line-append process a b g)
    ∙ ap (λ l. (i, l)) (sym (append_assoc events more rest))

-- What a parser does with the complete lines and the rest of a text.
abbrev pub take_lines : Frame → List String × String → Parser × List SseEvent
take_lines f (lines, buffer) =
    let (frame, events) = each_line process_line lines f in
    (record { buffer = buffer; frame = frame }, events)

pop-split-append :
    (x b : String)
    → let (lines, rest) = pop (split b'\n' x) in
      let (more, last) = pop (split b'\n' (String.◌++◌ rest b)) in
      pop (split b'\n' (String.◌++◌ x b)) ≡ (lines ++ more, last)
pop-split-append x b =
    let (lines, rest) = pop (split b'\n' x) in
    let (v, vs, k) = split-ne-nil b'\n' (String.◌++◌ rest b) in
    ap pop (split-append-go_on b'\n' b x ∙ ap (λ l. lines ++ l) k)
    ∙ pop-append lines v vs
    ∙ ap (λ l. (lines ++ (pop l).0, (pop l).1)) (sym k)

pub feed-append :
    (a b : String) (p : Parser) → feed (String.◌++◌ a b) p ≡ and_then (feed a p) (feed b)
unfolding feed
feed-append a b p =
    let x = String.◌++◌ p.buffer a in
    let (lines, rest) = pop (split b'\n' x) in
    let (more, last) = pop (split b'\n' (String.◌++◌ rest b)) in
    ap (λ s. take_lines p.frame (pop (split b'\n' s))) (sym (text-append_assoc p.buffer a b))
    ∙ ap (take_lines p.frame) (pop-split-append x b)
    ∙ ap (λ r. (record { buffer = last; frame = r.0 }, r.1))
        (each_line-append process_line lines more p.frame)

feed_each-joined :
    (chunk : String) (chunks : List String) (p : Parser)
    → feed_each (chunk ∷ chunks) p ≡ feed (joined (chunk ∷ chunks)) p
feed_each-joined chunk [] p = rw (text-append-nil, append-nil) refl
feed_each-joined chunk (next ∷ chunks) p =
    ap (λ r. (r.0, (feed chunk p).1 ++ r.1)) (feed_each-joined next chunks (feed chunk p).0)
    ∙ sym (feed-append chunk (joined (next ∷ chunks)) p)

-- The events of a body depend only on the text that its chunks make together.
pub parse_sse_stream-joined :
    (chunks : List String) (tail : String)
    → parse_sse_stream (some chunks) tail ≡ parse_sse_stream (some (joined chunks ∷ [])) tail
unfolding parse_sse_stream
parse_sse_stream-joined [] tail = refl
parse_sse_stream-joined (chunk ∷ chunks) tail =
    ap (λ r. some (r.1 ++ finish tail r.0))
      (feed_each-joined chunk chunks new_parser ∙ (rw append-nil refl))
