-- ===== src/Rag/Splitter/Windows.antt =====
-- The windows cover the text, if they advance.
use vais_lang.Prelude.{
  Option, inr, inl, false, Bool-cases, true, none, append-nil, ltb, leb, nat_beq, take_all, some,
  All, length-take, ◌<◌, sym, ℕ, zero, suc, ◌+◌, ◌-◌, ◌≤◌, ◌≡◌, refl, ap, ◌∙◌, List, [], ◌∷◌, ◌++◌,
  arith, length, take, drop,
}
use vais_lang.Rag.Splitter.{joined_text, split_text, windows, min, slice, SplitOptions, Text}

-- The text that the chunks give when the overlap is taken off all but the first.
abbrev pub tails : ℕ → List Text → Text
tails overlap [] = []
tails overlap (c ∷ chunks) = drop overlap c ++ tails overlap chunks

abbrev pub rejoin : ℕ → List Text → Text
rejoin overlap [] = []
rejoin overlap (c ∷ chunks) = c ++ tails overlap chunks

drop-append : (n : ℕ) (xs ys : Text) → n ≤ length xs → drop n (xs ++ ys) ≡ drop n xs ++ ys
drop-append zero xs ys h = refl
drop-append (suc n) [] ys h = absurd (omega arith)
drop-append (suc n) (x ∷ xs) ys h = drop-append n xs ys (omega arith)

drop-nil : (n : ℕ) → drop {A = ℕ} n [] ≡ []
drop-nil zero = refl
drop-nil (suc n) = refl

drop-drop : (m n : ℕ) (xs : Text) → drop m (drop n xs) ≡ drop (n + m) xs
drop-drop m zero xs = let e : m ≡ 0 + m = omega arith in ap (λ k. drop k xs) e
drop-drop m (suc n) [] = drop-nil m ∙ sym (drop-nil (suc n + m))
drop-drop m (suc n) (x ∷ xs) =
    let e : suc (n + m) ≡ suc n + m = omega arith in drop-drop m n xs ∙ ap (λ k. drop k (x ∷ xs)) e

take-drop : (n : ℕ) (xs : Text) → take n xs ++ drop n xs ≡ xs
take-drop zero xs = refl
take-drop (suc n) [] = refl
take-drop (suc n) (x ∷ xs) = ap (λ r. x ∷ r) (take-drop n xs)

length-drop : (n : ℕ) (xs : Text) → length (drop n xs) ≡ length xs - n
length-drop zero xs = omega arith
length-drop (suc n) [] = omega arith
length-drop (suc n) (x ∷ xs) = omega (arith, length-drop n xs)

length-slice :
    (start end : ℕ) (xs : Text)
    → start ≤ end
    → end ≤ length xs
    → length (slice start end xs) ≡ end - start
length-slice start end xs p q =
    length-take (end - start) (drop start xs) (omega (arith, length-drop start xs))

module _ (options : SplitOptions) (joined : Text)
    (advances : options.overlap < options.chunk_size) where
  -- What a run from `start` gives, if some text is left there.
  record Covers (start : ℕ) (c : Text) (chunks : List Text) : Type 0 where
    first : length c ≡ min (start + options.chunk_size) (length joined) - start
    short : All (λ d. length d ≤ options.chunk_size) (c ∷ chunks)
    whole : c ++ tails options.overlap chunks ≡ drop start joined

  slide :
      (start : ℕ) (c : Text) (chunks : List Text)
      → start + options.chunk_size < length joined
      → Covers (start + options.chunk_size - options.overlap) c chunks
      → Covers start
          (slice start (min (start + options.chunk_size) (length joined)) joined)
          (c ∷ chunks)
  slide start c chunks h r =
      let k = options.overlap in
      let len = length joined in
      let end = min (start + options.chunk_size) len in
      let next = start + options.chunk_size - k in
      let text = drop start joined in
      let n : end - start ≡ options.chunk_size = omega arith in
      let there : next + k ≡ start + options.chunk_size = omega arith in
      let enough : k ≤ length c = omega (arith, r.first) in
      let later : drop k c ++ tails k chunks ≡ drop options.chunk_size text =
        sym (drop-append k c (tails k chunks) enough)
        ∙ (ap (drop k) r.whole
            ∙ (drop-drop k next joined
                ∙ (ap (λ i. drop i joined) there
                    ∙ sym (drop-drop options.chunk_size start joined)))) in
      let mine = length-slice start end joined (omega arith) (omega arith) in
      record {
        first = mine;
        short = (omega (arith, mine), r.short);
        whole =
            ap (λ t. take (end - start) text ++ t) later
            ∙ (ap (λ i. take i text ++ drop options.chunk_size text) n
                ∙ take-drop options.chunk_size text);
      }

  -- The last window.
  last_window :
      (start : ℕ)
      → start < length joined
      → length joined ≤ start + options.chunk_size
      → Covers start (slice start (min (start + options.chunk_size) (length joined)) joined) []
  last_window start p h =
      let end = min (start + options.chunk_size) (length joined) in
      let mine = length-slice start end joined (omega arith) (omega arith) in
      record {
        first = mine;
        short = (omega (arith, mine), tt);
        whole =
            append-nil (slice start end joined)
            ∙ take_all (end - start) (drop start joined) (omega (arith, length-drop start joined));
      }

  windows-Covers :
      (fuel start : ℕ)
      → length joined - start < fuel
      → start < length joined
      → (c : Text) × (chunks : List Text) × (windows fuel options joined start ≡ some (c ∷ chunks))
        × Covers start c chunks
  unfolding windows
  windows-Covers zero start f h = absurd (omega arith)
  windows-Covers (suc fuel) start f h =
      let len = length joined in
      let end = min (start + options.chunk_size) len in
      let chunk = slice start end joined in
      let next = start + options.chunk_size - options.overlap in
      let more : ltb start len ≡ true = ground arith in
      elim (Bool-cases (nat_beq end len)) [
        | inl at_end ↦
            (chunk, [], rw (more, at_end) refl, last_window start h (ground (arith, at_end)))
        | inr inside ↦
            let before : start + options.chunk_size < len = ground (arith, inside) in
            let goes_on : leb len next ≡ false = ground arith in
            let (c, chunks, e, r) = windows-Covers fuel next (omega arith) (omega arith) in
            (chunk, c ∷ chunks, rw (more, inside, goes_on, e) refl, slide start c chunks before r)
      ]

joined_text-nil : (separator : Option Text) → joined_text separator [] ≡ []
unfolding joined_text
joined_text-nil none = refl
joined_text-nil (some []) = refl
joined_text-nil (some (u ∷ us)) = refl

-- With an overlap below the size of a chunk, the splitter ends within as many rounds as the text that it
-- slides over has units, and one more. No chunk is longer than the size, and the chunks give the text when the overlap is
-- taken off all but the first.
pub split_text-rejoin :
    (options : SplitOptions) (text : Text) (fuel : ℕ)
    → options.overlap < options.chunk_size
    → length (joined_text options.separator text) < fuel
    → let joined = joined_text options.separator text in
      (chunks : List Text) × (split_text fuel options text ≡ some chunks)
      × All (λ c. length c ≤ options.chunk_size) chunks
      × (rejoin options.overlap chunks ≡ joined)
unfolding split_text
split_text-rejoin options [] fuel h f = ([], refl, tt, sym (joined_text-nil options.separator))
split_text-rejoin options (u ∷ text) fuel h f =
    let joined = joined_text options.separator (u ∷ text) in
    elim (Bool-cases (leb (length joined) options.chunk_size)) [
      | inl fits ↦ (joined ∷ [], rw fits refl, (ground (arith, fits), tt), append-nil joined)
      | inr long ↦
          let (c, chunks, e, r) =
            windows-Covers options joined h fuel 0 (omega arith) (ground (arith, long)) in
          (c ∷ chunks, rw long e, r.short, r.whole)
    ]

windows_at_start :
    (options : SplitOptions) (joined : Text)
    → options.chunk_size ≤ options.overlap
    → options.chunk_size < length joined
    → (fuel : ℕ) → windows fuel options joined 0 ≡ none
unfolding windows
windows_at_start options joined h p zero = refl
windows_at_start options joined h p (suc fuel) =
    let back : 0 + options.chunk_size - options.overlap ≡ 0 = omega arith in
    let more : ltb 0 (length joined) ≡ true = ground arith in
    let inside : nat_beq (min (0 + options.chunk_size) (length joined)) (length joined) ≡ false =
      ground arith in
    let goes_on : leb (length joined) 0 ≡ false = ground arith in
    rw (more, inside, back, goes_on, windows_at_start options joined h p fuel) refl

-- With an overlap that is not below the size of a chunk, the splitter gives nothing for a document of which
-- it has more to slide over than one chunk, however many rounds it makes.
pub split_text_never_ends :
    (options : SplitOptions) (u : ℕ) (text : Text)
    → options.chunk_size ≤ options.overlap
    → options.chunk_size < length (joined_text options.separator (u ∷ text))
    → (fuel : ℕ) → split_text fuel options (u ∷ text) ≡ none
unfolding split_text
split_text_never_ends options u text h p fuel =
    let joined = joined_text options.separator (u ∷ text) in
    let long : leb (length joined) options.chunk_size ≡ false = ground arith in
    rw long (windows_at_start options joined h p fuel)
