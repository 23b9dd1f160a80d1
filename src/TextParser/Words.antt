-- ===== src/TextParser/Words.antt =====
-- How the parser reads a word, and an equals sign, behind separators.
use chat_server_mt.Base.{
  ℕ, ◌<◌, ◌≡◌, ◌∙◌, ap, refl, true, false, Option, List, [], ◌∷◌, ◌++◌, ◌==◌, ◌||◌, lt→ltb, arith,
  length, if◌then◌else◌,
}
use chat_server_mt.TextParser.{
  Text, Parsed, overrun, returned, and_then, code, goes, stops, is_separator, first, verdict,
  skip_none_command, is_word_end, prepend, word_loop, word_at, get_next_word, ch_word, up_to_zero,
}

-- A character of a word: none that ends a word, and not the terminator of a string.
abbrev pub IsPlain : ℕ → Type 0
IsPlain c = (is_word_end c ≡ false) × (0 < c)

abbrev pub AllPlain : List ℕ → Type 0
AllPlain [] = Unit {0}
AllPlain (c ∷ cs) = IsPlain c × AllPlain cs

-- A word that starts neither a comment nor, as `{`, `}`, `.` and `,` do, something else.
abbrev pub IsWord : List ℕ → Type 0
IsWord [] = ⊥
IsWord (c ∷ w) =
    ((is_separator c || c == 125 || c == 47) ≡ false) × AllPlain (c ∷ w) × (length (c ∷ w) < 256)

abbrev pub AllSeparators : List ℕ → Type 0
AllSeparators [] = Unit {0}
AllSeparators (c ∷ cs) = (is_separator c ≡ true) × AllSeparators cs

-- What stands in front of the pointer behind some characters.
abbrev pub last : ℕ → List ℕ → ℕ
last prev [] = prev
last prev (c ∷ cs) = last c cs

-- At a separator the parser goes on, and at the start of a word it stops.
verdict-separator :
    (prev c : ℕ) (next : Option ℕ) → is_separator c ≡ true → verdict code prev c next ≡ goes code
unfolding verdict
verdict-separator prev c next h = ground (arith, h)

verdict-start :
    (prev c : ℕ) (next : Option ℕ)
    → (is_separator c || c == 125 || c == 47) ≡ false
    → verdict code prev c next ≡ stops
unfolding verdict
verdict-start prev c next h = ground (arith, h)

skip-stops :
    (prev c : ℕ) (cs : List ℕ)
    → (is_separator c || c == 125 || c == 47) ≡ false
    → skip_none_command code prev (c ∷ cs) ≡ returned (prev, c ∷ cs)
unfolding skip_none_command
skip-stops prev c cs h = rw (skip_none_command, verdict-start prev c (first cs) h)

skip-separators :
    (s : List ℕ) (prev c : ℕ) (cs : List ℕ)
    → AllSeparators s
    → (is_separator c || c == 125 || c == 47) ≡ false
    → skip_none_command code prev (s ++ c ∷ cs) ≡ returned (last prev s, c ∷ cs)
unfolding skip_none_command
skip-separators [] prev c cs a h = skip-stops prev c cs h
skip-separators (d ∷ s) prev c cs a h =
    rw (skip_none_command, verdict-separator prev d (first (s ++ c ∷ cs)) a.0)
      (skip-separators s d c cs a.1 h)

word_loop-plain :
    (w : List ℕ) (prev e : ℕ) (cs : List ℕ)
    → AllPlain w
    → is_word_end e ≡ true
    → word_loop prev (w ++ e ∷ cs) ≡ returned (w, (last prev w, e ∷ cs))
unfolding word_loop
word_loop-plain [] prev e cs a h = rw (word_loop, h)
word_loop-plain (c ∷ w) prev e cs a h =
    rw (word_loop, a.0.0) (ap (prepend c) (word_loop-plain w c e cs a.1 h))

up_to_zero-plain : (w : List ℕ) → AllPlain w → up_to_zero w ≡ w
up_to_zero-plain [] a = refl
up_to_zero-plain (c ∷ w) a = ground (arith, a.0.1, up_to_zero-plain w a.1)

word_at-word :
    (c : ℕ) (w : List ℕ) (prev e : ℕ) (cs : List ℕ)
    → IsWord (c ∷ w)
    → is_word_end e ≡ true
    → word_at (prev, c ∷ w ++ e ∷ cs) ≡ returned (c ∷ w, (last prev (c ∷ w), e ∷ cs))
unfolding word_at
word_at-word c w prev e cs i h = ground (arith, i.1.0.0, word_loop-plain (c ∷ w) prev e cs i.1 h)

-- GetNextWord and the copy into `chWord`, for a word behind separators.
pub next-word :
    (s w : List ℕ) (prev e : ℕ) (cs : List ℕ)
    → AllSeparators s
    → IsWord w
    → is_word_end e ≡ true
    → and_then (get_next_word (prev, s ++ (w ++ e ∷ cs))) ch_word
      ≡ returned (w, (last (last prev s) w, e ∷ cs))
unfolding get_next_word ch_word
next-word s [] prev e cs a i h = absurd i
next-word s (c ∷ w) prev e cs a i h =
    ap (λ r. and_then (and_then r word_at) ch_word) (skip-separators s prev c (w ++ e ∷ cs) a i.0)
    ∙ ap (λ r. and_then r ch_word) (word_at-word c w (last prev s) e cs i h)
    ∙ ap
        (λ b.
          if◌then◌else◌ {A = Parsed (List ℕ × Text)} b
            (returned (up_to_zero (c ∷ w), (last (last prev s) (c ∷ w), e ∷ cs))) overrun)
        (lt→ltb (length (c ∷ w)) 256 i.2)
    ∙ ap (λ v. returned (v, (last (last prev s) (c ∷ w), e ∷ cs))) (up_to_zero-plain (c ∷ w) i.1)

pub next-equals :
    (s : List ℕ) (prev : ℕ) (cs : List ℕ)
    → AllSeparators s
    → and_then (get_next_word (prev, s ++ 61 ∷ cs)) ch_word ≡ returned (61 ∷ [], (61, cs))
unfolding get_next_word ch_word word_at
next-equals s prev cs a =
    ap (λ r. and_then (and_then r word_at) ch_word) (skip-separators s prev 61 cs a refl)
