-- ===== src/TextParser.antt =====
-- TextParser.cpp: the lookup of a key in the text of Config.ini. A text is what stands in front of
-- `_bufPointer`, one character, and the rest of the buffer. LoadFile, which reads the file into the
-- buffer, and atoi are outside.
pub mod Progress
pub mod Inside
pub mod Terminate
pub mod Words
pub mod Find
pub mod Lookup
pub mod Comment
mod Examples
use chat_server_mt.Base.{
  ℕ, zero, suc, ◌+◌, Bool, true, false, ◌&&◌, ◌||◌, Option, none, some, List, [], ◌∷◌, ◌==◌, ltb,
  leb, if◌then◌else◌, length, replicate, blit,
}

abbrev pub Text : Type 0
Text = ℕ × List ℕ

-- What a function of the parser does: it reads or writes past a buffer, it returns false, or it
-- returns true and gives something. A lookup can also use up its fuel.
pub data Parsed {ℓ} (A : Type ℓ) : Type ℓ where
  overrun : Parsed A
  refused : Parsed A
  out_of_fuel : Parsed A
  returned : A → Parsed A

abbrev pub and_then {ℓ ℓ'} : {A : Type ℓ} {B : Type ℓ'} → Parsed A → (A → Parsed B) → Parsed B
and_then overrun f = overrun
and_then refused f = refused
and_then out_of_fuel f = out_of_fuel
and_then (returned a) f = f a

-- Where SkipNoneCommand stands: between words, in a comment, in a comment to the end of the line.
pub data Mode : Type 0 where
  code block line : Mode

-- What it does about one character: it goes on behind it, stops at it with true or false, or reads
-- behind the end of the buffer.
pub data Verdict : Type 0 where
  goes : Mode → Verdict
  stops closes unread : Verdict

-- `{`, `.`, `,`, and white space.
abbrev pub is_separator : ℕ → Bool
is_separator c = c == 123 || c == 46 || c == 44 || c == 32 || c == 8 || c == 9 || c == 10 || c == 13

abbrev pub first : List ℕ → Option ℕ
first [] = none
first (c ∷ cs) = some c

-- Behind a `/`, with the character before it and the one behind it.
unfoldable pub slash : ℕ → Option ℕ → Verdict
slash prev none = unread
slash prev (some d) =
    if d == 42
    then (if prev == 42 then goes code else goes block)
    else if d == 47
    then goes line
    else stops

unfoldable pub verdict : Mode → ℕ → ℕ → Option ℕ → Verdict
unfolding slash
verdict code prev c next =
    if c == 125
    then closes
    else if is_separator c
    then goes code
    else if c == 47
    then slash prev next
    else stops
verdict block prev c next = if prev == 42 && c == 47 then goes code else goes block
verdict line prev c next = if c == 13 then goes code else goes line

unfoldable pub skip_none_command : Mode → ℕ → List ℕ → Parsed Text
unfolding verdict
skip_none_command m prev [] = overrun
skip_none_command m prev (c ∷ cs) = elim (verdict m prev c (first cs)) [
  | goes m' ↦ skip_none_command m' c cs
  | stops ↦ returned (prev, c ∷ cs)
  | closes ↦ refused
  | unread ↦ overrun
]

abbrev pub is_word_end : ℕ → Bool
is_word_end c = c == 32 || c == 61 || c == 9 || c == 10 || c == 13

abbrev pub prepend : ℕ → Parsed (List ℕ × Text) → Parsed (List ℕ × Text)
prepend c r = and_then r λ x. returned (c ∷ x.0, x.1)

-- The loop of GetNextWord.
unfoldable pub word_loop : ℕ → List ℕ → Parsed (List ℕ × Text)
word_loop prev [] = overrun
word_loop prev (c ∷ cs) = elim (is_word_end c) [
  | true ↦ returned ([], (prev, c ∷ cs))
  | false ↦ prepend c (word_loop c cs)
]

unfoldable pub word_at : Text → Parsed (List ℕ × Text)
unfolding word_loop
word_at (prev, []) = overrun
word_at (prev, c ∷ cs) = if c == 61 then returned (61 ∷ [], (c, cs)) else word_loop prev (c ∷ cs)

unfoldable pub get_next_word : Text → Parsed (List ℕ × Text)
unfolding skip_none_command word_at
get_next_word (prev, cs) = and_then (skip_none_command code prev cs) word_at

-- The loop of GetStringWord.
unfoldable pub string_loop : ℕ → List ℕ → Parsed (List ℕ × Text)
string_loop prev [] = overrun
string_loop prev (c ∷ cs) = elim (c == 34) [
  | true ↦ returned ([], (c, cs))
  | false ↦ prepend c (string_loop c cs)
]

unfoldable pub string_at : Text → Parsed (List ℕ × Text)
unfolding string_loop
string_at (prev, []) = overrun
string_at (prev, c ∷ cs) = if c == 34 then string_loop c cs else refused

unfoldable pub get_string_word : Text → Parsed (List ℕ × Text)
unfolding skip_none_command string_at
get_string_word (prev, cs) = and_then (skip_none_command code prev cs) string_at

abbrev pub up_to_zero : List ℕ → List ℕ
up_to_zero [] = []
up_to_zero (c ∷ cs) = let rest = up_to_zero cs in if c == 0 then [] else c ∷ rest

-- strcmp with `key`, a string without a zero, gives 0.
abbrev pub is_same : List ℕ → List ℕ → Bool
is_same [] [] = true
is_same [] (d ∷ ds) = false
is_same (c ∷ cs) [] = false
is_same (c ∷ cs) (d ∷ ds) = c == d && is_same cs ds

-- A word in the array `chWord`, which has room for 255 characters and the terminator.
unfoldable pub ch_word : List ℕ × Text → Parsed (List ℕ × Text)
ch_word (w, t) = if ltb (length w) 256 then returned (up_to_zero w, t) else overrun

-- The loop of GetValue and of GetStringValue, up to the key.
unfoldable pub find_key : ℕ → List ℕ → Text → Parsed Text
unfolding get_next_word ch_word
find_key zero key t = out_of_fuel
find_key (suc n) key t =
    and_then (and_then (get_next_word t) ch_word)
      λ x. elim (is_same key x.0) [ true ↦ returned x.1 | false ↦ find_key n key x.1 ]

unfoldable pub find_equals : Text → Parsed Text
unfolding get_next_word ch_word
find_equals t =
    and_then (and_then (get_next_word t) ch_word)
      λ x. if is_same (61 ∷ []) x.0 then returned x.1 else refused

-- What follows once the key is found: the equals sign, and the string that GetValue gives to atoi.
abbrev pub value_behind : Parsed Text → Parsed (List ℕ)
value_behind r =
    and_then (and_then r find_equals)
      λ t. and_then (and_then (get_next_word t) ch_word) λ x. returned x.0

-- `before` is what stands in front of the buffer.
unfoldable pub get_value : ℕ → List ℕ → List ℕ → Parsed (List ℕ)
unfolding find_key find_equals
get_value before buffer key = value_behind (find_key (length buffer + 1) key (before, buffer))

-- The same in GetStringValue, which copies the string into the array `value`.
abbrev pub string_behind : ℕ → Parsed Text → Parsed (List ℕ)
string_behind value_size r = and_then (and_then r find_equals) λ t.
    and_then (get_string_word t) λ x.
      if leb (length x.0) value_size
      then returned (blit (replicate value_size 0) 0 x.0)
      else overrun

unfoldable pub get_string_value : ℕ → List ℕ → List ℕ → ℕ → Parsed (List ℕ)
unfolding find_key find_equals get_string_word
get_string_value before buffer key value_size =
    string_behind value_size (find_key (length buffer + 1) key (before, buffer))
