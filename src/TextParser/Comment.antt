-- ===== src/TextParser/Comment.antt =====
-- Comments to the end of the line, which only a carriage return ends.
use chat_server_mt.Base.{ℕ, suc, ◌+◌, ◌≡◌, ◌∙◌, refl, ap, false, List, [], ◌∷◌, ◌==◌, length, arith}
use chat_server_mt.TextParser.{
  line, verdict, slash, overrun, skip_none_command, get_next_word, find_key, value_behind,
  string_behind, get_value, get_string_value,
}

abbrev pub NoReturn : List ℕ → Type 0
NoReturn [] = Unit {0}
NoReturn (c ∷ cs) = ((c == 13) ≡ false) × NoReturn cs

skip-overruns : (cs : List ℕ) (prev : ℕ) → NoReturn cs → skip_none_command line prev cs ≡ overrun
unfolding skip_none_command verdict
skip-overruns [] prev h = refl
skip-overruns (c ∷ cs) prev h = rw (skip_none_command, verdict, h.0) (skip-overruns cs c h.1)

find_key-overruns :
    (n : ℕ) (key cs : List ℕ) (prev : ℕ)
    → NoReturn cs
    → find_key (suc n) key (prev, 47 ∷ 47 ∷ cs) ≡ overrun
unfolding find_key get_next_word skip_none_command verdict slash
find_key-overruns n key cs prev h = rw (skip-overruns cs 47 h) refl

-- When the text begins with a comment of two slashes and no carriage return follows, GetValue and
-- GetStringValue read past the end of the buffer, whatever key is asked for and whatever lines
-- follow.
pub get_value-overruns :
    (front : ℕ) (key cs : List ℕ) (value_size : ℕ)
    → NoReturn cs
    → (get_value front (47 ∷ 47 ∷ cs) key ≡ overrun)
      × (get_string_value front (47 ∷ 47 ∷ cs) key value_size ≡ overrun)
unfolding get_value get_string_value
get_value-overruns front key cs value_size h =
    let e : find_key (length (47 ∷ 47 ∷ cs) + 1) key (front, 47 ∷ 47 ∷ cs) ≡ overrun =
      ap (λ n. find_key n key (front, 47 ∷ 47 ∷ cs)) {y = suc (length (47 ∷ 47 ∷ cs))} (omega arith)
      ∙ find_key-overruns (length (47 ∷ 47 ∷ cs)) key cs front h in
    (ap value_behind e, ap (string_behind value_size) e)
