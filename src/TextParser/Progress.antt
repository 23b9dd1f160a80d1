-- ===== src/TextParser/Progress.antt =====
-- How much of the text the parser takes for a word.
use chat_server_mt.Base.{
  ℕ, ◌+◌, ◌≤◌, ◌<◌, ◌≡◌, refl, sym, subst, true, false, Option, List, [], ◌∷◌, arith, length,
}
use chat_server_mt.TextParser.{
  Text, Parsed, overrun, refused, out_of_fuel, returned, and_then, Mode, code, Verdict, goes, stops,
  closes, unread, is_separator, slash, verdict, skip_none_command, is_word_end, prepend, word_loop,
  word_at, get_next_word, ch_word,
}

-- A word came in time, and leaves fewer than `n` characters.
abbrev pub Takes : ℕ → Parsed (List ℕ × Text) → Type 0
Takes n overrun = Unit {0}
Takes n refused = Unit {0}
Takes n out_of_fuel = ⊥
Takes n (returned x) = length x.1.1 < n

Takes-weaken : {m n : ℕ} (r : Parsed (List ℕ × Text)) → m ≤ n → Takes m r → Takes n r
Takes-weaken overrun h t = tt
Takes-weaken refused h t = tt
Takes-weaken out_of_fuel h t = t
Takes-weaken (returned x) h t = omega arith

-- SkipNoneCommand stops, with true, at a character that is no separator.
abbrev pub Stops : ℕ → Parsed Text → Type 0
Stops n overrun = Unit {0}
Stops n refused = Unit {0}
Stops n out_of_fuel = ⊥
Stops n (returned (p, [])) = ⊥
Stops n (returned (p, c ∷ cs)) = (length (c ∷ cs) ≤ n) × (is_separator c ≡ false)

Stops-weaken : {m n : ℕ} (r : Parsed Text) → m ≤ n → Stops m r → Stops n r
Stops-weaken overrun h t = tt
Stops-weaken refused h t = tt
Stops-weaken out_of_fuel h t = t
Stops-weaken (returned (p, [])) h t = t
Stops-weaken (returned (p, c ∷ cs)) h t = (omega arith, t.1)

-- At a separator it does not stop.
verdict-stops :
    (m : Mode) (prev c : ℕ) (next : Option ℕ)
    → verdict m prev c next ≡ stops
    → is_separator c ≡ false
unfolding verdict slash
verdict-stops m prev c next e = ground (arith, e)

by_verdict :
    (v : Verdict) (m : Mode) (prev c : ℕ) (cs : List ℕ)
    → (v ≡ stops → is_separator c ≡ false)
    → ((m' : Mode) → Stops (length cs) (skip_none_command m' c cs))
    → Stops (length (c ∷ cs)) (elim v as (λ _. Parsed Text) [
      | goes m' ↦ skip_none_command m' c cs
      | stops ↦ returned (prev, c ∷ cs)
      | closes ↦ refused
      | unread ↦ overrun
    ])
by_verdict (goes m') m prev c cs h w = Stops-weaken (skip_none_command m' c cs) (omega arith) (w m')
by_verdict stops m prev c cs h w = (omega arith, h refl)
by_verdict closes m prev c cs h w = tt
by_verdict unread m prev c cs h w = tt

pub skip_none_command-Stops :
    (m : Mode) (prev : ℕ) (cs : List ℕ) → Stops (length cs) (skip_none_command m prev cs)
unfolding skip_none_command
skip_none_command-Stops m prev [] = tt
skip_none_command-Stops m prev (c ∷ cs) =
    by_verdict _ m prev c cs (verdict-stops m prev c _) λ m'. skip_none_command-Stops m' c cs

prepend-Takes : (c n : ℕ) (r : Parsed (List ℕ × Text)) → Takes n r → Takes n (prepend c r)
prepend-Takes c n overrun t = tt
prepend-Takes c n refused t = tt
prepend-Takes c n out_of_fuel t = t
prepend-Takes c n (returned x) t = t

word_loop-Takes : (prev : ℕ) (cs : List ℕ) → Takes (length cs + 1) (word_loop prev cs)
unfolding word_loop
word_loop-Takes prev [] = tt
word_loop-Takes prev (c ∷ cs) =
    elim (is_word_end c)
      as (λ b. Takes (length (c ∷ cs) + 1) (elim b as (λ _. Parsed (List ℕ × Text)) [
        | true ↦ returned ([], (prev, c ∷ cs))
        | false ↦ prepend c (word_loop c cs)
      ])) [
        | true ↦ omega arith
        | false ↦
            prepend-Takes c (length (c ∷ cs) + 1) (word_loop c cs)
              (Takes-weaken (word_loop c cs) (omega arith) (word_loop-Takes c cs))
      ]

-- A word that begins with a character other than a separator is not empty.
word_loop-progress :
    (prev c : ℕ) (cs : List ℕ)
    → is_word_end c ≡ false
    → Takes (length (c ∷ cs)) (word_loop prev (c ∷ cs))
unfolding word_loop
word_loop-progress prev c cs h =
    let w =
      prepend-Takes c (length (c ∷ cs)) (word_loop c cs)
        (Takes-weaken (word_loop c cs) (omega arith) (word_loop-Takes c cs)) in
    subst
      (λ b. Takes (length (c ∷ cs)) (elim b as (λ _. Parsed (List ℕ × Text)) [
        | true ↦ returned ([], (prev, c ∷ cs))
        | false ↦ prepend c (word_loop c cs)
      ]))
      (sym h) w

word_at-Takes :
    (prev c : ℕ) (cs : List ℕ)
    → is_separator c ≡ false
    → Takes (length (c ∷ cs)) (word_at (prev, c ∷ cs))
unfolding word_at
word_at-Takes prev c cs h = ground (arith, h, word_loop-progress prev c cs)

at-Takes : (n : ℕ) (r : Parsed Text) → Stops n r → Takes n (and_then r word_at)
at-Takes n overrun s = tt
at-Takes n refused s = tt
at-Takes n out_of_fuel s = s
at-Takes n (returned (p, [])) s = absurd s
at-Takes n (returned (p, c ∷ cs)) s =
    Takes-weaken (word_at (p, c ∷ cs)) s.0 (word_at-Takes p c cs s.1)

get_next_word-Takes : (t : Text) → Takes (length t.1) (get_next_word t)
unfolding get_next_word
get_next_word-Takes (prev, cs) =
    at-Takes (length cs) (skip_none_command code prev cs) (skip_none_command-Stops code prev cs)

ch_word-Takes : (n : ℕ) (r : Parsed (List ℕ × Text)) → Takes n r → Takes n (and_then r ch_word)
unfolding ch_word
ch_word-Takes n overrun t = tt
ch_word-Takes n refused t = tt
ch_word-Takes n out_of_fuel t = t
ch_word-Takes n (returned (w, (p, cs))) t = ground (arith, t)

pub next-Takes : (t : Text) → Takes (length t.1) (and_then (get_next_word t) ch_word)
next-Takes t = ch_word-Takes (length t.1) (get_next_word t) (get_next_word-Takes t)
