-- ===== src/TextParser/Inside.antt =====
-- A text that ends, behind a line feed, with a closing brace: what the parser reads of it.
use chat_server_mt.Base.{
  ℕ, zero, suc, ◌+◌, ◌<◌, ◌≡◌, ◌≢◌, refl, sym, subst, true, false, Option, List, [], ◌∷◌, ◌++◌,
  ◌==◌, arith, length, if◌then◌else◌,
}
use chat_server_mt.TextParser.{
  Text, Parsed, overrun, refused, out_of_fuel, returned, and_then, Mode, code, Verdict, goes, stops,
  closes, unread, verdict, skip_none_command, is_word_end, prepend, word_loop, word_at,
  get_next_word, ch_word, is_same, find_key, find_equals, first,
}

-- How many characters stand before the end of a word.
abbrev pub run_length : List ℕ → ℕ
run_length [] = 0
run_length (c ∷ cs) = let n = run_length cs in if is_word_end c then 0 else n + 1

-- No comment, and no word that is too long for `chWord`.
abbrev pub IsPlain : List ℕ → Type 0
IsPlain [] = Unit {0}
IsPlain (c ∷ cs) = (c ≢ 47) × (run_length (c ∷ cs) < 256) × IsPlain cs

-- The end of the text, and what happens to stand behind it.
abbrev pub closed : List ℕ → List ℕ
closed rest = 10 ∷ 125 ∷ rest

-- A result that is not a read or a write past a buffer.
abbrev pub Stays : {A : Type 0} → (A → Type 0) → Parsed A → Type 0
Stays P overrun = ⊥
Stays P refused = Unit {0}
Stays P out_of_fuel = Unit {0}
Stays P (returned a) = P a

pub and_then-Stays :
    {A B : Type 0} {P : A → Type 0} (Q : B → Type 0) (r : Parsed A) (f : A → Parsed B)
    → Stays P r
    → ((a : A) → P a → Stays Q (f a))
    → Stays Q (and_then r f)
and_then-Stays Q overrun f s g = absurd s
and_then-Stays Q refused f s g = tt
and_then-Stays Q out_of_fuel f s g = tt
and_then-Stays Q (returned a) f s g = g a s

-- What is left of the text, in front of the closing brace.
pub record IsInside (rest cs : List ℕ) : Type 0 where
  pub left : List ℕ
  pub same : cs ≡ left ++ closed rest
  pub plain : IsPlain left

pub closed-IsInside : (rest s : List ℕ) → IsPlain s → IsInside rest (s ++ closed rest)
closed-IsInside rest s h = record { left = s; same = refl; plain = h }

and_then-returned : {A : Type 0} (r : Parsed A) → and_then r returned ≡ r
and_then-returned overrun = refl
and_then-returned refused = refl
and_then-returned out_of_fuel = refl
and_then-returned (returned a) = refl

module _ (rest : List ℕ) where
  verdict-reads : (prev c : ℕ) (next : Option ℕ) → c ≢ 47 → verdict code prev c next ≢ unread
  unfolding verdict
  verdict-reads prev c next h e = ground (arith, e, h)

  verdict-code :
      (prev c : ℕ) (next : Option ℕ) (m : Mode)
      → c ≢ 47
      → verdict code prev c next ≡ goes m
      → code ≡ m
  unfolding verdict
  verdict-code prev c next m h e = ground (arith, e, h)

  by_code :
      (v : Verdict) (prev c : ℕ) (cs : List ℕ)
      → v ≢ unread
      → ((m : Mode) → v ≡ goes m → code ≡ m)
      → Stays (λ t. IsInside rest t.1) (skip_none_command code c cs)
      → IsInside rest (c ∷ cs)
      → Stays
          (λ t. IsInside rest t.1)
          (elim v as (λ _. Parsed Text) [
            | goes m ↦ skip_none_command m c cs
            | stops ↦ returned (prev, c ∷ cs)
            | closes ↦ refused
            | unread ↦ overrun
          ])
  by_code (goes m) prev c cs h k s i =
      subst (λ n. Stays (λ t. IsInside rest t.1) (skip_none_command n c cs)) (k m refl) s
  by_code stops prev c cs h k s i = i
  by_code closes prev c cs h k s i = tt
  by_code unread prev c cs h k s i = absurd (h refl)

  skip_none_command-Stays :
      (prev : ℕ) (s : List ℕ)
      → IsPlain s
      → Stays (λ t. IsInside rest t.1) (skip_none_command code prev (s ++ closed rest))
  unfolding skip_none_command verdict
  skip_none_command-Stays prev [] h = tt
  skip_none_command-Stays prev (c ∷ s) h =
      let next = first (s ++ closed rest) in
      by_code _ prev c (s ++ closed rest) (verdict-reads prev c next h.0)
        (λ m. verdict-code prev c next m h.0) (skip_none_command-Stays c s h.2)
        (closed-IsInside rest (c ∷ s) h)

  word_loop-Stays :
      (prev : ℕ) (s : List ℕ)
      → IsPlain s
      → Stays
          (λ x. (length x.0 ≡ run_length s) × IsInside rest x.1.1)
          (word_loop prev (s ++ closed rest))
  unfolding word_loop
  word_loop-Stays prev [] h = (refl, closed-IsInside rest [] tt)
  word_loop-Stays prev (c ∷ s) h =
      let w = word_loop-Stays c s h.2 in
      elim (is_word_end c)
        as (λ b.
          Stays (λ x. (length x.0 ≡ (if b then 0 else run_length s + 1)) × IsInside rest x.1.1)
            (elim b as (λ _. Parsed (List ℕ × Text)) [
              | true ↦ returned ([], (prev, c ∷ (s ++ closed rest)))
              | false ↦ prepend c (word_loop c (s ++ closed rest))
            ])) [
              | true ↦ (refl, closed-IsInside rest (c ∷ s) h)
              | false ↦
                  and_then-Stays (λ x. (length x.0 ≡ run_length s + 1) × IsInside rest x.1.1)
                    (word_loop c (s ++ closed rest)) _ w λ x i. (omega (arith, i.0), i.1)
            ]

  -- A word fits `chWord`.
  abbrev Word : List ℕ × Text → Type 0
  Word x = (length x.0 < 256) × IsInside rest x.1.1

  short : (s : List ℕ) → IsPlain s → run_length s < 256
  short [] h = omega arith
  short (c ∷ s) h = h.1

  loop-Word : (prev : ℕ) (s : List ℕ) → IsPlain s → Stays Word (word_loop prev (s ++ closed rest))
  loop-Word prev s h =
      let fits = short s h in
      subst (Stays Word) (and_then-returned (word_loop prev (s ++ closed rest))) (
        and_then-Stays Word (word_loop prev (s ++ closed rest)) returned (word_loop-Stays prev s h)
          λ x i. (omega (arith, i.0, fits), i.1))

  word_at-Stays :
      (prev : ℕ) (s : List ℕ) → IsPlain s → Stays Word (word_at (prev, s ++ closed rest))
  unfolding word_at
  word_at-Stays prev [] h = loop-Word prev [] tt
  word_at-Stays prev (c ∷ s) h =
      elim (c == 61)
        as (λ b. Stays Word (
          if◌then◌else◌ {A = Parsed (List ℕ × Text)} b (returned (61 ∷ [], (c, s ++ closed rest)))
            (word_loop prev (c ∷ (s ++ closed rest))))) [
              | true ↦ (omega arith, closed-IsInside rest s h.2)
              | false ↦ loop-Word prev (c ∷ s) h
            ]

  inside-Stays : (t : Text) → IsInside rest t.1 → Stays Word (word_at t)
  inside-Stays (prev, cs) i =
      subst (λ k. Stays Word (word_at (prev, k))) (sym i.same) (word_at-Stays prev i.left i.plain)

  ch_word-Stays : (x : List ℕ × Text) → Word x → Stays (λ y. IsInside rest y.1.1) (ch_word x)
  unfolding ch_word
  ch_word-Stays x i = ground (arith, i)

  pub next-Stays :
      (t : Text)
      → IsInside rest t.1
      → Stays (λ x. IsInside rest x.1.1) (and_then (get_next_word t) ch_word)
  unfolding get_next_word
  next-Stays (prev, cs) i =
      and_then-Stays (λ x. IsInside rest x.1.1) (and_then (skip_none_command code prev cs) word_at)
        ch_word
        (and_then-Stays Word (skip_none_command code prev cs) word_at
          (subst (λ k. Stays (λ t. IsInside rest t.1) (skip_none_command code prev k)) (sym i.same)
            (skip_none_command-Stays prev i.left i.plain))
          inside-Stays)
        ch_word-Stays

  pub find_key-Stays :
      (n : ℕ) (key : List ℕ) (t : Text)
      → IsInside rest t.1
      → Stays (λ u. IsInside rest u.1) (find_key n key t)
  unfolding find_key
  find_key-Stays zero key t i = tt
  find_key-Stays (suc n) key t i =
      and_then-Stays (λ u. IsInside rest u.1) (and_then (get_next_word t) ch_word) _
        (next-Stays t i)
        λ x j.
          elim (is_same key x.0)
            as (λ b.
              Stays (λ u. IsInside rest u.1)
                (elim b as (λ _. Parsed Text) [
                  | true ↦ returned x.1
                  | false ↦ find_key n key x.1
                ])) [ true ↦ j | false ↦ find_key-Stays n key x.1 j ]

  pub find_equals-Stays :
      (t : Text) → IsInside rest t.1 → Stays (λ u. IsInside rest u.1) (find_equals t)
  unfolding find_equals
  find_equals-Stays t i =
      and_then-Stays (λ u. IsInside rest u.1) (and_then (get_next_word t) ch_word) _
        (next-Stays t i)
        λ x j.
          elim (is_same (61 ∷ []) x.0)
            as (λ b.
              Stays (λ u. IsInside rest u.1)
                (if◌then◌else◌ {A = Parsed Text} b (returned x.1) refused)) [
                  | true ↦ j
                  | false ↦ tt
                ]
