-- ===== src/TextParser/Find.antt =====
-- The text of a configuration, and the loop over its words up to a key.
use chat_server_mt.Base.{
  ℕ, zero, suc, ◌*◌, ◌<◌, ◌≤◌, ◌≡◌, ◌∙◌, ap, refl, true, false, List, [], ◌∷◌, ◌++◌, arith, length,
  length-append,
}
use chat_server_mt.TextParser.{
  Text, Parsed, refused, returned, is_word_end, get_next_word, skip_none_command, verdict, is_same,
  find_key,
}
use chat_server_mt.TextParser.Words.{IsWord, AllSeparators, last, next-word, next-equals}

pub record Entry : Type 0 where
  pub key : List ℕ
  pub value : List ℕ

-- Behind a carriage return: each entry on a line of its own, behind a tab, and a brace at the end.
abbrev pub lines : List Entry → List ℕ
lines [] = 10 ∷ 125 ∷ []
lines (e ∷ es) = 10 ∷ 9 ∷ (e.key ++ 32 ∷ 61 ∷ 32 ∷ (e.value ++ 13 ∷ lines es))

abbrev pub config : List Entry → List ℕ
config es = 123 ∷ 13 ∷ lines es

-- Both are words, and neither is the key that is asked for.
pub record IsOther (key : List ℕ) (e : Entry) : Type 0 where
  pub key_word : IsWord e.key
  pub value_word : IsWord e.value
  pub other_key : is_same key e.key ≡ false
  pub other_value : is_same key e.value ≡ false

abbrev pub AllOther : List ℕ → List Entry → Type 0
AllOther key [] = Unit {0}
AllOther key (e ∷ es) = IsOther key e × AllOther key es

is_same_self : (w : List ℕ) → is_same w w ≡ true
is_same_self [] = refl
is_same_self (c ∷ w) = ground (arith, is_same_self w)

find_key-here :
    (n : ℕ) (key s w : List ℕ) (prev e : ℕ) (cs : List ℕ)
    → AllSeparators s
    → IsWord w
    → is_word_end e ≡ true
    → is_same key w ≡ true
    → find_key (suc n) key (prev, s ++ (w ++ e ∷ cs)) ≡ returned (last (last prev s) w, e ∷ cs)
unfolding find_key
find_key-here n key s w prev e cs a i h same = rw (next-word s w prev e cs a i h) (
    ap
      (λ b. elim b as (λ _. Parsed Text) [
        | true ↦ returned (last (last prev s) w, e ∷ cs)
        | false ↦ find_key n key (last (last prev s) w, e ∷ cs)
      ])
      same)

find_key-next :
    (n : ℕ) (key s w : List ℕ) (prev e : ℕ) (cs : List ℕ)
    → AllSeparators s
    → IsWord w
    → is_word_end e ≡ true
    → is_same key w ≡ false
    → find_key (suc n) key (prev, s ++ (w ++ e ∷ cs))
      ≡ find_key n key (last (last prev s) w, e ∷ cs)
unfolding find_key
find_key-next n key s w prev e cs a i h other = rw (next-word s w prev e cs a i h) (
    ap
      (λ b. elim b as (λ _. Parsed Text) [
        | true ↦ returned (last (last prev s) w, e ∷ cs)
        | false ↦ find_key n key (last (last prev s) w, e ∷ cs)
      ])
      other)

find_key-equals :
    (n : ℕ) (key s : List ℕ) (prev : ℕ) (cs : List ℕ)
    → AllSeparators s
    → is_same key (61 ∷ []) ≡ false
    → find_key (suc n) key (prev, s ++ 61 ∷ cs) ≡ find_key n key (61, cs)
unfolding find_key
find_key-equals n key s prev cs a other = rw (next-equals s prev cs a) (
    ap
      (λ b. elim b as (λ _. Parsed Text) [
        | true ↦ returned (61, cs)
        | false ↦ find_key n key (61, cs)
      ])
      other)

-- The brace at the end.
find_key-end :
    (n : ℕ) (key : List ℕ) (prev : ℕ) → find_key (suc n) key (prev, 13 ∷ lines []) ≡ refused
unfolding find_key get_next_word skip_none_command verdict
find_key-end n key prev = refl

-- An entry with other words is passed over.
find_key-other :
    (n : ℕ) (key : List ℕ) (prev : ℕ) (e : Entry) (cs : List ℕ)
    → IsOther key e
    → is_same key (61 ∷ []) ≡ false
    → find_key
        (suc (suc (suc n)))
        key
        (prev, 13 ∷ 10 ∷ 9 ∷ (e.key ++ 32 ∷ 61 ∷ 32 ∷ (e.value ++ 13 ∷ cs)))
      ≡ find_key n key (last 32 e.value, 13 ∷ cs)
find_key-other n key prev e cs o k =
    find_key-next (suc (suc n)) key (13 ∷ 10 ∷ 9 ∷ []) e.key prev 32
      (61 ∷ 32 ∷ (e.value ++ 13 ∷ cs)) (refl, (refl, (refl, tt))) o.key_word refl o.other_key
    ∙ find_key-equals (suc n) key (32 ∷ []) (last 9 e.key) (32 ∷ (e.value ++ 13 ∷ cs)) (refl, tt) k
    ∙ find_key-next n key (32 ∷ []) e.value 61 13 cs (refl, tt) o.value_word refl o.other_value

-- The key is found behind the entries with other words.
pub find_key-lines :
    (n : ℕ) (prev : ℕ) (before : List Entry) (e : Entry) (after : List Entry)
    → AllOther e.key before
    → IsWord e.key
    → is_same e.key (61 ∷ []) ≡ false
    → 3 * length before < n
    → (p : ℕ) × (find_key n e.key (prev, 13 ∷ lines (before ++ e ∷ after))
        ≡ returned (p, 32 ∷ 61 ∷ 32 ∷ (e.value ++ 13 ∷ lines after)))
find_key-lines zero prev before e after o w k h = absurd (omega arith)
find_key-lines (suc n) prev [] e after o w k h = (
  last 9 e.key,
  find_key-here n e.key (13 ∷ 10 ∷ 9 ∷ []) e.key prev 32 (61 ∷ 32 ∷ (e.value ++ 13 ∷ lines after))
      (refl, (refl, (refl, tt))) w refl (is_same_self e.key),
)
find_key-lines (suc (suc (suc n))) prev (b ∷ before) e after o w k h =
    let (p, eq) = find_key-lines n (last 32 b.value) before e after o.1 w k (omega arith) in
    (p, find_key-other n e.key prev b (lines (before ++ e ∷ after)) o.0 k ∙ eq)
find_key-lines (suc zero) prev (b ∷ before) e after o w k h = absurd (omega arith)
find_key-lines (suc (suc zero)) prev (b ∷ before) e after o w k h = absurd (omega arith)

pub find_key-brace :
    (n : ℕ) (key : List ℕ) (prev : ℕ) (cs : List ℕ)
    → find_key (suc n) key (prev, 123 ∷ cs) ≡ find_key (suc n) key (123, cs)
unfolding find_key get_next_word skip_none_command verdict
find_key-brace n key prev cs = refl

pub length-lines : (es : List Entry) → 3 * length es ≤ length (lines es)
length-lines [] = omega arith
length-lines (e ∷ es) = omega (
  arith,
  length-lines es,
  length-append e.key (32 ∷ 61 ∷ 32 ∷ (e.value ++ 13 ∷ lines es)),
  length-append e.value (13 ∷ lines es),
)

pub find_key-missing :
    (n : ℕ) (prev : ℕ) (key : List ℕ) (es : List Entry)
    → AllOther key es
    → is_same key (61 ∷ []) ≡ false
    → 3 * length es < n
    → find_key n key (prev, 13 ∷ lines es) ≡ refused
find_key-missing zero prev key es o k h = absurd (omega arith)
find_key-missing (suc n) prev key [] o k h = find_key-end n key prev
find_key-missing (suc (suc (suc n))) prev key (b ∷ es) o k h =
    find_key-other n key prev b (lines es) o.0 k
    ∙ find_key-missing n (last 32 b.value) key es o.1 k (omega arith)
find_key-missing (suc zero) prev key (b ∷ es) o k h = absurd (omega arith)
find_key-missing (suc (suc zero)) prev key (b ∷ es) o k h = absurd (omega arith)
