-- ===== src/TextParser/Terminate.antt =====
-- The loops over the words and their fuel, and a lookup in a text with a closing brace.
use chat_server_mt.Base.{
  ℕ, zero, suc, ◌+◌, ◌≤◌, ◌<◌, true, false, List, [], ◌∷◌, arith, length, if◌then◌else◌, ◌++◌, ◌≡◌,
  ◌⊎◌, inl, inr, refl,
}
use chat_server_mt.TextParser.Inside.{
  IsPlain, IsInside, closed-IsInside, closed, Stays, and_then-Stays, find_key-Stays,
  find_equals-Stays, next-Stays,
}
use chat_server_mt.TextParser.{
  Text, Parsed, overrun, refused, out_of_fuel, returned, and_then, get_next_word, ch_word, is_same,
  find_key, find_equals, get_value,
}
use chat_server_mt.TextParser.Progress.{Takes, next-Takes}

-- A result that is not for want of fuel.
abbrev pub Ends {ℓ} : {A : Type ℓ} → Parsed A → Type 0
Ends overrun = Unit {0}
Ends refused = Unit {0}
Ends out_of_fuel = ⊥
Ends (returned a) = Unit {0}

and_then-Ends :
    {A B : Type 0} (r : Parsed A) (f : A → Parsed B)
    → Ends r
    → ((a : A) → Ends (f a))
    → Ends (and_then r f)
and_then-Ends overrun f e g = tt
and_then-Ends refused f e g = tt
and_then-Ends out_of_fuel f e g = e
and_then-Ends (returned a) f e g = g a

Takes-Ends : (n : ℕ) (r : Parsed (List ℕ × Text)) → Takes n r → Ends r
Takes-Ends n overrun t = tt
Takes-Ends n refused t = tt
Takes-Ends n out_of_fuel t = t
Takes-Ends n (returned x) t = tt

-- The loop on a word that was read, with fuel for the rest.
found-Ends :
    (n m : ℕ) (key : List ℕ) (r : Parsed (List ℕ × Text))
    → Takes m r
    → m ≤ n
    → ((t : Text) → length t.1 < n → Ends (find_key n key t))
    → Ends (
        and_then r λ x. elim (is_same key x.0) as (λ _. Parsed Text) [
          | true ↦ returned x.1
          | false ↦ find_key n key x.1
        ])
found-Ends n m key overrun t h w = tt
found-Ends n m key refused t h w = tt
found-Ends n m key out_of_fuel t h w = t
found-Ends n m key (returned x) t h w =
    elim (is_same key x.0)
      as (λ b.
        Ends (elim b as (λ _. Parsed Text) [ true ↦ returned x.1 | false ↦ find_key n key x.1 ])) [
          | true ↦ tt
          | false ↦ w x.1 (omega arith)
        ]

find_key-Ends : (n : ℕ) (key : List ℕ) (t : Text) → length t.1 < n → Ends (find_key n key t)
unfolding find_key
find_key-Ends zero key t h = absurd (omega arith)
find_key-Ends (suc n) key t h =
    found-Ends n (length t.1) key (and_then (get_next_word t) ch_word) (next-Takes t) (omega arith)
      (find_key-Ends n key)

find_equals-Ends : (t : Text) → Ends (find_equals t)
unfolding find_equals
find_equals-Ends t =
    let r = and_then (get_next_word t) ch_word in
    and_then-Ends r _ (Takes-Ends (length t.1) r (next-Takes t)) λ x.
      elim (is_same (61 ∷ []) x.0)
        as (λ b. Ends (if◌then◌else◌ {A = Parsed Text} b (returned x.1) refused)) [
          | true ↦ tt
          | false ↦ tt
        ]

key_and_equals-Ends :
    (before : ℕ) (buffer key : List ℕ)
    → Ends (and_then (find_key (length buffer + 1) key (before, buffer)) find_equals)
key_and_equals-Ends before buffer key =
    and_then-Ends (find_key (length buffer + 1) key (before, buffer)) find_equals
      (find_key-Ends (length buffer + 1) key (before, buffer) (omega arith)) find_equals-Ends

get_value-Ends : (before : ℕ) (buffer key : List ℕ) → Ends (get_value before buffer key)
unfolding get_value
get_value-Ends before buffer key = and_then-Ends _ _ (key_and_equals-Ends before buffer key) λ t.
    let r = and_then (get_next_word t) ch_word in
    and_then-Ends r _ (Takes-Ends (length t.1) r (next-Takes t)) λ x. tt

get_value-Stays :
    (before : ℕ) (body rest key : List ℕ)
    → IsPlain body
    → Stays (λ w. Unit {0}) (get_value before (body ++ closed rest) key)
unfolding get_value
get_value-Stays before body rest key h =
    let text = body ++ closed rest in
    and_then-Stays (λ w. Unit {0}) _ _
      (and_then-Stays (λ u. IsInside rest u.1) (find_key (length text + 1) key (before, text))
        find_equals
        (find_key-Stays rest (length text + 1) key (before, text) (closed-IsInside rest body h))
        (find_equals-Stays rest))
      λ t i.
        and_then-Stays (λ w. Unit {0}) (and_then (get_next_word t) ch_word) _ (next-Stays rest t i)
          λ x j. tt

-- In time and inside the buffers, a function of the parser returns true or false.
answers :
    (r : Parsed (List ℕ))
    → Ends r
    → Stays (λ w. Unit {0}) r
    → (r ≡ refused) ⊎ ((w : List ℕ) × (r ≡ returned w))
answers overrun e s = absurd s
answers refused e s = inl refl
answers out_of_fuel e s = absurd e
answers (returned w) e s = inr (w, refl)

-- In a text without a slash, with fewer than 256 characters from any place to the next end of a
-- word, and with a line feed and a closing brace behind it, GetValue returns true or false for
-- every key, whatever memory stands behind the brace: its loops end inside the text, without a read
-- or a write past a buffer, and one more round of the loop over the words than there are characters
-- is enough.
pub get_value-answers :
    (before : ℕ) (body rest key : List ℕ)
    → IsPlain body
    → let r = get_value before (body ++ closed rest) key in
      (r ≡ refused) ⊎ ((w : List ℕ) × (r ≡ returned w))
get_value-answers before body rest key h =
    answers (get_value before (body ++ closed rest) key)
      (get_value-Ends before (body ++ closed rest) key) (get_value-Stays before body rest key h)
