-- ===== src/TextParser/Lookup.antt =====
-- What GetValue and GetStringValue give for a configuration.
use chat_server_mt.Base.{
  ℕ, suc, ◌+◌, ◌*◌, ◌<◌, ◌≤◌, ◌≡◌, ◌∙◌, ap, refl, false, List, [], ◌∷◌, ◌++◌, leb, if◌then◌else◌,
  arith, length, append_assoc, length-append, blit, replicate, ◌==◌,
}
use chat_server_mt.TextParser.{
  Text, Parsed, overrun, refused, returned, and_then, get_next_word, skip_none_command, verdict,
  get_string_word, string_loop, string_at, prepend, ch_word, is_same, find_key, find_equals,
  value_behind, string_behind, get_value, get_string_value,
}
use chat_server_mt.TextParser.Words.{IsWord, next-word, next-equals}
use chat_server_mt.TextParser.Find.{
  Entry, lines, config, AllOther, find_key-lines, find_key-missing, find_key-brace, length-lines,
}

abbrev pub NoQuote : List ℕ → Type 0
NoQuote [] = Unit {0}
NoQuote (c ∷ cs) = ((c == 34) ≡ false) × NoQuote cs

string_loop-quoted :
    (s : List ℕ) (prev : ℕ) (cs : List ℕ)
    → NoQuote s
    → string_loop prev (s ++ 34 ∷ cs) ≡ returned (s, (34, cs))
unfolding string_loop
string_loop-quoted [] prev cs q = refl
string_loop-quoted (c ∷ s) prev cs q =
    rw (string_loop, q.0) (ap (prepend c) (string_loop-quoted s c cs q.1))

string-word :
    (s : List ℕ) (prev : ℕ) (cs : List ℕ)
    → NoQuote s
    → get_string_word (prev, 32 ∷ (34 ∷ (s ++ 34 ∷ []) ++ cs)) ≡ returned (s, (34, cs))
unfolding get_string_word skip_none_command verdict string_at
string-word s prev cs q =
    ap (string_loop 34) (append_assoc s (34 ∷ []) cs) ∙ string_loop-quoted s 34 cs q

-- The copy into the array of the caller.
abbrev copied : ℕ → List ℕ × Text → Parsed (List ℕ)
copied value_size x =
    if leb (length x.0) value_size then returned (blit (replicate value_size 0) 0 x.0) else overrun

-- A key that no entry has, as key or as value, is not found.
pub get_value-missing :
    (front : ℕ) (key : List ℕ) (es : List Entry) (value_size : ℕ)
    → AllOther key es
    → is_same key (61 ∷ []) ≡ false
    → (get_value front (config es) key ≡ refused)
      × (get_string_value front (config es) key value_size ≡ refused)
unfolding get_value get_string_value
get_value-missing front key es value_size o k =
    let missing : find_key (length (config es) + 1) key (front, config es) ≡ refused =
      ap (λ n. find_key n key (front, config es)) {y = suc (length (config es))} (omega arith)
      ∙ find_key-brace (length (config es)) key front (13 ∷ lines es)
      ∙ find_key-missing (suc (length (config es))) 123 key es o k
          (omega (arith, length-lines es)) in
    (ap value_behind missing, ap (string_behind value_size) missing)

module _ (front : ℕ) (before : List Entry) (e : Entry) (after : List Entry)
    (others : AllOther e.key before) (key_word : IsWord e.key)
    (no_sign : is_same e.key (61 ∷ []) ≡ false) where
  abbrev buffer : List ℕ
  buffer = config (before ++ e ∷ after)

  enough : 3 * length before < suc (length buffer)
  enough = omega (arith, length-lines (before ++ e ∷ after), length-append before (e ∷ after))

  found :
      (p : ℕ) × (find_key (length buffer + 1) e.key (front, buffer)
        ≡ returned (p, 32 ∷ 61 ∷ 32 ∷ (e.value ++ 13 ∷ lines after)))
  found =
      let (p, eq) =
        find_key-lines (suc (length buffer)) 123 before e after others key_word no_sign enough in
      (
        p,
        ap (λ n. find_key n e.key (front, buffer)) {y = suc (length buffer)} (omega arith)
            ∙ find_key-brace (length buffer) e.key front (13 ∷ lines (before ++ e ∷ after))
            ∙ eq,
      )

  behind_equals :
      (p : ℕ)
      → find_equals (p, 32 ∷ 61 ∷ 32 ∷ (e.value ++ 13 ∷ lines after))
        ≡ returned (61, 32 ∷ (e.value ++ 13 ∷ lines after))
  unfolding find_equals
  behind_equals p =
      ap
        (λ r.
          and_then r
            λ x. if◌then◌else◌ {A = Parsed Text} (is_same (61 ∷ []) x.0) (returned x.1) refused)
        (next-equals (32 ∷ []) p (32 ∷ (e.value ++ 13 ∷ lines after)) (refl, tt))

  to_value :
      and_then (find_key (length buffer + 1) e.key (front, buffer)) find_equals
      ≡ returned (61, 32 ∷ (e.value ++ 13 ∷ lines after))
  to_value = ap (λ r. and_then r find_equals) found.1 ∙ behind_equals found.0

  -- In a configuration of lines "key = value", ended by carriage return and line feed and closed by
  -- a brace, GetValue of a key finds the value of its entry, when key and value are words of fewer
  -- than 256 characters, and the entries before it are of such words, none of which is the key; the
  -- key is not the equals sign.
  pub get_value-config : IsWord e.value → get_value front buffer e.key ≡ returned e.value
  unfolding get_value
  get_value-config w =
      ap (λ r. and_then r λ t. and_then (and_then (get_next_word t) ch_word) λ x. returned x.0)
        to_value
      ∙ ap (λ r. and_then r λ x. returned x.0)
          (next-word (32 ∷ []) e.value 61 13 (lines after) (refl, tt) w refl)

  -- In a configuration of lines "key = value", ended by carriage return and line feed and closed by
  -- a brace, GetStringValue of a key, a word of fewer than 256 characters and not the equals sign,
  -- behind entries of other such words, gives, padded with zeros, what stands between the quotes
  -- behind it, when that has no quote and fits the array of the caller.
  pub get_string_value-config :
      (s : List ℕ) (value_size : ℕ)
      → NoQuote s
      → e.value ≡ 34 ∷ (s ++ 34 ∷ [])
      → length s ≤ value_size
      → get_string_value front buffer e.key value_size
        ≡ returned (blit (replicate value_size 0) 0 s)
  unfolding get_string_value
  get_string_value-config s value_size q same room =
      ap (λ r. and_then r λ t. and_then (get_string_word t) (copied value_size)) to_value
      ∙ ap (λ r. and_then r (copied value_size))
          (ap (λ v. get_string_word (61, 32 ∷ (v ++ 13 ∷ lines after))) same
            ∙ string-word s 61 (13 ∷ lines after) q)
      ∙ ground (arith, room)
