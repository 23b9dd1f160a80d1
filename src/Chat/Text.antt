-- ===== src/Chat/Text.antt =====
-- The string that ProcMessage makes of a message's bytes.
use chat_server_mt.Base.{
  ℕ, ◌+◌, ◌*◌, ◌^◌, ◌≤◌, ◌<◌, ◌≡◌, ◌∙◌, ap, ap₂, refl, List, [], ◌∷◌, ◌++◌, arith, length, drop,
  length-drop, blit, blit-zero, append_assoc,
}
use chat_server_mt.Maker.{wide_bytes}
use chat_server_mt.Maker.Message.{length-wide_bytes, wide_bytes-append}
use chat_server_mt.Chat.Proc.{wide_chars, c_string, message_string}

-- Characters of 16 bits, none of them zero.
abbrev pub AreChars : List ℕ → Type 0
AreChars [] = Unit {0}
AreChars (c ∷ cs) = (0 < c) × (c < 2 ^ 16) × AreChars cs

pub wide_chars-wide_bytes :
    (cs rest : List ℕ) → AreChars cs → wide_chars (wide_bytes cs ++ rest) ≡ cs ++ wide_chars rest
wide_chars-wide_bytes [] rest h = refl
wide_chars-wide_bytes (c ∷ cs) rest h =
    ap₂ ◌∷◌ (omega (arith, h.0, h.1)) (wide_chars-wide_bytes cs rest h.2)

pub c_string-append : (cs rest : List ℕ) → AreChars cs → c_string (cs ++ 0 ∷ rest) ≡ cs
c_string-append [] rest h = refl
c_string-append (c ∷ cs) rest h = ground (arith, c_string-append cs rest h.2, h.0)

blit-append : (xs ys zs : List ℕ) → blit (xs ++ ys) (length xs) zs ≡ xs ++ blit ys 0 zs
blit-append [] ys zs = refl
blit-append (x ∷ xs) ys zs = ap (λ t. x ∷ t) (blit-append xs ys zs)

-- The bytes of the message and two zeros, in front of what the array held.
message_bytes :
    (array cs : List ℕ)
    → 2 * length cs + 2 ≤ length array
    → message_string array (2 * length cs) (wide_bytes cs)
      ≡ c_string
          (wide_chars (wide_bytes cs ++ (0 ∷ 0 ∷ drop 2 (drop (length (wide_bytes cs)) array))))
unfolding message_string
message_bytes array cs room =
    let bytes = wide_bytes cs in
    let behind = drop (length bytes) array in
    ap (λ n. c_string (wide_chars (blit (blit array 0 bytes) n (0 ∷ 0 ∷ [])))) {y = length bytes}
      (omega (arith, length-wide_bytes cs))
    ∙ ap (λ t. c_string (wide_chars (blit t (length bytes) (0 ∷ 0 ∷ []))))
        (blit-zero array bytes (omega (arith, length-wide_bytes cs)))
    ∙ ap (λ t. c_string (wide_chars t))
        (blit-append bytes behind (0 ∷ 0 ∷ [])
          ∙ ap (λ t. bytes ++ t)
              (blit-zero behind (0 ∷ 0 ∷ [])
                (omega (arith, length-drop (length bytes) array, length-wide_bytes cs))))

-- A message without a zero character becomes its string, if the array has room for it and two more
-- bytes.
pub message_string-wide_bytes :
    (array cs : List ℕ)
    → AreChars cs
    → 2 * length cs + 2 ≤ length array
    → message_string array (2 * length cs) (wide_bytes cs) ≡ cs
message_string-wide_bytes array cs h room =
    let behind = drop 2 (drop (length (wide_bytes cs)) array) in
    message_bytes array cs room
    ∙ ap c_string (wide_chars-wide_bytes cs (0 ∷ 0 ∷ behind) h)
    ∙ c_string-append cs (wide_chars behind) h

-- A message with a zero character becomes the string of what stands before it.
pub message_string-zero :
    (array cs hidden : List ℕ)
    → AreChars cs
    → 2 * length (cs ++ 0 ∷ hidden) + 2 ≤ length array
    → message_string array (2 * length (cs ++ 0 ∷ hidden)) (wide_bytes (cs ++ 0 ∷ hidden)) ≡ cs
message_string-zero array cs hidden h room =
    let behind = 0 ∷ 0 ∷ drop 2 (drop (length (wide_bytes (cs ++ 0 ∷ hidden))) array) in
    message_bytes array (cs ++ 0 ∷ hidden) room
    ∙ ap (λ t. c_string (wide_chars (t ++ behind))) (wide_bytes-append cs (0 ∷ hidden))
    ∙ ap (λ t. c_string (wide_chars t))
        (append_assoc (wide_bytes cs) (wide_bytes (0 ∷ hidden)) behind)
    ∙ ap c_string (wide_chars-wide_bytes cs (wide_bytes (0 ∷ hidden) ++ behind) h)
    ∙ c_string-append cs (wide_chars (wide_bytes hidden ++ behind)) h
