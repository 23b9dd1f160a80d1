-- ===== src/Maker/Message.antt =====
-- The chat message as every receiver gets it.
use chat_server_mt.Base.{
  ℕ, ◌+◌, ◌*◌, ◌≤◌, ◌<◌, ◌≡◌, ◌∙◌, ap, refl, some, List, suc, [], ◌∷◌, ◌++◌, arith, length, take,
  append_assoc, blit, length-blit, take-append, length-append,
}
use chat_server_mt.Packet.{Packet, le_bytes, ushort, int64, size_of}
use chat_server_mt.Packet.Codec.{frame}
use chat_server_mt.Packet.Wire.{wire}
use chat_server_mt.Maker.{
  Env, res_message, max_message, finish, message_body, make_message, wide_bytes, max_id_size,
  max_nick_size,
}
use chat_server_mt.Maker.Layouts.{
  Holds, alloc-Holds, put_data-Holds, put_whole-Holds, put_value-Holds, finish-Holds, IsReady,
}

pub length-wide_bytes : (cs : List ℕ) → length (wide_bytes cs) ≡ 2 * length cs
length-wide_bytes [] = refl
length-wide_bytes (c ∷ cs) = omega (arith, length-wide_bytes cs)

pub wide_bytes-append : (cs ds : List ℕ) → wide_bytes (cs ++ ds) ≡ wide_bytes cs ++ wide_bytes ds
wide_bytes-append [] ds = refl
wide_bytes-append (c ∷ cs) ds = ap (λ t. le_bytes 2 c ++ t) (wide_bytes-append cs ds)

-- The fixed part of a message: its type, the sender's account and names, the length.
pub message_head : ℕ → List ℕ → List ℕ → ℕ → List ℕ
message_head account_no id nickname message_len =
    le_bytes 2 res_message
    ++ le_bytes 8 account_no
    ++ wide_bytes id
    ++ wide_bytes nickname
    ++ le_bytes 2 message_len

-- The array that MakeMessage sends for a name: the name, its terminator, and what the array held.
pub sent_name : List ℕ → List ℕ → List ℕ
sent_name temp name = blit temp 0 (name ++ 0 ∷ [])

-- The `message_len` bytes that MakeMessage reads at `message.c_str()`.
pub sent_text : List ℕ → List ℕ → ℕ → List ℕ
sent_text beyond message message_len = take message_len (wide_bytes (message ++ 0 ∷ []) ++ beyond)

take-append_more :
    {A : Type 0} → (xs ys : List A) (n : ℕ) → take (length xs + n) (xs ++ ys) ≡ xs ++ take n ys
take-append_more [] ys n = ap (λ k. take k ys) {y = n} (omega arith)
take-append_more (x ∷ xs) ys n =
    ap (λ k. take k ((x ∷ xs) ++ ys)) {y = suc (length xs + n)} (omega arith)
    ∙ ap (λ t. x ∷ t) (take-append_more xs ys n)

module _ {env : Env} (h : IsReady env) where
  message_body_lem :
      (account_no : ℕ) (id nickname : List ℕ) (message_len : ℕ) (text : List ℕ)
      → length id ≡ max_id_size
      → length nickname ≡ max_nick_size
      → message_len ≤ max_message
      → message_len ≤ length text
      → Holds env
          (message_body env account_no id nickname message_len text)
          (message_head account_no id nickname message_len ++ take message_len text)
  unfolding message_body size_of message_head
  message_body_lem account_no id nickname message_len text i n small enough =
      let li = length-wide_bytes id in
      let ln = length-wide_bytes nickname in
      let a = le_bytes 2 res_message ++ le_bytes 8 account_no in
      put_data-Holds h text message_len enough
        (omega (
          arith,
          length-append (a ++ wide_bytes id) (wide_bytes nickname),
          length-append (a ++ wide_bytes id ++ wide_bytes nickname) (le_bytes 2 message_len),
          length-append a (wide_bytes id),
        ))
        (put_value-Holds h ushort message_len
          (omega (
            arith,
            length-append (a ++ wide_bytes id) (wide_bytes nickname),
            length-append a (wide_bytes id),
          ))
          (put_whole-Holds h (wide_bytes nickname) (max_nick_size * 2) (omega arith)
            (omega (arith, length-append a (wide_bytes id)))
            (put_whole-Holds h (wide_bytes id) (max_id_size * 2) (omega arith) (omega arith) (
              put_value-Holds h int64 account_no (omega arith)
                (put_value-Holds h ushort res_message (omega arith) (alloc-Holds h))))))

  -- With names shorter than their arrays and a length of at most 128 that the memory at the string
  -- covers, MakeMessage builds a packet from a valid pooled packet of at least 512 bytes, and the
  -- packet goes out as the frame of the account, the two arrays of names, the length and that many
  -- bytes of memory from the start of the message.
  pub make_message_lem :
      (account_no : ℕ) (id nickname : List ℕ) (message_len : ℕ) (message : List ℕ)
      → length env.temp_id ≡ max_id_size
      → length env.temp_nickname ≡ max_nick_size
      → length id < max_id_size
      → length nickname < max_nick_size
      → message_len ≤ max_message
      → message_len ≤ 2 * length message + 2 + length env.beyond
      → (p : Packet) × (make_message env account_no id nickname message_len message ≡ some p)
        × (wire p
            ≡ frame env.key env.code env.r_key (
                message_head account_no
                  (sent_name env.temp_id id)
                  (sent_name env.temp_nickname nickname)
                  message_len
                ++ sent_text env.beyond message message_len))
  unfolding make_message sent_name sent_text
  make_message_lem account_no id nickname message_len message ti tn fi fn small enough = (
    finish env (message_body env account_no id' nick' message_len text),
    ground (arith),
    finish-Holds h (
        message_body_lem account_no id' nick' message_len text
          (length-blit env.temp_id 0 (id ++ 0 ∷ []) ∙ ti)
          (length-blit env.temp_nickname 0 (nickname ++ 0 ∷ []) ∙ tn) small
          (omega (
            arith,
            length-append (wide_bytes (message ++ 0 ∷ [])) env.beyond,
            length-wide_bytes (message ++ 0 ∷ []),
            length-append message (0 ∷ []),
          ))),
  )
    where
      id' : List ℕ
      id' = blit env.temp_id 0 (id ++ 0 ∷ [])

      nick' : List ℕ
      nick' = blit env.temp_nickname 0 (nickname ++ 0 ∷ [])

      text : List ℕ
      text = wide_bytes (message ++ 0 ∷ []) ++ env.beyond

-- If the length is that of the message, its bytes are sent and nothing else.
pub sent_text-whole :
    (beyond message : List ℕ) (message_len : ℕ)
    → message_len ≡ 2 * length message
    → sent_text beyond message message_len ≡ wide_bytes message
unfolding sent_text
sent_text-whole beyond message message_len e =
    ap (λ t. take message_len (t ++ beyond)) (wide_bytes-append message (0 ∷ []))
    ∙ ap (λ t. take message_len t) (append_assoc (wide_bytes message) (wide_bytes (0 ∷ [])) beyond)
    ∙ ap (λ n. take n (wide_bytes message ++ (wide_bytes (0 ∷ []) ++ beyond))) size
    ∙ take-append (wide_bytes message) (wide_bytes (0 ∷ []) ++ beyond)
  where
    size : message_len ≡ length (wide_bytes message)
    size = omega (arith, length-wide_bytes message)

-- A longer length reaches behind the terminator.
pub sent_text-beyond :
    (beyond message : List ℕ) (extra : ℕ)
    → sent_text beyond message (2 * length message + 2 + extra)
      ≡ wide_bytes message ++ (0 ∷ 0 ∷ []) ++ take extra beyond
unfolding sent_text
sent_text-beyond beyond message extra =
    ap (λ n. take n (wide_bytes (message ++ 0 ∷ []) ++ beyond)) {y = length text + extra} size
    ∙ take-append_more text beyond extra
    ∙ ap (λ t. t ++ take extra beyond) (wide_bytes-append message (0 ∷ []))
  where
    text : List ℕ
    text = wide_bytes (message ++ 0 ∷ [])

    size : 2 * length message + 2 + extra ≡ length text + extra
    size = omega (arith, length-wide_bytes (message ++ 0 ∷ []), length-append message (0 ∷ []))
