-- ===== src/Chat/Message.antt =====
-- A chat message, from the packet of its sender to the packets of its receivers.
use chat_server_mt.Base.{
  ℕ, ◌+◌, ◌*◌, ◌^◌, ◌≤◌, ◌<◌, ◌≡◌, ◌∙◌, ap, true, some, List, [], ◌∷◌, ◌++◌, length-append, arith,
  length, take, take-all, if◌then◌else◌,
}
use chat_server_mt.Packet
use chat_server_mt.Packet.{Packet, get_value, int64, ushort, le_bytes, size_of}
use chat_server_mt.Packet.Inv
use chat_server_mt.Packet.Inv.{payload, length-payload, get_data_lem}
use chat_server_mt.Packet.Codec.{frame}
use chat_server_mt.Packet.Wire.{wire}
use chat_server_mt.Packet.Fields.{get_value_lem, get_value-IsValid}
use chat_server_mt.Maker.{max_id_size, max_nick_size, max_message, make_message, wide_bytes}
use chat_server_mt.Maker.Layouts.{IsReady}
use chat_server_mt.Maker.Message.{
  message_head, sent_name, sent_text, sent_text-whole, sent_text-beyond, make_message_lem,
  length-wide_bytes,
}
use chat_server_mt.User.{User}
use chat_server_mt.Chat.{Server, returns, send_message_around}
use chat_server_mt.Chat.Proc.{Call, proc_message, message_string}
use chat_server_mt.Chat.Placed.{IsPlaced, count}
use chat_server_mt.Chat.Deliver.{sends_to, is_around, send_message_around_lem}
use chat_server_mt.Chat.Text.{AreChars, message_string-wide_bytes, message_string-zero}

-- A message packet behind its type: the account, the length in bytes, and the characters.
abbrev pub message_payload : ℕ → List ℕ → List ℕ
message_payload account_no chars =
    le_bytes 8 account_no ++ (le_bytes 2 (2 * length chars) ++ wide_bytes chars)

-- What ProcMessage reads of such a packet.
read_message :
    (packet : Packet) (old account_no : ℕ) (chars : List ℕ)
    → Inv.IsValid packet
    → account_no < 2 ^ 64
    → 2 * length chars < 2 ^ 16
    → payload packet ≡ message_payload account_no chars
    → let one = get_value int64 old packet in
      let two = get_value ushort old one.1 in
      (one.0 ≡ account_no)
      × (two.0 ≡ 2 * length chars)
      × (two.1.data_size ≡ 2 * length chars)
      × ((Packet.get_data two.1 (2 * length chars)).1 ≡ wide_bytes chars)
unfolding size_of
read_message packet old account_no chars v small few e =
    let len = 2 * length chars in
    let first = get_value_lem int64 account_no old (le_bytes 2 len ++ wide_bytes chars) v small e in
    let one = get_value int64 old packet in
    let v1 = get_value-IsValid int64 old v in
    let second = get_value_lem ushort len old (wide_bytes chars) v1 few first.1 in
    let two = get_value ushort old one.1 in
    let v2 = get_value-IsValid ushort old v1 in
    (
      first.0,
      second.0,
      omega (arith, length-payload v2, ap length second.1, length-wide_bytes chars),
      ground (
        arith,
        get_data_lem len v2,
        ap length second.1,
        length-wide_bytes chars,
        take-all len (wide_bytes chars),
        ap (λ t. take len t) second.1,
      ),
    )

-- A call whose pool gives packets that are valid and large enough, and whose arrays have their sizes.
pub record IsCall (c : Call) : Type 0 where
  pub ready : IsReady c.env
  pub id_array : length c.env.temp_id ≡ max_id_size
  pub nickname_array : length c.env.temp_nickname ≡ max_nick_size
  pub message_array : length c.message ≡ 2 * max_message

-- A user whose numbers fit their types and whose names fit the arrays of MakeMessage.
pub record IsUser (u : User) : Type 0 where
  pub account_in : u.account_no < 2 ^ 64
  pub id_short : length u.id < max_id_size
  pub nickname_short : length u.nickname < max_nick_size
  pub x_in : u.sector_x < 2 ^ 16
  pub y_in : u.sector_y < 2 ^ 16

module _ (c : Call) (p : ℕ) (packet : Packet) (s : Server) (chars : List ℕ) where
  -- With the reads and the packet settled, the guards let the message through.
  passes :
      (q : Packet)
      → Inv.IsValid packet
      → (s.users p).account_no < 2 ^ 64
      → 0 < length chars
      → 2 * length chars ≤ max_message
      → payload packet ≡ message_payload (s.users p).account_no chars
      → make_message c.env
          (s.users p).account_no
          (s.users p).id
          (s.users p).nickname
          (2 * length chars)
          (message_string c.message (2 * length chars) (wide_bytes chars))
        ≡ some q
      → proc_message c p packet s ≡ returns true s (send_message_around q s (s.users p))
  unfolding proc_message
  passes q v small some_chars few e made =
      let r =
        read_message packet c.env.old_value (s.users p).account_no chars v small (omega arith) e in
      ground (arith, r, made)

  -- A valid packet with the account number of its sender, a length of 1 to 64 characters of 16 bits
  -- without a zero, and exactly these characters, makes ProcMessage return true without changing
  -- the server, and send one packet, exactly once to each user in the grid whose cell differs from
  -- that of the sender by at most one in each coordinate, and to nobody else; the packet goes out
  -- as the frame of the account, the two arrays of names, the length and the same characters. The
  -- lists of the sectors are right, the fields of the sender fit their types and its names their
  -- arrays, and the pool gives valid packets of at least 512 bytes.
  pub proc_message_lem :
      IsCall c
      → IsUser (s.users p)
      → IsPlaced s
      → Inv.IsValid packet
      → AreChars chars
      → 0 < length chars
      → 2 * length chars ≤ max_message
      → payload packet ≡ message_payload (s.users p).account_no chars
      → (q : Packet) × (ps : List ℕ) × (proc_message c p packet s
          ≡ returns true s (sends_to q s ps))
        × ((r : ℕ) → count r ps ≡ (if is_around (s.users r) (s.users p) then 1 else 0))
        × (wire q
            ≡ frame c.env.key c.env.code c.env.r_key (
                message_head
                  (s.users p).account_no
                  (sent_name c.env.temp_id (s.users p).id)
                  (sent_name c.env.temp_nickname (s.users p).nickname)
                  (2 * length chars)
                ++ wide_bytes chars))
  proc_message_lem ic iu placed v h some_chars few e =
      let u = s.users p in
      let len = 2 * length chars in
      let text = message_string c.message len (wide_bytes chars) in
      let same : text ≡ chars =
        message_string-wide_bytes c.message chars h (omega (arith, ic.message_array)) in
      let made =
        make_message_lem ic.ready u.account_no u.id u.nickname len text ic.id_array
          ic.nickname_array iu.id_short iu.nickname_short few (omega (arith, ap length same)) in
      let sent = send_message_around_lem made.0 s u placed iu.x_in iu.y_in in
      (
        made.0,
        sent.0,
        passes made.0 v iu.account_in some_chars few e made.1
            ∙ ap (λ out. returns true s out) sent.1,
        sent.2,
        made.2
            ∙ ap
                (λ t. frame c.env.key c.env.code c.env.r_key (
                  message_head u.account_no (sent_name c.env.temp_id u.id)
                    (sent_name c.env.temp_nickname u.nickname) len
                  ++ t))
                (sent_text-whole c.env.beyond text len (omega (arith, ap length same))
                  ∙ ap wide_bytes same),
      )

module _ (c : Call) (p : ℕ) (packet : Packet) (s : Server) (chars : List ℕ) where
  -- A message that passes the tests of ProcMessage, with a zero character behind characters of 16
  -- bits without a zero, goes out to exactly the users around as the frame of the account, the two
  -- arrays of names, the length, the characters before the zero, a terminator, and then, in place
  -- of the characters behind the zero, as many bytes of the memory behind the string. The packet is
  -- valid and has the account number of its sender, a length of at most 128 and exactly its
  -- characters; the lists of the sectors are right, the fields of the sender fit their types and
  -- its names their arrays, the pool gives valid packets of at least 512 bytes, and so much memory
  -- stands behind the string.
  pub proc_message-beyond :
      (hidden : List ℕ)
      → IsCall c
      → IsUser (s.users p)
      → IsPlaced s
      → Inv.IsValid packet
      → AreChars chars
      → 2 * length (chars ++ 0 ∷ hidden) ≤ max_message
      → 2 * length hidden ≤ length c.env.beyond
      → payload packet ≡ message_payload (s.users p).account_no (chars ++ 0 ∷ hidden)
      → (q : Packet) × (ps : List ℕ) × (proc_message c p packet s
          ≡ returns true s (sends_to q s ps))
        × ((r : ℕ) → count r ps ≡ (if is_around (s.users r) (s.users p) then 1 else 0))
        × (wire q
            ≡ frame c.env.key c.env.code c.env.r_key (
                message_head
                  (s.users p).account_no
                  (sent_name c.env.temp_id (s.users p).id)
                  (sent_name c.env.temp_nickname (s.users p).nickname)
                  (2 * length (chars ++ 0 ∷ hidden))
                ++ (wide_bytes chars ++ (0 ∷ 0 ∷ []) ++ take (2 * length hidden) c.env.beyond)))
  proc_message-beyond hidden ic iu placed v h few enough e =
      let u = s.users p in
      let size = length-append chars (0 ∷ hidden) in
      let len = 2 * length (chars ++ 0 ∷ hidden) in
      let text = message_string c.message len (wide_bytes (chars ++ 0 ∷ hidden)) in
      let same : text ≡ chars =
        message_string-zero c.message chars hidden h (omega (arith, ic.message_array)) in
      let made =
        make_message_lem ic.ready u.account_no u.id u.nickname len text ic.id_array
          ic.nickname_array iu.id_short iu.nickname_short few
          (omega (arith, ap length same, size, enough)) in
      let sent = send_message_around_lem made.0 s u placed iu.x_in iu.y_in in
      (
        made.0,
        sent.0,
        passes c p packet s (chars ++ 0 ∷ hidden) made.0 v iu.account_in (omega (arith, size)) few e
              made.1
            ∙ ap (λ out. returns true s out) sent.1,
        sent.2,
        made.2
            ∙ ap
                (λ t. frame c.env.key c.env.code c.env.r_key (
                  message_head u.account_no (sent_name c.env.temp_id u.id)
                    (sent_name c.env.temp_nickname u.nickname) len
                  ++ t))
                (ap (λ t. sent_text c.env.beyond t len) same
                  ∙ ap (λ n. sent_text c.env.beyond chars n)
                      {y = 2 * length chars + 2 + 2 * length hidden} (omega (arith, size))
                  ∙ sent_text-beyond c.env.beyond chars (2 * length hidden)),
      )
