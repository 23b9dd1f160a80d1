-- ===== src/Chat/Login.antt =====
-- A login, from the packet of the client to the answer.
use chat_server_mt.Base.{
  ℕ, ◌+◌, ◌*◌, ◌^◌, ◌<◌, ◌≡◌, ◌∙◌, ap, refl, true, false, none, some, List, [], ◌∷◌, ◌++◌, arith,
  length, take, drop, take-append, drop-append, drop-all, append-nil, append_assoc, blit, blit-zero,
  length-append, add32, sub32, ==_self,
}
use chat_server_mt.Packet
use chat_server_mt.Packet.{Packet, get_value, int64, le_bytes, size_of}
use chat_server_mt.Packet.Inv
use chat_server_mt.Packet.Inv.{payload, get_data_lem, get_data-IsValid}
use chat_server_mt.Packet.Fields.{get_value_lem, get_value-IsValid}
use chat_server_mt.Maker.{make_login, wide_bytes, max_id_size, max_nick_size}
use chat_server_mt.Maker.Message.{length-wide_bytes, wide_bytes-append}
use chat_server_mt.Chat.{Server, sends, send_message_uni, returns, find, set_user}
use chat_server_mt.Chat.Proc.{Call, proc_login, read_name, log_in, wide_chars, c_string}
use chat_server_mt.Chat.Text.{AreChars, wide_chars-wide_bytes, c_string-append}

-- A name as a client sends it: its characters, the terminator, and what fills up the array.
pub record Name (size : ℕ) : Type 0 where
  pub chars : List ℕ
  pub pad : List ℕ
  pub are_chars : AreChars chars
  pub whole : length chars + 1 + length pad ≡ size

abbrev pub name_bytes : {size : ℕ} → Name size → List ℕ
name_bytes n = wide_bytes (n.chars ++ 0 ∷ n.pad)

length-name_bytes : {size : ℕ} (n : Name size) → length (name_bytes n) ≡ size * 2
length-name_bytes n =
    omega
      (arith, length-wide_bytes (n.chars ++ 0 ∷ n.pad), length-append n.chars (0 ∷ n.pad), n.whole)

-- The string in an array that holds such a name.
string_of_name :
    {size : ℕ} (n : Name size) (behind : List ℕ)
    → c_string (wide_chars (name_bytes n ++ behind)) ≡ n.chars
string_of_name n behind =
    ap (λ t. c_string (wide_chars (t ++ behind))) (wide_bytes-append n.chars (0 ∷ n.pad))
    ∙ ap (λ t. c_string (wide_chars t))
        (append_assoc (wide_bytes n.chars) (wide_bytes (0 ∷ n.pad)) behind)
    ∙ ap c_string (wide_chars-wide_bytes n.chars (wide_bytes (0 ∷ n.pad) ++ behind) n.are_chars)
    ∙ c_string-append n.chars (wide_chars (wide_bytes n.pad ++ behind)) n.are_chars

read_name_lem :
    {size : ℕ} (n : Name size) (array : List ℕ) (packet : Packet) (rest : List ℕ)
    → Inv.IsValid packet
    → length array ≡ size * 2
    → payload packet ≡ name_bytes n ++ rest
    → ((read_name array size packet).0 ≡ name_bytes n)
      × Inv.IsValid (read_name array size packet).1
      × (payload (read_name array size packet).1 ≡ rest)
unfolding read_name
read_name_lem {size} n array packet rest v room e =
    let bytes = name_bytes n in
    let got : (Packet.get_data packet (size * 2)).1 ≡ bytes = ground (
      arith,
      get_data_lem (size * 2) v,
      ap length e,
      length-append bytes rest,
      length-name_bytes n,
      take-append bytes rest,
      ap (λ t. take (size * 2) t) e,
      ap (λ k. take k (bytes ++ rest)) (length-name_bytes n),
    ) in
    (
      ap (λ t. blit array 0 t) got
          ∙ blit-zero array bytes (omega (arith, length-name_bytes n))
          ∙ ap (λ t. bytes ++ t)
              (drop-all (length bytes) array (omega (arith, length-name_bytes n)))
          ∙ append-nil bytes,
      get_data-IsValid (size * 2) v,
      ground (
        arith,
        get_data_lem (size * 2) v,
        ap length e,
        length-append bytes rest,
        length-name_bytes n,
        drop-append bytes rest,
        ap (λ t. drop (size * 2) t) e,
        ap (λ k. drop k (bytes ++ rest)) (length-name_bytes n),
      ),
    )

-- A login packet behind its type: the account, the two names, and the session key.
abbrev pub login_payload : ℕ → Name max_id_size → Name max_nick_size → List ℕ → List ℕ
login_payload account_no id nick rest =
    le_bytes 8 account_no ++ (name_bytes id ++ (name_bytes nick ++ rest))

module _ (c : Call) (p : ℕ) (packet : Packet) (s : Server) (account_no : ℕ) (id : Name max_id_size)
    (nick : Name max_nick_size) (rest : List ℕ) where
  -- A valid packet with a 64-bit account number that is not in the map, and two names of 16-bit
  -- characters that end with a zero inside their 20 places, from a user that is not logged in,
  -- makes ProcLogin return true and answer with MakeLogin of status 1; afterwards the account is in
  -- the map with the session of the user, the user is logged in with the account and the two names
  -- and is otherwise unchanged, one connection is counted less and one login more. The local arrays
  -- have their sizes.
  pub proc_login_lem :
      Inv.IsValid packet
      → length c.id ≡ max_id_size * 2
      → length c.nick ≡ max_nick_size * 2
      → account_no < 2 ^ 64
      → payload packet ≡ login_payload account_no id nick rest
      → (s.users p).login ≡ false
      → find account_no s.account_map ≡ none
      → (s' : Server) × (proc_login c p packet s
          ≡ returns true s' (sends (s.users p).ssid (make_login c.env 1 account_no) ∷ []))
        × (find account_no s'.account_map ≡ some (s.users p).ssid)
        × (s'.users p ≡ record (s.users p) {
          login = true;
          account_no = account_no;
          id = id.chars;
          nickname = nick.chars;
        })
        × (s'.connect_cnt ≡ sub32 s.connect_cnt 1)
        × (s'.login_cnt ≡ add32 s.login_cnt 1)
  unfolding proc_login send_message_uni size_of
  proc_login_lem v id_room nick_room small e out free =
      let old = c.env.old_value in
      let first =
        get_value_lem int64 account_no old (name_bytes id ++ (name_bytes nick ++ rest)) v small e in
      let one = get_value int64 old packet in
      let v1 = get_value-IsValid int64 old v in
      let second = read_name_lem id c.id one.1 (name_bytes nick ++ rest) v1 id_room first.1 in
      let two = read_name c.id max_id_size one.1 in
      let third = read_name_lem nick c.nick two.1 rest second.1 nick_room second.2 in
      let three = read_name c.nick max_nick_size two.1 in
      let id_string : c_string (wide_chars (two.0 ++ c.behind_id)) ≡ id.chars =
        ap (λ t. c_string (wide_chars (t ++ c.behind_id))) second.0
        ∙ string_of_name id c.behind_id in
      let nick_string : c_string (wide_chars (three.0 ++ c.behind_nick)) ≡ nick.chars =
        ap (λ t. c_string (wide_chars (t ++ c.behind_nick))) third.0
        ∙ string_of_name nick c.behind_nick in
      (
        log_in p account_no id.chars nick.chars s,
        ground (arith, first.0, id_string, nick_string, out, free),
        unfold log_in set_user find in ground (arith, ==_self account_no),
        unfold log_in set_user in ground (arith, ==_self p),
        unfold log_in set_user in refl,
        unfold log_in set_user in refl,
      )
