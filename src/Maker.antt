-- ===== src/Maker.antt =====
-- PacketMaker.cpp: the server's answers, built in a packet of the pool and encoded.
pub mod Layouts
pub mod Message
pub mod Examples
use chat_server_mt.Base.{
  ℕ, ◌+◌, ◌*◌, Option, none, some, List, [], ◌∷◌, ◌++◌, ltb, if◌then◌else◌, length, blit,
}
use chat_server_mt.Packet
use chat_server_mt.Packet.{Packet, le_bytes, put_value, uchar, ushort, int64}

-- What a call takes from its surroundings: the server's packet key and code, the byte of `rand`,
-- the packet that the pool gives, and the memory that the code reads without having written it.
pub record Env : Type 0 where
  pub key : ℕ
  pub code : ℕ
  pub r_key : ℕ
  pub pooled : Packet
  -- A local variable before a refused `>>`.
  pub old_value : ℕ
  -- The local arrays of MakeMessage.
  pub temp_id : List ℕ
  pub temp_nickname : List ℕ
  -- What lies behind the terminator of a string.
  pub beyond : List ℕ

-- The members of en_PACKET_TYPE that the chat server uses, and the sizes of Define.h.
abbrev pub req_login : ℕ
req_login = 1

abbrev pub res_login : ℕ
res_login = 2

abbrev pub req_sector_move : ℕ
req_sector_move = 3

abbrev pub res_sector_move : ℕ
res_sector_move = 4

abbrev pub req_message : ℕ
req_message = 5

abbrev pub res_message : ℕ
res_message = 6

abbrev pub req_heartbeat : ℕ
req_heartbeat = 7

abbrev pub max_id_size : ℕ
max_id_size = 20

abbrev pub max_nick_size : ℕ
max_nick_size = 20

abbrev pub max_message : ℕ
max_message = 128

-- The memory of an array of `wchar_t`.
abbrev pub wide_bytes : List ℕ → List ℕ
wide_bytes [] = []
wide_bytes (c ∷ cs) = le_bytes 2 c ++ wide_bytes cs

-- `CPacket::Alloc`.
unfoldable pub alloc : Env → Packet
alloc env = Packet.clear env.pooled

pub finish : Env → Packet → Packet
finish env p = Packet.encode env.key env.code env.r_key p

unfoldable pub make_login : Env → ℕ → ℕ → Packet
unfolding finish
make_login env status account_no =
    finish env
      (put_value int64 account_no (put_value uchar status (put_value ushort res_login (alloc env))))

unfoldable pub make_sector_move : Env → ℕ → ℕ → ℕ → Packet
unfolding finish
make_sector_move env account_no sector_x sector_y = finish env (
    put_value ushort sector_y (
      put_value ushort sector_x
        (put_value int64 account_no (put_value ushort res_sector_move (alloc env)))))

-- wcscpy_s into a local array: the characters and their terminator, over what was there. A string
-- that does not fit calls the invalid parameter handler, which crashes.
pub copy_wide : List ℕ → ℕ → List ℕ → Option (List ℕ)
copy_wide temp size s = if ltb (length s) size then some (blit temp 0 (s ++ 0 ∷ [])) else none

-- MakeMessage once its names are copied; `text` is the memory at `message.c_str()`.
pub message_body : Env → ℕ → List ℕ → List ℕ → ℕ → List ℕ → Packet
message_body env account_no id nickname message_len text =
    let p = put_value int64 account_no (put_value ushort res_message (alloc env)) in
    let with_id = (Packet.put_data p (wide_bytes id) (max_id_size * 2)).1 in
    let with_nick = (Packet.put_data with_id (wide_bytes nickname) (max_nick_size * 2)).1 in
    (Packet.put_data (put_value ushort message_len with_nick) text message_len).1

unfoldable pub make_message : Env → ℕ → List ℕ → List ℕ → ℕ → List ℕ → Option Packet
unfolding finish copy_wide message_body
make_message env account_no id nickname message_len message =
    elim (copy_wide env.temp_id max_id_size id) [
      | none ↦ none
      | some id' ↦ elim (copy_wide env.temp_nickname max_nick_size nickname) [
        | none ↦ none
        | some nickname' ↦ some (
            finish env (
              message_body env account_no id' nickname' message_len
                (wide_bytes (message ++ 0 ∷ []) ++ env.beyond)))
      ]
    ]
