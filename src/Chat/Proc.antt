-- ===== src/Chat/Proc.antt =====
-- ProcPacket.cpp and `ChatServer::OnRecv`: what the server does with a client's packet. The thread
-- locks of the users, maps and sectors are left out: a handler runs as one step.
use chat_server_mt.Base.{
  ℕ, ◌+◌, ◌*◌, ◌/◌, ◌^◌, Bool, true, false, Option, none, some, List, [], ◌∷◌, ◌++◌, ltb, leb, ◌==◌,
  ◌||◌, not, if◌then◌else◌, add32, sub32, blit,
}
use chat_server_mt.Packet
use chat_server_mt.Packet.{Packet, get_value, short, ushort, int64}
use chat_server_mt.User
use chat_server_mt.User.{User}
use chat_server_mt.Sector.{sector_max}
use chat_server_mt.Maker.{
  Env, make_login, make_sector_move, make_message, max_id_size, max_nick_size, max_message,
  req_login, req_sector_move, req_message, req_heartbeat,
}
use chat_server_mt.Chat.{
  Server, disconnects, Outcome, crashed, returns, find, set_user, sector_add_user,
  sector_remove_user, send_message_uni, send_message_around, counted,
}

-- What a handler takes from its surroundings: the environment of the packets that it builds, the
-- time, and the memory of its local arrays, in bytes, with what lies behind each.
pub record Call : Type 0 where
  pub env : Env
  pub now : ℕ
  pub id : List ℕ
  pub nick : List ℕ
  pub message : List ℕ
  pub behind_id : List ℕ
  pub behind_nick : List ℕ

-- The characters of an array of bytes, and those of a C string in it.
abbrev pub wide_chars : List ℕ → List ℕ
wide_chars [] = []
wide_chars (b ∷ []) = []
wide_chars (b ∷ c ∷ rest) = (b + 256 * c) ∷ wide_chars rest

abbrev pub c_string : List ℕ → List ℕ
c_string [] = []
c_string (c ∷ cs) = let rest = c_string cs in if c == 0 then [] else c ∷ rest

-- The array of a name after `GetData` into it.
unfoldable pub read_name : List ℕ → ℕ → Packet → List ℕ × Packet
read_name array size packet =
    let (n, bytes, rest) = Packet.get_data packet (size * 2) in (blit array 0 bytes, rest)

-- The effects of ProcLogin on the user and the server, once the account is free.
unfoldable pub log_in : ℕ → ℕ → List ℕ → List ℕ → Server → Server
unfolding set_user
log_in p account_no id nick s =
    let u = s.users p in
    set_user p (record u { login = true; account_no = account_no; id = id; nickname = nick })
      (record s {
        account_map = (account_no, u.ssid) ∷ s.account_map;
        connect_cnt = sub32 s.connect_cnt 1;
        login_cnt = add32 s.login_cnt 1;
      })

unfoldable pub proc_login : Call → ℕ → Packet → Server → Outcome
unfolding read_name log_in find send_message_uni
proc_login c p packet s =
    let u = s.users p in
    let (account_no, packet1) = get_value int64 c.env.old_value packet in
    let (id, packet2) = read_name c.id max_id_size packet1 in
    let (nick, packet3) = read_name c.nick max_nick_size packet2 in
    if u.login
    then returns false s (send_message_uni (make_login c.env 0 account_no) u ∷ [])
    else elim (find account_no s.account_map) [
      | some ssid ↦ crashed
      | none ↦
          returns true
            (log_in p account_no (c_string (wide_chars (id ++ c.behind_id)))
              (c_string (wide_chars (nick ++ c.behind_nick))) s)
            (send_message_uni (make_login c.env 1 account_no) u ∷ [])
    ]

-- `v < 0 || v >= SECTOR_MAX` for a short.
unfoldable pub is_out_of_grid : ℕ → Bool
is_out_of_grid v = leb (2 ^ 15) v || leb sector_max v

-- The move itself: Sector_RemoveUser, MoveSector, Sector_AddUser, the last of which may crash.
unfoldable pub move_user : ℕ → ℕ → ℕ → Server → Option Server
unfolding sector_remove_user sector_add_user set_user User.move_sector
move_user p sector_x sector_y s =
    let s1 = sector_remove_user p s in
    sector_add_user p (set_user p (User.move_sector sector_x sector_y (s1.users p)) s1)

-- The answer to a move.
unfoldable pub moved : Call → ℕ → ℕ → Option Server → Outcome
unfolding send_message_uni
moved c p account_no none = crashed
moved c p account_no (some s) =
    let u = s.users p in
    returns true s
      (send_message_uni (make_sector_move c.env account_no u.sector_x u.sector_y) u ∷ [])

unfoldable pub proc_sector_move : Call → ℕ → Packet → Server → Outcome
unfolding is_out_of_grid move_user moved
proc_sector_move c p packet s =
    let u = s.users p in
    let (account_no, packet1) = get_value int64 c.env.old_value packet in
    let (sector_x, packet2) = get_value short c.env.old_value packet1 in
    let (sector_y, packet3) = get_value short c.env.old_value packet2 in
    if not (account_no == u.account_no)
    then returns false s []
    else if is_out_of_grid sector_x || is_out_of_grid sector_y
    then returns false s []
    else moved c p account_no (move_user p sector_x sector_y s)

-- The string `message` that ProcMessage makes of the payload.
unfoldable pub message_string : List ℕ → ℕ → List ℕ → List ℕ
message_string array message_len bytes =
    c_string (wide_chars (blit (blit array 0 bytes) (2 * (message_len / 2)) (0 ∷ 0 ∷ [])))

unfoldable pub proc_message : Call → ℕ → Packet → Server → Outcome
unfolding message_string send_message_around
proc_message c p packet s =
    let u = s.users p in
    let (account_no, packet1) = get_value int64 c.env.old_value packet in
    let (message_len, packet2) = get_value ushort c.env.old_value packet1 in
    if not (u.account_no == account_no)
    then returns false s []
    else if not (packet2.data_size == message_len)
        || (message_len == 0)
        || ltb max_message message_len
    then returns false s []
    else let (n, bytes, packet3) = Packet.get_data packet2 message_len in
      elim (make_message c.env account_no u.id u.nickname message_len
        (message_string c.message message_len bytes)) [
          | none ↦ crashed
          | some packet' ↦ returns true s (send_message_around packet' s u)
        ]

-- The switch of OnRecv.
unfoldable pub proc_packet : Call → ℕ → ℕ → Packet → Server → Outcome
unfolding proc_login proc_sector_move proc_message
proc_packet c packet_type p packet s =
    if packet_type == req_login
    then proc_login c p packet s
    else if packet_type == req_sector_move
    then proc_sector_move c p packet s
    else if packet_type == req_message
    then proc_message c p packet s
    else if packet_type == req_heartbeat
    then returns true s []
    else returns false s []

-- `if (!result_proc) DisconnectSession(session_id)`.
unfoldable pub disconnect_refused : ℕ → Outcome → Outcome
disconnect_refused s_id crashed = crashed
disconnect_refused s_id (returns b s out) =
    returns b s (if b then out else out ++ disconnects s_id ∷ [])

unfoldable pub on_recv : Call → ℕ → Packet → Server → Outcome
unfolding find set_user User.update_recv_time proc_packet disconnect_refused counted
on_recv c s_id packet s =
    let (packet_type, packet1) = get_value ushort c.env.old_value packet in
    elim (find s_id s.user_map) [
      | none ↦ crashed
      | some p ↦
          let s' = set_user p (User.update_recv_time c.now (s.users p)) s in
          counted (disconnect_refused s_id (proc_packet c packet_type p packet1 s'))
    ]
