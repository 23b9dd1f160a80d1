-- ===== src/Chat.antt =====
-- ChatServer.h and ChatServer.cpp, Sector_AddUser and Sector_RemoveUser of Sector.cpp: the state of
-- the chat server and its operations. A user is a pointer into the heap of users; `sectors y x` is
-- the list of a sector. CrashDump::Crash and the invalid parameter handler end in `crashed`.

pub mod Proc
pub mod Placed
pub mod Move
pub mod Deliver
pub mod Handlers
pub mod Reach
pub mod Login
pub mod MovePacket
pub mod Message
pub mod Text
pub mod Examples
mod LoginExamples
use chat_server_mt.Base.{
  ℕ, ◌+◌, ◌-◌, ◌^◌, Bool, true, false, Option, none, some, List, [], ◌∷◌, ◌++◌, map, ltb, ◌==◌,
  ◌&&◌, if◌then◌else◌, add32, sub32,
}
use chat_server_mt.Packet.{Packet}
use chat_server_mt.User
use chat_server_mt.User.{User}
use chat_server_mt.Sector.{SectorPos, get_sector_around}

pub record Server : Type 0 where
  pub users : ℕ → User
  pub user_map : List (ℕ × ℕ)
  pub account_map : List (ℕ × ℕ)
  pub sectors : ℕ → ℕ → List ℕ
  pub connect_cnt : ℕ
  pub login_cnt : ℕ
  pub duplicate_login : ℕ
  pub message_tps : ℕ
  pub collect_msg_tps : ℕ
  pub max_user : ℕ

-- The calls that the server makes of the network layer: SendPacket and DisconnectSession.
pub data Output : Type 0 where
  sends : ℕ → Packet → Output
  disconnects : ℕ → Output

-- How a handler ends: in a crash, or with its result, the new state and its calls, in order.
pub data Outcome : Type 0 where
  crashed : Outcome
  returns : Bool → Server → List Output → Outcome

-- The maps, as lists of keys and values.
unfoldable pub find : ℕ → List (ℕ × ℕ) → Option ℕ
find k [] = none
find k ((key, v) ∷ rest) = let found = find k rest in if key == k then some v else found

unfoldable pub erase_key : ℕ → List (ℕ × ℕ) → List (ℕ × ℕ)
erase_key k [] = []
erase_key k ((key, v) ∷ rest) =
    let others = erase_key k rest in if key == k then others else (key, v) ∷ others

unfoldable pub set_user : ℕ → User → Server → Server
set_user p u s = record s { users = λ q. if q == p then u else s.users q }

unfoldable pub set_sector : ℕ → ℕ → List ℕ → Server → Server
set_sector y x l s = record s { sectors = λ b a. if b == y && a == x then l else s.sectors b a }

-- `list::erase` of the user's own entry.
unfoldable pub erase_entry : ℕ → List ℕ → List ℕ
erase_entry p [] = []
erase_entry p (q ∷ qs) = let rest = erase_entry p qs in if q == p then qs else q ∷ rest

-- Sector_AddUser behind its guard.
unfoldable pub add_entry : ℕ → Server → Server
unfolding set_user set_sector
add_entry p s =
    let u = s.users p in
    set_user p (record u { in_sector = true })
      (set_sector u.sector_y u.sector_x (s.sectors u.sector_y u.sector_x ++ p ∷ []) s)

-- `none` is its crash.
unfoldable pub sector_add_user : ℕ → Server → Option Server
unfolding add_entry
sector_add_user p s = if (s.users p).in_sector then none else some (add_entry p s)

unfoldable pub sector_remove_user : ℕ → Server → Server
unfolding set_user set_sector erase_entry
sector_remove_user p s =
    let u = s.users p in
    if u.in_sector
    then set_user p (record u { in_sector = false })
        (set_sector u.sector_y u.sector_x (erase_entry p (s.sectors u.sector_y u.sector_x)) s)
    else s

-- `p` is the pointer that the pool gave, 0 for nullptr.
unfoldable pub create_user : ℕ → ℕ → ℕ → Server → Outcome
unfolding set_user find User.init_user
create_user s_id p now s = if p == 0 then crashed else elim (find s_id s.user_map) [
  | some q ↦ crashed
  | none ↦
      let s' = set_user p (User.init_user s_id now (s.users p)) s in
      returns true
        (record s' { user_map = (s_id, p) ∷ s.user_map; connect_cnt = add32 s.connect_cnt 1 }) []
]

-- The part of DeleteUser behind `user->Unlock()`.
unfoldable pub log_out : ℕ → Server → Server
unfolding set_user erase_key
log_out p s =
    let u = s.users p in
    if u.login
    then record (set_user p (record u { login = false }) s) {
      account_map = erase_key u.account_no s.account_map;
      login_cnt = sub32 s.login_cnt 1;
    }
    else record s { connect_cnt = sub32 s.connect_cnt 1 }

unfoldable pub delete_user : ℕ → Server → Outcome
unfolding find erase_key sector_remove_user log_out
delete_user s_id s = elim (find s_id s.user_map) [
  | none ↦ crashed
  | some p ↦
      let s' = record s { user_map = erase_key s_id s.user_map } in
      returns true (log_out p (sector_remove_user p s')) []
]

unfoldable pub on_connection_request : Server → Bool
on_connection_request s = if ltb s.max_user s.login_cnt then false else true

-- `InterlockedIncrement(&m_messageTps)` at the end of a handler.
unfoldable pub counted : Outcome → Outcome
counted crashed = crashed
counted (returns b s out) = returns b (record s { message_tps = add32 s.message_tps 1 }) out

unfoldable pub on_client_join : ℕ → ℕ → ℕ → Server → Outcome
unfolding counted create_user
on_client_join s_id p now s = counted (create_user s_id p now s)

unfoldable pub on_client_leave : ℕ → Server → Outcome
unfolding counted delete_user
on_client_leave s_id s = counted (delete_user s_id s)

unfoldable pub on_client_timeout : ℕ → List Output
on_client_timeout s_id = disconnects s_id ∷ []

unfoldable pub collect : Server → Server
collect s = record s { collect_msg_tps = s.message_tps; message_tps = 0 }

-- A short as an int.
unfoldable pub sign_extend : ℕ → ℕ
sign_extend v = if ltb v (2 ^ 15) then v else v + (2 ^ 32 - 2 ^ 16)

unfoldable pub send_message_uni : Packet → User → Output
send_message_uni packet u = sends u.ssid packet

unfoldable pub send_message_sector : Packet → Server → List ℕ → List Output
unfolding send_message_uni
send_message_sector packet s [] = []
send_message_sector packet s (p ∷ ps) =
    send_message_uni packet (s.users p) ∷ send_message_sector packet s ps

-- SendMessageAround calls SendMessageSector cell by cell.
unfoldable pub send_cells : Packet → Server → List SectorPos → List Output
unfolding send_message_sector
send_cells packet s [] = []
send_cells packet s (c ∷ cs) =
    send_message_sector packet s (s.sectors c.y c.x) ++ send_cells packet s cs

unfoldable pub send_message_around : Packet → Server → User → List Output
unfolding send_cells sign_extend
send_message_around packet s u =
    send_cells packet s (get_sector_around (sign_extend u.sector_x) (sign_extend u.sector_y))
