-- ===== src/User.antt =====
-- User.h and User.cpp. A short is its 16-bit pattern, an account number its 64-bit pattern; strings
-- are lists of characters without their terminator. The iterator into the list of the sector is
-- the user itself, which stands in that list at most once. The critical section is left out: a
-- handler runs as one step.
use chat_server_mt.Base.{ℕ, ◌-◌, ◌^◌, Bool, false, List, []}

pub record User : Type 0 where
  pub login : Bool
  pub in_sector : Bool
  pub ssid : ℕ
  pub account_no : ℕ
  pub id : List ℕ
  pub nickname : List ℕ
  pub sector_x : ℕ
  pub sector_y : ℕ
  pub last_recv_time : ℕ
  pub old_recv_time : ℕ

-- The short and the 64-bit integer -1.
abbrev pub minus_one_16 : ℕ
minus_one_16 = 2 ^ 16 - 1

abbrev pub minus_one_64 : ℕ
minus_one_64 = 2 ^ 64 - 1

-- The constructor; the fields that it does not write keep what the memory held.
unfoldable pub init : User → User
init u = record u {
  login = false;
  in_sector = false;
  account_no = minus_one_64;
  id = [];
  nickname = [];
}

unfoldable pub update_recv_time : ℕ → User → User
update_recv_time now u = record u { old_recv_time = u.last_recv_time; last_recv_time = now }

unfoldable pub init_user : ℕ → ℕ → User → User
unfolding update_recv_time
init_user ssid now u =
    let placed = record u { ssid = ssid; sector_x = minus_one_16; sector_y = minus_one_16 } in
    record (update_recv_time now placed) { login = false; in_sector = false }

unfoldable pub move_sector : ℕ → ℕ → User → User
move_sector sector_x sector_y u = record u { sector_x = sector_x; sector_y = sector_y }
