-- ===== src/Sector/Examples.antt =====
-- The grid's theorems at a corner, inside the grid, and with two threads.
use chat_server_mt.Base.{ℕ, ◌≡◌, true, refl, [], ◌∷◌, arith}
use chat_server_mt.Sector.{SectorPos, get_sector_around, around_rows, around_columns}
use chat_server_mt.Sector.Around.{count_of, get_sector_around_lem}
use chat_server_mt.Sector.Locks.{WaitsFor}
use chat_server_mt.Sector.Deadlock.{
  Locking, acquiring, moves, sends_around, lock_sector, is_before, locking-no_deadlock,
}
use chat_server_mt.User.{User}

get_sector_around_lem_example : count_of 48 13 (get_sector_around 49 12) ≡ 1
get_sector_around_lem_example = get_sector_around_lem 48 13 49 12 (omega arith) (omega arith)

abbrev cell : ℕ → ℕ → SectorPos
cell x y = record { x = x; y = y }

-- A user at (4, 4) who moves to (3, 4), and a message around (4, 5).
abbrev walker : User
walker = record {
  login = true;
  in_sector = true;
  ssid = 1;
  account_no = 1;
  id = [];
  nickname = [];
  sector_x = 4;
  sector_y = 4;
  last_recv_time = 0;
  old_recv_time = 0;
}

lock_sector-here : cell 3 4 ∷ cell 4 4 ∷ [] ≡ lock_sector walker (cell 3 4)
unfolding lock_sector is_before
lock_sector-here = refl

around-here :
    cell 3 4
      ∷ cell 4 4
      ∷ cell 5 4
      ∷ cell 3 5
      ∷ cell 4 5
      ∷ cell 5 5
      ∷ cell 3 6
      ∷ cell 4 6
      ∷ cell 5 6
      ∷ []
    ≡ get_sector_around 4 5
unfolding get_sector_around around_rows around_columns
around-here = refl

mover : Locking
mover = record {
  acquired = cell 3 4 ∷ [];
  next = cell 4 4;
  later = [];
  locks = moves walker (cell 3 4) (omega arith) (omega arith) (λ e. omega arith) lock_sector-here;
}

sender : Locking
sender = record {
  acquired = cell 3 4 ∷ cell 4 4 ∷ [];
  next = cell 5 4;
  later = cell 3 5 ∷ cell 4 5 ∷ cell 5 5 ∷ cell 3 6 ∷ cell 4 6 ∷ cell 5 6 ∷ [];
  locks = sends_around 4 5 around-here;
}

locking-no_deadlock_example : ¬ WaitsFor (acquiring mover) (acquiring sender ∷ []) (acquiring mover)
locking-no_deadlock_example = locking-no_deadlock mover (sender ∷ [])
