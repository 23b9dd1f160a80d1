-- ===== src/Sector.antt =====
-- Sector.h and Sector.cpp: the grid of sectors, the cells around one, and the order of their locks.
-- Coordinates are 32-bit patterns, as the `int` parameters of the source.
pub mod Around
pub mod Order
pub mod Locks
pub mod Deadlock
pub mod Examples
use chat_server_mt.Base.{
  ℕ, zero, suc, ◌+◌, ◌*◌, Bool, ◌||◌, List, [], ◌∷◌, ◌++◌, ltb, if◌then◌else◌, add32, sub32,
  is_negative, ltb_int, not,
}

-- SECTOR_MAX_X and SECTOR_MAX_Y.
abbrev pub sector_max : ℕ
sector_max = 50

pub record SectorPos : Type 0 where
  pub x : ℕ
  pub y : ℕ

-- `temp < 0 || temp >= SECTOR_MAX`.
unfoldable pub is_outside : ℕ → Bool
is_outside temp = is_negative temp || not (ltb_int temp sector_max)

-- The inner loop of GetSectorAround, for `left` more columns from `cnt_x` on.
unfoldable pub around_columns : ℕ → ℕ → ℕ → ℕ → List SectorPos
unfolding is_outside
around_columns zero cnt_x sector_x temp_y = []
around_columns (suc left) cnt_x sector_x temp_y =
    let temp_x = add32 sector_x cnt_x in
    let rest = around_columns left (cnt_x + 1) sector_x temp_y in
    if is_outside temp_x then rest else record { x = temp_x; y = temp_y } ∷ rest

-- The outer loop.
unfoldable pub around_rows : ℕ → ℕ → ℕ → ℕ → List SectorPos
unfolding is_outside around_columns
around_rows zero cnt_y sector_x sector_y = []
around_rows (suc left) cnt_y sector_x sector_y =
    let temp_y = add32 sector_y cnt_y in
    let rest = around_rows left (cnt_y + 1) sector_x sector_y in
    if is_outside temp_y then rest else around_columns 3 0 sector_x temp_y ++ rest

-- The `count` first entries of `around`.
unfoldable pub get_sector_around : ℕ → ℕ → List SectorPos
unfolding around_rows around_columns is_outside
get_sector_around sector_x sector_y = around_rows 3 0 (sub32 sector_x 1) (sub32 sector_y 1)

-- The locks that LockSectorAround acquires, in its order, as indices into the grid of locks.
unfoldable pub lock_index : SectorPos → ℕ
lock_index p = p.y * sector_max + p.x
