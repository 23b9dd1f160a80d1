-- ===== src/Sector/Around.antt =====
-- Which cells GetSectorAround gives, and in which order.
use chat_server_mt.Base.{
  ℕ, zero, suc, ◌+◌, ◌*◌, ◌^◌, ◌≤◌, ◌<◌, ◌≡◌, ◌∙◌, Bool, ◌&&◌, not, List, [], ◌∷◌, ◌++◌, ltb, leb,
  ◌==◌, if◌then◌else◌, arith, add32, sub32, length, length-append,
}
use chat_server_mt.Sector.{
  SectorPos, sector_max, is_outside, around_columns, around_rows, get_sector_around,
}

-- How often a cell is in a list.
unfoldable pub count_of : ℕ → ℕ → List SectorPos → ℕ
count_of a b [] = 0
count_of a b (p ∷ ps) =
    let rest = count_of a b ps in if p.x == a && p.y == b then suc rest else rest

count_of-append :
    (a b : ℕ) (ps qs : List SectorPos) → count_of a b (ps ++ qs) ≡ count_of a b ps + count_of a b qs
unfolding count_of
count_of-append a b [] qs = omega arith
count_of-append a b (p ∷ ps) qs = ground (arith, count_of-append a b ps qs)

-- A coordinate of the grid that differs from `x` by at most one, as patterns.
abbrev pub is_near : ℕ → ℕ → Bool
is_near a x = leb (sub32 (add32 a 1) x) 2 && ltb a sector_max

pub outside_lem : (t : ℕ) → t < 2 ^ 32 → is_outside t ≡ not (ltb t sector_max)
unfolding is_outside
outside_lem t h = ground arith

columns_lem :
    (a b x y : ℕ)
    → x < 2 ^ 32
    → count_of a b (around_columns 3 0 (sub32 x 1) y) ≡ (if is_near a x && y == b then 1 else 0)
unfolding count_of around_columns
columns_lem a b x y h = ground (
  arith,
  outside_lem (add32 (sub32 x 1) 0),
  outside_lem (add32 (sub32 x 1) 1),
  outside_lem (add32 (sub32 x 1) 2),
)

-- What one row adds to the count.
row_lem :
    (left cnt a b x sector_y : ℕ)
    → x < 2 ^ 32
    → count_of a b (around_rows (suc left) cnt (sub32 x 1) sector_y)
      ≡ (if is_near a x && add32 sector_y cnt == b && ltb b sector_max then 1 else 0)
        + count_of a b (around_rows left (cnt + 1) (sub32 x 1) sector_y)
unfolding around_rows
row_lem left cnt a b x sector_y h =
    let t = add32 sector_y cnt in
    let rest = around_rows left (cnt + 1) (sub32 x 1) sector_y in
    ground (
      arith,
      outside_lem t,
      columns_lem a b x t h,
      count_of-append a b (around_columns 3 0 (sub32 x 1) t) rest,
    )

abbrev in_row : ℕ → ℕ → ℕ → ℕ → ℕ
in_row a b x t = if is_near a x && t == b && ltb b sector_max then 1 else 0

rows_lem :
    (a b x y : ℕ)
    → x < 2 ^ 32
    → count_of a b (get_sector_around x y)
      ≡ in_row a b x (add32 (sub32 y 1) 0)
        + in_row a b x (add32 (sub32 y 1) 1)
        + in_row a b x (add32 (sub32 y 1) 2)
unfolding get_sector_around count_of
rows_lem a b x y h = omega (
  arith,
  row_lem 2 0 a b x (sub32 y 1) h,
  row_lem 1 1 a b x (sub32 y 1) h,
  row_lem 0 2 a b x (sub32 y 1) h,
)

-- For coordinates below 2^32, GetSectorAround gives each cell of the grid whose coordinates differ
-- from the given ones by at most one, as 32-bit integers, exactly once, and no other cell.
pub get_sector_around_lem :
    (a b x y : ℕ)
    → x < 2 ^ 32
    → y < 2 ^ 32
    → count_of a b (get_sector_around x y) ≡ (if is_near a x && is_near b y then 1 else 0)
unfolding get_sector_around
get_sector_around_lem a b x y h k = rows_lem a b x y h ∙ ground arith

columns-le : (left cnt x t : ℕ) → length (around_columns left cnt x t) ≤ left
unfolding around_columns
columns-le zero cnt x t = omega arith
columns-le (suc left) cnt x t = ground (arith, columns-le left (cnt + 1) x t)

rows-le : (left cnt x y : ℕ) → length (around_rows left cnt x y) ≤ 3 * left
unfolding around_rows
rows-le zero cnt x y = omega arith
rows-le (suc left) cnt x y = ground (
  arith,
  rows-le left (cnt + 1) x y,
  columns-le 3 0 x (add32 y cnt),
  length-append (around_columns 3 0 x (add32 y cnt)) (around_rows left (cnt + 1) x y),
)

-- GetSectorAround writes at most nine entries, so that the array around is never overrun.
pub get_sector_around-le : (x y : ℕ) → length (get_sector_around x y) ≤ 9
unfolding get_sector_around
get_sector_around-le x y = rows-le 3 0 (sub32 x 1) (sub32 y 1)
