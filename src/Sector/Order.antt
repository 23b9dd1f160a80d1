-- ===== src/Sector/Order.antt =====
-- The order in which sectors are visited and their locks acquired.
use chat_server_mt.Base.{
  ℕ, zero, suc, ◌+◌, ◌*◌, ◌^◌, ◌≤◌, ◌<◌, ◌≡◌, refl, Bool, true, false, List, [], ◌∷◌, ◌++◌,
  if◌then◌else◌, arith, add32, sub32,
}
use chat_server_mt.Sector.{
  SectorPos, sector_max, is_outside, around_columns, around_rows, get_sector_around, lock_index,
}
use chat_server_mt.Sector.Around.{outside_lem}

-- All cells lie in the grid, and the indices of their locks increase strictly from `low` on.
abbrev pub AscendingFrom : ℕ → List SectorPos → Type 0
AscendingFrom low [] = Unit {0}
AscendingFrom low (p ∷ ps) =
    (p.x < sector_max)
    × (p.y < sector_max)
    × (low ≤ lock_index p)
    × AscendingFrom (suc (lock_index p)) ps

weaken-AscendingFrom :
    (low high : ℕ) (ps : List SectorPos) → low ≤ high → AscendingFrom high ps → AscendingFrom low ps
weaken-AscendingFrom low high [] h a = tt
weaken-AscendingFrom low high (p ∷ ps) h a = (a.0, a.1, omega (arith, a.2), a.3)

-- A cell that a test skips or takes.
skip-AscendingFrom :
    (b : Bool) (p : SectorPos) (ps rest : List SectorPos) (low : ℕ)
    → (b ≡ true → AscendingFrom low (ps ++ rest))
    → (b ≡ false → AscendingFrom low (p ∷ ps ++ rest))
    → AscendingFrom low ((if b then ps else p ∷ ps) ++ rest)
skip-AscendingFrom true p ps rest low skip take = skip refl
skip-AscendingFrom false p ps rest low skip take = take refl

row-AscendingFrom :
    (b : Bool) (ps qs : List SectorPos) (low : ℕ)
    → (b ≡ true → AscendingFrom low ps)
    → (b ≡ false → AscendingFrom low qs)
    → AscendingFrom low (if b then ps else qs)
row-AscendingFrom true ps qs low skip take = skip refl
row-AscendingFrom false ps qs low skip take = take refl

inside_lem : (t : ℕ) → t < 2 ^ 32 → is_outside t ≡ false → t < sector_max
inside_lem t h e = ground (arith, outside_lem t h)

columns-AscendingFrom :
    (left cnt x t low : ℕ) (rest : List SectorPos)
    → x < 2 ^ 32
    → t < sector_max
    → cnt + left ≤ 3
    → ((i : ℕ) → cnt ≤ i → i < 3 → add32 x i < sector_max → low ≤ t * sector_max + add32 x i)
    → low ≤ (t + 1) * sector_max
    → AscendingFrom ((t + 1) * sector_max) rest
    → AscendingFrom low (around_columns left cnt x t ++ rest)
unfolding around_columns lock_index
columns-AscendingFrom zero cnt x t low rest h k few above bound a =
    weaken-AscendingFrom low ((t + 1) * sector_max) rest bound a
columns-AscendingFrom (suc left) cnt x t low rest h k few above bound a =
    skip-AscendingFrom (is_outside at) (record { x = at; y = t })
      (around_columns left (cnt + 1) x t) rest low
      (λ e.
        columns-AscendingFrom left (cnt + 1) x t low rest h k (omega arith)
          (λ i p q r. above i (omega arith) q r) bound a)
      λ e.
        let inside : at < sector_max = inside_lem at (omega arith) e in
        (
          inside,
          k,
          above cnt (omega arith) (omega arith) inside,
          columns-AscendingFrom left (cnt + 1) x t (suc (t * sector_max + at)) rest h k
              (omega arith) (λ i p q r. omega (arith, inside)) (omega (arith, inside)) a,
        )
  where
    at : ℕ
    at = add32 x cnt

rows-AscendingFrom :
    (left cnt x y low : ℕ)
    → x < 2 ^ 32
    → y < 2 ^ 32
    → cnt + left ≤ 3
    → ((i : ℕ) → cnt ≤ i → i < 3 → add32 y i < sector_max → low ≤ add32 y i * sector_max)
    → AscendingFrom low (around_rows left cnt x y)
unfolding around_rows
rows-AscendingFrom zero cnt x y low h k few above = tt
rows-AscendingFrom (suc left) cnt x y low h k few above =
    row-AscendingFrom (is_outside at) (around_rows left (cnt + 1) x y)
      (around_columns 3 0 x at ++ around_rows left (cnt + 1) x y) low
      (λ e.
        rows-AscendingFrom left (cnt + 1) x y low h k (omega arith)
          (λ i p q r. above i (omega arith) q r))
      λ e.
        let inside : at < sector_max = inside_lem at (omega arith) e in
        let start : low ≤ at * sector_max = above cnt (omega arith) (omega arith) inside in
        columns-AscendingFrom 3 0 x at low (around_rows left (cnt + 1) x y) h inside (omega arith)
          (λ i p q r. omega (arith, start)) (omega (arith, start))
          (rows-AscendingFrom left (cnt + 1) x y ((at + 1) * sector_max) h k (omega arith)
            (λ i p q r. omega (arith, inside)))
  where
    at : ℕ
    at = add32 y cnt

-- The cells that GetSectorAround gives lie in the grid and are in strictly ascending order, by row
-- and then by column, so that LockSectorAround takes the locks in the order of the grid and none
-- twice.
pub get_sector_around-AscendingFrom : (x y : ℕ) → AscendingFrom 0 (get_sector_around x y)
unfolding get_sector_around
get_sector_around-AscendingFrom x y =
    rows-AscendingFrom 3 0 (sub32 x 1) (sub32 y 1) 0 (omega arith) (omega arith) (omega arith)
      λ i p q r. omega arith
