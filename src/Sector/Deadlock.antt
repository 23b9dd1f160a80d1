-- ===== src/Sector/Deadlock.antt =====
-- The threads of LockSectorAround, which lock the cells around a sector, and of ProcSectorMove,
-- which locks the sector that a user comes from and the one that it goes to.
use chat_server_mt.Base.{
  ℕ, ◌<◌, ◌≡◌, refl, sym, subst, true, Bool, false, ◌&&◌, ◌||◌, not, ◌==◌, ltb, if◌then◌else◌, List,
  [], ◌∷◌, ◌++◌, map, arith,
}
use chat_server_mt.User.{User}
use chat_server_mt.Sector.{SectorPos, sector_max, get_sector_around, lock_index}
use chat_server_mt.Sector.Order.{AscendingFrom, get_sector_around-AscendingFrom}
use chat_server_mt.Sector.Locks.{Acquiring, WaitsFor, no_deadlock}

-- The comparison that ProcSectorMove sorts by.
unfoldable pub is_before : SectorPos → SectorPos → Bool
is_before a b = if ltb a.y b.y then true else a.y == b.y && ltb a.x b.x

-- `lock_sector` of ProcSectorMove, sorted.
unfoldable pub lock_sector : User → SectorPos → List SectorPos
unfolding is_before
lock_sector u to =
    let from : SectorPos = record { x = u.sector_x; y = u.sector_y } in
    if u.in_sector && (not (to.x == u.sector_x) || not (to.y == u.sector_y))
    then (if is_before from to then from ∷ to ∷ [] else to ∷ from ∷ [])
    else to ∷ []

-- Who locks cells, and which.
pub data Locks (cells : List SectorPos) : Type 0 where
  sends_around : (x y : ℕ) → cells ≡ get_sector_around x y → Locks cells
  moves :
      (u : User) (to : SectorPos)
      → to.x < sector_max
      → to.y < sector_max
      → (u.in_sector ≡ true → (u.sector_x < sector_max) × (u.sector_y < sector_max))
      → cells ≡ lock_sector u to
      → Locks cells

by_test :
    (P : List SectorPos → Type 0) (xs ys : List SectorPos) (b : Bool)
    → (b ≡ true → P xs)
    → (b ≡ false → P ys)
    → P (if b then xs else ys)
by_test P xs ys true f g = f refl
by_test P xs ys false f g = g refl

two-AscendingFrom :
    (a b : SectorPos)
    → (a.x < sector_max) × (a.y < sector_max)
    → (b.x < sector_max) × (b.y < sector_max)
    → lock_index a < lock_index b
    → AscendingFrom 0 (a ∷ b ∷ [])
unfolding lock_index
two-AscendingFrom a b p q lt = (p.0, p.1, omega arith, (q.0, q.1, lt, tt))

lock_sector-AscendingFrom :
    (u : User) (to : SectorPos)
    → to.x < sector_max
    → to.y < sector_max
    → (u.in_sector ≡ true → (u.sector_x < sector_max) × (u.sector_y < sector_max))
    → AscendingFrom 0 (lock_sector u to)
unfolding lock_sector is_before lock_index
lock_sector-AscendingFrom u to p q grid =
    let from : SectorPos = record { x = u.sector_x; y = u.sector_y } in
    by_test (AscendingFrom 0) (if is_before from to then from ∷ to ∷ [] else to ∷ from ∷ [])
      (to ∷ []) (u.in_sector && (not (to.x == u.sector_x) || not (to.y == u.sector_y)))
      (λ e.
        let inside = grid (ground (arith, e)) in
        by_test (AscendingFrom 0) (from ∷ to ∷ []) (to ∷ from ∷ []) (is_before from to)
          (λ f. two-AscendingFrom from to inside (p, q) (ground (arith, f, inside, p)))
          (λ f. two-AscendingFrom to from (p, q) inside (ground (arith, e, f, inside, p))))
      (λ e. (p, q, omega arith, tt))

pub locks-AscendingFrom : (cells : List SectorPos) → Locks cells → AscendingFrom 0 cells
locks-AscendingFrom cells (sends_around x y e) =
    subst (AscendingFrom 0) (sym e) (get_sector_around-AscendingFrom x y)
locks-AscendingFrom cells (moves u to p q grid e) =
    subst (AscendingFrom 0) (sym e) (lock_sector-AscendingFrom u to p q grid)

-- A thread in such a loop, before the lock of `next`.
pub record Locking : Type 0 where
  pub acquired : List SectorPos
  pub next : SectorPos
  pub later : List SectorPos
  pub locks : Locks (acquired ++ next ∷ later)

abbrev pub acquiring : Locking → Acquiring
acquiring t = record {
  acquired = t.acquired;
  next = t.next;
  later = t.later;
  ascending = locks-AscendingFrom (t.acquired ++ t.next ∷ t.later) t.locks;
}

-- Threads that lock the cells that GetSectorAround gives for any coordinates, in the order of
-- LockSectorAround, and threads that lock the one or two sectors of a ProcSectorMove to a sector in
-- the grid, by a user that is in the grid or in no sector, never wait for each other in a cycle of
-- any length.
pub locking-no_deadlock :
    (t : Locking) (others : List Locking)
    → ¬ WaitsFor (acquiring t) (map acquiring others) (acquiring t)
locking-no_deadlock t others = no_deadlock (acquiring t) (map acquiring others)
