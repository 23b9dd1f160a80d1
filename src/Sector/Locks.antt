-- ===== src/Sector/Locks.antt =====
-- Threads that acquire sector locks one after the other, as LockSectorAround and ProcSectorMove do.
use chat_server_mt.Base.{ℕ, suc, ◌≤◌, ◌<◌, ◌≡◌, refl, ◌⊎◌, inl, inr, List, [], ◌∷◌, ◌++◌, arith}
use chat_server_mt.Sector.{SectorPos, lock_index}
use chat_server_mt.Sector.Order.{AscendingFrom}

-- A thread in the loop over its cells: it holds the locks of `acquired` and asks for that of `next`.
pub record Acquiring : Type 0 where
  pub acquired : List SectorPos
  pub next : SectorPos
  pub later : List SectorPos
  pub ascending : AscendingFrom 0 (acquired ++ next ∷ later)

abbrev pub HasLock : ℕ → List SectorPos → Type 0
HasLock n [] = ⊥
HasLock n (p ∷ ps) = (lock_index p ≡ n) ⊎ HasLock n ps

-- `t` waits for a lock that the first of `others` holds, which waits for one of the second's, and so
-- on to `u`.
abbrev pub WaitsFor : Acquiring → List Acquiring → Acquiring → Type 0
WaitsFor t [] u = HasLock (lock_index t.next) u.acquired
WaitsFor t (s ∷ others) u = HasLock (lock_index t.next) s.acquired × WaitsFor s others u

-- A lock that is held comes before the lock that is asked for.
held-lt-next :
    (n low : ℕ) (ps : List SectorPos) (p : SectorPos) (later : List SectorPos)
    → AscendingFrom low (ps ++ p ∷ later)
    → HasLock n ps
    → (low ≤ n) × (n < lock_index p)
held-lt-next n low [] p later a h = elim h [ ]
held-lt-next n low (q ∷ []) p later a (inl e) = (omega (arith, e, a.2), omega (arith, e, a.3.2))
held-lt-next n low (q ∷ r ∷ ps) p later a (inl e) =
    let next = held-lt-next (lock_index r) (suc (lock_index q)) (r ∷ ps) p later a.3 (inl refl) in
    (omega (arith, e, a.2), omega (arith, e, next))
held-lt-next n low (q ∷ ps) p later a (inr h) =
    let rest = held-lt-next n (suc (lock_index q)) ps p later a.3 h in
    (omega (arith, rest, a.2), rest.1)

waits-lt :
    (t u : Acquiring) (others : List Acquiring)
    → WaitsFor t others u
    → lock_index t.next < lock_index u.next
waits-lt t u [] w = (held-lt-next (lock_index t.next) 0 u.acquired u.next u.later u.ascending w).1
waits-lt t u (s ∷ others) w = omega (
  arith,
  held-lt-next (lock_index t.next) 0 s.acquired s.next s.later s.ascending w.0,
  waits-lt s u others w.1,
)

-- Threads that each acquire the locks of an ascending list of cells one after the other never wait
-- for each other in a cycle of any length.
pub no_deadlock : (t : Acquiring) (others : List Acquiring) → ¬ WaitsFor t others t
no_deadlock t others w = omega (arith, waits-lt t t others w)
