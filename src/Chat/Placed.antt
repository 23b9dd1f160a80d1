-- ===== src/Chat/Placed.antt =====
-- Users and the lists of the sectors (Sector_AddUser and Sector_RemoveUser in Sector.cpp).
use chat_server_mt.Base.{
  ℕ, ◌+◌, ◌<◌, ◌≡◌, ◌-◌, Bool, true, false, List, [], ◌∷◌, ◌++◌, ◌==◌, ◌&&◌, if◌then◌else◌, arith,
}
use chat_server_mt.User.{User}
use chat_server_mt.Sector.{sector_max}
use chat_server_mt.Chat.{Server, set_user, set_sector, erase_entry, add_entry, sector_remove_user}

-- How often a user is in a list.
unfoldable pub count : ℕ → List ℕ → ℕ
count p [] = 0
count p (q ∷ qs) = let rest = count p qs in if q == p then 1 + rest else rest

pub count-append : (p : ℕ) (qs rs : List ℕ) → count p (qs ++ rs) ≡ count p qs + count p rs
unfolding count
count-append p [] rs = omega arith
count-append p (q ∷ qs) rs = ground (arith, count-append p qs rs)

count-erase :
    (p q : ℕ) (qs : List ℕ)
    → count q (erase_entry p qs) ≡ (if q == p then count q qs - 1 else count q qs)
unfolding count erase_entry
count-erase p q [] = ground arith
count-erase p q (r ∷ qs) = ground (arith, count-erase p q qs)

-- Where a user should stand.
abbrev pub is_at : User → ℕ → ℕ → Bool
is_at u y x = u.in_sector && u.sector_y == y && u.sector_x == x

pub record IsPlaced (s : Server) : Type 0 where
  pub listed : (p y x : ℕ) → count p (s.sectors y x) ≡ (if is_at (s.users p) y x then 1 else 0)
  pub in_grid :
      (p : ℕ)
      → (s.users p).in_sector ≡ true
      → ((s.users p).sector_x < sector_max) × ((s.users p).sector_y < sector_max)

-- A change of a user that leaves its place alone.
pub set_user-IsPlaced :
    (p : ℕ) (u : User) (s : Server)
    → IsPlaced s
    → u.in_sector ≡ (s.users p).in_sector
    → u.sector_x ≡ (s.users p).sector_x
    → u.sector_y ≡ (s.users p).sector_y
    → IsPlaced (set_user p u s)
unfolding set_user
set_user-IsPlaced p u s v e f g = record {
  listed = λ q y x. ground (arith, v.listed q y x, v.listed p y x);
  in_grid = λ q h. ground (arith, v.in_grid q, v.in_grid p);
}

pub sector_remove_user-IsPlaced :
    (p : ℕ) (s : Server) → IsPlaced s → IsPlaced (sector_remove_user p s)
unfolding sector_remove_user set_user set_sector
sector_remove_user-IsPlaced p s v = record {
  listed = λ q y x.
      let at : List ℕ = s.sectors (s.users p).sector_y (s.users p).sector_x in
      ground (
        arith,
        v.listed q y x,
        v.listed p y x,
        count-erase p q at,
        v.listed q (s.users p).sector_y (s.users p).sector_x,
      );
  in_grid = λ q h. ground (arith, v.in_grid q);
}

pub sector_remove_user-out :
    (p : ℕ) (s : Server) → ((sector_remove_user p s).users p).in_sector ≡ false
unfolding sector_remove_user set_user set_sector
sector_remove_user-out p s = ground arith

pub add_entry-IsPlaced :
    (p : ℕ) (s : Server)
    → IsPlaced s
    → (s.users p).in_sector ≡ false
    → (s.users p).sector_x < sector_max
    → (s.users p).sector_y < sector_max
    → IsPlaced (add_entry p s)
unfolding add_entry set_user set_sector count
add_entry-IsPlaced p s v out h k = record {
  listed = λ q y x.
      let at : List ℕ = s.sectors (s.users p).sector_y (s.users p).sector_x in
      ground (
        arith,
        v.listed q y x,
        v.listed p y x,
        count-append q at (p ∷ []),
        v.listed q (s.users p).sector_y (s.users p).sector_x,
      );
  in_grid = λ q g. ground (arith, v.in_grid q);
}

-- Only the user itself changes.
pub sector_remove_user-other :
    (p : ℕ) (s : Server) (q : ℕ) → (q == p) ≡ false → (sector_remove_user p s).users q ≡ s.users q
unfolding sector_remove_user set_user set_sector
sector_remove_user-other p s q e = ground arith

pub sector_remove_user-ssid :
    (p : ℕ) (s : Server) → ((sector_remove_user p s).users p).ssid ≡ (s.users p).ssid
unfolding sector_remove_user set_user set_sector
sector_remove_user-ssid p s = ground arith
