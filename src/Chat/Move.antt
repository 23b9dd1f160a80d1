-- ===== src/Chat/Move.antt =====
-- A move between sectors (ProcSectorMove), and the lists of the sectors under the packet handlers.
use chat_server_mt.Base.{
  ℕ, ◌<◌, ◌≡◌, ap, sym, refl, subst, Bool, true, false, not, ◌||◌, none, some, List, ◌==◌,
  if◌then◌else◌, arith, Option-cases, inl, inr,
}
use chat_server_mt.Packet.{Packet, get_value, short, int64}
use chat_server_mt.User
use chat_server_mt.User.{User}
use chat_server_mt.Sector.{sector_max}
use chat_server_mt.Chat.{
  Server, Outcome, crashed, returns, set_user, add_entry, sector_add_user, sector_remove_user, find,
}
use chat_server_mt.Chat.Proc.{
  Call, move_user, moved, proc_sector_move, proc_login, log_in, is_out_of_grid,
}
use chat_server_mt.Chat.Placed.{
  IsPlaced, sector_remove_user-IsPlaced, sector_remove_user-out, add_entry-IsPlaced,
  sector_remove_user-other, sector_remove_user-ssid,
}

-- The state between Sector_RemoveUser and Sector_AddUser.
abbrev lifted : ℕ → ℕ → ℕ → Server → Server
lifted p x y s =
    let s1 = sector_remove_user p s in set_user p (User.move_sector x y (s1.users p)) s1

lifted_out : (p x y : ℕ) (s : Server) → ((lifted p x y s).users p).in_sector ≡ false
unfolding set_user User.move_sector
lifted_out p x y s = ground (arith, sector_remove_user-out p s)

lifted-IsPlaced : (p x y : ℕ) (s : Server) → IsPlaced s → IsPlaced (lifted p x y s)
unfolding set_user User.move_sector
lifted-IsPlaced p x y s v =
    let w = sector_remove_user-IsPlaced p s v in
    let out = sector_remove_user-out p s in
    record {
      listed = λ q b a. ground (arith, w.listed q b a, w.listed p b a, out);
      in_grid = λ q h. ground (arith, w.in_grid q, out);
    }

-- When the lists of the sectors are right, a move to a cell of the grid does not crash; afterwards
-- the user is in the grid at that cell with the session it had, the lists are right again, and no
-- other user has changed.
pub move_user_lem :
    (p x y : ℕ) (s : Server)
    → IsPlaced s
    → x < sector_max
    → y < sector_max
    → (s' : Server) × (move_user p x y s ≡ some s')
      × IsPlaced s'
      × ((s'.users p).in_sector ≡ true)
      × ((s'.users p).sector_x ≡ x)
      × ((s'.users p).sector_y ≡ y)
      × ((s'.users p).ssid ≡ (s.users p).ssid)
      × ((q : ℕ) → (q == p) ≡ false → s'.users q ≡ s.users q)
move_user_lem p x y s v h k = (
  add_entry p (lifted p x y s),
  unfold move_user sector_add_user in
      ap (λ b. if b then none else some (add_entry p (lifted p x y s))) (lifted_out p x y s),
  add_entry-IsPlaced p (lifted p x y s) (lifted-IsPlaced p x y s v) (lifted_out p x y s)
      (unfold set_user User.move_sector in ground (arith, h))
      (unfold set_user User.move_sector in ground (arith, k)),
  unfold add_entry set_user in ground arith,
  unfold add_entry set_user User.move_sector in ground arith,
  unfold add_entry set_user User.move_sector in ground arith,
  unfold add_entry set_user User.move_sector in ground (arith, sector_remove_user-ssid p s),
  λ q e. unfold add_entry set_user in ground (arith, sector_remove_user-other p s q e),
)

-- The state that a handler leaves behind, if it does not crash.
abbrev pub LeavesPlaced : Outcome → Type 0
LeavesPlaced crashed = Unit {0}
LeavesPlaced (returns b s out) = IsPlaced s

pub in_grid_lem : (v : ℕ) → is_out_of_grid v ≡ false → v < sector_max
unfolding is_out_of_grid
in_grid_lem v h = ground arith

moved-LeavesPlaced :
    (c : Call) (p account_no x y : ℕ) (s : Server)
    → IsPlaced s
    → x < sector_max
    → y < sector_max
    → LeavesPlaced (moved c p account_no (move_user p x y s))
unfolding moved
moved-LeavesPlaced c p account_no x y s v h k =
    let done = move_user_lem p x y s v h k in
    subst (λ o. LeavesPlaced (moved c p account_no o)) (sym done.1) done.2

-- A handler behind a test.
pub if-LeavesPlaced :
    (b : Bool) (o o' : Outcome)
    → (b ≡ true → LeavesPlaced o)
    → (b ≡ false → LeavesPlaced o')
    → LeavesPlaced (if b then o else o')
if-LeavesPlaced true o o' h k = h refl
if-LeavesPlaced false o o' h k = k refl

or_false : (a b : Bool) → (a || b) ≡ false → (a ≡ false) × (b ≡ false)
or_false a b e = ground arith

pub proc_sector_move-LeavesPlaced :
    (c : Call) (p : ℕ) (packet : Packet) (s : Server)
    → IsPlaced s
    → LeavesPlaced (proc_sector_move c p packet s)
unfolding proc_sector_move
proc_sector_move-LeavesPlaced c p packet s v =
    let one = get_value int64 c.env.old_value packet in
    let two = get_value short c.env.old_value one.1 in
    let three = get_value short c.env.old_value two.1 in
    if-LeavesPlaced (not (one.0 == (s.users p).account_no)) _ _ (λ e. v)
      λ e.
        if-LeavesPlaced (is_out_of_grid two.0 || is_out_of_grid three.0) _ _ (λ f. v)
          λ f.
            let inside = or_false (is_out_of_grid two.0) (is_out_of_grid three.0) f in
            moved-LeavesPlaced c p one.0 two.0 three.0 s v (in_grid_lem two.0 inside.0)
              (in_grid_lem three.0 inside.1)

log_in-IsPlaced :
    (p account_no : ℕ) (id nick : List ℕ) (s : Server)
    → IsPlaced s
    → IsPlaced (log_in p account_no id nick s)
unfolding log_in set_user
log_in-IsPlaced p account_no id nick s v = record {
  listed = λ q y x. ground (arith, v.listed q y x, v.listed p y x);
  in_grid = λ q h. ground (arith, v.in_grid q, v.in_grid p);
}

pub proc_login-LeavesPlaced :
    (c : Call) (p : ℕ) (packet : Packet) (s : Server)
    → IsPlaced s
    → LeavesPlaced (proc_login c p packet s)
unfolding proc_login
proc_login-LeavesPlaced c p packet s v =
    if-LeavesPlaced (s.users p).login _ _ (λ e. v)
      λ e.
        let account_no = (get_value int64 c.env.old_value packet).0 in
        elim (Option-cases (find account_no s.account_map)) [
          | inl none_there ↦ rw none_there (log_in-IsPlaced p account_no _ _ s v)
          | inr (q, found) ↦ rw found tt
        ]
