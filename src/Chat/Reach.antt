-- ===== src/Chat/Reach.antt =====
-- The states that the handlers of ChatServer.cpp lead to, one call behind the other.
use chat_server_mt.Base.{ℕ, ◌≡◌, sym, subst, Bool, false, List, [], arith}
use chat_server_mt.Packet.{Packet}
use chat_server_mt.User.{User}
use chat_server_mt.Chat.{Server, Output, returns, on_client_join, on_client_leave, collect}
use chat_server_mt.Chat.Proc.{Call, on_recv}
use chat_server_mt.Chat.Placed.{IsPlaced, count}
use chat_server_mt.Chat.Move.{LeavesPlaced}
use chat_server_mt.Chat.Handlers.{
  on_recv-LeavesPlaced, on_client_join-LeavesPlaced, on_client_leave-LeavesPlaced,
}

-- A server whose maps and sectors are empty.
abbrev pub new_server : (ℕ → User) → Server
new_server users = record {
  users = users;
  user_map = [];
  account_map = [];
  sectors = λ y x. [];
  connect_cnt = 0;
  login_cnt = 0;
  duplicate_login = 0;
  message_tps = 0;
  collect_msg_tps = 0;
  max_user = 15000;
}

pub data Serves : Server → Type 0 where
  opens :
      {s : Server} (users : ℕ → User)
      → ((p : ℕ) → (users p).in_sector ≡ false)
      → s ≡ new_server users
      → Serves s
  -- The pool gives a user that is not in the grid.
  joins :
      {s : Server} (s_id p now : ℕ) (b : Bool) (s' : Server) (out : List Output)
      → Serves s
      → (s.users p).in_sector ≡ false
      → on_client_join s_id p now s ≡ returns b s' out
      → Serves s'
  leaves :
      {s : Server} (s_id : ℕ) (b : Bool) (s' : Server) (out : List Output)
      → Serves s
      → on_client_leave s_id s ≡ returns b s' out
      → Serves s'
  receives :
      {s : Server} (c : Call) (s_id : ℕ) (packet : Packet) (b : Bool) (s' : Server)
      (out : List Output)
      → Serves s
      → on_recv c s_id packet s ≡ returns b s' out
      → Serves s'
  collects : {s s' : Server} → Serves s → s' ≡ collect s → Serves s'

collect-IsPlaced : (s : Server) → IsPlaced s → IsPlaced (collect s)
unfolding collect
collect-IsPlaced s v = record { listed = v.listed; in_grid = v.in_grid }

new_server-IsPlaced :
    (users : ℕ → User) → ((p : ℕ) → (users p).in_sector ≡ false) → IsPlaced (new_server users)
unfolding count
new_server-IsPlaced users out = record {
  listed = λ p y x. ground (arith, out p);
  in_grid = λ p h. ground (arith, out p, h);
}

-- In every state that calls of OnClientJoin, OnClientLeave, OnRecv with any packets and Collect
-- lead to, one behind the other and none of them crashing, from a server with empty maps and
-- sectors and users that are not in the grid, every user in the grid stands exactly once in the
-- list of its own sector and in no other list, nobody else stands in any list, and the coordinates
-- of a user in the grid are inside it; the pool gives OnClientJoin a user that is not in the grid.
pub serves-IsPlaced : (s : Server) → Serves s → IsPlaced s
serves-IsPlaced s (opens users out e) = subst IsPlaced (sym e) (new_server-IsPlaced users out)
serves-IsPlaced s' (joins {s = s} s_id p now b s1 outs h out e) =
    subst LeavesPlaced e (on_client_join-LeavesPlaced s_id p now s (serves-IsPlaced s h) out)
serves-IsPlaced s' (leaves {s = s} s_id b s1 outs h e) =
    subst LeavesPlaced e (on_client_leave-LeavesPlaced s_id s (serves-IsPlaced s h))
serves-IsPlaced s' (receives {s = s} c s_id packet b s1 outs h e) =
    subst LeavesPlaced e (on_recv-LeavesPlaced c s_id packet s (serves-IsPlaced s h))
serves-IsPlaced s' (collects {s = s} h e) =
    subst IsPlaced (sym e) (collect-IsPlaced s (serves-IsPlaced s h))
