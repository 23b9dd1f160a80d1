-- ===== src/Chat/Handlers.antt =====
-- The handlers of ChatServer.cpp and the lists of the sectors.
use chat_server_mt.Base.{
  ℕ, ◌≡◌, refl, false, not, ◌||◌, Option, none, some, ◌==◌, arith, Option-cases, inl, inr, ltb,
}
use chat_server_mt.Packet
use chat_server_mt.Packet.{Packet, get_value, ushort, int64}
use chat_server_mt.User
use chat_server_mt.User.{User}
use chat_server_mt.Maker.{
  req_login, req_sector_move, req_message, req_heartbeat, max_message, make_message,
}
use chat_server_mt.Chat.{
  Server, Outcome, crashed, returns, set_user, sector_remove_user, create_user, delete_user,
  log_out, erase_key, find, counted, on_client_join, on_client_leave,
}
use chat_server_mt.Chat.Proc.{
  Call, proc_message, proc_packet, disconnect_refused, on_recv, message_string,
}
use chat_server_mt.Chat.Placed.{IsPlaced, set_user-IsPlaced, sector_remove_user-IsPlaced}
use chat_server_mt.Chat.Move.{
  LeavesPlaced, if-LeavesPlaced, proc_sector_move-LeavesPlaced, proc_login-LeavesPlaced,
}

proc_message-LeavesPlaced :
    (c : Call) (p : ℕ) (packet : Packet) (s : Server)
    → IsPlaced s
    → LeavesPlaced (proc_message c p packet s)
unfolding proc_message
proc_message-LeavesPlaced c p packet s v =
    let u = s.users p in
    let one = get_value int64 c.env.old_value packet in
    let two = get_value ushort c.env.old_value one.1 in
    if-LeavesPlaced (not (u.account_no == one.0)) _ _ (λ e. v)
      λ e.
        if-LeavesPlaced (not (two.1.data_size == two.0) || two.0 == 0 || ltb max_message two.0) _ _
          (λ f. v)
          λ f.
            let text = message_string c.message two.0 (Packet.get_data two.1 two.0).1 in
            elim (Option-cases (make_message c.env one.0 u.id u.nickname two.0 text)) [
              | inl e ↦ rw e tt
              | inr (q, e) ↦ rw e v
            ]

proc_packet-LeavesPlaced :
    (c : Call) (packet_type p : ℕ) (packet : Packet) (s : Server)
    → IsPlaced s
    → LeavesPlaced (proc_packet c packet_type p packet s)
unfolding proc_packet
proc_packet-LeavesPlaced c packet_type p packet s v =
    if-LeavesPlaced (packet_type == req_login) _ _ (λ e. proc_login-LeavesPlaced c p packet s v)
      λ e.
        if-LeavesPlaced (packet_type == req_sector_move) _ _
          (λ f. proc_sector_move-LeavesPlaced c p packet s v)
          λ f.
            if-LeavesPlaced (packet_type == req_message) _ _
              (λ g. proc_message-LeavesPlaced c p packet s v)
              λ g. if-LeavesPlaced (packet_type == req_heartbeat) _ _ (λ h. v) λ h. v

counted-LeavesPlaced : (o : Outcome) → LeavesPlaced o → LeavesPlaced (counted o)
unfolding counted
counted-LeavesPlaced crashed h = tt
counted-LeavesPlaced (returns b s out) h = record { listed = h.listed; in_grid = h.in_grid }

disconnect_refused-LeavesPlaced :
    (s_id : ℕ) (o : Outcome) → LeavesPlaced o → LeavesPlaced (disconnect_refused s_id o)
unfolding disconnect_refused
disconnect_refused-LeavesPlaced s_id crashed h = tt
disconnect_refused-LeavesPlaced s_id (returns b s out) h = h

-- A handler that crashes when a key is not found.
found-LeavesPlaced :
    (o : Option ℕ) (handler : ℕ → Outcome)
    → ((p : ℕ) → LeavesPlaced (handler p))
    → LeavesPlaced (elim o [ none ↦ crashed | some p ↦ handler p ])
found-LeavesPlaced none handler h = tt
found-LeavesPlaced (some p) handler h = h p

-- If every user in the grid stands exactly once in the list of its own sector and in no other list,
-- and nobody else stands in any list, then this holds again after OnRecv of any packet that does
-- not crash.
pub on_recv-LeavesPlaced :
    (c : Call) (s_id : ℕ) (packet : Packet) (s : Server)
    → IsPlaced s
    → LeavesPlaced (on_recv c s_id packet s)
unfolding on_recv User.update_recv_time
on_recv-LeavesPlaced c s_id packet s v =
    let one = get_value ushort c.env.old_value packet in
    found-LeavesPlaced (find s_id s.user_map) _ λ p. counted-LeavesPlaced _ (
      disconnect_refused-LeavesPlaced s_id _ (
        proc_packet-LeavesPlaced c one.0 p one.1
          (set_user p (User.update_recv_time c.now (s.users p)) s)
          (set_user-IsPlaced p _ s v refl refl refl)))

-- If the lists of the sectors are right and the pool gives a user that is not in the grid, they are
-- right again after OnClientJoin of any session that does not crash.
pub on_client_join-LeavesPlaced :
    (s_id p now : ℕ) (s : Server)
    → IsPlaced s
    → (s.users p).in_sector ≡ false
    → LeavesPlaced (on_client_join s_id p now s)
unfolding on_client_join create_user set_user User.init_user User.update_recv_time
on_client_join-LeavesPlaced s_id p now s v out = counted-LeavesPlaced _ (
    if-LeavesPlaced (p == 0) _ _ (λ e. tt)
      λ e. elim (Option-cases (find s_id s.user_map)) [
        | inl e ↦ rw e (record {
          listed = λ q y x. ground (arith, v.listed q y x, v.listed p y x, out);
          in_grid = λ q h. ground (arith, v.in_grid q);
        })
        | inr (q, e) ↦ rw e tt
      ])

log_out-IsPlaced : (p : ℕ) (s : Server) → IsPlaced s → IsPlaced (log_out p s)
unfolding log_out set_user
log_out-IsPlaced p s v = record {
  listed = λ q y x. ground (arith, v.listed q y x, v.listed p y x);
  in_grid = λ q h. ground (arith, v.in_grid q, v.in_grid p);
}

-- If the lists of the sectors are right, they are right again after OnClientLeave of any session
-- that does not crash.
pub on_client_leave-LeavesPlaced :
    (s_id : ℕ) (s : Server) → IsPlaced s → LeavesPlaced (on_client_leave s_id s)
unfolding on_client_leave delete_user
on_client_leave-LeavesPlaced s_id s v = counted-LeavesPlaced _ (
    found-LeavesPlaced (find s_id s.user_map) _ λ p.
      let s' = record s { user_map = erase_key s_id s.user_map } in
      log_out-IsPlaced p (sector_remove_user p s')
        (sector_remove_user-IsPlaced p s' (record { listed = v.listed; in_grid = v.in_grid })))
