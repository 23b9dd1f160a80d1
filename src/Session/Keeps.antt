-- ===== src/Session/Keeps.antt =====
-- The invariant of a session across each access to it.
use chat_server_mt.Base.{[], ◌∷◌, arith}
use chat_server_mt.Session.{
  Session, Act, Choice, counting, cutting, receiving, sending, pending_send, releasing, accepting,
  calling, working, update_io_count, read_word, exchange_word, count_release, post_release,
  DisconnectPc, read_disconnect, exchange_disconnect, count_cancel, post_cancel, RecvPc, recv_post,
  CountPc, count_recv, wsa_recv, SendPc, PendPc, ReleasePc, AcceptPc, CallPc, WorkerPc, send_pend,
  exchange_pend, count_pend, post_pend, try_send, try_size, send_post, read_post_flag,
  exchange_post_flag, post_size, clear_post_flag, fill_send, dequeue_send, count_send, wsa_send,
  release, release_id, release_queue, release_push, accept_count, accept_id, accept_post_flag,
  accept_disconnect, accept_release_flag, accept_join, send_packet, disconnect_session, timeout,
  enter, check_send, check_send_id, enqueue_send, check_disconnect, check_disconnect_id,
  check_timeout, recv_done, send_done, handling,
}
use chat_server_mt.Session.Run.{
  run_count, run_disconnect, run_recv, run_send, run_pend, run_release, run_accept, run_call,
  run_work, run_act,
}
use chat_server_mt.Session.Inv.{Held, add, Inv, IsSmall, Keeps, IsHeld}

module _ (c : Choice) (m : Session) (h : Held) where
  -- What an entry of a thread starts from.
  record Start (a : Act) : Type 0 where
    inv : Inv m (add (a ∷ []) h)
    held : IsHeld (add (a ∷ []) h)
    small : IsSmall m (add (a ∷ []) h)

  count-Keeps : (pc : CountPc) → Start (counting pc) → Keeps h (run_count pc m)
  unfolding run_count
  count-Keeps update_io_count s = ground (arith, s)
  count-Keeps read_word s = ground (arith, s)
  count-Keeps exchange_word s = ground (arith, s)
  count-Keeps count_release s = ground (arith, s)
  count-Keeps post_release s = ground (arith, s)

  disconnect-Keeps : (pc : DisconnectPc) → Start (cutting pc) → Keeps h (run_disconnect pc m)
  unfolding run_disconnect
  disconnect-Keeps read_disconnect s = ground (arith, s)
  disconnect-Keeps exchange_disconnect s = ground (arith, s)
  disconnect-Keeps count_cancel s = ground (arith, s)
  disconnect-Keeps post_cancel s = ground (arith, s)

  recv-Keeps : (pc : RecvPc) → Start (receiving pc) → Keeps h (run_recv c pc m)
  unfolding run_recv
  recv-Keeps recv_post s = ground (arith, s)
  recv-Keeps count_recv s = ground (arith, s)
  recv-Keeps wsa_recv s = ground (arith, s)

  pend-Keeps : (pc : PendPc) → Start (pending_send pc) → Keeps h (run_pend pc m)
  unfolding run_pend
  pend-Keeps send_pend s = ground (arith, s)
  pend-Keeps exchange_pend s = ground (arith, s)
  pend-Keeps count_pend s = ground (arith, s)
  pend-Keeps post_pend s = ground (arith, s)
  pend-Keeps try_send s = ground (arith, s)
  pend-Keeps try_size s = ground (arith, s)

  send-Keeps : (pc : SendPc) → Start (sending pc) → Keeps h (run_send c pc m)
  unfolding run_send
  send-Keeps send_post s = ground (arith, s)
  send-Keeps read_post_flag s = ground (arith, s)
  send-Keeps exchange_post_flag s = ground (arith, s)
  send-Keeps post_size s = ground (arith, s)
  send-Keeps clear_post_flag s = ground (arith, s)
  send-Keeps fill_send s = ground (arith, s)
  send-Keeps dequeue_send s = ground (arith, s)
  send-Keeps count_send s = ground (arith, s)
  send-Keeps wsa_send s = ground (arith, s)

  release-Keeps : (pc : ReleasePc) → Start (releasing pc) → Keeps h (run_release pc m)
  unfolding run_release
  release-Keeps release s = ground (arith, s)
  release-Keeps release_id s = ground (arith, s)
  release-Keeps release_queue s = ground (arith, s)
  release-Keeps release_push s = ground (arith, s)

  accept-Keeps : (pc : AcceptPc) → Start (accepting pc) → Keeps h (run_accept pc m)
  unfolding run_accept
  accept-Keeps (accept_count id) s = ground (arith, s)
  accept-Keeps (accept_id id) s = ground (arith, s)
  accept-Keeps accept_post_flag s = ground (arith, s)
  accept-Keeps accept_disconnect s = ground (arith, s)
  accept-Keeps accept_release_flag s = ground (arith, s)
  accept-Keeps accept_join s = ground (arith, s)

  call-Keeps : (pc : CallPc) → Start (calling pc) → Keeps h (run_call c pc m)
  unfolding run_call
  call-Keeps (enter (send_packet id)) s = ground (arith, s)
  call-Keeps (enter (disconnect_session id)) s = ground (arith, s)
  call-Keeps (enter timeout) s = ground (arith, s)
  call-Keeps (check_send id) s = ground (arith, s)
  call-Keeps (check_send_id id) s = ground (arith, s)
  call-Keeps enqueue_send s = ground (arith, s)
  call-Keeps (check_disconnect id) s = ground (arith, s)
  call-Keeps (check_disconnect_id id) s = ground (arith, s)
  call-Keeps check_timeout s = ground (arith, s)

  work-Keeps : (pc : WorkerPc) → Start (working pc) → Keeps h (run_work c pc m)
  unfolding run_work
  work-Keeps recv_done s = ground (arith, s)
  work-Keeps send_done s = ground (arith, s)
  work-Keeps handling s = ground (arith, s)

  pub act-Keeps :
      (a : Act)
      → Inv m (add (a ∷ []) h)
      → IsHeld (add (a ∷ []) h)
      → IsSmall m (add (a ∷ []) h)
      → Keeps h (run_act c a m)
  unfolding run_act
  act-Keeps (counting pc) v held small =
      count-Keeps pc (record { inv = v; held = held; small = small })
  act-Keeps (cutting pc) v held small =
      disconnect-Keeps pc (record { inv = v; held = held; small = small })
  act-Keeps (receiving pc) v held small =
      recv-Keeps pc (record { inv = v; held = held; small = small })
  act-Keeps (pending_send pc) v held small =
      pend-Keeps pc (record { inv = v; held = held; small = small })
  act-Keeps (sending pc) v held small =
      send-Keeps pc (record { inv = v; held = held; small = small })
  act-Keeps (releasing pc) v held small =
      release-Keeps pc (record { inv = v; held = held; small = small })
  act-Keeps (accepting pc) v held small =
      accept-Keeps pc (record { inv = v; held = held; small = small })
  act-Keeps (calling pc) v held small =
      call-Keeps pc (record { inv = v; held = held; small = small })
  act-Keeps (working pc) v held small =
      work-Keeps pc (record { inv = v; held = held; small = small })
