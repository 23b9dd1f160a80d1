-- ===== src/Session/Covered.antt =====
-- What a thread holds across each access to a session: references, for what is done under one.
use chat_server_mt.Base.{◌++◌, ◌≤◌, none, some, arith}
use chat_server_mt.Session.{
  Session, Act, Thread, Choice, counting, cutting, receiving, sending, pending_send, releasing,
  accepting, calling, working, update_io_count, read_word, exchange_word, count_release,
  post_release, DisconnectPc, read_disconnect, exchange_disconnect, count_cancel, post_cancel,
  RecvPc, recv_post, CountPc, count_recv, wsa_recv, SendPc, PendPc, ReleasePc, AcceptPc, CallPc,
  WorkerPc, send_pend, exchange_pend, count_pend, post_pend, try_send, try_size, send_post,
  read_post_flag, exchange_post_flag, post_size, clear_post_flag, fill_send, dequeue_send,
  count_send, wsa_send, release, release_id, release_queue, release_push, accept_count, accept_id,
  accept_post_flag, accept_disconnect, accept_release_flag, accept_join, send_packet,
  disconnect_session, timeout, enter, check_send, check_send_id, enqueue_send, check_disconnect,
  check_disconnect_id, check_timeout, recv_done, send_done, handling,
}
use chat_server_mt.Session.Run.{
  After, run_count, run_disconnect, run_recv, run_send, run_pend, run_release, run_accept, run_call,
  run_work, run_act,
}
use chat_server_mt.Session.Weights.{total, refs}
use chat_server_mt.Session.Weights.{IsCovered, refs, needs, total}

-- The thread that goes on after an access.
abbrev pub CoversAfter : Thread → After → Type 0
CoversAfter rest none = Unit {0}
CoversAfter rest (some (m, more)) = IsCovered (more ++ rest)

module _ (c : Choice) (m : Session) (rest : Thread) (covered : IsCovered rest) where
  count-CoversAfter :
      (pc : CountPc) → needs (counting pc) ≤ total refs rest → CoversAfter rest (run_count pc m)
  unfolding run_count
  count-CoversAfter update_io_count h = ground (arith, covered)
  count-CoversAfter read_word h = ground (arith, covered)
  count-CoversAfter exchange_word h = ground (arith, covered)
  count-CoversAfter count_release h = ground (arith, covered)
  count-CoversAfter post_release h = ground (arith, covered)

  disconnect-CoversAfter :
      (pc : DisconnectPc)
      → needs (cutting pc) ≤ total refs rest
      → CoversAfter rest (run_disconnect pc m)
  unfolding run_disconnect
  disconnect-CoversAfter read_disconnect h = ground (arith, covered)
  disconnect-CoversAfter exchange_disconnect h = ground (arith, covered)
  disconnect-CoversAfter count_cancel h = ground (arith, covered)
  disconnect-CoversAfter post_cancel h = ground (arith, covered)

  recv-CoversAfter :
      (pc : RecvPc) → needs (receiving pc) ≤ total refs rest → CoversAfter rest (run_recv c pc m)
  unfolding run_recv
  recv-CoversAfter recv_post h = ground (arith, covered)
  recv-CoversAfter count_recv h = ground (arith, covered)
  recv-CoversAfter wsa_recv h = ground (arith, covered)

  pend-CoversAfter :
      (pc : PendPc) → needs (pending_send pc) ≤ total refs rest → CoversAfter rest (run_pend pc m)
  unfolding run_pend
  pend-CoversAfter send_pend h = ground (arith, covered)
  pend-CoversAfter exchange_pend h = ground (arith, covered)
  pend-CoversAfter count_pend h = ground (arith, covered)
  pend-CoversAfter post_pend h = ground (arith, covered)
  pend-CoversAfter try_send h = ground (arith, covered)
  pend-CoversAfter try_size h = ground (arith, covered)

  send-CoversAfter :
      (pc : SendPc) → needs (sending pc) ≤ total refs rest → CoversAfter rest (run_send c pc m)
  unfolding run_send
  send-CoversAfter send_post h = ground (arith, covered)
  send-CoversAfter read_post_flag h = ground (arith, covered)
  send-CoversAfter exchange_post_flag h = ground (arith, covered)
  send-CoversAfter post_size h = ground (arith, covered)
  send-CoversAfter clear_post_flag h = ground (arith, covered)
  send-CoversAfter fill_send h = ground (arith, covered)
  send-CoversAfter dequeue_send h = ground (arith, covered)
  send-CoversAfter count_send h = ground (arith, covered)
  send-CoversAfter wsa_send h = ground (arith, covered)

  release-CoversAfter :
      (pc : ReleasePc)
      → needs (releasing pc) ≤ total refs rest
      → CoversAfter rest (run_release pc m)
  unfolding run_release
  release-CoversAfter release h = ground (arith, covered)
  release-CoversAfter release_id h = ground (arith, covered)
  release-CoversAfter release_queue h = ground (arith, covered)
  release-CoversAfter release_push h = ground (arith, covered)

  accept-CoversAfter :
      (pc : AcceptPc) → needs (accepting pc) ≤ total refs rest → CoversAfter rest (run_accept pc m)
  unfolding run_accept
  accept-CoversAfter (accept_count id) h = ground (arith, covered)
  accept-CoversAfter (accept_id id) h = ground (arith, covered)
  accept-CoversAfter accept_post_flag h = ground (arith, covered)
  accept-CoversAfter accept_disconnect h = ground (arith, covered)
  accept-CoversAfter accept_release_flag h = ground (arith, covered)
  accept-CoversAfter accept_join h = ground (arith, covered)

  call-CoversAfter :
      (pc : CallPc) → needs (calling pc) ≤ total refs rest → CoversAfter rest (run_call c pc m)
  unfolding run_call
  call-CoversAfter (enter (send_packet id)) h = ground (arith, covered)
  call-CoversAfter (enter (disconnect_session id)) h = ground (arith, covered)
  call-CoversAfter (enter timeout) h = ground (arith, covered)
  call-CoversAfter (check_send id) h = ground (arith, covered)
  call-CoversAfter (check_send_id id) h = ground (arith, covered)
  call-CoversAfter enqueue_send h = ground (arith, covered)
  call-CoversAfter (check_disconnect id) h = ground (arith, covered)
  call-CoversAfter (check_disconnect_id id) h = ground (arith, covered)
  call-CoversAfter check_timeout h = ground (arith, covered)

  work-CoversAfter :
      (pc : WorkerPc) → needs (working pc) ≤ total refs rest → CoversAfter rest (run_work c pc m)
  unfolding run_work
  work-CoversAfter recv_done h = ground (arith, covered)
  work-CoversAfter send_done h = ground (arith, covered)
  work-CoversAfter handling h = ground (arith, covered)

  pub act-CoversAfter : (a : Act) → needs a ≤ total refs rest → CoversAfter rest (run_act c a m)
  unfolding run_act
  act-CoversAfter (counting pc) h = count-CoversAfter pc h
  act-CoversAfter (cutting pc) h = disconnect-CoversAfter pc h
  act-CoversAfter (receiving pc) h = recv-CoversAfter pc h
  act-CoversAfter (pending_send pc) h = pend-CoversAfter pc h
  act-CoversAfter (sending pc) h = send-CoversAfter pc h
  act-CoversAfter (releasing pc) h = release-CoversAfter pc h
  act-CoversAfter (accepting pc) h = accept-CoversAfter pc h
  act-CoversAfter (calling pc) h = call-CoversAfter pc h
  act-CoversAfter (working pc) h = work-CoversAfter pc h
