-- ===== src/Session/Run.antt =====
-- What each access does, and what the thread has to do then. `none` is CrashDump::Crash().
use chat_server_mt.Base.{
  ◌+◌, ◌-◌, true, false, ◌||◌, ◌&&◌, not, Option, none, some, [], ◌∷◌, ◌==◌, if◌then◌else◌, add32,
  sub32, is_negative,
}
use chat_server_mt.Session.{
  Session, CountPc, update_io_count, read_word, exchange_word, count_release, post_release,
  DisconnectPc, read_disconnect, exchange_disconnect, count_cancel, post_cancel, RecvPc, recv_post,
  count_recv, wsa_recv, SendPc, PendPc, send_pend, exchange_pend, count_pend, post_pend, try_send,
  try_size, send_post, read_post_flag, exchange_post_flag, post_size, clear_post_flag, fill_send,
  dequeue_send, count_send, wsa_send, ReleasePc, release, release_id, release_queue, release_push,
  AcceptPc, accept_count, accept_id, accept_post_flag, accept_disconnect, accept_release_flag,
  accept_join, send_packet, disconnect_session, timeout, CallPc, enter, check_send, check_send_id,
  enqueue_send, check_disconnect, check_disconnect_id, check_timeout, WorkerPc, recv_done,
  send_done, handling, Act, counting, cutting, receiving, sending, pending_send, releasing,
  accepting, calling, working, Thread, Choice,
}

abbrev pub After : Type 0
After = Option (Session × Thread)

-- InterlockedIncrement of `io_count`, and then `next`.
unfoldable pub count_up : Session → Act → After
count_up m next = some (record m { io_count = add32 m.io_count 1 }, next ∷ [])

unfoldable pub run_count : CountPc → Session → After
unfolding count_up
run_count update_io_count m =
    let temp = sub32 m.io_count 1 in
    let m' = record m { io_count = temp } in
    if temp == 0
    then some (m', counting read_word ∷ [])
    else if is_negative temp
    then none
    else some (m', [])
run_count read_word m =
    some (m, (if m.io_count == 0 && not m.release_flag then counting exchange_word ∷ [] else []))
run_count exchange_word m =
    if m.io_count == 0 && not m.release_flag
    then some (record m { release_flag = true }, counting count_release ∷ [])
    else some (m, [])
run_count count_release m = count_up m (counting post_release)
run_count post_release m = some (record m { release_pends = m.release_pends + 1 }, [])

unfoldable pub run_disconnect : DisconnectPc → Session → After
unfolding count_up
run_disconnect read_disconnect m =
    some (m, (if m.disconnect then [] else cutting exchange_disconnect ∷ []))
run_disconnect exchange_disconnect m =
    some (record m { disconnect = true }, (if m.disconnect then [] else cutting count_cancel ∷ []))
run_disconnect count_cancel m = count_up m (cutting post_cancel)
run_disconnect post_cancel m = some (record m { cancel_ios = m.cancel_ios + 1 }, [])

unfoldable pub run_recv : Choice → RecvPc → Session → After
unfolding count_up
run_recv c recv_post m = some (m, (if m.disconnect then [] else receiving count_recv ∷ []))
run_recv c count_recv m = count_up m (receiving wsa_recv)
run_recv c wsa_recv m =
    if c.good
    then some (record m { recv_io = m.recv_io + 1 }, [])
    else some (m, counting update_io_count ∷ cutting read_disconnect ∷ [])

unfoldable pub run_pend : PendPc → Session → After
unfolding count_up
run_pend send_pend m = some (m, (if m.disconnect then [] else pending_send exchange_pend ∷ []))
run_pend exchange_pend m = some (
  record m { send_post_flag = true },
  (if m.send_post_flag then [] else pending_send count_pend ∷ []),
)
run_pend count_pend m = count_up m (pending_send post_pend)
run_pend post_pend m = some (record m { send_pends = m.send_pends + 1 }, [])
run_pend try_send m = some (record m { send_post_flag = false }, pending_send try_size ∷ [])
run_pend try_size m = some (m, (if m.send_q_size == 0 then [] else sending send_post ∷ []))

unfoldable pub run_send : Choice → SendPc → Session → After
unfolding count_up
run_send c send_post m = some (m, (if m.disconnect then [] else sending read_post_flag ∷ []))
run_send c read_post_flag m =
    some (m, (if m.send_post_flag then [] else sending exchange_post_flag ∷ []))
run_send c exchange_post_flag m =
    some (
      record m { send_post_flag = true },
      (if m.send_post_flag then [] else sending post_size ∷ []),
    )
run_send c post_size m =
    some (m, (if m.send_q_size == 0 then sending clear_post_flag ∷ [] else sending fill_send ∷ []))
run_send c clear_post_flag m =
    some (record m { send_post_flag = false }, pending_send send_pend ∷ [])
-- Front finds a packet and Enqueue has room for it, or the loop ends.
run_send c fill_send m =
    some (m, (if c.good then sending dequeue_send ∷ [] else sending count_send ∷ []))
-- Dequeue is called again as long as it fails.
run_send c dequeue_send m =
    if c.good
    then some (record m { send_q_size = m.send_q_size - 1 }, sending fill_send ∷ [])
    else some (m, sending dequeue_send ∷ [])
run_send c count_send m = count_up m (sending wsa_send)
run_send c wsa_send m =
    if c.good
    then some (record m { send_io = m.send_io + 1 }, [])
    else some (m, counting update_io_count ∷ cutting read_disconnect ∷ [])

unfoldable pub run_release : ReleasePc → Session → After
run_release release m =
    if m.disconnect then some (record m { joined = false }, releasing release_id ∷ []) else none
run_release release_id m = some (record m { session_id = 0 }, releasing release_queue ∷ [])
run_release release_queue m = some (record m { send_q_size = 0 }, releasing release_push ∷ [])
run_release release_push m =
    some (record m { on_stack = m.on_stack + 1; session_cnt = sub32 m.session_cnt 1 }, [])

unfoldable pub run_accept : AcceptPc → Session → After
run_accept (accept_count id) m = some (
  record m { io_count = add32 m.io_count 1 },
  accepting (accept_id id) ∷ counting update_io_count ∷ [],
)
run_accept (accept_id id) m = some (record m { session_id = id }, accepting accept_post_flag ∷ [])
run_accept accept_post_flag m =
    some (record m { send_post_flag = false }, accepting accept_disconnect ∷ [])
run_accept accept_disconnect m =
    some (record m { disconnect = false }, accepting accept_release_flag ∷ [])
run_accept accept_release_flag m =
    some (record m { release_flag = false }, accepting accept_join ∷ [])
run_accept accept_join m =
    some (record m { session_cnt = add32 m.session_cnt 1; joined = true }, receiving recv_post ∷ [])

-- The timeout thread's look at a session.
abbrev timeout_round : Choice → Session → After
timeout_round c m = some (
  m,
  (if not m.release_flag && not m.disconnect && c.good
      then calling (enter (disconnect_session m.session_id)) ∷ []
      else []),
)

-- SendPacket and DisconnectSession.
unfoldable pub run_call : Choice → CallPc → Session → After
run_call c (enter r) m = some (
  record m { io_count = add32 m.io_count 1 },
  calling (elim r [
    | send_packet id ↦ check_send id
    | disconnect_session id ↦ check_disconnect id
    | timeout ↦ check_timeout
  ])
      ∷ counting update_io_count
      ∷ [],
)
run_call c (check_send id) m =
    some (m, (if m.release_flag || m.disconnect then [] else calling (check_send_id id) ∷ []))
run_call c (check_send_id id) m =
    some (m, (if m.session_id == id then calling enqueue_send ∷ [] else []))
run_call c enqueue_send m =
    if c.good
    then some (record m { send_q_size = m.send_q_size + 1 }, pending_send send_pend ∷ [])
    else some (m, cutting read_disconnect ∷ [])
run_call c (check_disconnect id) m =
    some (m, (if m.release_flag then [] else calling (check_disconnect_id id) ∷ []))
run_call c (check_disconnect_id id) m =
    some (m, (if m.session_id == id then cutting read_disconnect ∷ [] else []))
run_call c check_timeout m = timeout_round c m

unfoldable pub run_work : Choice → WorkerPc → Session → After
run_work c recv_done m =
    if not c.good || m.disconnect
    then some (m, cutting read_disconnect ∷ [])
    else some (m, working handling ∷ receiving recv_post ∷ [])
run_work c send_done m =
    if not c.good || m.disconnect
    then some (m, cutting read_disconnect ∷ [])
    else some (m, pending_send try_send ∷ [])
-- The loop ends, or disconnects for a bad packet, or a packet's handler calls the server.
run_work c handling m =
    if not c.good
    then some (m, [])
    else if c.n == 0
    then some (m, cutting read_disconnect ∷ working handling ∷ [])
    else some (m, calling (enter c.request) ∷ working handling ∷ [])

unfoldable pub run_act : Choice → Act → Session → After
unfolding run_count run_disconnect run_recv run_pend run_send run_release run_accept run_call
    run_work
run_act c (counting pc) m = run_count pc m
run_act c (cutting pc) m = run_disconnect pc m
run_act c (receiving pc) m = run_recv c pc m
run_act c (pending_send pc) m = run_pend pc m
run_act c (sending pc) m = run_send c pc m
run_act c (releasing pc) m = run_release pc m
run_act c (accepting pc) m = run_accept pc m
run_act c (calling pc) m = run_call c pc m
run_act c (working pc) m = run_work c pc m
