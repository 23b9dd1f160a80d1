-- ===== src/Lan/Life.antt =====
-- CLanClient.cpp: what its threads do to one connection, one access to the shared fields at a
-- time: updateIOCount, releasePend, disconnectSession, recvPost, sendPost, sendPend, trySend,
-- release, SendPacket and the branches of runIoThread. The bytes and packets are left out.
pub mod System
pub mod Refs
pub mod Stuck
pub mod Livelock
mod Examples
use chat_server_mt.Base.{
  ℕ, zero, suc, ◌+◌, ◌-◌, Bool, true, false, ◌&&◌, ◌||◌, not, Option, none, some, List, [], ◌∷◌,
  ltb, ◌==◌, if◌then◌else◌, add32, sub32, is_negative,
}
use chat_server_mt.Lan.Send.{max_wsabuf}

-- `queued` is the number of packets in m_sendQ. The last five are the requests under way and the
-- posts that wait in the completion port.
pub record Connection : Type 0 where
  pub io_count : ℕ
  pub release_flag : Bool
  pub disconnect : Bool
  pub send_flag : Bool
  pub queued : ℕ
  pub sent_packet_cnt : ℕ
  pub recv_io : ℕ
  pub send_io : ℕ
  pub send_pends : ℕ
  pub release_pends : ℕ
  pub cancel_ios : ℕ

pub data Counting : Type 0 where
  update_io_count read_word exchange_word count_release post_release : Counting

pub data Cutting : Type 0 where
  read_disconnect exchange_disconnect count_cancel post_cancel : Cutting

pub data Receiving : Type 0 where
  recv_post count_recv wsa_recv : Receiving

-- sendPost: `take k n` has taken `k` packets of the queue and takes `n` more.
pub data Sending : Type 0 where
  send_post exchange_flag read_size clear_flag : Sending
  count_send : ℕ → Sending
  dequeue : ℕ → ℕ → Sending
  wsa_send : Sending

pub data Pending : Type 0 where
  try_send try_size send_pend count_pend post_pend : Pending

pub data Leaving : Type 0 where
  release drain : Leaving

pub data Calling : Type 0 where
  enter check_flags enqueue : Calling

-- The branches of runIoThread for a completed receive and a completed send, with `cbTransferred`.
pub data Completing : Type 0 where
  recv_done send_done : ℕ → Completing
  receive_loop : Completing

pub data Access : Type 0 where
  counting : Counting → Access
  cutting : Cutting → Access
  receiving : Receiving → Access
  sending : Sending → Access
  pending : Pending → Access
  leaving : Leaving → Access
  calling : Calling → Access
  completing : Completing → Access

-- What is not up to these threads: whether a call of the socket is accepted or the queue has
-- room, and how the loop over the frames goes on.
pub record Chance : Type 0 where
  pub good : Bool
  pub more : Bool

abbrev pub Then : Type 0
Then = Option (Connection × List Access)

unfoldable pub increment : Connection → List Access → Then
increment m next = some (record m { io_count = add32 m.io_count 1 }, next)

unfoldable pub lan_count : Counting → Connection → Then
unfolding increment
lan_count update_io_count m =
    let temp = sub32 m.io_count 1 in
    let m' = record m { io_count = temp } in
    if temp == 0
    then some (m', counting read_word ∷ [])
    else if is_negative temp
    then none
    else some (m', [])
lan_count read_word m =
    some (m, (if m.io_count == 0 && not m.release_flag then counting exchange_word ∷ [] else []))
lan_count exchange_word m =
    if m.io_count == 0 && not m.release_flag
    then some (record m { release_flag = true }, counting count_release ∷ [])
    else some (m, [])
lan_count count_release m = increment m (counting post_release ∷ [])
lan_count post_release m = some (record m { release_pends = m.release_pends + 1 }, [])

unfoldable pub lan_disconnect : Cutting → Connection → Then
unfolding increment
lan_disconnect read_disconnect m =
    some (m, (if m.disconnect then [] else cutting exchange_disconnect ∷ []))
lan_disconnect exchange_disconnect m =
    some (record m { disconnect = true }, (if m.disconnect then [] else cutting count_cancel ∷ []))
lan_disconnect count_cancel m = increment m (cutting post_cancel ∷ [])
lan_disconnect post_cancel m = some (record m { cancel_ios = m.cancel_ios + 1 }, [])

unfoldable pub lan_recv_post : Chance → Receiving → Connection → Then
unfolding increment
lan_recv_post c recv_post m = some (m, (if m.disconnect then [] else receiving count_recv ∷ []))
lan_recv_post c count_recv m = increment m (receiving wsa_recv ∷ [])
lan_recv_post c wsa_recv m =
    if c.good
    then some (record m { recv_io = m.recv_io + 1 }, [])
    else some (m, cutting read_disconnect ∷ counting update_io_count ∷ [])

unfoldable pub lan_post : Chance → Sending → Connection → Then
unfolding increment
lan_post c send_post m = some (m, (if m.disconnect then [] else sending exchange_flag ∷ []))
lan_post c exchange_flag m =
    some (record m { send_flag = true }, (if m.send_flag then [] else sending read_size ∷ []))
lan_post c read_size m =
    some
      (m, (if m.queued == 0 then sending clear_flag ∷ [] else sending (count_send m.queued) ∷ []))
lan_post c clear_flag m = some (record m { send_flag = false }, [])
lan_post c (count_send n) m =
    increment m (sending (dequeue 0 (if ltb max_wsabuf n then max_wsabuf else n)) ∷ [])
lan_post c (dequeue k zero) m = some (record m { sent_packet_cnt = k }, sending wsa_send ∷ [])
lan_post c (dequeue k (suc n)) m =
    if m.queued == 0
    then some (m, sending (dequeue k (suc n)) ∷ [])
    else some (record m { queued = m.queued - 1 }, sending (dequeue (k + 1) n) ∷ [])
lan_post c wsa_send m =
    if c.good
    then some (record m { send_io = m.send_io + 1 }, [])
    else some (m, cutting read_disconnect ∷ counting update_io_count ∷ [])

unfoldable pub lan_pend : Pending → Connection → Then
unfolding increment
lan_pend try_send m = some (record m { send_flag = false }, pending try_size ∷ [])
lan_pend try_size m =
    some (m, (if m.queued == 0 then [] else sending send_post ∷ pending send_pend ∷ []))
lan_pend send_pend m =
    some (record m { send_flag = true }, (if m.send_flag then [] else pending count_pend ∷ []))
lan_pend count_pend m = increment m (pending post_pend ∷ [])
lan_pend post_pend m = some (record m { send_pends = m.send_pends + 1 }, [])

-- OnLeaveServer, and the packets that were not sent.
unfoldable pub lan_leave : Leaving → Connection → Then
lan_leave release m = if m.disconnect then some (m, leaving drain ∷ []) else none
lan_leave drain m =
    if m.queued == 0
    then some (m, [])
    else some (record m { queued = m.queued - 1 }, leaving drain ∷ [])

-- `good` is that the session is still the one whose id was read, and the queue has room.
unfoldable pub lan_call : Chance → Calling → Connection → Then
unfolding increment
lan_call c enter m = increment m (calling check_flags ∷ counting update_io_count ∷ [])
lan_call c check_flags m =
    some (m, (if not m.release_flag && not m.disconnect then calling enqueue ∷ [] else []))
lan_call c enqueue m =
    if c.good
    then some (record m { queued = m.queued + 1 }, pending send_pend ∷ [])
    else some (m, [])

unfoldable pub lan_complete : Chance → Completing → Connection → Then
lan_complete c (recv_done n) m =
    if n == 0 || m.disconnect
    then some (m, cutting read_disconnect ∷ [])
    else some (m, completing receive_loop ∷ [])
-- A round of the loop may call disconnectSession.
lan_complete c receive_loop m =
    if c.more
    then some (
      m,
      (if c.good
          then completing receive_loop ∷ []
          else cutting read_disconnect ∷ completing receive_loop ∷ []),
    )
    else some (m, receiving recv_post ∷ [])
lan_complete c (send_done n) m =
    if n == 0 || m.disconnect
    then some (m, cutting read_disconnect ∷ [])
    else if m.sent_packet_cnt == 0
    then none
    else some (record m { sent_packet_cnt = 0 }, pending try_send ∷ [])

unfoldable pub lan_run : Chance → Access → Connection → Then
unfolding lan_count lan_disconnect lan_recv_post lan_post lan_pend lan_leave lan_call lan_complete
lan_run c (counting a) m = lan_count a m
lan_run c (cutting a) m = lan_disconnect a m
lan_run c (receiving a) m = lan_recv_post c a m
lan_run c (sending a) m = lan_post c a m
lan_run c (pending a) m = lan_pend a m
lan_run c (leaving a) m = lan_leave a m
lan_run c (calling a) m = lan_call c a m
lan_run c (completing a) m = lan_complete c a m
