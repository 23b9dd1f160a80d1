-- ===== src/Net/Send.antt =====
-- CNetServer: how the packets of a session's send queue come to WSASend. This is the part of
-- SendPacket, sendPost and the branch of runIoThread for a completed send that one thread does
-- alone; Session has the flags that see to it.
pub mod Stream
pub mod Fill
pub mod Link
pub mod Round
pub mod Drain
pub mod Stall
mod Examples
use chat_server_mt.Base.{
  ℕ, ◌+◌, Bool, true, false, Option, none, some, List, [], ◌∷◌, ◌++◌, ltb, ◌==◌, if◌then◌else◌,
  length, min, slice, take,
}
use chat_server_mt.Packet.{Packet, set_len_net, get_data_size_net}
use chat_server_mt.Ring
use chat_server_mt.Ring.{Ring}
use chat_server_mt.Ring.Segments.{SocketIo, send_buffers}

pub record Sender : Type 0 where
  pub send_q : List Packet
  pub send_buffer : Ring
  pub send_packet : ℕ

-- MAX_SENDQ.
abbrev pub max_send_q : ℕ
max_send_q = 200

-- The call of Enqueue in SendPacket: the nodes of the queue are limited.
unfoldable pub enqueue_packet : Packet → Sender → Bool × Sender
enqueue_packet p s =
    if ltb (length s.send_q) max_send_q
    then (true, record s { send_q = s.send_q ++ p ∷ [] })
    else (false, s)

-- The loop of sendPost: whole packets go into the ring, as long as they fit.
unfoldable pub fill_loop : List Packet → Ring → ℕ → Sender
fill_loop [] r count = record { send_q = []; send_buffer = r; send_packet = count }
fill_loop (p ∷ q) r count =
    let (done, r') = Ring.enqueue r (set_len_net p).hidden_buf (get_data_size_net p) in
    let rest = fill_loop q r' (count + 1) in
    if done == 0 then record { send_q = p ∷ q; send_buffer = r; send_packet = count } else rest

-- sendPost behind its tests of the flags: what WSASend is asked to send, and the session then.
-- With an empty queue there is no call, whatever the ring holds.
unfoldable pub send_post : SocketIo → Sender → Option (List ℕ) × Sender
send_post io s =
    let s' = fill_loop s.send_q s.send_buffer s.send_packet in
    if length s.send_q == 0
    then (none, s)
    else (some (io.gather s'.send_buffer.buf (send_buffers s'.send_buffer)), s')

-- A completed send of `transferred` bytes. The second number goes to the count of the server.
unfoldable pub send_done : ℕ → Sender → Sender × ℕ
send_done transferred s = (
  record s { send_buffer = Ring.move_front s.send_buffer transferred; send_packet = 0 },
  s.send_packet,
)
