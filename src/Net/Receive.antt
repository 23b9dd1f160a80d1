-- ===== src/Net/Receive.antt =====
-- The receive branch of CNetServer::runIoThread: it takes complete frames out of the session's
-- ring, decodes each into a packet of the pool, and hands it to `OnRecv` or disconnects.
pub mod Stream
pub mod Cuts
pub mod Loop
pub mod Stall
mod Examples
pub mod Frames
pub mod Loaded
use chat_server_mt.Base.{
  ℕ, zero, suc, ◌+◌, ◌*◌, Bool, ◌||◌, List, [], ◌∷◌, ltb, ◌==◌, if◌then◌else◌, blit, get_or,
}
use chat_server_mt.Ring
use chat_server_mt.Ring.{Ring}
use chat_server_mt.Packet
use chat_server_mt.Packet.{Packet, net_header_size, len_at}

-- What the loop does to the rest of the server: a call of `OnRecv`, or of `disconnect`.
pub data Event : Type 0 where
  on_recv : Packet → Event
  disconnects : Event

-- `header.len` of the five bytes that `Peek` copied.
unfoldable pub header_len : List ℕ → ℕ
header_len header = get_or header len_at 0 + 256 * get_or header (len_at + 1) 0

-- A packet of the pool after `Alloc`, with the `len + sizeof(header)` bytes of a frame written
-- from its header on, and its write position moved behind them.
unfoldable pub load_frame : Packet → List ℕ → ℕ → Packet
load_frame pooled bytes len =
    let p = Packet.set_len_net (Packet.clear pooled) in
    (Packet.move_write_pos (record p { hidden_buf = blit p.hidden_buf 0 bytes }) len).1

unfoldable pub handle_frame : ℕ → Packet → Event
handle_frame key p = let (good, q) = Packet.decode key p in if good then on_recv q else disconnects

-- The `while (true)` over the ring; `pooled` is what the pool gives. The fuel bounds the rounds.
unfoldable pub recv_loop : ℕ → ℕ → Packet → Ring → List Event × Ring
recv_loop zero key pooled r = ([], r)
recv_loop (suc fuel) key pooled r =
    let (peeked, header) = Ring.peek r net_header_size in
    let len = header_len header in
    let (_, bytes, r') = Ring.dequeue r (len + net_header_size) in
    let rest = recv_loop fuel key pooled r' in
    let event = handle_frame key (load_frame pooled bytes len) in
    if peeked == net_header_size
    then (if len == 0 || ltb (Ring.get_buffer_size r) len
        then (disconnects ∷ [], r)
        else if ltb (Ring.get_fill_size r) (len + net_header_size)
        then ([], r)
        else (event ∷ rest.0, rest.1))
    else ([], r)
