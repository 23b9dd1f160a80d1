-- ===== src/Lan.antt =====
-- CLanClient: the branch of runIoThread for a completed receive from the monitor server. It takes
-- complete frames, with the header of two bytes, out of the ring, and hands each to OnRecv.
pub mod Round
pub mod Loop
pub mod Send
pub mod Life
pub mod Connect
mod Examples
use chat_server_mt.Base.{
  ℕ, zero, suc, ◌+◌, ◌-◌, ◌*◌, List, [], ◌∷◌, ◌++◌, ltb, ◌==◌, if◌then◌else◌, blit, get_or,
}
use chat_server_mt.Ring
use chat_server_mt.Ring.{Ring}
use chat_server_mt.Packet
use chat_server_mt.Packet.{Packet, net_header_size, lan_header_size}

-- What the loop does to the rest of the client: a call of OnRecv, or of disconnectSession.
pub data LanEvent : Type 0 where
  on_recv : Packet → LanEvent
  disconnects : LanEvent

-- `header.len` of the two bytes that `Peek` copied.
unfoldable pub lan_header_len : List ℕ → ℕ
lan_header_len header = get_or header 0 0 + 256 * get_or header 1 0

-- A packet of the pool after `Alloc`, with a frame written from its short header on, and its write
-- position moved behind the frame.
unfoldable pub load_lan_frame : Packet → List ℕ → ℕ → Packet
load_lan_frame pooled bytes len =
    let p = Packet.set_len_lan (Packet.clear pooled) in
    let mem = blit p.hidden_buf (net_header_size - lan_header_size) bytes in
    (Packet.move_write_pos (record p { hidden_buf = mem }) len).1

-- The test of the length against the free part of the ring, which the loop does not end for.
unfoldable pub too_long : Ring → ℕ → List LanEvent
too_long r len = if ltb (Ring.get_empty_size r) len then disconnects ∷ [] else []

-- The `while (true)` over the ring; `pooled` is what the pool gives. The fuel bounds the rounds.
unfoldable pub lan_recv_loop : ℕ → Packet → Ring → List LanEvent × Ring
unfolding too_long
lan_recv_loop zero pooled r = ([], r)
lan_recv_loop (suc fuel) pooled r =
    let (peeked, header) = Ring.peek r lan_header_size in
    let len = lan_header_len header in
    let (_, bytes, r') = Ring.dequeue r (len + lan_header_size) in
    let rest = lan_recv_loop fuel pooled r' in
    if peeked == lan_header_size
    then (if ltb (Ring.get_fill_size r) (len + lan_header_size)
        then ([], r)
        else (too_long r len ++ on_recv (load_lan_frame pooled bytes len) ∷ rest.0, rest.1))
    else ([], r)
