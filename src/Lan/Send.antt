-- ===== src/Lan/Send.antt =====
-- CLanClient: SendPacket, sendPost behind its flags, the branch of runIoThread for a completed
-- send, and the end of release. `sent_packet` is the used part of the array `m_sentPacket`.
pub mod Moves
pub mod Trace
use chat_server_mt.Base.{
  ℕ, zero, suc, ◌+◌, Bool, true, false, Option, none, some, List, [], ◌∷◌, ◌++◌, ltb, ◌==◌,
  if◌then◌else◌, length,
}
use chat_server_mt.Packet.{Packet}
use chat_server_mt.Monitor.Reports.{wire_lan}

pub record Client : Type 0 where
  pub send_q : List Packet
  pub sent_packet : List Packet

abbrev pub max_wsabuf : ℕ
max_wsabuf = 30

-- The call of Enqueue in SendPacket; the queue has MAX_SENDQ nodes.
unfoldable pub lan_send_packet : Packet → Client → Bool × Client
lan_send_packet p c =
    if ltb (length c.send_q) 200
    then (true, record c { send_q = c.send_q ++ p ∷ [] })
    else (false, c)

-- The loop over the buffers: the packets taken, and the queue then.
unfoldable pub take_packets : ℕ → List Packet → List Packet × List Packet
take_packets zero q = ([], q)
take_packets (suc n) [] = ([], [])
take_packets (suc n) (p ∷ q) = let (sent, rest) = take_packets n q in (p ∷ sent, rest)

-- What WSASend sends: one buffer for each packet.
abbrev pub lan_bytes : List Packet → List ℕ
lan_bytes [] = []
lan_bytes (p ∷ ps) = wire_lan p ++ lan_bytes ps

-- sendPost behind the exchange of the send flag; `none` if there is no packet.
unfoldable pub lan_send_post : Client → Option (List ℕ) × Client
unfolding take_packets
lan_send_post c =
    let buf_cnt = if ltb max_wsabuf (length c.send_q) then max_wsabuf else length c.send_q in
    let (sent, rest) = take_packets buf_cnt c.send_q in
    if length c.send_q == 0
    then (none, c)
    else (some (lan_bytes sent), record { send_q = rest; sent_packet = sent })

-- SubRef of the packets sent, the last one first.
abbrev pub sub_refs : List Packet → List Packet
sub_refs [] = []
sub_refs (p ∷ ps) = sub_refs ps ++ p ∷ []

-- A completed send; `none` is CrashDump::Crash().
unfoldable pub lan_send_done : Client → Option (List Packet × Client)
lan_send_done c =
    if length c.sent_packet == 0
    then none
    else some (sub_refs c.sent_packet, record c { sent_packet = [] })

-- release: the packets that are given back.
unfoldable pub lan_release : Client → List Packet
lan_release c = c.send_q ++ sub_refs c.sent_packet
