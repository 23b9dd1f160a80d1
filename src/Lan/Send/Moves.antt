-- ===== src/Lan/Send/Moves.antt =====
-- The send path of CLanClient as it runs: calls of SendPacket and sendPost, and completed sends.
use chat_server_mt.Base.{
  ℕ, Bool, true, false, Option, none, some, List, [], ◌∷◌, ◌++◌, if◌then◌else◌,
}
use chat_server_mt.Packet.{Packet}
use chat_server_mt.Lan.Send.{Client, lan_send_packet, lan_send_post, lan_send_done}

-- The client, whether WSASend was called and has not completed, and for the statements the packets
-- that the queue took, those of completed sends, those that SubRef was called for, the bytes that
-- went out, and whether the client crashed.
pub record Trace : Type 0 where
  pub client : Client
  pub under_way : Bool
  pub taken : List Packet
  pub gone : List Packet
  pub freed : List Packet
  pub out : List ℕ
  pub crashed : Bool

pub data Move : Type 0 where
  queues : Packet → Move
  posts completes : Move

abbrev pub posted : Trace → Option (List ℕ) × Client → Trace
posted t (none, c) = record t { client = c }
posted t (some bytes, c) = record t { client = c; under_way = true; out = t.out ++ bytes }

-- The send flag keeps sendPost from posting while a send is under way.
abbrev pub post_when : Trace → Bool → Trace
post_when t false = posted t (lan_send_post t.client)
post_when t true = t

abbrev pub done_with : Trace → Option (List Packet × Client) → Trace
done_with t none = record t { under_way = false; crashed = true }
done_with t (some (freed, c)) = record t {
  client = c;
  under_way = false;
  gone = t.gone ++ t.client.sent_packet;
  freed = t.freed ++ freed;
}

-- A completion comes for a call of WSASend only.
abbrev pub complete_when : Trace → Bool → Trace
complete_when t false = t
complete_when t true = done_with t (lan_send_done t.client)

unfoldable pub move : Move → Trace → Trace
move (queues p) t =
    let (done, c) = lan_send_packet p t.client in
    record t { client = c; taken = t.taken ++ (if done then p ∷ [] else []) }
move posts t = post_when t t.under_way
move completes t = complete_when t t.under_way

unfoldable pub run : List Move → Trace → Trace
unfolding move
run [] t = t
run (m ∷ ms) t = run ms (move m t)

abbrev pub start : Trace
start = record {
  client = record { send_q = []; sent_packet = [] };
  under_way = false;
  taken = [];
  gone = [];
  freed = [];
  out = [];
  crashed = false;
}
