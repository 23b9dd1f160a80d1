-- ===== src/Lan/Examples.antt =====
-- A ring of nine bytes with a frame of five bytes, and the start of another; and three packets to send.
use chat_server_mt.Base.{List, ◌++◌, ◌≡◌, true, false, refl, [], ◌∷◌, arith}
use chat_server_mt.Packet.Examples.{half_read, fresh, fresh-IsValid}
use chat_server_mt.Ring
use chat_server_mt.Ring.{Ring}
use chat_server_mt.Ring.Inv.{IsValid}
use chat_server_mt.Lan.Connect.{
  new_client, client_connect, client_disconnect, client_calls, client_call, release_client,
  connects, disconnects, ClientCall, later, no_workers,
}
use chat_server_mt.Lan.Send.{
  lan_bytes, lan_release, lan_send_packet, lan_send_post, take_packets, lan_send_done,
}
use chat_server_mt.Lan.Send.Moves.{Move, queues, posts, completes, move, run, start}
use chat_server_mt.Lan.Send.Trace.{sum, lan_send_lem}
use chat_server_mt.Lan.{lan_recv_loop}
use chat_server_mt.Lan.Loop.{Gives, lan_recv_loop-Gives}

abbrev ring : Ring
ring = record {
  buf = 5 ∷ 0 ∷ 1 ∷ 2 ∷ 3 ∷ 4 ∷ 5 ∷ 2 ∷ 9 ∷ 9 ∷ [];
  buf_size = 10;
  front = 0;
  rear = 8;
  fill_size = 8;
}

ring-IsValid : IsValid ring
ring-IsValid = record {
  storage = refl;
  small = omega arith;
  front_in = omega arith;
  fill_in = omega arith;
  rear_at = refl;
}

lan_recv_loop-Gives_example :
    Gives 9 ((1 ∷ 2 ∷ 3 ∷ 4 ∷ 5 ∷ []) ∷ []) (2 ∷ []) (lan_recv_loop 2 fresh ring)
unfolding Ring.get_buffer_size
lan_recv_loop-Gives_example =
    lan_recv_loop-Gives fresh-IsValid 2 ((1 ∷ 2 ∷ 3 ∷ 4 ∷ 5 ∷ []) ∷ []) (2 ∷ []) ring ring-IsValid
      refl (omega arith, omega arith, tt) (λ few. absurd (omega arith)) (omega arith)

-- Two packets are queued and sent in one go, and a third one is queued.
abbrev moves : List Move
moves = queues fresh ∷ queues half_read ∷ posts ∷ queues fresh ∷ completes ∷ []

lan_send_lem_example :
    let t = run moves start in
    (t.gone ++ (t.client.sent_packet ++ t.client.send_q) ≡ t.taken)
    × (t.out ≡ lan_bytes (fresh ∷ half_read ∷ []))
    × (t.crashed ≡ false)
    × (sum (λ p. p.data_size) t.freed ≡ 3)
    × (sum (λ p. p.data_size) (t.freed ++ lan_release t.client) ≡ 3)
unfolding run move lan_send_packet lan_send_post take_packets lan_send_done lan_release
lan_send_lem_example = lan_send_lem (λ p. p.data_size) moves

abbrev again : List ClientCall
again = connects true true ∷ disconnects ∷ []

no_workers_example :
    ((client_connect 2 true true (later 2 true false new_client again)).0 ≡ true)
    × ((client_connect 2 true true (later 2 true false new_client again)).1.is_connected ≡ true)
    × ((client_connect 2 true true (later 2 true false new_client again)).1.running ≡ 0)
unfolding client_connect client_calls client_call client_disconnect release_client
no_workers_example = no_workers 2 true false new_client again refl refl refl
