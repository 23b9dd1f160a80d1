-- ===== src/Net/Send/Examples.antt =====
-- A ring of nine bytes that wraps around, and two packets of eight bytes each.
use chat_server_mt.Base.{
  inr, none, some, take, ◌≡◌, refl, List, [], ◌∷◌, ◌++◌, ◌^◌, arith, replicate,
}
use chat_server_mt.Packet.{Packet, set_len_net, get_data_size_net}
use chat_server_mt.Ring
use chat_server_mt.Ring.{Ring, enqueue_split, enqueue_flat, move_front}
use chat_server_mt.Ring.Inv.{IsValid}
use chat_server_mt.Ring.Examples.{in_order}
use chat_server_mt.Ring.Segments.{send_buffers}
use chat_server_mt.Net.Send.{send_post, send_done, fill_loop, enqueue_packet}
use chat_server_mt.Net.Send.Stream.{IsSendable, frames}
use chat_server_mt.Net.Send.Link.{Move, queues, posts, completes, move, run, idle, run_lem}
use chat_server_mt.Net.Send.Drain.{drain_lem}
use chat_server_mt.Net.Send.Round.{rounds}
use chat_server_mt.Net.Send.Stall.{without_packets, sends_stall}

abbrev small : Packet
small = record {
  hidden_buf = 119 ∷ 0 ∷ 0 ∷ 31 ∷ 6 ∷ 1 ∷ 2 ∷ 3 ∷ replicate 13 0;
  buffer_size = 16;
  data_size = 3;
  write_pos = 3;
  read_pos = 0;
  ref_cnt = 1;
}

small-IsSendable : IsSendable small
unfolding get_data_size_net
small-IsSendable = record {
  valid = record { storage = refl; write_in = omega arith; read_in = omega arith; counted = refl };
  word = omega arith;
}

abbrev ring : Ring
ring = record { buf = replicate 10 0; buf_size = 10; front = 7; rear = 7; fill_size = 0 }

ring-IsValid : IsValid ring
ring-IsValid = record {
  storage = refl;
  small = omega arith;
  front_in = omega arith;
  fill_in = omega arith;
  rear_at = refl;
}

-- Both packets are queued, the first one is sent, and half of it goes out.
abbrev half_sent : List Move
half_sent = queues small small-IsSendable ∷ queues small small-IsSendable ∷ posts ∷ completes 4 ∷ []

run_lem_example :
    (119 ∷ 3 ∷ 0 ∷ 31 ∷ []) ++ ((6 ∷ 1 ∷ 2 ∷ 3 ∷ []) ++ frames (small ∷ []))
    ≡ frames (small ∷ small ∷ [])
unfolding run move enqueue_packet send_post fill_loop set_len_net get_data_size_net send_done
    Ring.enqueue enqueue_split enqueue_flat move_front send_buffers Ring.direct_deque_size
    Ring.get_fill_size
run_lem_example = run_lem in_order half_sent ring ring-IsValid refl

drain_lem_example :
    let l = run in_order half_sent (idle ring) in
    let l' = run in_order (completes (2 ^ 31) ∷ rounds 2) l in
    (l'.taken ≡ l.taken) × (l'.out ≡ frames l.taken)
unfolding run move enqueue_packet send_post fill_loop set_len_net get_data_size_net send_done
    Ring.enqueue enqueue_split enqueue_flat move_front send_buffers Ring.direct_deque_size
    Ring.get_fill_size
drain_lem_example =
    drain_lem in_order half_sent ring ring-IsValid refl (omega arith, tt) λ e. inr (omega arith)

-- Four bytes of eight are completed, and nothing follows.
sends_stall_example :
    (run in_order
      (queues small small-IsSendable
        ∷ posts
        ∷ completes 4
        ∷ without_packets (none ∷ some 8 ∷ none ∷ []))
      (idle ring)).out
    ≡ take 4 (frames (small ∷ []))
unfolding run move enqueue_packet send_post fill_loop set_len_net get_data_size_net send_done
    Ring.enqueue enqueue_split enqueue_flat move_front send_buffers Ring.direct_deque_size
    Ring.get_fill_size
sends_stall_example =
    sends_stall in_order ring ring-IsValid refl small small-IsSendable (omega arith, tt) 4
      (none ∷ some 8 ∷ none ∷ [])
