-- ===== src/Net/Receive/Examples.antt =====
-- A connection with a ring of twelve bytes, on which two packets arrive in three pieces.
use chat_server_mt.Base.{ℕ, ◌≡◌, ◌≤◌, refl, List, [], ◌∷◌, arith, replicate, take, drop}
use chat_server_mt.Packet.{Packet}
use chat_server_mt.Packet
use chat_server_mt.Packet.Codec.{frame}
use chat_server_mt.Packet.Examples.{fresh, fresh-IsValid}
use chat_server_mt.Ring
use chat_server_mt.Ring.{Ring}
use chat_server_mt.Ring.Inv.{IsValid}
use chat_server_mt.Ring.Contents.{contents}
use chat_server_mt.Ring.Segments.{recv_buffers, received}
use chat_server_mt.Ring.Examples.{in_order}
use chat_server_mt.Net.Receive.{recv_loop, header_len}
use chat_server_mt.Net.Receive.Loaded.{Sent, IsSendable}
use chat_server_mt.Net.Receive.Cuts.{frames, Delivers}
use chat_server_mt.Net.Receive.Stream.{recv_all, on_recv_completion, recv_all_lem}
use chat_server_mt.Net.Receive.Stall.{recv_stalls}

-- A ring of twelve bytes, empty.
abbrev empty_ring : Ring
empty_ring = record { buf = replicate 13 0; buf_size = 13; front = 9; rear = 9; fill_size = 0 }

empty_ring-IsValid : IsValid empty_ring
empty_ring-IsValid = record {
  storage = refl;
  small = omega arith;
  front_in = omega arith;
  fill_in = omega arith;
  rear_at = refl;
}

abbrev hello : Sent
hello = record { code = 119; r_key = 31; bytes = 1 ∷ 2 ∷ 3 ∷ [] }

abbrev bye : Sent
bye = record { code = 119; r_key = 200; bytes = 255 ∷ [] }

hello-IsSendable : (cap : ℕ) → 8 ≤ cap → IsSendable cap hello
hello-IsSendable cap h = record {
  is_bytes = (omega arith, (omega arith, (omega arith, tt)));
  not_empty = omega arith;
  fits = omega arith;
}

bye-IsSendable : IsSendable 12 bye
bye-IsSendable = record {
  is_bytes = (omega arith, tt);
  not_empty = omega arith;
  fits = omega arith;
}

abbrev stream : List ℕ
stream = frames 50 (hello ∷ bye ∷ [])

abbrev pieces : List (List ℕ)
pieces = take 3 stream ∷ take 6 (drop 3 stream) ∷ drop 9 stream ∷ []

recv_all_lem_example :
    Delivers (hello ∷ bye ∷ []) (recv_all in_order 50 fresh empty_ring pieces).0
    × (contents (recv_all in_order 50 fresh empty_ring pieces).1 ≡ [])
unfolding Ring.get_buffer_size
recv_all_lem_example =
    recv_all_lem in_order 50 12 fresh-IsValid (omega arith) (omega arith) (hello ∷ bye ∷ []) pieces
      empty_ring-IsValid refl refl (hello-IsSendable 12 (omega arith), (bye-IsSendable, tt))
      (unfold frame Packet.encode_loop Packet.check_sum in refl)
      (unfold frame Packet.encode_loop Packet.check_sum on_recv_completion received recv_loop
          recv_buffers Ring.get_empty_size Ring.get_fill_size Ring.direct_enque_size Ring.move_rear
          Ring.peek header_len Ring.dequeue Ring.read_front Ring.advance_front in
        (omega arith, omega arith, (omega arith, omega arith, (omega arith, omega arith, tt))))

-- A full ring whose header announces ten bytes, which are fifteen with the header.
abbrev stuck_ring : Ring
stuck_ring = record {
  buf = 119 ∷ 10 ∷ 0 ∷ replicate 10 0;
  buf_size = 13;
  front = 0;
  rear = 12;
  fill_size = 12;
}

stuck_ring-IsValid : IsValid stuck_ring
stuck_ring-IsValid = record {
  storage = refl;
  small = omega arith;
  front_in = omega arith;
  fill_in = omega arith;
  rear_at = refl;
}

recv_stalls_example :
    (recv_loop 13 50 fresh stuck_ring ≡ ([], stuck_ring)) × (recv_buffers stuck_ring ≡ (12, 0) ∷ [])
unfolding Ring.get_buffer_size Ring.get_fill_size header_len
recv_stalls_example =
    recv_stalls 12 50 fresh stuck_ring-IsValid (omega arith) refl (omega arith) (omega arith)
      (omega arith)

-- A ring that holds a header with the length 0.
abbrev zero_ring : Ring
zero_ring = record { buf = replicate 13 0; buf_size = 13; front = 0; rear = 12; fill_size = 12 }

zero_ring-IsValid : IsValid zero_ring
zero_ring-IsValid = record {
  storage = refl;
  small = omega arith;
  front_in = omega arith;
  fill_in = omega arith;
  rear_at = refl;
}
