-- ===== src/Packet/Examples.antt =====
-- Concrete packets, and the packet's theorems on them.
use chat_server_mt.Base.{◌≡◌, refl, true, List, [], ◌∷◌, ◌++◌, arith, replicate}
use chat_server_mt.Packet
use chat_server_mt.Packet.{
  Packet, encode, decode, put_data, get_data, put_value, uchar, ushort, int64, decode_loop,
  encode_loop,
}
use chat_server_mt.Packet.Inv.{IsValid, payload}
use chat_server_mt.Packet.Codec.{frame}
use chat_server_mt.Packet.Wire.{wire, wire-encode, decode-frame}
use chat_server_mt.Packet.Fields.{Field, put_all, get_all, get_all-put_all, total_size}

-- A packet of sixteen bytes that holds three, after two that were read.
abbrev pub half_read : Packet
half_read = record {
  hidden_buf = replicate 5 0 ++ (1 ∷ 2 ∷ 3 ∷ 4 ∷ 5 ∷ []) ++ replicate 11 0;
  buffer_size = 16;
  data_size = 3;
  write_pos = 5;
  read_pos = 2;
  ref_cnt = 1;
}

half_read-IsValid : IsValid half_read
half_read-IsValid = record {
  storage = refl;
  write_in = omega arith;
  read_in = omega arith;
  counted = refl;
}

-- One that was only written to.
abbrev written : Packet
written = record {
  hidden_buf = replicate 5 0 ++ (1 ∷ 2 ∷ 3 ∷ []) ++ replicate 13 0;
  buffer_size = 16;
  data_size = 3;
  write_pos = 3;
  read_pos = 0;
  ref_cnt = 1;
}

written-IsValid : IsValid written
written-IsValid = record {
  storage = refl;
  write_in = omega arith;
  read_in = omega arith;
  counted = refl;
}

-- A new packet of a pool.
abbrev pub fresh : Packet
fresh = record {
  hidden_buf = replicate 21 0;
  buffer_size = 16;
  data_size = 0;
  write_pos = 0;
  read_pos = 0;
  ref_cnt = 1;
}

pub fresh-IsValid : IsValid fresh
fresh-IsValid = record {
  storage = refl;
  write_in = omega arith;
  read_in = omega arith;
  counted = refl;
}

abbrev received_frame : Packet
received_frame = record fresh {
  hidden_buf = frame 50 119 31 (1 ∷ 2 ∷ 3 ∷ []) ++ replicate 13 0;
  data_size = 3;
}

decode-frame_example :
    ((decode 50 received_frame).0 ≡ true) × (payload (decode 50 received_frame).1 ≡ 1 ∷ 2 ∷ 3 ∷ [])
decode-frame_example =
    decode-frame 50 119 31 (1 ∷ 2 ∷ 3 ∷ []) (replicate 13 0) received_frame
      (omega arith, (omega arith, (omega arith, tt))) refl refl refl

wire-encode_example : wire (encode 50 119 31 written) ≡ frame 50 119 31 (1 ∷ 2 ∷ 3 ∷ [])
wire-encode_example = wire-encode written-IsValid refl 50 119 31

abbrev fields : List Field
fields = (uchar, 1) ∷ (ushort, 2000) ∷ (int64, 70000) ∷ []

get_all-put_all_example :
    ((get_all fields 7 (put_all fields fresh)).0 ≡ 1 ∷ 2000 ∷ 70000 ∷ [])
    × (payload (get_all fields 7 (put_all fields fresh)).1 ≡ [])
unfolding Packet.size_of
get_all-put_all_example =
    get_all-put_all fields 7 fresh-IsValid refl (omega arith, (omega arith, (omega arith, tt)))
      (unfold total_size in omega arith)
