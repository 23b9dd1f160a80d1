-- ===== src/Maker/Examples.antt =====
-- The answers of a server with the key 50 and the code 119.
use chat_server_mt.Base.{ℕ, ◌≡◌, refl, [], ◌∷◌, ◌++◌, some, arith, replicate, length-replicate}
use chat_server_mt.Packet.{Packet}
use chat_server_mt.Packet.Codec.{frame}
use chat_server_mt.Packet.Wire.{wire}
use chat_server_mt.Maker.{Env, make_message}
use chat_server_mt.Maker.Layouts.{IsReady}
use chat_server_mt.Maker.Message.{make_message_lem, message_head, sent_name, sent_text}

-- A packet of the pool's size; the local arrays hold spaces.
abbrev pub server_env : Env
server_env = record {
  key = 50;
  code = 119;
  r_key = 31;
  pooled = record {
    hidden_buf = replicate 2005 0;
    buffer_size = 2000;
    data_size = 0;
    write_pos = 0;
    read_pos = 0;
    ref_cnt = 1;
  };
  old_value = 0;
  temp_id = replicate 20 32;
  temp_nickname = replicate 20 32;
  beyond = 7 ∷ 8 ∷ 9 ∷ [];
}

pub server_env-IsReady : IsReady server_env
server_env-IsReady = record {
  pooled = record {
    storage = length-replicate {A = ℕ} 2005 0;
    write_in = omega arith;
    read_in = omega arith;
    counted = refl;
  };
  large = omega arith;
}

make_message_lem_example :
    (p : Packet) × (make_message server_env 70000 (97 ∷ 98 ∷ []) (99 ∷ []) 6 (104 ∷ 105 ∷ 33 ∷ [])
      ≡ some p)
    × (wire p
        ≡ frame 50 119 31 (
            message_head 70000
              (sent_name (replicate 20 32) (97 ∷ 98 ∷ []))
              (sent_name (replicate 20 32) (99 ∷ []))
              6
            ++ sent_text (7 ∷ 8 ∷ 9 ∷ []) (104 ∷ 105 ∷ 33 ∷ []) 6))
make_message_lem_example =
    make_message_lem server_env-IsReady 70000 (97 ∷ 98 ∷ []) (99 ∷ []) 6 (104 ∷ 105 ∷ 33 ∷ [])
      (length-replicate {A = ℕ} 20 32) (length-replicate {A = ℕ} 20 32) (omega arith) (omega arith)
      (omega arith) (omega arith)
