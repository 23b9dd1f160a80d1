-- ===== src/Chat/LoginExamples.antt =====
-- The login of the user that has just joined.
use chat_server_mt.Base.{◌≡◌, refl, true, some, [], ◌∷◌, ◌++◌, arith, replicate}
use chat_server_mt.Packet.{Packet}
use chat_server_mt.Packet.Inv
use chat_server_mt.Maker.{make_login}
use chat_server_mt.Maker.Examples.{server_env}
use chat_server_mt.Chat.{Server, sends, returns, find}
use chat_server_mt.Chat.Proc.{proc_login}
use chat_server_mt.Chat.Login.{Name, login_payload, proc_login_lem}
use chat_server_mt.Chat.Examples.{town, call, newcomer}

abbrev carol : Name 20
carol = record {
  chars = 99 ∷ 97 ∷ [];
  pad = replicate 17 0;
  are_chars = (omega arith, omega arith, (omega arith, omega arith, tt));
  whole = refl;
}

abbrev login_packet : Packet
login_packet = record {
  hidden_buf = replicate 7 0 ++ login_payload 90000 carol carol (replicate 64 1) ++ replicate 20 0;
  buffer_size = 174;
  data_size = 152;
  write_pos = 154;
  read_pos = 2;
  ref_cnt = 1;
}

login_packet-IsValid : Inv.IsValid login_packet
login_packet-IsValid = record {
  storage = refl;
  write_in = omega arith;
  read_in = omega arith;
  counted = refl;
}

proc_login_lem_example :
    (s' : Server) × (proc_login call 9 login_packet town
      ≡ returns true s' (sends 300 (make_login server_env 1 90000) ∷ []))
    × (find 90000 s'.account_map ≡ some 300)
    × (s'.users 9 ≡ record newcomer {
      login = true;
      account_no = 90000;
      id = 99 ∷ 97 ∷ [];
      nickname = 99 ∷ 97 ∷ [];
    })
    × (s'.connect_cnt ≡ 0)
    × (s'.login_cnt ≡ 3)
unfolding find
proc_login_lem_example =
    proc_login_lem call 9 login_packet town 90000 carol carol (replicate 64 1) login_packet-IsValid
      refl refl (omega arith) refl refl refl
