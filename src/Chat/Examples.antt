-- ===== src/Chat/Examples.antt =====
-- A server with two users in neighbouring sectors, and a third that has just joined.
use chat_server_mt.Base.{
  ◌++◌, length-replicate, ℕ, ◌≡◌, ◌&&◌, ◌==◌, if◌then◌else◌, refl, true, false, List, [], ◌∷◌,
  arith, replicate,
}
use chat_server_mt.Packet.{Packet}
use chat_server_mt.Packet.Inv
use chat_server_mt.Packet.Codec.{frame}
use chat_server_mt.Packet.Wire.{wire}
use chat_server_mt.Maker.{wide_bytes, make_sector_move}
use chat_server_mt.Maker.Message.{message_head, sent_name}
use chat_server_mt.Chat.MovePacket.{move_payload, proc_sector_move_lem}
use chat_server_mt.Chat.Message.{
  message_payload, IsCall, IsUser, proc_message_lem, proc_message-beyond,
}
use chat_server_mt.Packet.Examples.{fresh}
use chat_server_mt.User
use chat_server_mt.User.{User, minus_one_16, minus_one_64}
use chat_server_mt.Maker.Examples.{server_env, server_env-IsReady}
use chat_server_mt.Chat.{
  Server, Outcome, crashed, counted, create_user, set_user, find, returns, sends,
  send_message_around, on_client_join,
}
use chat_server_mt.Chat.Proc.{Call, proc_message, proc_sector_move}
use chat_server_mt.Chat.Placed.{IsPlaced, count}
use chat_server_mt.Chat.Reach.{new_server, opens, joins, serves-IsPlaced}
use chat_server_mt.Chat.Deliver.{sends_to, is_around, send_message_around_lem}

abbrev alice : User
alice = record {
  login = true;
  in_sector = true;
  ssid = 100;
  account_no = 70000;
  id = 97 ∷ [];
  nickname = 65 ∷ [];
  sector_x = 3;
  sector_y = 4;
  last_recv_time = 5;
  old_recv_time = 1;
}

abbrev bob : User
bob = record alice { ssid = 200; account_no = 80000; sector_x = 4 }

abbrev pub newcomer : User
newcomer = record alice {
  login = false;
  in_sector = false;
  ssid = 300;
  account_no = minus_one_64;
  sector_x = minus_one_16;
  sector_y = minus_one_16;
}

abbrev pub town : Server
town = record {
  users = λ p. if p == 7 then alice else if p == 8 then bob else newcomer;
  user_map = (100, 7) ∷ (200, 8) ∷ (300, 9) ∷ [];
  account_map = (70000, 100) ∷ (80000, 200) ∷ [];
  sectors = λ y x. if y == 4 && x == 3 then 7 ∷ [] else if y == 4 && x == 4 then 8 ∷ [] else [];
  connect_cnt = 1;
  login_cnt = 2;
  duplicate_login = 0;
  message_tps = 0;
  collect_msg_tps = 0;
  max_user = 15000;
}

town-IsPlaced : IsPlaced town
unfolding count
town-IsPlaced = record { listed = λ p y x. ground arith; in_grid = λ p h. ground arith }

abbrev pub call : Call
call = record {
  env = server_env;
  now = 9;
  id = replicate 40 0;
  nick = replicate 40 0;
  message = replicate 256 0;
  behind_id = [];
  behind_nick = [];
}

send_message_around_lem_example :
    (ps : List ℕ) × (send_message_around fresh town alice ≡ sends_to fresh town ps)
    × ((p : ℕ) → count p ps ≡ (if is_around (town.users p) alice then 1 else 0))
send_message_around_lem_example =
    send_message_around_lem fresh town alice town-IsPlaced (omega arith) (omega arith)

-- The message "hi" of alice.
abbrev hi_packet : Packet
hi_packet = record {
  hidden_buf = replicate 7 0 ++ message_payload 70000 (104 ∷ 105 ∷ []) ++ replicate 20 0;
  buffer_size = 36;
  data_size = 14;
  write_pos = 16;
  read_pos = 2;
  ref_cnt = 1;
}

hi_packet-IsValid : Inv.IsValid hi_packet
hi_packet-IsValid = record {
  storage = refl;
  write_in = omega arith;
  read_in = omega arith;
  counted = refl;
}

call-IsCall : IsCall call
call-IsCall = record {
  ready = server_env-IsReady;
  id_array = length-replicate {A = ℕ} 20 32;
  nickname_array = length-replicate {A = ℕ} 20 32;
  message_array = length-replicate {A = ℕ} 256 0;
}

alice-IsUser : IsUser alice
alice-IsUser = record {
  account_in = omega arith;
  id_short = omega arith;
  nickname_short = omega arith;
  x_in = omega arith;
  y_in = omega arith;
}

proc_message_lem_example :
    (q : Packet) × (ps : List ℕ) × (proc_message call 7 hi_packet town
      ≡ returns true town (sends_to q town ps))
    × ((r : ℕ) → count r ps ≡ (if is_around (town.users r) alice then 1 else 0))
    × (wire q
        ≡ frame 50 119 31 (
            message_head 70000
              (sent_name (replicate 20 32) (97 ∷ []))
              (sent_name (replicate 20 32) (65 ∷ []))
              4
            ++ wide_bytes (104 ∷ 105 ∷ [])))
proc_message_lem_example =
    proc_message_lem call 7 hi_packet town (104 ∷ 105 ∷ []) call-IsCall alice-IsUser town-IsPlaced
      hi_packet-IsValid (omega arith, omega arith, (omega arith, omega arith, tt)) (omega arith)
      (omega arith) refl

-- The move of alice to (10, 20).
abbrev move_packet : Packet
move_packet = record {
  hidden_buf = replicate 7 0 ++ move_payload 70000 10 20 [] ++ replicate 20 0;
  buffer_size = 34;
  data_size = 12;
  write_pos = 14;
  read_pos = 2;
  ref_cnt = 1;
}

move_packet-IsValid : Inv.IsValid move_packet
move_packet-IsValid = record {
  storage = refl;
  write_in = omega arith;
  read_in = omega arith;
  counted = refl;
}

proc_sector_move_lem_example :
    (s' : Server) × (proc_sector_move call 7 move_packet town
      ≡ returns true s' (sends 100 (make_sector_move server_env 70000 10 20) ∷ []))
    × IsPlaced s'
    × ((s'.users 7).in_sector ≡ true)
    × ((s'.users 7).sector_x ≡ 10)
    × ((s'.users 7).sector_y ≡ 20)
proc_sector_move_lem_example =
    proc_sector_move_lem call 7 move_packet town 10 20 [] town-IsPlaced move_packet-IsValid
      (omega arith) (omega arith) (omega arith) refl

-- The server after the first session has joined.
abbrev opened : Server
opened = new_server (λ p. newcomer)

abbrev state_of : Outcome → Server
state_of crashed = opened
state_of (returns b s out) = s

abbrev joined : Server
unfolding on_client_join counted create_user set_user find User.init_user User.update_recv_time
joined = state_of (on_client_join 400 10 9 opened)

serves-IsPlaced_example : IsPlaced joined
unfolding on_client_join counted create_user set_user find User.init_user User.update_recv_time
serves-IsPlaced_example =
    serves-IsPlaced joined
      (joins 400 10 9 true joined [] (opens (λ p. newcomer) (λ p. refl) refl) refl refl)

-- The letter h, a zero, and one more character.
abbrev cut_packet : Packet
cut_packet = record hi_packet {
  hidden_buf = replicate 7 0 ++ message_payload 70000 (104 ∷ 0 ∷ 105 ∷ []) ++ replicate 20 0;
  buffer_size = 38;
  data_size = 16;
  write_pos = 18;
}

cut_packet-IsValid : Inv.IsValid cut_packet
cut_packet-IsValid = record {
  storage = refl;
  write_in = omega arith;
  read_in = omega arith;
  counted = refl;
}

proc_message-beyond_example :
    (q : Packet) × (ps : List ℕ) × (proc_message call 7 cut_packet town
      ≡ returns true town (sends_to q town ps))
    × ((r : ℕ) → count r ps ≡ (if is_around (town.users r) alice then 1 else 0))
    × (wire q
        ≡ frame 50 119 31 (
            message_head 70000
              (sent_name (replicate 20 32) (97 ∷ []))
              (sent_name (replicate 20 32) (65 ∷ []))
              6
            ++ (wide_bytes (104 ∷ []) ++ (0 ∷ 0 ∷ []) ++ 7 ∷ 8 ∷ [])))
proc_message-beyond_example =
    proc_message-beyond call 7 cut_packet town (104 ∷ []) (105 ∷ []) call-IsCall alice-IsUser
      town-IsPlaced cut_packet-IsValid (omega arith, omega arith, tt) (omega arith) (omega arith)
      refl
