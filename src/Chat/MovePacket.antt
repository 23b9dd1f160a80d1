-- ===== src/Chat/MovePacket.antt =====
-- A request to move, from the packet of the client to the answer.
use chat_server_mt.Base.{ℕ, ◌^◌, ◌<◌, ◌≡◌, true, false, List, [], ◌∷◌, ◌++◌, arith}
use chat_server_mt.Packet.{Packet, get_value, int64, short, le_bytes, size_of}
use chat_server_mt.Packet.Inv
use chat_server_mt.Packet.Inv.{payload}
use chat_server_mt.Packet.Fields.{get_value_lem, get_value-IsValid}
use chat_server_mt.Sector.{sector_max}
use chat_server_mt.Maker.{make_sector_move}
use chat_server_mt.Chat.{Server, sends, send_message_uni, returns}
use chat_server_mt.Chat.Proc.{Call, moved, proc_sector_move, is_out_of_grid}
use chat_server_mt.Chat.Placed.{IsPlaced}
use chat_server_mt.Chat.Move.{move_user_lem}

-- A move packet behind its type: the account and the two coordinates, with `rest` behind them.
abbrev pub move_payload : ℕ → ℕ → ℕ → List ℕ → List ℕ
move_payload account_no x y rest = le_bytes 8 account_no ++ (le_bytes 2 x ++ (le_bytes 2 y ++ rest))

read_move :
    (packet : Packet) (old account_no x y : ℕ) (rest : List ℕ)
    → Inv.IsValid packet
    → account_no < 2 ^ 64
    → x < 2 ^ 16
    → y < 2 ^ 16
    → payload packet ≡ move_payload account_no x y rest
    → let one = get_value int64 old packet in
      let two = get_value short old one.1 in
      (one.0 ≡ account_no) × (two.0 ≡ x) × ((get_value short old two.1).0 ≡ y)
unfolding size_of
read_move packet old account_no x y rest v a b c e =
    let first = get_value_lem int64 account_no old (le_bytes 2 x ++ (le_bytes 2 y ++ rest)) v a e in
    let v1 = get_value-IsValid int64 old v in
    let second = get_value_lem short x old (le_bytes 2 y ++ rest) v1 b first.1 in
    let v2 = get_value-IsValid short old v1 in
    (first.0, second.0, (get_value_lem short y old rest v2 c second.1).0)

in_the_grid : (v : ℕ) → v < sector_max → is_out_of_grid v ≡ false
unfolding is_out_of_grid
in_the_grid v h = ground arith

-- A valid packet with the account number of its sender and the coordinates of a cell of the grid
-- makes ProcSectorMove return true and answer the sender with MakeSectorMove of these coordinates;
-- afterwards the sender is in the grid at this cell and the lists of the sectors are right, as they
-- were before.
pub proc_sector_move_lem :
    (c : Call) (p : ℕ) (packet : Packet) (s : Server) (x y : ℕ) (rest : List ℕ)
    → IsPlaced s
    → Inv.IsValid packet
    → (s.users p).account_no < 2 ^ 64
    → x < sector_max
    → y < sector_max
    → payload packet ≡ move_payload (s.users p).account_no x y rest
    → (s' : Server) × (proc_sector_move c p packet s
        ≡ returns true s'
            (sends (s.users p).ssid (make_sector_move c.env (s.users p).account_no x y) ∷ []))
      × IsPlaced s'
      × ((s'.users p).in_sector ≡ true)
      × ((s'.users p).sector_x ≡ x)
      × ((s'.users p).sector_y ≡ y)
unfolding proc_sector_move moved send_message_uni
proc_sector_move_lem c p packet s x y rest placed v small h k e =
    let r =
      read_move packet c.env.old_value (s.users p).account_no x y rest v small (omega arith)
        (omega arith) e in
    let (s', go, after, inside, at_x, at_y, same, others) = move_user_lem p x y s placed h k in
    (
      s',
      ground (arith, r, go, at_x, at_y, same, in_the_grid x h, in_the_grid y k),
      after,
      inside,
      at_x,
      at_y,
    )
