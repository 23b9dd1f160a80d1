-- ===== src/Maker/Layouts.antt =====
-- The bytes of each answer, as the protocol lays them out.
use chat_server_mt.Base.{
  ℕ, ◌+◌, ◌≤◌, ◌<◌, ◌≡◌, ◌∙◌, ap, refl, List, [], ◌++◌, arith, subst, length, length-take, take,
  take-all,
}
use chat_server_mt.Packet
use chat_server_mt.Packet.{Packet, le_bytes, put_value, uchar, ushort, int64, size_of, FieldType}
use chat_server_mt.Packet.Inv.{
  IsValid, payload, length-payload, put_data_lem, put_data-IsValid, clear-IsValid,
}
use chat_server_mt.Packet.Codec.{frame}
use chat_server_mt.Packet.Fields.{length-le_bytes}
use chat_server_mt.Packet.Wire.{wire, wire-encode}
use chat_server_mt.Maker.{
  Env, res_login, res_sector_move, alloc, finish, make_login, make_sector_move,
}

-- The pool's packets are valid, and large enough for any answer.
pub record IsReady (env : Env) : Type 0 where
  pub pooled : IsValid env.pooled
  pub large : 512 ≤ env.pooled.buffer_size

-- A packet under construction that so far holds `q`.
pub record Holds (env : Env) (p : Packet) (q : List ℕ) : Type 0 where
  pub valid : IsValid p
  pub start : p.read_pos ≡ 0
  pub room : p.buffer_size ≡ env.pooled.buffer_size
  pub holds : payload p ≡ q

module _ {env : Env} (h : IsReady env) where
  pub alloc-Holds : Holds env (alloc env) []
  unfolding alloc Packet.clear
  alloc-Holds = record { valid = clear-IsValid h.pooled; start = refl; room = refl; holds = refl }

  pub put_data-Holds :
      {p : Packet} {q : List ℕ} (src : List ℕ) (n : ℕ)
      → n ≤ length src
      → length q + n < 512
      → Holds env p q
      → Holds env (Packet.put_data p src n).1 (q ++ take n src)
  put_data-Holds {p} {q} src n enough few b = record {
    valid = put_data-IsValid src n b.valid;
    start = unfold Packet.put_data in ground (arith, b.start);
    room = unfold Packet.put_data in ground (arith, b.room);
    holds = ground (
      arith,
      put_data_lem src n b.valid enough,
      b.holds,
      length-payload b.valid,
      ap length b.holds,
      length-take n src,
      h.large,
      b.room,
      b.start,
      b.valid,
    );
  }

  -- A block of exactly the size asked for goes in whole.
  pub put_whole-Holds :
      {p : Packet} {q : List ℕ} (src : List ℕ) (n : ℕ)
      → length src ≡ n
      → length q + n < 512
      → Holds env p q
      → Holds env (Packet.put_data p src n).1 (q ++ src)
  put_whole-Holds {p} {q} src n exact few b =
      subst (λ bytes. Holds env (Packet.put_data p src n).1 (q ++ bytes))
        (take-all n src (omega arith)) (put_data-Holds src n (omega arith) few b)

  pub put_value-Holds :
      {p : Packet} {q : List ℕ} (t : FieldType) (v : ℕ)
      → length q + size_of t < 512
      → Holds env p q
      → Holds env (put_value t v p) (q ++ le_bytes (size_of t) v)
  unfolding put_value
  put_value-Holds {p} {q} t v few b =
      subst (λ bytes. Holds env (put_value t v p) (q ++ bytes))
        (take-all (size_of t) (le_bytes (size_of t) v)
          (omega (arith, length-le_bytes (size_of t) v)))
        (put_data-Holds (le_bytes (size_of t) v) (size_of t)
          (omega (arith, length-le_bytes (size_of t) v)) few b)

  pub finish-Holds :
      {p : Packet} {q : List ℕ}
      → Holds env p q
      → wire (finish env p) ≡ frame env.key env.code env.r_key q
  unfolding finish
  finish-Holds b =
      wire-encode b.valid b.start env.key env.code env.r_key
      ∙ ap (frame env.key env.code env.r_key) b.holds

  -- With a valid pooled packet of at least 512 bytes, MakeLogin goes out as the frame of its type,
  -- the status and the account number.
  pub make_login_lem :
      (status account_no : ℕ)
      → wire (make_login env status account_no)
        ≡ frame env.key env.code env.r_key
            (le_bytes 2 res_login ++ le_bytes 1 status ++ le_bytes 8 account_no)
  unfolding make_login size_of
  make_login_lem status account_no = finish-Holds (
      put_value-Holds int64 account_no (omega arith) (
        put_value-Holds uchar status (omega arith)
          (put_value-Holds ushort res_login (omega arith) alloc-Holds)))

  -- With a valid pooled packet of at least 512 bytes, MakeSectorMove goes out as the frame of its
  -- type, the account number and the two coordinates.
  pub make_sector_move_lem :
      (account_no sector_x sector_y : ℕ)
      → wire (make_sector_move env account_no sector_x sector_y)
        ≡ frame env.key env.code env.r_key (
            le_bytes 2 res_sector_move
            ++ le_bytes 8 account_no
            ++ le_bytes 2 sector_x
            ++ le_bytes 2 sector_y)
  unfolding make_sector_move size_of
  make_sector_move_lem account_no sector_x sector_y = finish-Holds (
      put_value-Holds ushort sector_y (omega arith) (
        put_value-Holds ushort sector_x (omega arith) (
          put_value-Holds int64 account_no (omega arith)
            (put_value-Holds ushort res_sector_move (omega arith) alloc-Holds))))
