-- ===== src/Packet/Inv.antt =====
-- The cursors of a packet stay in order and inside its array, and the queue of bytes between them.
use chat_server_mt.Base.{
  ℕ, ◌+◌, ◌-◌, ◌≤◌, ◌<◌, ◌≡◌, List, [], ◌++◌, leb, ltb, if◌then◌else◌, arith, length, length-blit,
  length-slice, length-take, length-append, get_or-blit, get_or-slice, get_or-append, get_or_ext,
  slice, take-slice, drop-slice, take, drop,
}
use chat_server_mt.Packet.{
  Packet, init, clear, move_write_pos, move_read_pos, put_data, get_data, net_header_size,
}

pub record IsValid (p : Packet) : Type 0 where
  pub storage : length p.hidden_buf ≡ net_header_size + p.buffer_size
  pub write_in : p.write_pos < p.buffer_size
  pub read_in : p.read_pos ≤ p.write_pos
  pub counted : p.data_size ≡ p.write_pos - p.read_pos

-- The bytes written and not yet read.
abbrev pub payload : Packet → List ℕ
payload p = slice p.hidden_buf (net_header_size + p.read_pos) p.data_size

pub init-IsValid :
    (size : ℕ) (mem : List ℕ)
    → 0 < size
    → length mem ≡ net_header_size + size
    → IsValid (init size mem)
unfolding init
init-IsValid size mem pos storage = ground arith

pub clear-IsValid : {p : Packet} → IsValid p → IsValid (clear p)
unfolding clear
clear-IsValid v = ground arith

pub length-payload : {p : Packet} → IsValid p → length (payload p) ≡ p.data_size
length-payload {p} v =
    length-slice p.hidden_buf (net_header_size + p.read_pos) p.data_size (omega arith)

-- `MoveWritePos` and `MoveReadPos` stop at the ends, and report how far they went.
pub move_write_pos-IsValid : {p : Packet} (n : ℕ) → IsValid p → IsValid (move_write_pos p n).1
unfolding move_write_pos
move_write_pos-IsValid n v = ground arith

pub move_read_pos-IsValid : {p : Packet} (n : ℕ) → IsValid p → IsValid (move_read_pos p n).1
unfolding move_read_pos
move_read_pos-IsValid n v = ground arith

-- `PutData` keeps the packet valid, also when it refuses.
pub put_data-IsValid :
    {p : Packet} (src : List ℕ) (n : ℕ) → IsValid p → IsValid (put_data p src n).1
unfolding put_data
put_data-IsValid {p} src n v =
    ground (arith, length-blit p.hidden_buf (net_header_size + p.write_pos) (take n src))

pub get_data-IsValid : {p : Packet} (n : ℕ) → IsValid p → IsValid (get_data p n).2
unfolding get_data
get_data-IsValid {p} n v = ground arith

appended :
    {p : Packet} (src : List ℕ) (n : ℕ)
    → IsValid p
    → n ≤ length src
    → p.write_pos + n < p.buffer_size
    → payload (put_data p src n).1 ≡ payload p ++ take n src
unfolding put_data
appended {p} src n v enough room =
    get_or_ext 0 (payload (put_data p src n).1) (payload p ++ take n src)
      (ground (
        arith,
        length-append (payload p) (take n src),
        length-payload v,
        length-take n src,
        length-payload (put_data-IsValid src n v),
      ))
      λ i h. ground (
        arith,
        length-payload v,
        length-payload (put_data-IsValid src n v),
        get_or-append (payload p) (take n src) i 0,
        get_or-slice p.hidden_buf (net_header_size + p.read_pos) p.data_size i 0,
        get_or-slice (put_data p src n).1.hidden_buf (net_header_size + p.read_pos)
            (p.data_size + n) i 0,
        get_or-blit p.hidden_buf (net_header_size + p.write_pos) (take n src)
            (net_header_size + p.read_pos + i) 0,
        length-take n src,
      )

-- What a packet with room for `room` more bytes does with a block, and with a request.
abbrev pub accept : ℕ → List ℕ → List ℕ → ℕ × List ℕ
accept room q bytes = if leb room (length bytes) then (0, q) else (length bytes, q ++ bytes)

abbrev pub give : List ℕ → ℕ → ℕ × List ℕ × List ℕ
give q n = if ltb (length q) n then (0, [], q) else (n, take n q, drop n q)

-- PutData of a block of a given size into a valid packet appends the whole block to the payload and
-- returns its size, or, unless the bytes behind the write position are more than the block, returns
-- 0 and leaves the payload as it was.
pub put_data_lem :
    {p : Packet} (src : List ℕ) (n : ℕ)
    → IsValid p
    → n ≤ length src
    → let (k, p') = put_data p src n in
      (k, payload p') ≡ accept (p.buffer_size - p.write_pos) (payload p) (take n src)
unfolding put_data
put_data_lem {p} src n v enough = ground (arith, length-take n src, appended src n v enough)

-- GetData from a valid packet gives the first bytes of the payload and leaves the others, or, when
-- there are fewer than it asks for, returns 0 and leaves the payload as it was.
pub get_data_lem :
    {p : Packet} (n : ℕ)
    → IsValid p
    → let (k, out, p') = get_data p n in (k, out, payload p') ≡ give (payload p) n
unfolding get_data
get_data_lem {p} n v = ground (
  arith,
  length-payload v,
  take-slice p.hidden_buf (net_header_size + p.read_pos) p.data_size n,
  drop-slice p.hidden_buf (net_header_size + p.read_pos) p.data_size n,
)
