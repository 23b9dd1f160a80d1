-- ===== src/Packet.antt =====
-- CPacket.h and CPacket.cpp, NetProtocol.h: the serialisation buffer and its wire form.
-- `hidden_buf` is the whole allocation: five bytes of header room, then the payload array that the
-- source calls `buffer`. A size argument is a number: every caller passes a `sizeof`, a constant
-- or an `unsigned short`. The interlocked reference count is a field like the others.

pub mod Inv
pub mod Codec
pub mod Wire
pub mod Fields
pub mod Examples
use chat_server_mt.Base.{
  ℕ, ◌+◌, ◌-◌, ◌*◌, ◌/◌, ◌%◌, ◌^◌, zero, suc, Bool, List, [], ◌∷◌, ◌++◌, ltb, leb, ◌==◌,
  if◌then◌else◌, blit, slice, take, get_or, bit_xor, u8, add32, sub32, length,
}

pub record Packet : Type 0 where
  pub hidden_buf : List ℕ
  pub buffer_size : ℕ
  pub data_size : ℕ
  pub write_pos : ℕ
  pub read_pos : ℕ
  pub ref_cnt : ℕ

-- sizeof(NetPacketHeader), packed: code, len (two bytes), rand_key, check_sum.
abbrev pub net_header_size : ℕ
net_header_size = 5

-- sizeof(LanPacketHeader): len (two bytes).
abbrev pub lan_header_size : ℕ
lan_header_size = 2

abbrev pub default_size : ℕ
default_size = 2000

-- The offsets of the header's fields in `hidden_buf`.
abbrev pub len_at : ℕ
len_at = 1

abbrev pub rand_key_at : ℕ
rand_key_at = 3

abbrev pub check_sum_at : ℕ
check_sum_at = 4

unfoldable pub clear : Packet → Packet
clear p = record p { data_size = 0; write_pos = 0; read_pos = 0; ref_cnt = 1 }

-- The constructor; `mem` is the new array of `size + sizeof(NetPacketHeader)` bytes.
unfoldable pub init : ℕ → List ℕ → Packet
unfolding clear
init size mem = clear (record {
  hidden_buf = mem;
  buffer_size = size;
  data_size = 0;
  write_pos = 0;
  read_pos = 0;
  ref_cnt = 0;
})

unfoldable pub move_write_pos : Packet → ℕ → ℕ × Packet
move_write_pos p size =
    if size == 0
    then (0, p)
    else let n =
        (if leb p.buffer_size (p.write_pos + size)
          then p.buffer_size - p.write_pos - 1
          else size) in
      (n, record p { write_pos = p.write_pos + n; data_size = p.data_size + n })

unfoldable pub move_read_pos : Packet → ℕ → ℕ × Packet
move_read_pos p size =
    if size == 0
    then (0, p)
    else let n = (if ltb p.write_pos (p.read_pos + size) then p.write_pos - p.read_pos else size) in
      (n, record p { read_pos = p.read_pos + n; data_size = p.data_size - n })

-- `src` is the memory at the pointer, of which the first `size` bytes are read.
unfoldable pub put_data : Packet → List ℕ → ℕ → ℕ × Packet
put_data p src size = if leb p.buffer_size (p.write_pos + size) then (0, p) else (
  size,
  record p {
    hidden_buf = blit p.hidden_buf (net_header_size + p.write_pos) (take size src);
    write_pos = p.write_pos + size;
    data_size = p.data_size + size;
  },
)

-- The result, the bytes written to `dest` and the packet. A refusal writes nothing to `dest`.
unfoldable pub get_data : Packet → ℕ → ℕ × List ℕ × Packet
get_data p size = if ltb p.data_size size then (0, [], p) else (
  size,
  slice p.hidden_buf (net_header_size + p.read_pos) size,
  record p { read_pos = p.read_pos + size; data_size = p.data_size - size },
)

-- The types of the operators `<<` and `>>`.
pub data FieldType : Type 0 where
  uchar char short ushort int uint long ulong float int64 double : FieldType

unfoldable pub size_of : FieldType → ℕ
size_of uchar = 1
size_of char = 1
size_of short = 2
size_of ushort = 2
size_of int = 4
size_of uint = 4
size_of long = 4
size_of ulong = 4
size_of float = 4
size_of int64 = 8
size_of double = 8

-- The memory of a value of n bytes, given by its bit pattern, lowest byte first.
abbrev pub le_bytes : ℕ → ℕ → List ℕ
le_bytes zero v = []
le_bytes (suc n) v = u8 v ∷ le_bytes n (v / 256)

abbrev pub of_le_bytes : List ℕ → ℕ
of_le_bytes [] = 0
of_le_bytes (b ∷ bs) = b + 256 * of_le_bytes bs

-- operator<<
unfoldable pub put_value : FieldType → ℕ → Packet → Packet
put_value t v p = (put_data p (le_bytes (size_of t) v) (size_of t)).1

-- operator>>; `old` is what the variable held, which a refused read leaves there.
unfoldable pub get_value : FieldType → ℕ → Packet → ℕ × Packet
get_value t old p =
    let (n, bytes, p') = get_data p (size_of t) in ((if n == 0 then old else of_le_bytes bytes), p')

-- `sum += buf[i]` over the payload, for an `unsigned char sum`.
unfoldable pub check_sum : ℕ → List ℕ → ℕ
check_sum sum [] = sum
check_sum sum (b ∷ bs) = check_sum (u8 (sum + b)) bs

-- The loop of `Encode` over the checksum and the payload, from index `i`.
unfoldable pub encode_loop : ℕ → ℕ → ℕ → ℕ → ℕ → List ℕ → List ℕ
encode_loop key r_key i p e [] = []
encode_loop key r_key i p e (b ∷ bs) =
    let p' = u8 (bit_xor b (p + r_key + i + 1)) in
    let e' = u8 (bit_xor p' (e + key + i + 1)) in e' ∷ encode_loop key r_key (i + 1) p' e' bs

-- The loop of `Decode`.
unfoldable pub decode_loop : ℕ → ℕ → ℕ → ℕ → ℕ → List ℕ → List ℕ
decode_loop key r_key i old_p e [] = []
decode_loop key r_key i old_p e (b ∷ bs) =
    let p = u8 (bit_xor b (e + key + i + 1)) in
    let d = u8 (bit_xor p (old_p + r_key + i + 1)) in d ∷ decode_loop key r_key (i + 1) p b bs

-- What `Encode` does to the allocation of a packet with `n` payload bytes.
pub encode_mem : ℕ → ℕ → ℕ → ℕ → List ℕ → List ℕ
encode_mem key code r_key n mem =
    let summed = blit mem check_sum_at (check_sum 0 (slice mem net_header_size n) ∷ []) in
    let region = slice summed check_sum_at (n + 1) in
    let coded = blit summed check_sum_at (encode_loop key r_key 0 0 0 region) in
    blit coded 0 (code ∷ u8 n ∷ u8 (n / 256) ∷ r_key ∷ [])

-- `packet_key`, `packet_code` and the byte that `rand` gave are arguments.
unfoldable pub encode : ℕ → ℕ → ℕ → Packet → Packet
unfolding encode_mem
encode key code r_key p = record p {
  hidden_buf = encode_mem key code r_key p.data_size p.hidden_buf;
}

-- What `Decode` does to the allocation.
pub decode_mem : ℕ → ℕ → List ℕ → List ℕ
decode_mem key n mem =
    let region = slice mem check_sum_at (n + 1) in
    blit mem check_sum_at (decode_loop key (get_or mem rand_key_at 0) 0 0 0 region)

unfoldable pub decode : ℕ → Packet → Bool × Packet
unfolding decode_mem
decode key p =
    let plain = decode_mem key p.data_size p.hidden_buf in
    let sum = check_sum 0 (slice plain net_header_size p.data_size) in
    (sum == get_or plain check_sum_at 0, record p { hidden_buf = plain })

-- GetBufferPtrNet writes the length into the header; the bytes are those that are then sent.
unfoldable pub set_len_net : Packet → Packet
set_len_net p = record p {
  hidden_buf = blit p.hidden_buf len_at (u8 p.data_size ∷ u8 (p.data_size / 256) ∷ []);
}

unfoldable pub get_data_size_net : Packet → ℕ
get_data_size_net p = p.data_size + net_header_size

-- GetBufferPtrLan puts its shorter header right before the payload.
unfoldable pub set_len_lan : Packet → Packet
set_len_lan p = record p {
  hidden_buf =
      blit p.hidden_buf (net_header_size - lan_header_size)
        (u8 p.data_size ∷ u8 (p.data_size / 256) ∷ []);
}

unfoldable pub get_data_size_lan : Packet → ℕ
get_data_size_lan p = p.data_size + lan_header_size

unfoldable pub add_ref : Packet → Packet
add_ref p = record p { ref_cnt = add32 p.ref_cnt 1 }

-- The Boolean says that the packet went back to the pool.
unfoldable pub sub_ref : Packet → Bool × Packet
sub_ref p = let n = sub32 p.ref_cnt 1 in (n == 0, record p { ref_cnt = n })

-- The copy constructor, into the new array `mem`.
unfoldable pub copy_of : Packet → List ℕ → Packet
copy_of src mem =
    let p = init src.buffer_size mem in
    record p {
      hidden_buf = blit mem net_header_size (slice src.hidden_buf net_header_size src.buffer_size);
      data_size = src.data_size;
      write_pos = src.write_pos;
      read_pos = src.read_pos;
    }
