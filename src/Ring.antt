-- ===== src/Ring.antt =====
-- RingBuffer.h and RingBuffer.cpp: the byte ring that each session receives into and sends from.
-- `int` and `unsigned` fields and arguments are their 32-bit patterns. The lock is not part of
-- the state: the server never takes it, and each ring has one reader and one writer.
pub mod Inv
pub mod Contents
pub mod Refine
pub mod Segments
pub mod Examples
use chat_server_mt.Base.{
  ℕ, ◌+◌, ◌-◌, ◌%◌, Bool, ◌||◌, List, [], ◌∷◌, ◌++◌, ltb, leb, ◌==◌, if◌then◌else◌, add32, sub32,
  is_negative, ltb_int, blit, slice, take,
}

pub record Ring : Type 0 where
  pub buf : List ℕ
  pub buf_size : ℕ
  pub front : ℕ
  pub rear : ℕ
  pub fill_size : ℕ

-- The constructor; `mem` is what the buffer allocator returned.
unfoldable pub init : ℕ → List ℕ → Ring
init size mem = record { buf = mem; buf_size = add32 size 1; front = 0; rear = 0; fill_size = 0 }

unfoldable pub clear_buffer : Ring → Ring
clear_buffer r = record r { rear = 0; front = 0; fill_size = 0 }

unfoldable pub get_fill_size : Ring → ℕ
get_fill_size r = r.fill_size

unfoldable pub get_empty_size : Ring → ℕ
get_empty_size r = sub32 (sub32 r.buf_size r.fill_size) 1

unfoldable pub get_buffer_size : Ring → ℕ
get_buffer_size r = sub32 r.buf_size 1

unfoldable pub is_full : Ring → Bool
is_full r = leb r.buf_size (add32 r.fill_size 1)

unfoldable pub is_empty : Ring → Bool
is_empty r = r.fill_size == 0

-- How many bytes can be written at `rear` before the array ends or the ring is full.
unfoldable pub direct_enque_size : Ring → ℕ
direct_enque_size r =
    if r.fill_size == sub32 r.buf_size 1
    then 0
    else if ltb r.rear r.front
    then sub32 (sub32 r.front r.rear) 1
    else if r.front == 0
    then sub32 (sub32 r.buf_size r.rear) 1
    else sub32 r.buf_size r.rear

-- How many bytes can be read at `front` before the array ends or the ring is empty.
unfoldable pub direct_deque_size : Ring → ℕ
direct_deque_size r =
    if r.fill_size == 0
    then 0
    else if ltb r.rear r.front
    then sub32 r.buf_size r.front
    else sub32 r.rear r.front

-- The two writes of an enqueue that passes the end of the array, and the single one.
unfoldable pub enqueue_split : Ring → List ℕ → ℕ → Ring
enqueue_split r src size =
    let size1 = sub32 r.buf_size r.rear in
    let size2 = sub32 size size1 in
    record r {
      buf = blit (blit r.buf r.rear (take size1 src)) 0 (slice src size1 size2);
      rear = size2;
      fill_size = add32 r.fill_size size;
    }

unfoldable pub enqueue_flat : Ring → List ℕ → ℕ → Ring
enqueue_flat r src size =
    let next = add32 r.rear size in
    record r {
      buf = blit r.buf r.rear (take size src);
      rear = if next == r.buf_size then 0 else next;
      fill_size = add32 r.fill_size size;
    }

-- `src` is the memory at `_buf`, of which the first `size` bytes are read.
unfoldable pub enqueue : Ring → List ℕ → ℕ → ℕ × Ring
unfolding enqueue_split enqueue_flat
enqueue r src size =
    if size == 0 || is_negative size
    then (0, r)
    else if ltb (sub32 (sub32 r.buf_size r.fill_size) 1) size
    then (0, r)
    else if ltb (sub32 r.buf_size r.rear) size
    then (size, enqueue_split r src size)
    else (size, enqueue_flat r src size)

-- The bytes that `Dequeue` and `Peek` copy out: in two reads past the end of the array.
unfoldable pub read_front : Ring → ℕ → List ℕ
read_front r size =
    let size1 = sub32 r.buf_size r.front in
    if ltb size1 size
    then slice r.buf r.front size1 ++ slice r.buf 0 (sub32 size size1)
    else slice r.buf r.front size

-- Where `Dequeue` leaves `front`.
unfoldable pub advance_front : Ring → ℕ → ℕ
advance_front r size =
    let size1 = sub32 r.buf_size r.front in
    let next = add32 r.front size in
    if ltb size1 size then sub32 size size1 else if next == r.buf_size then 0 else next

-- The result, the bytes written to `_buf`, and the ring.
unfoldable pub dequeue : Ring → ℕ → ℕ × List ℕ × Ring
unfolding read_front advance_front
dequeue r size =
    if size == 0 || is_negative size
    then (0, [], r)
    else if ltb_int r.fill_size size
    then (0, [], r)
    else (
      size,
      read_front r size,
      record r { front = advance_front r size; fill_size = sub32 r.fill_size size },
    )

unfoldable pub peek : Ring → ℕ → ℕ × List ℕ
unfolding read_front
peek r size =
    if size == 0 || is_negative size
    then (0, [])
    else if ltb_int r.fill_size size
    then (0, [])
    else (size, read_front r size)

-- After the socket wrote into the ring's memory, or read from it.
unfoldable pub move_rear : Ring → ℕ → Ring
move_rear r size = record r {
  rear = add32 r.rear size % r.buf_size;
  fill_size = add32 r.fill_size size;
}

unfoldable pub move_front : Ring → ℕ → Ring
move_front r size = record r {
  front = add32 r.front size % r.buf_size;
  fill_size = sub32 r.fill_size size;
}
