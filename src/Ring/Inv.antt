-- ===== src/Ring/Inv.antt =====
-- The representation invariant of RingBuffer.cpp and its operations.
use chat_server_mt.Base.{
  ℕ, ◌+◌, ◌-◌, ◌^◌, ◌≤◌, ◌<◌, ◌≡◌, List, ltb, if◌then◌else◌, arith, length, length-blit, ◌∙◌, add32,
  mod_one_round,
}
use chat_server_mt.Ring.{
  Ring, init, clear_buffer, get_empty_size, get_fill_size, enqueue_split, enqueue_flat, enqueue,
  dequeue, move_rear, move_front,
}

-- The index `i` places after `front`, for `i` up to the array's length.
abbrev pub ring_index : ℕ → ℕ → ℕ → ℕ
ring_index size front i = if ltb (front + i) size then front + i else front + i - size

pub record IsValid (r : Ring) : Type 0 where
  pub storage : length r.buf ≡ r.buf_size
  pub small : r.buf_size < 2 ^ 31
  pub front_in : r.front < r.buf_size
  pub fill_in : r.fill_size < r.buf_size
  pub rear_at : r.rear ≡ ring_index r.buf_size r.front r.fill_size

-- A new ring is valid and holds nothing, if the allocator gave the array asked for.
pub init-IsValid :
    (size : ℕ) (mem : List ℕ) → size + 1 < 2 ^ 31 → length mem ≡ size + 1 → IsValid (init size mem)
unfolding init
init-IsValid size mem small storage = ground arith

pub clear_buffer-IsValid : {r : Ring} → IsValid r → IsValid (clear_buffer r)
unfolding clear_buffer
clear_buffer-IsValid v = ground arith

-- In a valid ring the free bytes, the used bytes and the one byte that is never used make up the
-- array, with no wrap of either count.
pub get_empty_size-add-fill :
    {r : Ring} → IsValid r → get_empty_size r + get_fill_size r + 1 ≡ r.buf_size
unfolding get_empty_size get_fill_size
get_empty_size-add-fill v = ground arith

-- What the guards of `Enqueue` let through.
abbrev pub Fits : Ring → ℕ → Type 0
Fits r size = (0 < size) × (size < r.buf_size - r.fill_size)

module _ (r : Ring) (src : List ℕ) (size : ℕ) (v : IsValid r) (fits : Fits r size) where
  enqueue_split-IsValid : r.buf_size - r.rear < size → IsValid (enqueue_split r src size)
  unfolding enqueue_split
  enqueue_split-IsValid over = record {
    storage = length-blit _ 0 _ ∙ length-blit r.buf r.rear _ ∙ v.storage;
    small = v.small;
    front_in = v.front_in;
    fill_in = ground arith;
    rear_at = ground arith;
  }

  enqueue_flat-IsValid : size ≤ r.buf_size - r.rear → IsValid (enqueue_flat r src size)
  unfolding enqueue_flat
  enqueue_flat-IsValid room = record {
    storage = length-blit r.buf r.rear _ ∙ v.storage;
    small = v.small;
    front_in = v.front_in;
    fill_in = ground arith;
    rear_at = ground arith;
  }

-- Enqueue with an int size keeps the invariant of the ring: the indices stay in the array, the fill
-- size stays below its length, and the rear is where the front and the fill size put it.
pub enqueue-IsValid :
    {r : Ring} (src : List ℕ) (size : ℕ)
    → size < 2 ^ 32
    → IsValid r
    → IsValid (enqueue r src size).1
unfolding enqueue
enqueue-IsValid {r} src size word v =
    ground (arith, enqueue_split-IsValid r src size v, enqueue_flat-IsValid r src size v)

-- `Dequeue` keeps the invariant, whatever it is asked for.
pub dequeue-IsValid : {r : Ring} (size : ℕ) → size < 2 ^ 32 → IsValid r → IsValid (dequeue r size).2
unfolding dequeue
dequeue-IsValid {r} size word v = ground arith

-- `MoveRear` by what the free space holds, and `MoveFront` by what is there, keep the invariant.
pub move_rear-IsValid :
    {r : Ring} (n : ℕ) → n < r.buf_size - r.fill_size → IsValid r → IsValid (move_rear r n)
unfolding move_rear
move_rear-IsValid {r} n fits v = ground (arith, mod_one_round (add32 r.rear n) r.buf_size)

pub move_front-IsValid : {r : Ring} (n : ℕ) → n ≤ r.fill_size → IsValid r → IsValid (move_front r n)
unfolding move_front
move_front-IsValid {r} n fits v = ground (arith, mod_one_round (add32 r.front n) r.buf_size)
