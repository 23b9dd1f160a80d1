-- ===== src/Ring/Refine.antt =====
-- The operations of RingBuffer.cpp and the bounded queue of the bytes that a ring holds.
use chat_server_mt.Base.{
  ℕ, ◌^◌, ◌≤◌, ◌<◌, ◌≡◌, refl, List, [], ◌∷◌, arith, sub32, length, take, drop, length-take,
  take-length, ap₂, ◌∙◌,
}
use chat_server_mt.Fifo
use chat_server_mt.Fifo.{Fifo}
use chat_server_mt.Ring.{
  Ring, get_buffer_size, clear_buffer, enqueue_split, enqueue_flat, enqueue, dequeue, peek,
  advance_front,
}
use chat_server_mt.Ring.Inv.{
  IsValid, ring_index, enqueue-IsValid, dequeue-IsValid, clear_buffer-IsValid,
}
use chat_server_mt.Ring.Contents.{
  contents, length-contents, contents-enqueue_flat, contents-enqueue_split, read_front_lem,
  contents-drop,
}

-- Enqueue with an int size into a valid ring accepts a block exactly when the bounded queue of its
-- bytes does, and then appends it.
pub enqueue_refines :
    {r : Ring} (src : List ℕ) (size : ℕ)
    → IsValid r
    → size < 2 ^ 32
    → size ≤ length src
    → let (n, r') = enqueue r src size in
      (n, contents r') ≡ Fifo.enqueue (get_buffer_size r) (contents r) (take size src)
unfolding enqueue get_buffer_size Fifo.enqueue
enqueue_refines {r} src size v word enough = ground (
  arith,
  length-contents r,
  length-take size src,
  contents-enqueue_flat r src size v,
  contents-enqueue_split r src size v,
)

advance_front_lem :
    (r : Ring) (size : ℕ)
    → IsValid r
    → size ≤ r.fill_size
    → advance_front r size ≡ ring_index r.buf_size r.front size
unfolding advance_front
advance_front_lem r size v few = ground arith

contents-advance :
    (r : Ring) (size : ℕ)
    → IsValid r
    → size ≤ r.fill_size
    → contents (record r { front = advance_front r size; fill_size = sub32 r.fill_size size })
      ≡ drop size (contents r)
contents-advance r size v few =
    contents-drop r size v few
      (record r { front = advance_front r size; fill_size = sub32 r.fill_size size }) refl refl
      (advance_front_lem r size v few) (ground arith)

-- Dequeue with an int size from a valid ring gives the oldest bytes and leaves the others, or
-- refuses, exactly as the queue of its bytes does.
pub dequeue_refines :
    {r : Ring} (size : ℕ)
    → IsValid r
    → size < 2 ^ 32
    → let (n, out, r') = dequeue r size in (n, out, contents r') ≡ Fifo.dequeue (contents r) size
unfolding dequeue Fifo.dequeue
dequeue_refines {r} size v word = ground (
  arith,
  length-contents r,
  read_front_lem r size v,
  advance_front_lem r size v,
  contents-advance r size v,
)

-- `Peek` shows what `Dequeue` would give.
pub peek_refines :
    {r : Ring} (size : ℕ) → IsValid r → size < 2 ^ 32 → peek r size ≡ Fifo.peek (contents r) size
unfolding peek Fifo.peek
peek_refines {r} size v word = ground (arith, length-contents r, read_front_lem r size v)

-- The calls of a client, in any order.
pub data Call : Type 0 where
  enqueues : List ℕ → Call
  dequeues peeks : ℕ → Call
  clears : Call

-- What a call returns: its result and the bytes that it gives.
abbrev pub Reply : Type 0
Reply = ℕ × List ℕ

pub step : Ring → Call → Reply × Ring
step r (enqueues bytes) = let (n, r') = enqueue r bytes (length bytes) in ((n, []), r')
step r (dequeues n) = let (k, out, r') = dequeue r n in ((k, out), r')
step r (peeks n) = (peek r n, r)
step r clears = ((0, []), clear_buffer r)

pub run : Ring → List Call → List Reply
run r [] = []
run r (c ∷ cs) = let (reply, r') = step r c in reply ∷ run r' cs

pub fifo_step : ℕ → Fifo → Call → Reply × Fifo
fifo_step cap q (enqueues bytes) = let (n, q') = Fifo.enqueue cap q bytes in ((n, []), q')
fifo_step cap q (dequeues n) = let (k, out, q') = Fifo.dequeue q n in ((k, out), q')
fifo_step cap q (peeks n) = (Fifo.peek q n, q)
fifo_step cap q clears = ((0, []), [])

pub fifo_run : ℕ → Fifo → List Call → List Reply
fifo_run cap q [] = []
fifo_run cap q (c ∷ cs) = let (reply, q') = fifo_step cap q c in reply ∷ fifo_run cap q' cs

-- The sizes in a call are `int`s.
abbrev pub IsInt : Call → Type 0
IsInt (enqueues bytes) = length bytes < 2 ^ 32
IsInt (dequeues n) = n < 2 ^ 32
IsInt (peeks n) = n < 2 ^ 32
IsInt clears = Unit {0}

abbrev pub AllInt : List Call → Type 0
AllInt [] = Unit {0}
AllInt (c ∷ cs) = IsInt c × AllInt cs

step-IsValid : (r : Ring) (c : Call) → IsInt c → IsValid r → IsValid (step r c).1
unfolding step
step-IsValid r (enqueues bytes) h v = enqueue-IsValid bytes (length bytes) h v
step-IsValid r (dequeues n) h v = dequeue-IsValid n h v
step-IsValid r (peeks n) h v = v
step-IsValid r clears h v = clear_buffer-IsValid v

buf_size-step : (r : Ring) (c : Call) → (step r c).1.buf_size ≡ r.buf_size
unfolding step enqueue dequeue clear_buffer enqueue_split enqueue_flat
buf_size-step r (enqueues bytes) = ground arith
buf_size-step r (dequeues n) = ground arith
buf_size-step r (peeks n) = refl
buf_size-step r clears = refl

step_refines :
    (r : Ring) (c : Call)
    → IsInt c
    → IsValid r
    → ((step r c).0 ≡ (fifo_step (get_buffer_size r) (contents r) c).0)
      × (contents (step r c).1 ≡ (fifo_step (get_buffer_size r) (contents r) c).1)
unfolding step fifo_step
step_refines r (enqueues bytes) h v =
    ground (arith, enqueue_refines bytes (length bytes) v, take-length bytes)
step_refines r (dequeues n) h v = ground (arith, dequeue_refines n v)
step_refines r (peeks n) h v = (peek_refines n v h, refl)
step_refines r clears h v = (refl, unfold clear_buffer in refl)

-- No sequence of calls of Enqueue, Dequeue, Peek and ClearBuffer with int sizes tells a valid ring
-- from the bounded queue of the bytes that it holds.
pub run_refines :
    (cs : List Call) {r : Ring}
    → AllInt cs
    → IsValid r
    → run r cs ≡ fifo_run (get_buffer_size r) (contents r) cs
unfolding run fifo_run get_buffer_size
run_refines [] h v = refl
run_refines (c ∷ cs) {r} h v = ap₂ ◌∷◌ same.0 (
    run_refines cs h.1 (step-IsValid r c h.0 v)
    ∙ ap₂ (λ size q. fifo_run (sub32 size 1) q cs) (buf_size-step r c) same.1)
  where
    same :
        ((step r c).0 ≡ (fifo_step (get_buffer_size r) (contents r) c).0)
        × (contents (step r c).1 ≡ (fifo_step (get_buffer_size r) (contents r) c).1)
    same = step_refines r c h.0 v
