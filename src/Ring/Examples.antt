-- ===== src/Ring/Examples.antt =====
-- Concrete rings, a concrete socket, and the ring's theorems on them.
use chat_server_mt.Base.{ℕ, ◌≡◌, refl, List, [], ◌∷◌, ◌++◌, arith, take, drop, blit, slice}
use chat_server_mt.Ring.{Ring, enqueue, get_empty_size, get_buffer_size}
use chat_server_mt.Ring.Inv.{IsValid}
use chat_server_mt.Ring.Contents.{contents}
use chat_server_mt.Ring.Refine.{enqueues, dequeues, peeks, clears, run, fifo_run, run_refines}
use chat_server_mt.Ring.Segments.{SocketIo, received, received_lem}

-- A ring of four bytes in which three wrap around the end of the array.
abbrev wrapped : Ring
wrapped = record { buf = 9 ∷ 8 ∷ 7 ∷ 6 ∷ 5 ∷ []; buf_size = 5; front = 3; rear = 1; fill_size = 3 }

-- A ring of four bytes that holds one byte, at its start.
abbrev nearly_empty : Ring
nearly_empty = record {
  buf = 9 ∷ 8 ∷ 7 ∷ 6 ∷ 5 ∷ [];
  buf_size = 5;
  front = 2;
  rear = 3;
  fill_size = 1;
}

wrapped-IsValid : IsValid wrapped
wrapped-IsValid = record {
  storage = refl;
  small = omega arith;
  front_in = omega arith;
  fill_in = omega arith;
  rear_at = refl;
}

nearly_empty-IsValid : IsValid nearly_empty
nearly_empty-IsValid = record {
  storage = refl;
  small = omega arith;
  front_in = omega arith;
  fill_in = omega arith;
  rear_at = refl;
}

-- A socket that fills and reads its buffers one after the other.
abbrev fill_all : List ℕ → List (ℕ × ℕ) → List ℕ → List ℕ
fill_all buf [] bytes = buf
fill_all buf ((at, n) ∷ []) bytes = blit buf at bytes
fill_all buf ((at, n) ∷ s ∷ ss) bytes =
    fill_all (blit buf at (take n bytes)) (s ∷ ss) (drop n bytes)

abbrev gather_all : List ℕ → List (ℕ × ℕ) → List ℕ
gather_all buf [] = []
gather_all buf ((at, n) ∷ []) = slice buf at n
gather_all buf ((at, n) ∷ s ∷ ss) = slice buf at n ++ gather_all buf (s ∷ ss)

abbrev pub in_order : SocketIo
in_order = record {
  fill = fill_all;
  gather = gather_all;
  fill-one = λ buf at n bytes h. refl;
  fill-two = λ buf at n at' n' bytes h. refl;
  gather-one = λ buf at n. refl;
  gather-two = λ buf at n at' n'. refl;
}

contents-wrapped : contents wrapped ≡ 6 ∷ 5 ∷ 9 ∷ []
contents-wrapped = refl

run_refines_example :
    run wrapped (enqueues (1 ∷ 2 ∷ []) ∷ dequeues 2 ∷ enqueues (1 ∷ 2 ∷ []) ∷ peeks 3 ∷ clears ∷ [])
    ≡ fifo_run 4
        (6 ∷ 5 ∷ 9 ∷ [])
        (enqueues (1 ∷ 2 ∷ []) ∷ dequeues 2 ∷ enqueues (1 ∷ 2 ∷ []) ∷ peeks 3 ∷ clears ∷ [])
unfolding get_buffer_size
run_refines_example =
    run_refines (enqueues (1 ∷ 2 ∷ []) ∷ dequeues 2 ∷ enqueues (1 ∷ 2 ∷ []) ∷ peeks 3 ∷ clears ∷ [])
      (omega arith, (omega arith, (omega arith, (omega arith, (tt, tt))))) wrapped-IsValid

received_lem_example :
    received in_order nearly_empty (1 ∷ 2 ∷ 3 ∷ []) ≡ (enqueue nearly_empty (1 ∷ 2 ∷ 3 ∷ []) 3).1
received_lem_example =
    received_lem in_order nearly_empty (1 ∷ 2 ∷ 3 ∷ []) nearly_empty-IsValid
      (unfold get_empty_size in omega arith) (omega arith)
