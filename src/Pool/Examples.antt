-- ===== src/Pool/Examples.antt =====
-- A pool of lists of two nodes at work.
use chat_server_mt.Base.{ℕ, ◌+◌, ◌*◌, ◌%◌, ◌^◌, ◌≤◌, ◌≡◌, refl, none, some, [], ◌∷◌, arith, length}
use chat_server_mt.Pool.{ThreadData, Heap, pool_tls_alloc, pool_tls_free}
use chat_server_mt.Pool.Lists.{idle, sizes, chunks_of}
use chat_server_mt.Pool.Inv.{IsFresh}
use chat_server_mt.Pool.History.{
  PoolSystem, PoolSteps, starts, step, allocs, frees, new_pool, pools_of,
}
use chat_server_mt.Pool.Use.{alloc-unused, nodes-counted}
use chat_server_mt.Stack.Threads.{times_in}

abbrev addresses : ℕ → ℕ
addresses n = 16 * n + 16

addresses-IsFresh : IsFresh addresses
addresses-IsFresh i j e = omega (arith, e)

abbrev zeros : ℕ → ℕ
zeros a = 0

abbrev empty_pool : PoolSystem
empty_pool = new_pool zeros 2

-- One thread has taken a node, and the other gives it back.
abbrev first : ℕ × ThreadData × Heap
first = pool_tls_alloc addresses 7 2 none empty_pool.heap

abbrev one_out : PoolSystem
one_out = record { heap = first.2; threads = some first.1 ∷ none ∷ []; used = first.0 ∷ [] }

one_out-PoolSteps : PoolSteps addresses 2 7 one_out
one_out-PoolSteps = step (starts zeros 2 refl) (allocs [] (none ∷ []) none refl refl)

abbrev second : ThreadData × Heap
second = pool_tls_free addresses 7 2 first.0 none first.2

abbrev given_back : PoolSystem
given_back = record { heap = second.1; threads = some first.1 ∷ some second.0 ∷ []; used = [] }

given_back-PoolSteps : PoolSteps addresses 2 7 given_back
given_back-PoolSteps =
    step one_out-PoolSteps (frees (some first.1 ∷ []) [] none first.0 [] [] refl refl refl)

alloc-unused_example :
    times_in (pool_tls_alloc addresses 7 2 (some first.1) one_out.heap).0 one_out.used ≡ 0
alloc-unused_example =
    alloc-unused addresses 2 7 (omega arith) addresses-IsFresh one_out [] (none ∷ []) (some first.1)
      one_out-PoolSteps refl

nodes-counted_example :
    (given_back.heap.use_size ≡ length given_back.used % 2 ^ 32)
    × (given_back.heap.alloc_size ≡ given_back.heap.made % 2 ^ 32)
    × (length given_back.used
          + sizes (chunks_of 2 given_back.heap.chunk_pool)
          + sizes (pools_of given_back.threads)
        ≡ given_back.heap.made)
    × ((b : ℕ)
        → times_in b given_back.used
            + idle given_back.heap.next b (chunks_of 2 given_back.heap.chunk_pool)
            + idle given_back.heap.next b (pools_of given_back.threads)
          ≤ 1)
nodes-counted_example =
    nodes-counted addresses 2 7 (omega arith) addresses-IsFresh given_back given_back-PoolSteps
