-- ===== src/Pool.antt =====
-- MemoryPoolTls.h: two lists of nodes for each thread, and a stack of lists for all. A node is an
-- address, and 0 the null pointer. The stack of lists is a LockFreeStack, whose Push and Pop are
-- single steps here. The constructors and destructors of the nodes' data are left out.

pub mod Lists
pub mod Inv
pub mod Keeps
pub mod Calls
pub mod History
pub mod Use
mod Examples
use chat_server_mt.Base.{
  ℕ, zero, suc, ◌+◌, ◌-◌, Option, none, some, List, [], ◌∷◌, ◌==◌, if◌then◌else◌, add32, sub32,
}

-- POOL: a list from `top`, and the number of nodes that count.
pub record Pool : Type 0 where
  pub top : ℕ
  pub size : ℕ

pub record ThreadData : Type 0 where
  pub pool : Pool
  pub chunk : Pool

-- `made` is the number of nodes that were allocated so far.
pub record Heap : Type 0 where
  pub next : ℕ → ℕ
  pub made : ℕ
  pub chunk_pool : List ℕ
  pub use_size : ℕ
  pub alloc_size : ℕ

abbrev pub set : (ℕ → ℕ) → ℕ → ℕ → ℕ → ℕ
set f a v b = if b == a then v else f b

-- POOL::Alloc and POOL::Free.
unfoldable pub pool_alloc : Pool → Heap → ℕ × Pool
pool_alloc p h = (p.top, record { top = h.next p.top; size = p.size - 1 })

unfoldable pub pool_free : ℕ → Pool → Heap → Pool × Heap
pool_free a p h = (record { top = a; size = p.size + 1 }, record h { next = set h.next a p.top })

unfoldable pub pool_clear : Pool
pool_clear = record { top = 0; size = 0 }

-- `malloc n` is the address that the allocation behind `n` others gives.
module _ (malloc : ℕ → ℕ) where
  -- The loop of POOL::Generate.
  unfoldable pub generate_loop : ℕ → ℕ → Heap → ℕ × Heap
  generate_loop zero top h = (top, h)
  generate_loop (suc i) top h =
      let temp = malloc h.made in
      generate_loop i temp (record h { next = set h.next temp top; made = h.made + 1 })

  unfoldable pub generate : ℕ → Pool → Heap → Pool × Heap
  generate size p h =
      let (top, h') = generate_loop size p.top h in (record { top = top; size = size }, h')

  -- GeneratePool(int): a new POOL, whose constructor leaves `top` as the memory was.
  unfoldable pub generate_pool : ℕ → ℕ → Heap → Pool × Heap
  unfolding generate
  generate_pool garbage init_size h =
      generate init_size (record { top = garbage; size = 0 })
        (record h { alloc_size = add32 h.alloc_size init_size })

  -- GeneratePool(POOL*).
  unfoldable pub refill : ℕ → Pool → Heap → Pool × Heap
  unfolding generate
  refill default_size p h =
      generate default_size p (record h { alloc_size = add32 h.alloc_size default_size })

  module _ (garbage default_size : ℕ) where
    -- The data of the thread, made by its first call.
    unfoldable pub thread_data : Option ThreadData → Heap → ThreadData × Heap
    unfolding generate_pool
    thread_data (some td) h = (td, h)
    thread_data none h =
        let (pool, h1) = generate_pool garbage default_size h in
        let (chunk, h2) = generate_pool garbage 0 h1 in (record { pool = pool; chunk = chunk }, h2)

    -- `td->pool` with nodes: its own, those of a list of the stack, or new ones.
    unfoldable pub pool_with_nodes : Pool → Heap → Pool × Heap
    unfolding refill
    pool_with_nodes p h =
        if p.size == 0
        then elim h.chunk_pool [
          | [] ↦ refill default_size p h
          | chunk_top ∷ chunks ↦
              (record { top = chunk_top; size = default_size }, record h { chunk_pool = chunks })
        ]
        else (p, h)

    unfoldable pub alloc_from_pool : ThreadData → Heap → ℕ × ThreadData × Heap
    unfolding pool_with_nodes pool_alloc
    alloc_from_pool td h =
        let (pool, h') = pool_with_nodes td.pool h in
        let (ret, pool') = pool_alloc pool h' in (ret, record td { pool = pool' }, h')

    unfoldable pub alloc_from_chunk : ThreadData → Heap → ℕ × ThreadData × Heap
    unfolding pool_alloc
    alloc_from_chunk td h =
        let (ret, chunk) = pool_alloc td.chunk h in (ret, record td { chunk = chunk }, h)

    unfoldable pub pool_tls_alloc : Option ThreadData → Heap → ℕ × ThreadData × Heap
    unfolding thread_data alloc_from_pool alloc_from_chunk
    pool_tls_alloc t h =
        let (td, h1) = thread_data t h in
        let (ret, td', h2) =
          (if td.chunk.size == 0 then alloc_from_pool td h1 else alloc_from_chunk td h1) in
        (ret, td', record h2 { use_size = add32 h2.use_size 1 })

    -- A list that is full goes on the stack before the node is kept.
    unfoldable pub free_chunk : ℕ → Pool → Heap → Pool × Heap
    unfolding pool_clear pool_free
    free_chunk a chunk h =
        if chunk.size == default_size
        then pool_free a pool_clear (record h { chunk_pool = chunk.top ∷ h.chunk_pool })
        else pool_free a chunk h

    unfoldable pub free_to_pool : ℕ → ThreadData → Heap → ThreadData × Heap
    unfolding pool_free
    free_to_pool a td h = let (pool, h') = pool_free a td.pool h in (record td { pool = pool }, h')

    unfoldable pub free_to_chunk : ℕ → ThreadData → Heap → ThreadData × Heap
    unfolding free_chunk
    free_to_chunk a td h =
        let (chunk, h') = free_chunk a td.chunk h in (record td { chunk = chunk }, h')

    unfoldable pub pool_tls_free : ℕ → Option ThreadData → Heap → ThreadData × Heap
    unfolding thread_data free_to_pool free_to_chunk
    pool_tls_free a t h =
        let (td, h1) = thread_data t h in
        let (td', h2) =
          (if td.pool.size == default_size then free_to_chunk a td h1 else free_to_pool a td h1) in
        (td', record h2 { use_size = sub32 h2.use_size 1 })
