-- ===== src/Pool/Calls.antt =====
-- Alloc and Free of one thread, among the lists of the others.
use chat_server_mt.Base.{
  ℕ, ◌%◌, ◌^◌, ◌≤◌, ◌<◌, ◌≡◌, ◌≢◌, ◌∙◌, refl, Bool, true, false, Option, none, some, List, [], ◌∷◌,
  ◌++◌, ◌==◌, if◌then◌else◌, arith, length, length-append, add32,
}
use chat_server_mt.Pool.{
  Pool, ThreadData, Heap, pool_alloc, pool_free, pool_clear, generate_loop, generate, generate_pool,
  refill, thread_data, pool_with_nodes, alloc_from_pool, alloc_from_chunk, pool_tls_alloc,
  free_chunk, free_to_pool, free_to_chunk, pool_tls_free,
}
use chat_server_mt.Pool.Inv.{IsFresh, Nodes, with_empty, without_empty, swapped, pushed, popped}
use chat_server_mt.Pool.Keeps.{taken, taken-unused, given, generate-Nodes, generate-counts}
use chat_server_mt.Stack.Threads.{times_in}

abbrev pub mine_of : Option ThreadData → List Pool
mine_of none = []
mine_of (some td) = td.pool ∷ td.chunk ∷ []

-- No list of a thread is longer than a list of the stack.
abbrev pub IsSized : ℕ → Option ThreadData → Type 0
IsSized d none = Unit {0}
IsSized d (some td) = (td.pool.size ≤ d) × (td.chunk.size ≤ d)

-- `used` are the nodes in the hands of the callers.
pub record Good (malloc : ℕ → ℕ) (d : ℕ) (t : Option ThreadData) (h : Heap) (others : List Pool)
    (used : List ℕ) : Type 0 where
  pub nodes : Nodes malloc d h (mine_of t) others used
  pub sized : IsSized d t
  pub in_use : h.use_size ≡ length used % 2 ^ 32
  pub allocated : h.alloc_size ≡ h.made % 2 ^ 32

-- The counters are not among the nodes.
counters :
    {malloc : ℕ → ℕ} {d : ℕ} {others : List Pool} (h : Heap) (mine : List Pool) (us : List ℕ)
    (u a : ℕ)
    → Nodes malloc d h mine others us
    → Nodes malloc d (record h { use_size = u; alloc_size = a }) mine others us
counters h mine us u a w = record { apart = w.apart; unmade = w.unmade; all = w.all }

by_case :
    {A : Type 0} (P : A → Type 0) (x y : A) (b : Bool)
    → (b ≡ true → P x)
    → (b ≡ false → P y)
    → P (if b then x else y)
by_case P x y true f g = f refl
by_case P x y false f g = g refl

module _ (malloc : ℕ → ℕ) (d garbage : ℕ) (fresh : IsFresh malloc) (others : List Pool)
    (used : List ℕ) where
  pub thread_data-Good :
      (t : Option ThreadData) (h : Heap)
      → Good malloc d t h others used
      → Good malloc d
          (some (thread_data malloc garbage d t h).0)
          (thread_data malloc garbage d t h).1
          others
          used
  unfolding thread_data generate_pool generate
  thread_data-Good (some td) h g = g
  thread_data-Good none h g =
      let h0 : Heap = record h { alloc_size = add32 h.alloc_size d } in
      let empty : Pool = record { top = garbage; size = 0 } in
      let w0 = counters h [] used h.use_size (add32 h.alloc_size d) g.nodes in
      let w1 = generate-Nodes malloc d fresh d empty h0 w0 in
      let h1 : Heap = (generate_loop malloc d garbage h0).1 in
      let w2 = counters h1 _ used h1.use_size (add32 h1.alloc_size 0) w1 in
      let h2 : Heap = record h1 { alloc_size = add32 h1.alloc_size 0 } in
      let w3 = generate-Nodes malloc d fresh 0 empty h2 w2 in
      let c1 = generate-counts malloc d garbage h0 in
      let c2 = generate-counts malloc 0 garbage h2 in
      record {
        nodes = swapped malloc d w3;
        sized = (omega arith, omega arith);
        in_use = c2.1 ∙ c1.1 ∙ g.in_use;
        allocated = omega (arith, c2.0, c2.2, c1.0, c1.2, g.allocated);
      }

  -- A list for the thread that Alloc can take from.
  abbrev Ready : ThreadData → Pool × Heap → Type 0
  Ready td (p, h) = Good malloc d (some (record td { pool = p })) h others used × (0 < p.size)

  refilled :
      (td : ThreadData) (h : Heap)
      → 0 < d
      → td.pool.size ≡ 0
      → Good malloc d (some td) h others used
      → Ready td (refill malloc d td.pool h)
  unfolding refill generate
  refilled td h pos e g =
      let h0 : Heap = record h { alloc_size = add32 h.alloc_size d } in
      let rest = without_empty malloc d e g.nodes in
      let w0 = counters h (td.chunk ∷ []) used h.use_size (add32 h.alloc_size d) rest in
      let c = generate-counts malloc d td.pool.top h0 in
      (
        record {
          nodes = generate-Nodes malloc d fresh d td.pool h0 w0;
          sized = (omega arith, g.sized.1);
          in_use = c.1 ∙ g.in_use;
          allocated = omega (arith, c.0, c.2, g.allocated);
        },
        pos,
      )

  with_stack :
      (td : ThreadData) (h : Heap)
      → 0 < d
      → td.pool.size ≡ 0
      → Good malloc d (some td) h others used
      → (l : List ℕ) → h.chunk_pool ≡ l
      → Ready td (elim l [
        | [] ↦ refill malloc d td.pool h
        | chunk_top ∷ chunks ↦
            (record { top = chunk_top; size = d }, record h { chunk_pool = chunks })
      ])
  with_stack td h pos e g [] q = refilled td h pos e g
  with_stack td h pos e g (c ∷ cs) q = (
    record {
      nodes = popped malloc d c cs q (without_empty malloc d e g.nodes);
      sized = (omega arith, g.sized.1);
      in_use = g.in_use;
      allocated = g.allocated;
    },
    pos,
  )

  pool_with_nodes-Ready :
      (td : ThreadData) (h : Heap)
      → 0 < d
      → Good malloc d (some td) h others used
      → Ready td (pool_with_nodes malloc garbage d td.pool h)
  unfolding pool_with_nodes
  pool_with_nodes-Ready td h pos g =
      by_case (Ready td) _ _ (td.pool.size == 0)
        (λ e. with_stack td h pos (ground (arith, e)) g h.chunk_pool refl)
        (λ e. (g, ground (arith, e)))

  -- The node that Alloc gives, and what it leaves.
  abbrev Allocated : ℕ × ThreadData × Heap → Type 0
  Allocated (a, td, h) =
      Nodes malloc d h (mine_of (some td)) others (a ∷ used)
      × IsSized d (some td)
      × (h.use_size ≡ length used % 2 ^ 32)
      × (h.alloc_size ≡ h.made % 2 ^ 32)
      × (times_in a used ≡ 0)

  from_pool :
      (td : ThreadData) (h : Heap)
      → 0 < d
      → Good malloc d (some td) h others used
      → Allocated (alloc_from_pool malloc garbage d td h)
  unfolding alloc_from_pool pool_alloc
  from_pool td h pos g =
      let (r, some_left) = pool_with_nodes-Ready td h pos g in
      (
        taken malloc d some_left r.nodes,
        (omega (arith, r.sized.0), r.sized.1),
        r.in_use,
        r.allocated,
        taken-unused malloc d some_left r.nodes,
      )

  from_chunk :
      (td : ThreadData) (h : Heap)
      → 0 < td.chunk.size
      → Good malloc d (some td) h others used
      → Allocated (alloc_from_chunk malloc garbage d td h)
  unfolding alloc_from_chunk pool_alloc
  from_chunk td h some_left g = (
    swapped malloc d (taken malloc d some_left (swapped malloc d g.nodes)),
    (g.sized.0, omega (arith, g.sized.1)),
    g.in_use,
    g.allocated,
    taken-unused malloc d some_left (swapped malloc d g.nodes),
  )

  pub pool_tls_alloc-Good :
      (t : Option ThreadData) (h : Heap)
      → 0 < d
      → Good malloc d t h others used
      → Good malloc d
          (some (pool_tls_alloc malloc garbage d t h).1)
          (pool_tls_alloc malloc garbage d t h).2
          others
          ((pool_tls_alloc malloc garbage d t h).0 ∷ used)
        × (times_in (pool_tls_alloc malloc garbage d t h).0 used ≡ 0)
  unfolding pool_tls_alloc
  pool_tls_alloc-Good t h pos g =
      let td = (thread_data malloc garbage d t h).0 in
      let h1 = (thread_data malloc garbage d t h).1 in
      let g1 = thread_data-Good t h g in
      let r =
        by_case Allocated (alloc_from_pool malloc garbage d td h1)
          (alloc_from_chunk malloc garbage d td h1) (td.chunk.size == 0)
          (λ e. from_pool td h1 pos g1) (λ e. from_chunk td h1 (ground (arith, e)) g1) in
      (
        record {
          nodes = counters _ _ _ _ _ r.0;
          sized = r.1;
          in_use = omega (arith, r.2);
          allocated = r.3;
        },
        r.4,
      )

module _ (malloc : ℕ → ℕ) (d garbage : ℕ) (fresh : IsFresh malloc) (others : List Pool) (a : ℕ)
    (front back : List ℕ) where
  -- What Free leaves, but for the counter.
  abbrev Freed : ThreadData × Heap → Type 0
  Freed (td, h) =
      Nodes malloc d h (mine_of (some td)) others (front ++ back)
      × IsSized d (some td)
      × (h.use_size ≡ length (front ++ a ∷ back) % 2 ^ 32)
      × (h.alloc_size ≡ h.made % 2 ^ 32)

  to_pool :
      (td : ThreadData) (h : Heap)
      → td.pool.size ≢ d
      → Good malloc d (some td) h others (front ++ a ∷ back)
      → Freed (free_to_pool malloc garbage d a td h)
  unfolding free_to_pool pool_free
  to_pool td h n g = (
    given malloc d a front back g.nodes,
    (ground (arith, n, g.sized.0), g.sized.1),
    g.in_use,
    g.allocated,
  )

  to_chunk :
      (td : ThreadData) (h : Heap)
      → 0 < d
      → Good malloc d (some td) h others (front ++ a ∷ back)
      → Freed (free_to_chunk malloc garbage d a td h)
  unfolding free_to_chunk free_chunk pool_free pool_clear
  to_chunk td h pos g =
      by_case (λ (r : Pool × Heap). Freed (record td { chunk = r.0 }, r.1))
        (pool_free a pool_clear (record h { chunk_pool = td.chunk.top ∷ h.chunk_pool }))
        (pool_free a td.chunk h) (td.chunk.size == d)
        (λ e.
          let on_stack = pushed malloc d (ground (arith, e)) (swapped malloc d g.nodes) in
          (
            swapped malloc d
                (given malloc d a front back (with_empty malloc d {p = pool_clear} refl on_stack)),
            (g.sized.0, omega (arith, pos)),
            g.in_use,
            g.allocated,
          ))
        (λ e. (
          swapped malloc d (given malloc d a front back (swapped malloc d g.nodes)),
          (g.sized.0, ground (arith, e, g.sized.1)),
          g.in_use,
          g.allocated,
        ))

  pub pool_tls_free-Good :
      (t : Option ThreadData) (h : Heap)
      → 0 < d
      → Good malloc d t h others (front ++ a ∷ back)
      → Good malloc d
          (some (pool_tls_free malloc garbage d a t h).0)
          (pool_tls_free malloc garbage d a t h).1
          others
          (front ++ back)
  unfolding pool_tls_free
  pool_tls_free-Good t h pos g =
      let td = (thread_data malloc garbage d t h).0 in
      let h1 = (thread_data malloc garbage d t h).1 in
      let g1 = thread_data-Good malloc d garbage fresh others (front ++ a ∷ back) t h g in
      let r =
        by_case Freed (free_to_chunk malloc garbage d a td h1)
          (free_to_pool malloc garbage d a td h1) (td.pool.size == d) (λ e. to_chunk td h1 pos g1)
          (λ e. to_pool td h1 (ground (arith, e)) g1) in
      record {
        nodes = counters _ _ _ _ _ r.0;
        sized = r.1;
        in_use =
            omega (arith, r.2, length-append {0} front (a ∷ back), length-append {0} front back);
        allocated = r.3;
      }
