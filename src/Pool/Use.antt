-- ===== src/Pool/Use.antt =====
-- What Alloc and Free keep, however the threads call them.
use chat_server_mt.Base.{
  ℕ, zero, suc, ◌+◌, ◌%◌, ◌^◌, ◌≤◌, ◌<◌, ◌≡◌, refl, sym, subst, ap, Option, none, List, [], ◌∷◌,
  ◌++◌, arith, length,
}
use chat_server_mt.Pool.{ThreadData, Heap, pool_tls_alloc}
use chat_server_mt.Pool.Lists.{idle, sizes, chunks_of}
use chat_server_mt.Pool.Inv.{IsFresh}
use chat_server_mt.Pool.Calls.{Good, pool_tls_alloc-Good, pool_tls_free-Good}
use chat_server_mt.Pool.History.{
  PoolSystem, pools_of, AllSized, idle-split, sizes-split, AllSized-one, AllSized-put, PoolStep,
  allocs, frees, no_data, new_pool, PoolSteps, starts, step,
}
use chat_server_mt.Stack.Threads.{times_in}

new_pool-nothing : (n : ℕ) → pools_of (no_data n) ≡ []
new_pool-nothing zero = refl
new_pool-nothing (suc n) = new_pool-nothing n

module _ (malloc : ℕ → ℕ) (d : ℕ) where
  pub record Stands (s : PoolSystem) : Type 0 where
    pub good : Good malloc d none s.heap (pools_of s.threads) s.used
    pub sized : AllSized d s.threads

  module _ (h : Heap) (used : List ℕ) (ts us : List (Option ThreadData))
      (t : Option ThreadData) where
    -- The lists of one thread apart from those of the others.
    to_one :
        Stands (record { heap = h; threads = ts ++ t ∷ us; used = used })
        → Good malloc d t h (pools_of ts ++ pools_of us) used
    to_one w =
        let g = w.good in
        record {
          nodes = record {
            apart = λ b. omega (arith, g.nodes.apart b, idle-split h.next b ts t us);
            unmade = λ i m. omega (arith, g.nodes.unmade i m, idle-split h.next (malloc i) ts t us);
            all = omega (arith, g.nodes.all, sizes-split ts t us);
          };
          sized = AllSized-one d ts t us w.sized;
          in_use = g.in_use;
          allocated = g.allocated;
        }

    of_one :
        (before : Option ThreadData)
        → AllSized d (ts ++ before ∷ us)
        → Good malloc d t h (pools_of ts ++ pools_of us) used
        → Stands (record { heap = h; threads = ts ++ t ∷ us; used = used })
    of_one before k g = record {
      good = record {
        nodes = record {
          apart = λ b. omega (arith, g.nodes.apart b, idle-split h.next b ts t us);
          unmade = λ i m. omega (arith, g.nodes.unmade i m, idle-split h.next (malloc i) ts t us);
          all = omega (arith, g.nodes.all, sizes-split ts t us);
        };
        sized = tt;
        in_use = g.in_use;
        allocated = g.allocated;
      };
      sized = AllSized-put d ts before t us g.sized k;
    }

  module _ (garbage : ℕ) (pos : 0 < d) (fresh : IsFresh malloc) where
    step-Stands : (s s' : PoolSystem) → Stands s → PoolStep malloc d garbage s s' → Stands s'
    step-Stands s s' w (allocs ts us t e q) =
        let at : List (Option ThreadData) → PoolSystem =
          λ l. record { heap = s.heap; threads = l; used = s.used } in
        let w' = subst (λ l. Stands (at l)) e w in
        let g =
          pool_tls_alloc-Good malloc d garbage fresh (pools_of ts ++ pools_of us) s.used t s.heap
            pos (to_one s.heap s.used ts us t w') in
        subst Stands (sym q) (of_one _ _ ts us _ t w'.sized g.0)
    step-Stands s s' w (frees ts us t a front back e u q) =
        let at : List (Option ThreadData) → List ℕ → PoolSystem =
          λ l m. record { heap = s.heap; threads = l; used = m } in
        let w' =
          subst (λ m. Stands (at (ts ++ t ∷ us) m)) u (subst (λ l. Stands (at l s.used)) e w) in
        let g =
          pool_tls_free-Good malloc d garbage fresh (pools_of ts ++ pools_of us) a front back t
            s.heap pos (to_one s.heap (front ++ a ∷ back) ts us t w') in
        subst Stands (sym q) (of_one _ _ ts us _ t w'.sized g)

    new_pool-AllSized : (n : ℕ) → AllSized d (no_data n)
    new_pool-AllSized zero = tt
    new_pool-AllSized (suc n) = (tt, new_pool-AllSized n)

    new_pool-Stands : (next : ℕ → ℕ) (n : ℕ) → Stands (new_pool next n)
    new_pool-Stands next n =
        let nothing = new_pool-nothing n in
        record {
          good = record {
            nodes = record {
              apart = λ b. omega (arith, ap (idle next b) nothing);
              unmade = λ i m. omega (arith, ap (idle next (malloc i)) nothing);
              all = omega (arith, ap sizes nothing);
            };
            sized = tt;
            in_use = refl;
            allocated = refl;
          };
          sized = new_pool-AllSized n;
        }

    PoolSteps-Stands : (s : PoolSystem) → PoolSteps malloc d garbage s → Stands s
    PoolSteps-Stands s (starts next n e) = subst Stands (sym e) (new_pool-Stands next n)
    PoolSteps-Stands s' (step {s = s} h p) = step-Stands s s' (PoolSteps-Stands s h) p

    -- However threads call Alloc and Free of MemoryPoolTls, one call behind the other, the node
    -- that the next Alloc of any thread gives is not in the hands of a caller, if each Free is for
    -- a node in the hands of one, whoever took it, if lists have at least one node, and if
    -- different allocations have different addresses; what the constructor of POOL leaves in top
    -- does not matter.
    pub alloc-unused :
        (s : PoolSystem) (ts us : List (Option ThreadData)) (t : Option ThreadData)
        → PoolSteps malloc d garbage s
        → s.threads ≡ ts ++ t ∷ us
        → times_in (pool_tls_alloc malloc garbage d t s.heap).0 s.used ≡ 0
    alloc-unused s ts us t h e =
        let at : List (Option ThreadData) → PoolSystem =
          λ l. record { heap = s.heap; threads = l; used = s.used } in
        let w = subst (λ l. Stands (at l)) e (PoolSteps-Stands s h) in
        (pool_tls_alloc-Good malloc d garbage fresh (pools_of ts ++ pools_of us) s.used t s.heap pos
          (to_one s.heap s.used ts us t w)).1

    -- Under the same assumptions every node is at most once in the hands of a caller, in a list of
    -- the common stack or in a list of a thread; these are together as many as were allocated, so
    -- that none is lost; use_size counts those in the hands of callers and alloc_size all, modulo
    -- 2^32.
    pub nodes-counted :
        (s : PoolSystem)
        → PoolSteps malloc d garbage s
        → (s.heap.use_size ≡ length s.used % 2 ^ 32)
          × (s.heap.alloc_size ≡ s.heap.made % 2 ^ 32)
          × (length s.used + sizes (chunks_of d s.heap.chunk_pool) + sizes (pools_of s.threads)
              ≡ s.heap.made)
          × ((b : ℕ)
              → times_in b s.used
                  + idle s.heap.next b (chunks_of d s.heap.chunk_pool)
                  + idle s.heap.next b (pools_of s.threads)
                ≤ 1)
    nodes-counted s h =
        let g = (PoolSteps-Stands s h).good in
        (g.in_use, g.allocated, omega (arith, g.nodes.all), λ b. omega (arith, g.nodes.apart b))
