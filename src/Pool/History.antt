-- ===== src/Pool/History.antt =====
-- Calls of Alloc and Free by any number of threads, one behind the other.
use chat_server_mt.Base.{ℕ, zero, suc, ◌+◌, ◌≡◌, Option, none, some, List, [], ◌∷◌, ◌++◌, arith}
use chat_server_mt.Pool.{Pool, ThreadData, Heap, pool_tls_alloc, pool_tls_free}
use chat_server_mt.Pool.Lists.{idle, sizes}
use chat_server_mt.Pool.Calls.{mine_of, IsSized}

-- `used` are the nodes in the hands of the callers.
pub record PoolSystem : Type 0 where
  pub heap : Heap
  pub threads : List (Option ThreadData)
  pub used : List ℕ

abbrev pub pools_of : List (Option ThreadData) → List Pool
pools_of [] = []
pools_of (t ∷ ts) = mine_of t ++ pools_of ts

abbrev pub AllSized : ℕ → List (Option ThreadData) → Type 0
AllSized d [] = Unit {0}
AllSized d (t ∷ ts) = IsSized d t × AllSized d ts

idle-append :
    (next : ℕ → ℕ) (b : ℕ) (ps qs : List Pool)
    → idle next b (ps ++ qs) ≡ idle next b ps + idle next b qs
idle-append next b [] qs = omega arith
idle-append next b (p ∷ ps) qs = omega (arith, idle-append next b ps qs)

sizes-append : (ps qs : List Pool) → sizes (ps ++ qs) ≡ sizes ps + sizes qs
sizes-append [] qs = omega arith
sizes-append (p ∷ ps) qs = omega (arith, sizes-append ps qs)

-- The lists of one thread among those of all.
pub idle-split :
    (next : ℕ → ℕ) (b : ℕ) (ts : List (Option ThreadData)) (t : Option ThreadData)
    (us : List (Option ThreadData))
    → idle next b (pools_of (ts ++ t ∷ us))
      ≡ idle next b (mine_of t) + idle next b (pools_of ts ++ pools_of us)
idle-split next b [] t us = idle-append next b (mine_of t) (pools_of us)
idle-split next b (s ∷ ts) t us = omega (
  arith,
  idle-split next b ts t us,
  idle-append next b (mine_of s) (pools_of (ts ++ t ∷ us)),
  idle-append next b (pools_of ts) (pools_of us),
  idle-append next b (mine_of s) (pools_of ts),
  idle-append next b (mine_of s ++ pools_of ts) (pools_of us),
)

pub sizes-split :
    (ts : List (Option ThreadData)) (t : Option ThreadData) (us : List (Option ThreadData))
    → sizes (pools_of (ts ++ t ∷ us)) ≡ sizes (mine_of t) + sizes (pools_of ts ++ pools_of us)
sizes-split [] t us = sizes-append (mine_of t) (pools_of us)
sizes-split (s ∷ ts) t us = omega (
  arith,
  sizes-split ts t us,
  sizes-append (mine_of s) (pools_of (ts ++ t ∷ us)),
  sizes-append (pools_of ts) (pools_of us),
  sizes-append (mine_of s) (pools_of ts),
  sizes-append (mine_of s ++ pools_of ts) (pools_of us),
)

pub AllSized-one :
    (d : ℕ) (ts : List (Option ThreadData)) (t : Option ThreadData) (us : List (Option ThreadData))
    → AllSized d (ts ++ t ∷ us)
    → IsSized d t
AllSized-one d [] t us h = h.0
AllSized-one d (s ∷ ts) t us h = AllSized-one d ts t us h.1

pub AllSized-put :
    (d : ℕ) (ts : List (Option ThreadData)) (t t' : Option ThreadData)
    (us : List (Option ThreadData))
    → IsSized d t'
    → AllSized d (ts ++ t ∷ us)
    → AllSized d (ts ++ t' ∷ us)
AllSized-put d [] t t' us k h = (k, h.1)
AllSized-put d (s ∷ ts) t t' us k h = (h.0, AllSized-put d ts t t' us k h.1)

-- Threads that have not used the pool yet.
abbrev pub no_data : ℕ → List (Option ThreadData)
no_data zero = []
no_data (suc n) = none ∷ no_data n

-- MemoryPoolTls::MemoryPoolTls.
abbrev pub new_pool : (ℕ → ℕ) → ℕ → PoolSystem
new_pool next n = record {
  heap = record { next = next; made = 0; chunk_pool = []; use_size = 0; alloc_size = 0 };
  threads = no_data n;
  used = [];
}

module _ (malloc : ℕ → ℕ) (d garbage : ℕ) where
  pub data PoolStep (s s' : PoolSystem) : Type 0 where
    allocs :
        (before after : List (Option ThreadData)) (t : Option ThreadData)
        → s.threads ≡ before ++ t ∷ after
        → s' ≡ record {
          heap = (pool_tls_alloc malloc garbage d t s.heap).2;
          threads = before ++ some (pool_tls_alloc malloc garbage d t s.heap).1 ∷ after;
          used = (pool_tls_alloc malloc garbage d t s.heap).0 ∷ s.used;
        }
        → PoolStep s s'
    frees :
        (before after : List (Option ThreadData)) (t : Option ThreadData) (a : ℕ)
        (front back : List ℕ)
        → s.threads ≡ before ++ t ∷ after
        → s.used ≡ front ++ a ∷ back
        → s' ≡ record {
          heap = (pool_tls_free malloc garbage d a t s.heap).1;
          threads = before ++ some (pool_tls_free malloc garbage d a t s.heap).0 ∷ after;
          used = front ++ back;
        }
        → PoolStep s s'

  pub data PoolSteps : PoolSystem → Type 0 where
    starts : {s : PoolSystem} (next : ℕ → ℕ) (n : ℕ) → s ≡ new_pool next n → PoolSteps s
    step : {s s' : PoolSystem} → PoolSteps s → PoolStep s s' → PoolSteps s'
