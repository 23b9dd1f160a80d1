-- ===== src/Pool/Inv.antt =====
-- Where the nodes are: in the hands of the callers, on the stack of lists, in the lists of a
-- thread, or in those of the others.
use chat_server_mt.Base.{ℕ, ◌+◌, ◌≤◌, ◌≡◌, ap, List, ◌∷◌, arith, length}
use chat_server_mt.Pool.{Pool, Heap}
use chat_server_mt.Pool.Lists.{walk, idle, sizes, chunks_of}
use chat_server_mt.Stack.Threads.{times_in}

-- Different allocations give different addresses.
abbrev pub IsFresh : (ℕ → ℕ) → Type 0
IsFresh malloc = (i j : ℕ) → malloc i ≡ malloc j → i ≡ j

module _ (malloc : ℕ → ℕ) (d : ℕ) where
  abbrev pub place : Heap → (mine others : List Pool) → List ℕ → ℕ → ℕ
  place h mine others used b =
      times_in b used
      + idle h.next b (chunks_of d h.chunk_pool)
      + idle h.next b mine
      + idle h.next b others

  pub record Nodes (h : Heap) (mine others : List Pool) (used : List ℕ) : Type 0 where
    pub apart : (b : ℕ) → place h mine others used b ≤ 1
    pub unmade : (i : ℕ) → h.made ≤ i → place h mine others used (malloc i) ≡ 0
    pub all : length used + sizes (chunks_of d h.chunk_pool) + sizes mine + sizes others ≡ h.made

  module _ {h : Heap} {mine others : List Pool} {used : List ℕ} {p : Pool} where
    -- A list without nodes, whatever its top.
    pub with_empty : p.size ≡ 0 → Nodes h mine others used → Nodes h (p ∷ mine) others used
    with_empty e w =
        let none = λ (b : ℕ). ap (λ n. times_in b (walk h.next n p.top)) e in
        record {
          apart = λ b. omega (arith, w.apart b, none b);
          unmade = λ i m. omega (arith, w.unmade i m, none (malloc i));
          all = omega (arith, w.all, e);
        }

    pub without_empty : p.size ≡ 0 → Nodes h (p ∷ mine) others used → Nodes h mine others used
    without_empty e w = record {
      apart = λ b. omega (arith, w.apart b);
      unmade = λ i m. omega (arith, w.unmade i m);
      all = omega (arith, w.all, e);
    }

    pub swapped :
        {q : Pool} → Nodes h (p ∷ q ∷ mine) others used → Nodes h (q ∷ p ∷ mine) others used
    swapped w = record {
      apart = λ b. omega (arith, w.apart b);
      unmade = λ i m. omega (arith, w.unmade i m);
      all = omega (arith, w.all);
    }

    -- A full list goes on the stack.
    pub pushed :
        p.size ≡ d
        → Nodes h (p ∷ mine) others used
        → Nodes (record h { chunk_pool = p.top ∷ h.chunk_pool }) mine others used
    pushed e w =
        let full = λ (b : ℕ). ap (λ n. times_in b (walk h.next n p.top)) e in
        record {
          apart = λ b. omega (arith, w.apart b, full b);
          unmade = λ i m. omega (arith, w.unmade i m, full (malloc i));
          all = omega (arith, w.all, e);
        }

  pub popped :
      {h : Heap} {mine others : List Pool} {used : List ℕ} (top : ℕ) (tops : List ℕ)
      → h.chunk_pool ≡ top ∷ tops
      → Nodes h mine others used
      → Nodes (record h { chunk_pool = tops }) (record { top = top; size = d } ∷ mine) others used
  popped {h} {mine} {others} {used} top tops e w =
      let where_ = λ (b : ℕ). ap (λ l. idle h.next b (chunks_of d l)) e in
      let many = ap (λ l. sizes (chunks_of d l)) e in
      record {
        apart = λ b. omega (arith, w.apart b, where_ b);
        unmade = λ i m. omega (arith, w.unmade i m, where_ (malloc i));
        all = omega (arith, w.all, many);
      }
