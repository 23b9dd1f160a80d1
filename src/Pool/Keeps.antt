-- ===== src/Pool/Keeps.antt =====
-- The steps of Alloc and Free move one node, or make one.
use chat_server_mt.Base.{
  ℕ, zero, suc, ◌+◌, ◌-◌, ◌≤◌, ◌<◌, ◌≡◌, ◌≢◌, refl, subst, ap, List, [], ◌∷◌, ◌++◌, ◌==◌,
  if◌then◌else◌, arith, length-append,
}
use chat_server_mt.Pool.{Pool, Heap, set, pool_alloc, pool_free, generate_loop, generate}
use chat_server_mt.Pool.Lists.{walk, idle, chunks_of, idle-set, walk-link}
use chat_server_mt.Pool.Inv.{IsFresh, place, Nodes, with_empty}
use chat_server_mt.Stack.Threads.{times_in}

pub times_in-append :
    (node : ℕ) (front back : List ℕ)
    → times_in node (front ++ back) ≡ times_in node front + times_in node back
times_in-append node [] back = omega arith
times_in-append node (n ∷ front) back = omega (arith, times_in-append node front back)

-- A node in front of a list, where the lists do not have it.
linked :
    (next : ℕ → ℕ) (a : ℕ) (p : Pool) (ps qs rs : List Pool) (b : ℕ)
    → idle next a ps + idle next a (p ∷ qs) + idle next a rs ≡ 0
    → idle (set next a p.top) b ps
        + idle (set next a p.top) b (record { top = a; size = p.size + 1 } ∷ qs)
        + idle (set next a p.top) b rs
      ≡ (if a == b then 1 else 0) + (idle next b ps + idle next b (p ∷ qs) + idle next b rs)
linked next a p ps qs rs b h =
    let longer : p.size + 1 ≡ suc p.size = omega arith in
    omega (
      arith,
      idle-set next a p.top ps b (omega (arith, h)),
      idle-set next a p.top qs b (omega (arith, h)),
      idle-set next a p.top rs b (omega (arith, h)),
      walk-link next a p.top p.size b (omega (arith, h)),
      ap (λ n. times_in b (walk (set next a p.top) n a)) longer,
    )

once : (f : ℕ → ℕ) (a b : ℕ) → f a ≡ 0 → f b ≤ 1 → (if a == b then 1 else 0) + f b ≤ 1
once f a b h k = ground (arith, h, k)

other : (a b : ℕ) → a ≢ b → ◌≡◌ {A = ℕ} (if a == b then 1 else 0) 0
other a b h = ground (arith, h)

module _ (malloc : ℕ → ℕ) (d : ℕ) where
  module _ {h : Heap} {p : Pool} {mine others : List Pool} where
    pub taken :
        {used : List ℕ}
        → 0 < p.size
        → Nodes malloc d h (p ∷ mine) others used
        → Nodes malloc d h ((pool_alloc p h).1 ∷ mine) others (p.top ∷ used)
    unfolding pool_alloc
    taken pos w =
        let e : p.size ≡ suc (p.size - 1) = omega (arith, pos) in
        let first = λ (b : ℕ). ap (λ n. times_in b (walk h.next n p.top)) e in
        record {
          apart = λ b. omega (arith, w.apart b, first b);
          unmade = λ i m. omega (arith, w.unmade i m, first (malloc i));
          all = omega (arith, w.all, pos);
        }

    -- The node that Alloc takes was in nobody's hands.
    pub taken-unused :
        {used : List ℕ}
        → 0 < p.size
        → Nodes malloc d h (p ∷ mine) others used
        → times_in p.top used ≡ 0
    taken-unused pos w =
        let e : p.size ≡ suc (p.size - 1) = omega (arith, pos) in
        let self : ◌≡◌ {A = ℕ} (if p.top == p.top then 1 else 0) 1 = ground arith in
        omega (arith, w.apart p.top, ap (λ n. times_in p.top (walk h.next n p.top)) e, self)

    pub given :
        (a : ℕ) (front back : List ℕ)
        → Nodes malloc d h (p ∷ mine) others (front ++ a ∷ back)
        → Nodes malloc d (pool_free a p h).1 ((pool_free a p h).0 ∷ mine) others (front ++ back)
    unfolding pool_free
    given a front back w =
        let self : ◌≡◌ {A = ℕ} (if a == a then 1 else 0) 1 = ground arith in
        let chunks = chunks_of d h.chunk_pool in
        let alone : idle h.next a chunks + idle h.next a (p ∷ mine) + idle h.next a others ≡ 0 =
          omega (arith, w.apart a, self, times_in-append a front (a ∷ back)) in
        let link = λ (b : ℕ). linked h.next a p chunks mine others b alone in
        record {
          apart = λ b. omega (
            arith,
            w.apart b,
            link b,
            times_in-append b front (a ∷ back),
            times_in-append b front back,
          );
          unmade = λ i m. omega (
            arith,
            w.unmade i m,
            link (malloc i),
            times_in-append (malloc i) front (a ∷ back),
            times_in-append (malloc i) front back,
          );
          all =
              omega
                (arith, w.all, length-append {0} front (a ∷ back), length-append {0} front back);
        }

    module _ {used : List ℕ} (fresh : IsFresh malloc) where
      -- A round of Generate.
      grown :
          Nodes malloc d h (p ∷ mine) others used
          → Nodes malloc d
              (record h { next = set h.next (malloc h.made) p.top; made = h.made + 1 })
              (record { top = malloc h.made; size = p.size + 1 } ∷ mine)
              others
              used
      grown w =
          let a = malloc h.made in
          let chunks = chunks_of d h.chunk_pool in
          let alone : idle h.next a chunks + idle h.next a (p ∷ mine) + idle h.next a others ≡ 0 =
            omega (arith, w.unmade h.made (omega arith)) in
          let link = λ (b : ℕ). linked h.next a p chunks mine others b alone in
          record {
            apart = λ b. omega (
              arith,
              link b,
              once (place malloc d h (p ∷ mine) others used) a b (w.unmade h.made (omega arith))
                  (w.apart b),
            );
            unmade = λ i m. omega (
              arith,
              link (malloc i),
              w.unmade i (omega (arith, m)),
              other a (malloc i) (λ e. omega (arith, fresh h.made i e, m)),
            );
            all = omega (arith, w.all);
          }

  module _ (fresh : IsFresh malloc) {mine others : List Pool} {used : List ℕ} where
    generated :
        (n k top : ℕ) (h : Heap)
        → Nodes malloc d h (record { top = top; size = k } ∷ mine) others used
        → Nodes malloc d
            (generate_loop malloc n top h).1
            (record { top = (generate_loop malloc n top h).0; size = k + n } ∷ mine)
            others
            used
    unfolding generate_loop
    generated zero k top h w =
        subst (λ n. Nodes malloc d h (record { top = top; size = n } ∷ mine) others used)
          (omega arith) w
    generated (suc n) k top h w =
        let h' : Heap = record h { next = set h.next (malloc h.made) top; made = h.made + 1 } in
        let more = generated n (k + 1) (malloc h.made) h' (grown fresh w) in
        subst
          (λ s.
            Nodes malloc d (generate_loop malloc n (malloc h.made) h').1
              (record { top = (generate_loop malloc n (malloc h.made) h').0; size = s } ∷ mine)
              others used)
          (omega arith) more

    -- Generate of a list without nodes.
    pub generate-Nodes :
        (n : ℕ) (p : Pool) (h : Heap)
        → Nodes malloc d h mine others used
        → Nodes malloc d (generate malloc n p h).1 ((generate malloc n p h).0 ∷ mine) others used
    unfolding generate
    generate-Nodes n p h w =
        let run = generate_loop malloc n p.top h in
        subst (λ s. Nodes malloc d run.1 (record { top = run.0; size = s } ∷ mine) others used)
          (omega arith)
          (generated n 0 p.top h
            (with_empty malloc d {p = record { top = p.top; size = 0 }} refl w))

-- What Generate does to the counts.
pub generate-counts :
    (malloc : ℕ → ℕ) (n top : ℕ) (h : Heap)
    → ((generate_loop malloc n top h).1.made ≡ h.made + n)
      × ((generate_loop malloc n top h).1.use_size ≡ h.use_size)
      × ((generate_loop malloc n top h).1.alloc_size ≡ h.alloc_size)
unfolding generate_loop
generate-counts malloc zero top h = (omega arith, refl, refl)
generate-counts malloc (suc n) top h =
    let ih = generate-counts malloc n (malloc h.made) _ in (omega (arith, ih.0), ih.1, ih.2)
