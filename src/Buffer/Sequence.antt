-- ===== src/Buffer/Sequence.antt =====
-- The blocks of a sequence of calls of Alloc.
use chat_server_mt.Base.{
  ℕ, ◌+◌, ◌%◌, ◌≤◌, ◌<◌, ◌≡◌, ◌≢◌, refl, sym, subst, Bool, true, false, Option, none, some, List,
  [], ◌∷◌, ◌==◌, ◌||◌, if◌then◌else◌, ltb, leb, arith,
}
use chat_server_mt.Buffer.{
  Allocator, Kind, half, full, block_size, addr_of, region_of, page_size, granularity, half_page,
  alloc_by_addr, buffer_alloc, new_allocator,
}
use chat_server_mt.Buffer.Blocks.{Moves, alloc_by_addr-Moves}
use chat_server_mt.Buffer.Apart.{Block, AllApart, IsRegion, AllHeld, Inv, Moves-Inv}

-- The block that serves a size.
abbrev pub kind_for : ℕ → Kind
kind_for size = if leb size half_page then half else full

-- Calls of Alloc of an allocator that is new, and the blocks that they gave.
pub data Allocs : Allocator → List Block → Type 0 where
  new : {s : Allocator} → s ≡ new_allocator → Allocs s []
  alloc :
      {s : Allocator} {bs : List Block} (size region a : ℕ) (s' : Allocator)
      → Allocs s bs
      → IsRegion s region
      → buffer_alloc size region s ≡ some (a, s')
      → Allocs s' (record { start = a; len = block_size (kind_for size) } ∷ bs)

-- A block within a region that is reserved.
abbrev pub AllInside : Allocator → List Block → Type 0
AllInside s [] = Unit {0}
AllInside s (b ∷ bs) =
    (b.start % granularity + b.len ≤ granularity)
    × (s.reserve_map (region_of b.start) ≢ none)
    × AllInside s bs

held-Inside : (s : Allocator) (bs : List Block) → AllHeld s bs → AllInside s bs
held-Inside s [] h = tt
held-Inside s (b ∷ bs) h = ((h.0).inside, (h.0).known, held-Inside s bs h.1)

new-Inv : Inv new_allocator []
new-Inv = record {
  aligned = λ w. at_zero w;
  known = λ w p. elim (idle w p) [ ];
  distinct = λ p q. elim (idle half p) [ ];
  held = tt;
  apart = tt;
}
  where
    at_zero : (w : Kind) → addr_of w new_allocator % block_size w ≡ 0
    at_zero half = refl
    at_zero full = refl

    idle : (w : Kind) → 0 < addr_of w new_allocator % granularity → 1 ≤ 0
    idle half p = p
    idle full p = p

choose :
    {A : Type 0} (f : Kind → A) (y : A) (b c : Bool)
    → (if b then none else if c then some (f half) else some (f full)) ≡ some y
    → some (f (if c then half else full)) ≡ some y
choose f y true c e = ground (arith, e)
choose f y false true e = e
choose f y false false e = e

buffer_alloc-kind :
    (size region a : ℕ) (s s' : Allocator)
    → buffer_alloc size region s ≡ some (a, s')
    → some (alloc_by_addr (kind_for size) region s) ≡ some (a, s')
unfolding buffer_alloc
buffer_alloc-kind size region a s s' e =
    choose (λ w. alloc_by_addr w region s) (a, s') (size == 0 || ltb page_size size)
      (leb size half_page) e

abbrev MovesIn : Kind → ℕ → Allocator → Option (ℕ × Allocator) → Type 0
MovesIn w region s none = Unit {0}
MovesIn w region s (some (a, s')) = Moves w region s a s'

allocs-Inv : (s : Allocator) (bs : List Block) → Allocs s bs → Inv s bs
allocs-Inv s bs (new e) = subst (λ q. Inv q []) (sym e) new-Inv
allocs-Inv s' bs' (alloc {s = s} {bs = bs} size region a s1 h is e) =
    let w = kind_for size in
    let mv : Moves w region s a s' =
      subst (MovesIn w region s) (buffer_alloc-kind size region a s s' e)
        (alloc_by_addr-Moves w region s) in
    Moves-Inv s s' bs w region a (allocs-Inv s bs h) is mv

-- The blocks that any sequence of calls of BufferAllocator::Alloc gives, of 2048 or 4096 bytes by
-- the size asked for, do not overlap, and each lies within a region of 64K that is reserved, if
-- VirtualAlloc reserves regions at multiples of 64K that are not reserved yet.
pub allocs-Apart : (s : Allocator) (bs : List Block) → Allocs s bs → AllApart bs × AllInside s bs
allocs-Apart s bs h = let i = allocs-Inv s bs h in (i.apart, held-Inside s bs i.held)
