-- ===== src/Buffer/Blocks.antt =====
-- Blocks that Alloc gave, and what one call does to the addresses.
use chat_server_mt.Base.{ℕ, ◌+◌, ◌%◌, ◌≡◌, ◌≢◌, Option, none, ◌==◌, if◌then◌else◌, arith}
use chat_server_mt.Buffer.{
  Allocator, Kind, half, full, block_size, addr_of, region_of, insert_key, increment_at, page_size,
  granularity, reserve, commit, alloc_by_addr,
}

abbrev pub other : Kind → Kind
other half = full
other full = half

-- Where the next block of a kind begins.
abbrev pub start_of : Kind → ℕ → Allocator → ℕ
start_of w region s = if addr_of w s % granularity == 0 then region else addr_of w s

-- What a call of allocByAddr does to the two addresses and to the regions.
pub record Moves (w : Kind) (region : ℕ) (s : Allocator) (a : ℕ) (s' : Allocator) : Type 0 where
  pub start : a ≡ start_of w region s
  pub here : addr_of w s' ≡ a + block_size w
  pub there : addr_of (other w) s' ≡ addr_of (other w) s
  pub kept : (r : ℕ) → s.reserve_map r ≢ none → s'.reserve_map r ≢ none
  pub has : a % page_size ≡ 0 → s'.reserve_map (region_of a) ≢ none

insert-kept : (k v r : ℕ) (m : ℕ → Option ℕ) → m r ≢ none → insert_key k v m r ≢ none
insert-kept k v r m h e = ground (arith, h, e)

increment_at-kept : (k r : ℕ) (m : ℕ → Option ℕ) → m r ≢ none → increment_at k m r ≢ none
increment_at-kept k r m h e = ground (arith, h, e)

pub alloc_by_addr-Moves :
    (w : Kind) (region : ℕ) (s : Allocator)
    → Moves w region s (alloc_by_addr w region s).0 (alloc_by_addr w region s).1
unfolding alloc_by_addr reserve commit
alloc_by_addr-Moves half region s = record {
  start = ground arith;
  here = ground arith;
  there = ground arith;
  kept = λ r h e. ground (arith, h, e);
  has = λ p e. ground (arith, p, e);
}
alloc_by_addr-Moves full region s = record {
  start = ground arith;
  here = ground arith;
  there = ground arith;
  kept = λ r h e. ground (arith, h, e);
  has = λ p e. ground (arith, p, e);
}
