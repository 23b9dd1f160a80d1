-- ===== src/Buffer.antt =====
-- BufferAllocator.h and BufferAllocator.cpp: blocks of 2048 and of 4096 bytes out of regions that
-- VirtualAlloc reserves. Addresses are numbers, and 0 is the null pointer. `region` is the address
-- that VirtualAlloc gives when Alloc reserves one; a commit gives the address that was asked for.
pub mod Blocks
pub mod Apart
pub mod Sequence
pub mod Twice
mod Examples
use chat_server_mt.Base.{
  ℕ, ◌+◌, ◌-◌, ◌%◌, ◌^◌, ◌≤◌, ◌||◌, Bool, Option, none, some, ◌==◌, if◌then◌else◌, ltb, leb,
}

abbrev pub page_size : ℕ
page_size = 4096

abbrev pub granularity : ℕ
granularity = 65536

abbrev pub half_page : ℕ
half_page = 2048

-- The two maps, from an address to a short.
pub record Allocator : Type 0 where
  pub addr_2048 : ℕ
  pub addr_4096 : ℕ
  pub reserve_map : ℕ → Option ℕ
  pub commit_map : ℕ → Option ℕ

-- Which of the two addresses.
pub data Kind : Type 0 where
  half full : Kind

abbrev pub block_size : Kind → ℕ
block_size half = half_page
block_size full = page_size

abbrev pub addr_of : Kind → Allocator → ℕ
addr_of half s = s.addr_2048
addr_of full s = s.addr_4096

abbrev pub set_addr : Kind → ℕ → Allocator → Allocator
set_addr half a s = record s { addr_2048 = a }
set_addr full a s = record s { addr_4096 = a }

abbrev pub region_of : ℕ → ℕ
region_of a = a - a % granularity

abbrev pub page_of : ℕ → ℕ
page_of a = a - a % page_size

abbrev pub put : ℕ → Option ℕ → (ℕ → Option ℕ) → ℕ → Option ℕ
put k v m x = if x == k then v else m x

-- `insert` leaves an entry that is there.
abbrev pub insert_key : ℕ → ℕ → (ℕ → Option ℕ) → ℕ → Option ℕ
insert_key k v m = elim (m k) [ none ↦ put k (some v) m | some w ↦ m ]

-- `operator[]` makes an entry of 0.
abbrev pub value_at : Option ℕ → ℕ
value_at none = 0
value_at (some v) = v

abbrev pub increment_at : ℕ → (ℕ → Option ℕ) → ℕ → Option ℕ
increment_at k m = put k (some ((value_at (m k) + 1) % 2 ^ 16)) m

abbrev pub decremented : ℕ → (ℕ → Option ℕ) → ℕ
decremented k m = (value_at (m k) + (2 ^ 16 - 1)) % 2 ^ 16

-- The first part of allocByAddr: a region, when there is none or the last one is full.
unfoldable pub reserve : Kind → ℕ → Allocator → Allocator
reserve w region s =
    if addr_of w s == 0 || addr_of w s % granularity == 0
    then set_addr w region (record s { reserve_map = insert_key region 0 s.reserve_map })
    else s

-- The second part: a page, at the start of one, and the address moves on.
unfoldable pub commit : Kind → Allocator → ℕ × Allocator
commit w s =
    let addr = addr_of w s in
    let s' =
      (if addr % page_size == 0
        then record s {
          reserve_map = increment_at (region_of addr) s.reserve_map;
          commit_map = insert_key addr 1 s.commit_map;
        }
        else record s { commit_map = increment_at (page_of addr) s.commit_map }) in
    (addr, set_addr w (addr + block_size w) s')

unfoldable pub alloc_by_addr : Kind → ℕ → Allocator → ℕ × Allocator
unfolding reserve commit
alloc_by_addr w region s = commit w (reserve w region s)

-- `none` is the crash of a size that is not served.
unfoldable pub buffer_alloc : ℕ → ℕ → Allocator → Option (ℕ × Allocator)
unfolding alloc_by_addr
buffer_alloc size region s =
    if size == 0 || ltb page_size size
    then none
    else if leb size half_page
    then some (alloc_by_addr half region s)
    else some (alloc_by_addr full region s)

-- The test is a subtraction of unsigned 64 bits.
unfoldable pub fix_decommitted : Kind → ℕ → Allocator → Allocator
fix_decommitted w decommitted s =
    if ltb ((addr_of w s + (2 ^ 64 - decommitted)) % 2 ^ 64) page_size
    then set_addr w (decommitted + page_size) s
    else s

unfoldable pub fix_released : Kind → ℕ → Allocator → Allocator
fix_released w released s =
    if ltb ((addr_of w s + (2 ^ 64 - released)) % 2 ^ 64) granularity then set_addr w 0 s else s

-- The last page of a region gives the region back.
unfoldable pub release_page : ℕ → Allocator → Allocator
unfolding fix_released
release_page region s =
    let remain = decremented region s.reserve_map in
    if remain == 0
    then fix_released full region
        (fix_released half region (record s { reserve_map = put region none s.reserve_map }))
    else record s { reserve_map = put region (some remain) s.reserve_map }

unfoldable pub free_page : ℕ → ℕ → Allocator → Allocator
unfolding fix_decommitted release_page
free_page page region s =
    let remain = decremented page s.commit_map in
    if remain == 0
    then release_page region (
        fix_decommitted full page
          (fix_decommitted half page (record s { commit_map = put page none s.commit_map })))
    else record s { commit_map = put page (some remain) s.commit_map }

-- `none` is the crash of an address without a page.
unfoldable pub buffer_free : ℕ → Allocator → Option Allocator
unfolding free_page
buffer_free addr s = elim (s.commit_map (page_of addr)) [
  | none ↦ none
  | some n ↦ some (free_page (page_of addr) (region_of addr) s)
]

abbrev pub new_allocator : Allocator
new_allocator = record {
  addr_2048 = 0;
  addr_4096 = 0;
  reserve_map = λ a. none;
  commit_map = λ a. none;
}
