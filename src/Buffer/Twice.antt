-- ===== src/Buffer/Twice.antt =====
-- A page that is given back right behind a region that is full.
use chat_server_mt.Base.{ℕ, ◌+◌, ◌%◌, ◌^◌, ◌≤◌, ◌<◌, ◌≡◌, ◌∙◌, ap, ap₂, Option, none, some, arith}
use chat_server_mt.Buffer.{
  Allocator, half, full, region_of, page_of, page_size, granularity, half_page, alloc_by_addr,
  buffer_alloc, buffer_free, free_page, release_page, fix_decommitted, reserve, commit, put,
}

fix_half :
    (s : Allocator) (page : ℕ)
    → s.addr_2048 ≡ page
    → page + granularity < 2 ^ 64
    → fix_decommitted half page s ≡ record s { addr_2048 = page + page_size }
unfolding fix_decommitted
fix_half s page here top = ground (arith, here, top)

-- The other address is fixed apart from it.
fix_full :
    (s : Allocator) (page : ℕ)
    → ((fix_decommitted full page s).addr_2048 ≡ s.addr_2048)
      × ((fix_decommitted full page s).commit_map ≡ s.commit_map)
      × ((fix_decommitted full page s).reserve_map ≡ s.reserve_map)
unfolding fix_decommitted
fix_full s page = (ground arith, ground arith, ground arith)

-- A page that is not the last of its region.
release_page-some :
    (s : Allocator) (region k : ℕ)
    → s.reserve_map region ≡ some k
    → 1 < k
    → k < 2 ^ 15
    → ((release_page region s).addr_2048 ≡ s.addr_2048)
      × ((release_page region s).commit_map ≡ s.commit_map)
unfolding release_page
release_page-some s region k r k1 k2 = (ground (arith, r, k1, k2), ground (arith, r, k1, k2))

free_page-last :
    (s : Allocator) (page region : ℕ)
    → s.commit_map page ≡ some 1
    → free_page page region s
      ≡ release_page region (
          fix_decommitted full page
            (fix_decommitted half page (record s { commit_map = put page none s.commit_map })))
unfolding free_page
free_page-last s page region c = ground (arith, c)

free_page-moves :
    (s : Allocator) (page region k : ℕ)
    → s.addr_2048 ≡ page
    → page + granularity < 2 ^ 64
    → s.commit_map page ≡ some 1
    → s.reserve_map region ≡ some k
    → 1 < k
    → k < 2 ^ 15
    → ((free_page page region s).addr_2048 ≡ page + page_size)
      × ((free_page page region s).commit_map ≡ put page none s.commit_map)
free_page-moves s page region k here top c r k1 k2 =
    let s0 : Allocator = record s { commit_map = put page none s.commit_map } in
    let h = fix_half s0 page here top in
    let f = fix_full (fix_decommitted half page s0) page in
    let kept = f.2 ∙ ap (λ (x : Allocator). x.reserve_map) h in
    let l =
      release_page-some (fix_decommitted full page (fix_decommitted half page s0)) region k
        (ap (λ (m : ℕ → Option ℕ). m region) kept ∙ r) k1 k2 in
    let e = free_page-last s page region c in
    (
      ap (λ (x : Allocator). x.addr_2048) e ∙ l.0 ∙ f.0 ∙ ap (λ (x : Allocator). x.addr_2048) h,
      ap (λ (x : Allocator). x.commit_map) e ∙ l.1 ∙ f.1 ∙ ap (λ (x : Allocator). x.commit_map) h,
    )

-- A block in the middle of a region, wherever VirtualAlloc would reserve one.
alloc_by_addr-middle :
    (s : Allocator) (region a : ℕ)
    → s.addr_2048 ≡ a
    → 0 < a % granularity
    → (alloc_by_addr half region s).0 ≡ a
unfolding alloc_by_addr reserve commit
alloc_by_addr-middle s region a e p = ground (arith, e, p)

buffer_alloc-half :
    (s : Allocator) (size region : ℕ)
    → 0 < size
    → size ≤ half_page
    → buffer_alloc size region s ≡ some (alloc_by_addr half region s)
unfolding buffer_alloc
buffer_alloc-half s size region p q = ground (arith, p, q)

buffer_free-page :
    (s : Allocator) (start n : ℕ)
    → start % granularity ≡ 0
    → s.commit_map start ≡ some n
    → buffer_free start s ≡ some (free_page start start s)
unfolding buffer_free
buffer_free-page s start n al c =
    let page : page_of start ≡ start = omega (arith, al) in
    let region : region_of start ≡ start = omega (arith, al) in
    let found = ap s.commit_map page ∙ c in
    let served : Option ℕ → Option Allocator =
      λ o. elim o [ none ↦ none | some m ↦ some (free_page (page_of start) (region_of start) s) ] in
    ap served found ∙ ap₂ (λ p q. some (free_page p q s)) page region

-- When the address for blocks of 2048 bytes stands behind a region that is full, and the region
-- right behind it has a block in its first page, blocks in its second page and at least two pages
-- in use, then Free of that first block and Alloc of at most 2048 bytes give the start of the
-- second page, while the blocks there are still in use.
pub free-alloc :
    (s : Allocator) (start size region n k : ℕ)
    → s.addr_2048 ≡ start
    → start % granularity ≡ 0
    → start + granularity < 2 ^ 64
    → s.commit_map start ≡ some 1
    → s.commit_map (start + page_size) ≡ some n
    → s.reserve_map start ≡ some k
    → 1 < k
    → k < 2 ^ 15
    → 0 < size
    → size ≤ half_page
    → (s' s'' : Allocator) × (buffer_free start s ≡ some s')
      × (s'.commit_map (start + page_size) ≡ some n)
      × (buffer_alloc size region s' ≡ some (start + page_size, s''))
free-alloc s start size region n k here al top c1 c2 r k1 k2 s0 s1 =
    let s' = free_page start start s in
    let m = free_page-moves s start start k here top c1 r k1 k2 in
    let a = alloc_by_addr-middle s' region (start + page_size) m.0 (omega (arith, al)) in
    (
      s',
      (alloc_by_addr half region s').1,
      buffer_free-page s start 1 al c1,
      ap (λ (f : ℕ → Option ℕ). f (start + page_size)) m.1 ∙ ground (arith, c2),
      buffer_alloc-half s' size region s0 s1
          ∙ ap (λ (x : ℕ). some (x, (alloc_by_addr half region s').1)) a,
    )
