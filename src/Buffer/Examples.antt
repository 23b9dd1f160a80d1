-- ===== src/Buffer/Examples.antt =====
-- Blocks of both sizes.
use chat_server_mt.Base.{◌≡◌, refl, none, some, List, [], ◌∷◌, arith}
use chat_server_mt.Buffer.{
  Allocator, half, full, new_allocator, buffer_alloc, buffer_free, alloc_by_addr, reserve, commit,
  put,
}
use chat_server_mt.Buffer.Apart.{Block, AllApart}
use chat_server_mt.Buffer.Sequence.{Allocs, new, alloc, AllInside, allocs-Apart}
use chat_server_mt.Buffer.Twice.{free-alloc}

-- A ring for sending and one for receiving.
abbrev with_send : Allocator
with_send = (alloc_by_addr full 131072 new_allocator).1

abbrev with_both : Allocator
with_both = (alloc_by_addr half 65536 with_send).1

abbrev two_blocks : List Block
two_blocks = record { start = 65536; len = 2048 } ∷ record { start = 131072; len = 4096 } ∷ []

two_blocks-Allocs : Allocs with_both two_blocks
unfolding buffer_alloc alloc_by_addr reserve commit
two_blocks-Allocs =
    alloc 2001 65536 65536 with_both
      (alloc 4001 131072 131072 with_send (new refl) (omega arith, refl, refl) refl)
      (omega arith, refl, refl) refl

-- The address for 2048 bytes stands behind the last byte of the region at 65536, and the region
-- there has two pages with a block of 4096 bytes each.
abbrev full_region : Allocator
full_region = record {
  addr_2048 = 131072;
  addr_4096 = 139264;
  reserve_map = put 65536 (some 16) (put 131072 (some 2) (λ a. none));
  commit_map = put 131072 (some 1) (put 135168 (some 1) (λ a. none));
}

allocs-Apart_example : AllApart two_blocks × AllInside with_both two_blocks
allocs-Apart_example = allocs-Apart with_both two_blocks two_blocks-Allocs

free-alloc_example :
    (s' s'' : Allocator) × (buffer_free 131072 full_region ≡ some s')
    × (s'.commit_map 135168 ≡ some 1)
    × (buffer_alloc 2001 196608 s' ≡ some (135168, s''))
free-alloc_example =
    free-alloc full_region 131072 2001 196608 1 2 refl refl (omega arith) refl refl refl
      (omega arith) (omega arith) (omega arith) (omega arith)
