-- ===== src/Buffer/Apart.antt =====
-- The blocks of many calls of Alloc.
use chat_server_mt.Base.{
  ℕ, ◌+◌, ◌%◌, ◌≤◌, ◌<◌, ◌≡◌, ◌≢◌, ◌⊎◌, inl, inr, ◌∙◌, ap, sym, subst, none, List, [], ◌∷◌, arith,
  ℕ_discrete,
}
use chat_server_mt.Buffer.{
  Allocator, Kind, half, full, block_size, addr_of, region_of, page_size, granularity,
}
use chat_server_mt.Buffer.Blocks.{other, Moves}

pub record Block : Type 0 where
  pub start : ℕ
  pub len : ℕ

-- One ends before the other begins.
abbrev pub Apart : Block → Block → Type 0
Apart b c = (b.start + b.len ≤ c.start) ⊎ (c.start + c.len ≤ b.start)

abbrev pub AllApartFrom : Block → List Block → Type 0
AllApartFrom b [] = Unit {0}
AllApartFrom b (c ∷ cs) = Apart c b × AllApartFrom b cs

abbrev pub AllApart : List Block → Type 0
AllApart [] = Unit {0}
AllApart (b ∷ bs) = AllApartFrom b bs × AllApart bs

-- What VirtualAlloc promises: a multiple of 64K that is not reserved.
abbrev pub IsRegion : Allocator → ℕ → Type 0
IsRegion s r = (0 < r) × (r % granularity ≡ 0) × (s.reserve_map r ≡ none)

pub record Held (s : Allocator) (b : Block) : Type 0 where
  pub inside : b.start % granularity + b.len ≤ granularity
  pub known : s.reserve_map (region_of b.start) ≢ none
  pub below :
      (w : Kind)
      → 0 < addr_of w s % granularity
      → region_of b.start ≡ region_of (addr_of w s)
      → b.start + b.len ≤ addr_of w s

abbrev pub AllHeld : Allocator → List Block → Type 0
AllHeld s [] = Unit {0}
AllHeld s (b ∷ bs) = Held s b × AllHeld s bs

-- The two addresses stand in different regions.
abbrev pub IsDistinct : Allocator → Kind → Type 0
IsDistinct s w =
    0 < addr_of w s % granularity
    → 0 < addr_of (other w) s % granularity
    → region_of (addr_of w s) ≢ region_of (addr_of (other w) s)

of_half : (s : Allocator) (w : Kind) → IsDistinct s half → IsDistinct s w
of_half s half d = d
of_half s full d = λ p q e. d q p (sym e)

to_half : (s : Allocator) (w : Kind) → IsDistinct s w → IsDistinct s half
to_half s half d = d
to_half s full d = λ p q e. d q p (sym e)

pub record Inv (s : Allocator) (bs : List Block) : Type 0 where
  pub aligned : (w : Kind) → addr_of w s % block_size w ≡ 0
  pub known :
      (w : Kind) → 0 < addr_of w s % granularity → s.reserve_map (region_of (addr_of w s)) ≢ none
  pub distinct : IsDistinct s half
  pub held : AllHeld s bs
  pub apart : AllApart bs

new-region :
    (s : Allocator) (x r : ℕ)
    → s.reserve_map (region_of x) ≢ none
    → IsRegion s r
    → region_of x ≢ region_of r
new-region s x r known is e =
    let same : region_of r ≡ r = omega (arith, is.1) in known (ap s.reserve_map (e ∙ same) ∙ is.2)

-- Blocks in different regions.
regions-Apart :
    (x n y k : ℕ)
    → x % granularity + n ≤ granularity
    → y % granularity + k ≤ granularity
    → region_of x ≢ region_of y
    → (x + n ≤ y) ⊎ (y + k ≤ x)
regions-Apart x n y k h l ne = ground (arith, h, l, ne)

each_kind : (P : Kind → Type 0) (w : Kind) → P w → P (other w) → (u : Kind) → P u
each_kind P half a b half = a
each_kind P half a b full = b
each_kind P full a b half = b
each_kind P full a b full = a

multiple : (w : Kind) (r : ℕ) → r % granularity ≡ 0 → r % block_size w ≡ 0
multiple half r h = omega (arith, h)
multiple full r h = omega (arith, h)

next_one : (w : Kind) (a : ℕ) → a % block_size w ≡ 0 → (a + block_size w) % block_size w ≡ 0
next_one half a h = omega (arith, h)
next_one full a h = omega (arith, h)

fits : (w : Kind) (a : ℕ) → a % block_size w ≡ 0 → a % granularity + block_size w ≤ granularity
fits half a e = omega (arith, e)
fits full a e = omega (arith, e)

behind :
    (a n : ℕ)
    → a % granularity + n ≤ granularity
    → 0 < (a + n) % granularity
    → region_of (a + n) ≡ region_of a
behind a n h p = omega (arith, h, p)

module _ (s s' : Allocator) (bs : List Block) (w : Kind) (region a : ℕ) (i : Inv s bs)
    (is : IsRegion s region) (mv : Moves w region s a s') where
  starts : (a ≡ region) ⊎ ((0 < addr_of w s % granularity) × (a ≡ addr_of w s))
  starts = ground (arith, mv.start)

  a-aligned : a % block_size w ≡ 0
  a-aligned = elim starts [
    | inl e ↦ subst (λ x. x % block_size w ≡ 0) (sym e) (multiple w region is.1)
    | inr p ↦ subst (λ x. x % block_size w ≡ 0) (sym p.1) (i.aligned w)
  ]

  a-fits : a % granularity + block_size w ≤ granularity
  a-fits = fits w a a-aligned

  -- A block that is held is below the new one, or in another region.
  under : (b : Block) → Held s b → region_of b.start ≡ region_of a → b.start + b.len ≤ a
  under b h e = elim starts [
    | inl n ↦ elim (new-region s b.start region h.known is (e ∙ ap region_of n)) [ ]
    | inr p ↦ subst (λ x. b.start + b.len ≤ x) (sym p.1) (h.below w p.0 (e ∙ ap region_of p.1))
  ]

  foreign : 0 < addr_of (other w) s % granularity → region_of a ≢ region_of (addr_of (other w) s)
  foreign pos e = elim starts [
    | inl n ↦
        new-region s (addr_of (other w) s) region (i.known (other w) pos) is
          (sym e ∙ ap region_of n)
    | inr p ↦ of_half s w i.distinct p.0 pos (sym (ap region_of p.1) ∙ e)
  ]

  a-known : s'.reserve_map (region_of a) ≢ none
  a-known = elim starts [
    | inl n ↦ mv.has (subst (λ x. x % page_size ≡ 0) (sym n) (multiple full region is.1))
    | inr p ↦
        mv.kept (region_of a)
          (subst (λ x. s.reserve_map (region_of x) ≢ none) (sym p.1) (i.known w p.0))
  ]

  moved : 0 < addr_of (other w) s' % granularity → 0 < addr_of (other w) s % granularity
  moved = subst (λ x. 0 < x % granularity) mv.there

  -- Behind the block the address is in the region still, or at its end.
  same-region : 0 < addr_of w s' % granularity → region_of (addr_of w s') ≡ region_of a
  same-region pos =
      ap region_of mv.here
      ∙ behind a (block_size w) a-fits (subst (λ x. 0 < x % granularity) mv.here pos)

  held-Held : (b : Block) → Held s b → Held s' b
  held-Held b h = record {
    inside = h.inside;
    known = mv.kept (region_of b.start) h.known;
    below =
        each_kind
          (λ u.
            0 < addr_of u s' % granularity
            → region_of b.start ≡ region_of (addr_of u s')
            → b.start + b.len ≤ addr_of u s')
          w (λ pos e. omega (arith, under b h (e ∙ same-region pos), mv.here))
          (λ pos e.
            subst (λ x. b.start + b.len ≤ x) (sym mv.there)
              (h.below (other w) (moved pos) (e ∙ ap region_of mv.there)));
  }

  held-Apart : (b : Block) → Held s b → Apart b (record { start = a; len = block_size w })
  held-Apart b h = elim (ℕ_discrete (region_of b.start) (region_of a)) [
    | yes e ↦ inl (under b h e)
    | no n ↦ regions-Apart b.start b.len a (block_size w) h.inside a-fits n
  ]

  new-Held : Held s' (record { start = a; len = block_size w })
  new-Held = record {
    inside = a-fits;
    known = a-known;
    below =
        each_kind
          (λ u.
            0 < addr_of u s' % granularity
            → region_of a ≡ region_of (addr_of u s')
            → a + block_size w ≤ addr_of u s')
          w (λ pos e. omega (arith, mv.here))
          (λ pos e. elim (foreign (moved pos) (e ∙ ap region_of mv.there)) [ ]);
  }

  all_held : (cs : List Block) → AllHeld s cs → AllHeld s' cs
  all_held [] h = tt
  all_held (c ∷ cs) h = (held-Held c h.0, all_held cs h.1)

  all_apart :
      (cs : List Block) → AllHeld s cs → AllApartFrom (record { start = a; len = block_size w }) cs
  all_apart [] h = tt
  all_apart (c ∷ cs) h = (held-Apart c h.0, all_apart cs h.1)

  pub Moves-Inv : Inv s' (record { start = a; len = block_size w } ∷ bs)
  Moves-Inv = record {
    aligned =
        each_kind (λ u. addr_of u s' % block_size u ≡ 0) w
          (subst (λ x. x % block_size w ≡ 0) (sym mv.here) (next_one w a a-aligned))
          (subst (λ x. x % block_size (other w) ≡ 0) (sym mv.there) (i.aligned (other w)));
    known =
        each_kind
          (λ u. 0 < addr_of u s' % granularity → s'.reserve_map (region_of (addr_of u s')) ≢ none) w
          (λ pos. subst (λ x. s'.reserve_map x ≢ none) (sym (same-region pos)) a-known)
          (λ pos.
            subst (λ x. s'.reserve_map (region_of x) ≢ none) (sym mv.there)
              (mv.kept (region_of (addr_of (other w) s)) (i.known (other w) (moved pos))));
    distinct =
        to_half s' w
          (λ pos pos' e. foreign (moved pos') (sym (same-region pos) ∙ e ∙ ap region_of mv.there));
    held = (new-Held, all_held bs i.held);
    apart = (all_apart bs i.held, i.apart);
  }
