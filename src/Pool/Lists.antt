-- ===== src/Pool/Lists.antt =====
-- The nodes of a list, and what a write to one field `next` leaves of them.
use chat_server_mt.Base.{
  ℕ, zero, suc, ◌+◌, ◌≡◌, ◌∙◌, refl, ap, ap₂, List, [], ◌∷◌, ◌==◌, if◌then◌else◌, arith,
}
use chat_server_mt.Pool.{Pool, set}
use chat_server_mt.Stack.Threads.{times_in}

abbrev pub walk : (ℕ → ℕ) → ℕ → ℕ → List ℕ
walk next zero p = []
walk next (suc n) p = p ∷ walk next n (next p)

-- How often a node is in some lists.
abbrev pub idle : (ℕ → ℕ) → ℕ → List Pool → ℕ
idle next b [] = 0
idle next b (p ∷ ps) = times_in b (walk next p.size p.top) + idle next b ps

abbrev pub sizes : List Pool → ℕ
sizes [] = 0
sizes (p ∷ ps) = p.size + sizes ps

-- The lists of the stack, of `d` nodes each.
abbrev pub chunks_of : ℕ → List ℕ → List Pool
chunks_of d [] = []
chunks_of d (top ∷ tops) = record { top = top; size = d } ∷ chunks_of d tops

module _ (next : ℕ → ℕ) (a v : ℕ) where
  pub walk-set :
      (n p : ℕ) → times_in a (walk next n p) ≡ 0 → walk (set next a v) n p ≡ walk next n p
  walk-set zero p h = refl
  walk-set (suc n) p h =
      let same : set next a v p ≡ next p = ground (arith, h) in
      ap (λ q. p ∷ walk (set next a v) n q) same
      ∙ ap (λ l. p ∷ l) (walk-set n (next p) (ground (arith, h)))

  pub idle-set :
      (ps : List Pool) (b : ℕ) → idle next a ps ≡ 0 → idle (set next a v) b ps ≡ idle next b ps
  idle-set [] b h = refl
  idle-set (p ∷ ps) b h =
      ap₂ (λ (x y : ℕ). x + y) (ap (λ l. times_in b l) (walk-set p.size p.top (omega (arith, h))))
        (idle-set ps b (omega (arith, h)))

  -- The list that begins with the node, and goes on where it points to.
  pub walk-link :
      (n b : ℕ)
      → times_in a (walk next n v) ≡ 0
      → times_in b (walk (set next a v) (suc n) a)
        ≡ (if a == b then 1 else 0) + times_in b (walk next n v)
  walk-link n b h =
      let here : set next a v a ≡ v = ground arith in
      ap (λ q. (if a == b then 1 else 0) + times_in b (walk (set next a v) n q)) here
      ∙ ap (λ l. (if a == b then 1 else 0) + times_in b l) (walk-set n v h)
