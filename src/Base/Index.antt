-- ===== src/Base/Index.antt =====
-- `memcpy` into and out of a byte array, read index by index.
use Prim.Native.Nat.{ℕ, zero, suc, ◌+◌, ◌-◌, ◌≤◌, ◌<◌}
use mathlib.Core.Path.{◌≡◌, refl, ap, ◌∙◌}
use mathlib.Core.List.{List, [], ◌∷◌}
use mathlib.Core.Logic.{◌⊎◌}
use mathlib.Core.Bool.{◌&&◌}
use chat_server_mt.Base.Tests.{ltb, leb, if◌then◌else◌}
use native.Mathlib.Omega.{arith}
use chat_server_mt.Base.Lists.{
  length, get_or, take, drop, length-take, length-drop, get_or-take, get_or-drop,
}

module _ {ℓ} {A : Type ℓ} where
  -- memcpy(buf + at, xs, length xs). A write past the end of the array is dropped.
  abbrev pub blit : List A → ℕ → List A → List A
  blit [] at xs = []
  blit (b ∷ bs) (suc at) xs = b ∷ blit bs at xs
  blit (b ∷ bs) zero [] = b ∷ bs
  blit (b ∷ bs) zero (x ∷ xs) = x ∷ blit bs zero xs

  -- The `n` bytes that memcpy(_, buf + at, n) reads.
  abbrev pub slice : List A → ℕ → ℕ → List A
  slice buf at n = take n (drop at buf)

  pub length-blit : (buf : List A) (at : ℕ) (xs : List A) → length (blit buf at xs) ≡ length buf
  length-blit [] zero xs = refl
  length-blit [] (suc at) xs = refl
  length-blit (b ∷ bs) (suc at) xs = ap suc (length-blit bs at xs)
  length-blit (b ∷ bs) zero [] = refl
  length-blit (b ∷ bs) zero (x ∷ xs) = ap suc (length-blit bs zero xs)

  pub get_or-blit_in :
      (buf : List A) (at : ℕ) (xs : List A) (j : ℕ) (d : A)
      → at + length xs ≤ length buf
      → at ≤ j
      → j < at + length xs
      → get_or (blit buf at xs) j d ≡ get_or xs (j - at) d
  get_or-blit_in [] at xs j d fits lo hi = absurd (omega arith)
  get_or-blit_in (b ∷ bs) (suc at) xs zero d fits lo hi = absurd (omega arith)
  get_or-blit_in (b ∷ bs) (suc at) xs (suc j) d fits lo hi =
      get_or-blit_in bs at xs j d (omega arith) (omega arith) (omega arith)
      ∙ ap (λ k. get_or xs k d) (omega arith)
  get_or-blit_in (b ∷ bs) zero [] j d fits lo hi = absurd (omega arith)
  get_or-blit_in (b ∷ bs) zero (x ∷ xs) zero d fits lo hi = refl
  get_or-blit_in (b ∷ bs) zero (x ∷ xs) (suc j) d fits lo hi =
      get_or-blit_in bs zero xs j d (omega arith) (omega arith) (omega arith)
      ∙ ap (λ k. get_or xs k d) (omega arith)
      ∙ ap (λ k. get_or (x ∷ xs) k d) step
    where
      step : suc j ≡ suc j - 0
      step = omega arith

  pub get_or-blit_out :
      (buf : List A) (at : ℕ) (xs : List A) (j : ℕ) (d : A)
      → (j < at) ⊎ (at + length xs ≤ j)
      → get_or (blit buf at xs) j d ≡ get_or buf j d
  get_or-blit_out [] zero xs j d h = refl
  get_or-blit_out [] (suc at) xs j d h = refl
  get_or-blit_out (b ∷ bs) (suc at) xs zero d h = refl
  get_or-blit_out (b ∷ bs) (suc at) xs (suc j) d h = get_or-blit_out bs at xs j d (omega arith)
  get_or-blit_out (b ∷ bs) zero [] j d h = refl
  get_or-blit_out (b ∷ bs) zero (x ∷ xs) zero d h = absurd (omega arith)
  get_or-blit_out (b ∷ bs) zero (x ∷ xs) (suc j) d h = get_or-blit_out bs zero xs j d (omega arith)

  pub length-slice : (buf : List A) (at n : ℕ) → at + n ≤ length buf → length (slice buf at n) ≡ n
  length-slice buf at n h = omega (arith, length-take n (drop at buf), length-drop at buf)

  pub get_or-slice :
      (buf : List A) (at n i : ℕ) (d : A)
      → i < n
      → get_or (slice buf at n) i d ≡ get_or buf (at + i) d
  get_or-slice buf at n i d h = get_or-take n (drop at buf) i d h ∙ get_or-drop at buf i d

module _ {A : Type 0} where
  pub get_or-blit :
      (buf : List A) (at : ℕ) (xs : List A) (j : ℕ) (d : A)
      → at + length xs ≤ length buf
      → get_or (blit buf at xs) j d
        ≡ (if leb at j && ltb j (at + length xs) then get_or xs (j - at) d else get_or buf j d)
  get_or-blit buf at xs j d fits =
      ground (arith, get_or-blit_in buf at xs j d fits, get_or-blit_out buf at xs j d)
