-- ===== src/Base/Slices.antt =====
-- How `take`, `drop`, `slice` and `blit` compose.
use Prim.Native.Nat.{ℕ, zero, suc, ◌+◌, ◌-◌, ◌≤◌}
use mathlib.Core.Path.{◌≡◌, refl, sym, ap, ◌∙◌}
use mathlib.Core.List.{List, [], ◌∷◌, ◌++◌}
use native.Mathlib.Omega.{arith}
use chat_server_mt.Base.Lists.{length, take, drop}
use chat_server_mt.Base.Index.{blit, slice}

module _ {ℓ} {A : Type ℓ} where
  pub take-nil : (n : ℕ) → take {A = A} n [] ≡ []
  take-nil zero = refl
  take-nil (suc n) = refl

  pub drop-nil : (n : ℕ) → drop {A = A} n [] ≡ []
  drop-nil zero = refl
  drop-nil (suc n) = refl

  pub take-take : (n m : ℕ) (xs : List A) → n ≤ m → take n (take m xs) ≡ take n xs
  take-take zero m xs h = refl
  take-take (suc n) zero xs h = absurd (omega arith)
  take-take (suc n) (suc m) [] h = refl
  take-take (suc n) (suc m) (x ∷ xs) h = ap (λ t. x ∷ t) (take-take n m xs (omega arith))

  pub drop-take : (n m : ℕ) (xs : List A) → drop n (take m xs) ≡ take (m - n) (drop n xs)
  drop-take zero m xs = ap (λ k. take k xs) (omega arith)
  drop-take (suc n) zero [] = sym (take-nil (0 - suc n))
  drop-take (suc n) zero (x ∷ xs) =
      ap (λ k. take k (drop n xs)) {x = 0} {y = 0 - suc n} (omega arith)
  drop-take (suc n) (suc m) [] = sym (take-nil (suc m - suc n))
  drop-take (suc n) (suc m) (x ∷ xs) = drop-take n m xs ∙ ap (λ k. take k (drop n xs)) (omega arith)

  pub drop-drop : (n m : ℕ) (xs : List A) → drop n (drop m xs) ≡ drop (m + n) xs
  drop-drop n zero xs = ap (λ k. drop k xs) (omega arith)
  drop-drop n (suc m) [] = drop-nil n ∙ sym (drop-nil (suc m + n))
  drop-drop n (suc m) (x ∷ xs) = drop-drop n m xs ∙ ap (λ k. drop k (x ∷ xs)) step
    where
      step : suc (m + n) ≡ suc m + n
      step = omega arith

  pub blit-zero :
      (buf xs : List A) → length xs ≤ length buf → blit buf 0 xs ≡ xs ++ drop (length xs) buf
  blit-zero [] [] h = refl
  blit-zero [] (x ∷ xs) h = absurd (omega arith)
  blit-zero (b ∷ bs) [] h = refl
  blit-zero (b ∷ bs) (x ∷ xs) h = ap (λ t. x ∷ t) (blit-zero bs xs (omega arith))

  pub take-slice : (buf : List A) (at m n : ℕ) → n ≤ m → take n (slice buf at m) ≡ slice buf at n
  take-slice buf at m n h = take-take n m (drop at buf) h

  pub drop-slice :
      (buf : List A) (at m n : ℕ) → drop n (slice buf at m) ≡ slice buf (at + n) (m - n)
  drop-slice buf at m n =
      drop-take n m (drop at buf) ∙ ap (λ t. take (m - n) t) (drop-drop n at buf)

  pub blit-nil : (buf : List A) → blit buf 0 [] ≡ buf
  blit-nil [] = refl
  blit-nil (b ∷ bs) = refl
