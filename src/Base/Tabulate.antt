-- ===== src/Base/Tabulate.antt =====
-- A list given by its length and its entries.
use Prim.Native.Nat.{ℕ, zero, suc, ◌-◌, ◌<◌}
use mathlib.Core.Path.{◌≡◌, refl, ap, sym, subst, ◌∙◌}
use mathlib.Core.List.{List, [], ◌∷◌, ◌++◌}
use native.Mathlib.Omega.{arith}
use chat_server_mt.Base.Tests.{ltb, if◌then◌else◌}
use chat_server_mt.Base.Lists.{length, get_or, get_or_ext}

module _ {ℓ} {A : Type ℓ} where
  abbrev pub tabulate : ℕ → (ℕ → A) → List A
  tabulate zero f = []
  tabulate (suc n) f = f 0 ∷ tabulate n (λ i. f (suc i))

  pub length-tabulate : (n : ℕ) (f : ℕ → A) → length (tabulate n f) ≡ n
  length-tabulate zero f = refl
  length-tabulate (suc n) f = ap suc (length-tabulate n (λ i. f (suc i)))

  pub get_or-tabulate :
      (n : ℕ) (f : ℕ → A) (i : ℕ) (d : A) → i < n → get_or (tabulate n f) i d ≡ f i
  get_or-tabulate zero f i d h = absurd (omega arith)
  get_or-tabulate (suc n) f zero d h = refl
  get_or-tabulate (suc n) f (suc i) d h = get_or-tabulate n (λ k. f (suc k)) i d (omega arith)

  pub get_or-append :
      (xs ys : List A) (i : ℕ) (d : A)
      → get_or (xs ++ ys) i d
        ≡ (if ltb i (length xs) then get_or xs i d else get_or ys (i - length xs) d)
  get_or-append [] ys i d = ground arith
  get_or-append (x ∷ xs) ys zero d = ground arith
  get_or-append (x ∷ xs) ys (suc i) d = ground (arith, get_or-append xs ys i d)

  -- A list is determined by its length and its entries.
  pub eq-tabulate :
      (d : A) (xs : List A) (n : ℕ) (f : ℕ → A)
      → length xs ≡ n
      → ((i : ℕ) → i < n → get_or xs i d ≡ f i)
      → tabulate n f ≡ xs
  eq-tabulate d xs n f len h = get_or_ext d (tabulate n f) xs (length-tabulate n f ∙ sym len) λ i p.
      let q : i < n = subst (λ k. i < k) (length-tabulate n f) p in
      get_or-tabulate n f i d q ∙ sym (h i q)
