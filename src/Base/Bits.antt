-- ===== src/Base/Bits.antt =====
-- `^` on bytes, by the binary digits.
use Prim.Native.Nat.{
  ℕ, zero, suc, ◌+◌, ◌*◌, ◌/◌, ◌%◌, ◌^◌, ◌≤◌, ◌<◌, bit_xor, bit_xor-bitwise, digits, differ,
}
use mathlib.Core.Path.{◌≡◌, refl, ap}
use native.Mathlib.Nat.{pow-succ', div-add-mod, div-div-eq-div-mul}
use native.Mathlib.Omega.{arith}

abbrev xor_digits : ℕ → ℕ → ℕ → ℕ
xor_digits = digits (λ y. y) differ

-- Two fuels that cover the first number give the same digits.
enough_fuel :
    (a b fuel other : ℕ) → a ≤ fuel → a ≤ other → xor_digits fuel a b ≡ xor_digits other a b
enough_fuel (suc a) b (suc fuel) (suc other) h k =
    let rest = enough_fuel (suc a / 2) (b / 2) fuel other (omega arith) (omega arith) in
    ap (λ (t : ℕ). t * 2 + differ (suc a % 2) (b % 2)) rest
enough_fuel (suc a) b zero other h k = absurd (omega (arith, h))
enough_fuel (suc a) b (suc fuel) zero h k = absurd (omega (arith, k))
enough_fuel zero b (suc fuel) (suc other) h k = refl
enough_fuel zero b (suc fuel) zero h k = refl
enough_fuel zero b zero (suc other) h k = refl
enough_fuel zero b zero zero h k = refl

differ_digits : (x y : ℕ) → x < 2 → y < 2 → differ x y ≡ (x + y) % 2
differ_digits zero y p q = omega arith
differ_digits (suc zero) zero p q = refl
differ_digits (suc zero) (suc zero) p q = refl
differ_digits (suc zero) (suc (suc y)) p q = absurd (omega arith)
differ_digits (suc (suc x)) y p q = absurd (omega arith)

-- The law for the lowest digit.
bit_xor_low : (a b : ℕ) → bit_xor a b ≡ bit_xor (a / 2) (b / 2) * 2 + (a + b) % 2
bit_xor_low zero b = omega (arith, bit_xor-bitwise 0 b, bit_xor-bitwise 0 (b / 2))
bit_xor_low (suc a) b = omega (
  arith,
  bit_xor-bitwise (suc a) b,
  bit_xor-bitwise (suc a / 2) (b / 2),
  enough_fuel (suc a / 2) (b / 2) a (suc a / 2) (omega arith) (omega arith),
  differ_digits (suc a % 2) (b % 2) (omega arith) (omega arith),
)

mod_double : (m b : ℕ) → b % (2 * m) ≡ b / 2 % m * 2 + b % 2
mod_double m b = omega (
  arith,
  div-add-mod b (2 * m),
  div-add-mod (b / 2) m,
  ap (λ (t : ℕ). m * t) (div-div-eq-div-mul b 2 m),
)

bit_xor_half : (a b : ℕ) → bit_xor a b / 2 ≡ bit_xor (a / 2) (b / 2)
bit_xor_half a b = omega (arith, bit_xor_low a b)

bit_xor_odd : (a b : ℕ) → bit_xor a b % 2 ≡ (a + b) % 2
bit_xor_odd a b = omega (arith, bit_xor_low a b)

-- One digit of `(a ^ x) % (2 * m) ^ x`, in terms of the other digits.
undo_step :
    (m a x : ℕ)
    → bit_xor (bit_xor a x % (2 * m)) x % (2 * m)
      ≡ bit_xor (bit_xor (a / 2) (x / 2) % m) (x / 2) % m * 2 + a % 2
undo_step m a x =
    let y : ℕ = bit_xor a x % (2 * m) in
    omega (
      arith,
      mod_double m (bit_xor y x),
      ap (λ (t : ℕ). t % m) (bit_xor_half y x),
      ap (λ (t : ℕ). bit_xor t (x / 2) % m) half,
      bit_xor_odd y x,
      mod_double m (bit_xor a x),
      bit_xor_odd a x,
    )
  where
    half : bit_xor a x % (2 * m) / 2 ≡ bit_xor (a / 2) (x / 2) % m
    half = omega (arith, mod_double m (bit_xor a x), ap (λ (t : ℕ). t % m) (bit_xor_half a x))

-- Cutting the digits above the k lowest before a second `^` changes nothing.
bit_xor_undo : (k a x : ℕ) → a < 2 ^ k → bit_xor (bit_xor a x % 2 ^ k) x % 2 ^ k ≡ a
bit_xor_undo zero a x h = omega arith
bit_xor_undo (suc k) a x h = rw (pow-succ' 2 k) (
    omega
      (arith, undo_step (2 ^ k) a x, bit_xor_undo k (a / 2) (x / 2) (omega (arith, pow-succ' 2 k))))

-- `unsigned char c = b ^ n` is undone by a second `^ n`, whatever the `int` n.
pub byte_xor_undo : (b n : ℕ) → b < 256 → bit_xor (bit_xor b n % 256) n % 256 ≡ b
byte_xor_undo b n h = bit_xor_undo 8 b n h
