-- ===== src/Base/Word.antt =====
-- Machine integers as bit patterns over the native numbers, with their wrap-around.
use Prim.Native.Nat.{ℕ, ◌+◌, ◌-◌, ◌%◌, ◌^◌, ◌<◌}
use mathlib.Core.Path.{◌≡◌}
use native.Mathlib.Nat.{mod-eq_of_lt, mod-eq-sub-mod}
use native.Mathlib.Decide.{dec_lt}
use native.Mathlib.Omega.{arith}
use mathlib.Core.Bool.{Bool}
use chat_server_mt.Base.Tests.{ltb, leb, if◌then◌else◌}

abbrev pub u8 : ℕ → ℕ
u8 n = n % 2 ^ 8

abbrev pub u16 : ℕ → ℕ
u16 n = n % 2 ^ 16

abbrev pub u32 : ℕ → ℕ
u32 n = n % 2 ^ 32

-- `+` and `-` of 32 bits, the same for `int` and `unsigned`.
abbrev pub add32 : ℕ → ℕ → ℕ
add32 a b = (a + b) % 2 ^ 32

abbrev pub sub32 : ℕ → ℕ → ℕ
sub32 a b = (a + 2 ^ 32 - b) % 2 ^ 32

-- The sign bit of an `int`, and `<` of two `int`s given by their patterns.
abbrev pub is_negative : ℕ → Bool
is_negative a = leb (2 ^ 31) a

abbrev pub ltb_int : ℕ → ℕ → Bool
ltb_int a b = ltb (add32 a (2 ^ 31)) (add32 b (2 ^ 31))

-- A remainder of less than two rounds is one conditional subtraction.
pub mod_one_round : (k size : ℕ) → k < size + size → k % size ≡ (if ltb k size then k else k - size)
mod_one_round k size h = elim (dec_lt k size) [
  | yes p ↦ ground (arith, mod-eq_of_lt {n = k} {m = size})
  | no p ↦ ground (
    arith,
    mod-eq-sub-mod {n = k} {m = size} (omega arith),
    mod-eq_of_lt {n = k - size} {m = size} (omega arith),
  )
]
