-- ===== src/Common/Words.antt =====
-- The saturating operations of u32 and u64. A value of such a type is a number with its bound
-- stated where it is needed.
use Prim.Native.Nat.{ℕ, zero, suc, ◌^◌, ◌+◌, ◌*◌, ◌≤◌, min}
use mathlib.Core.Path.{ap}
use native.Mathlib.Nat.{pow-suc}
use native.Mathlib.Omega.{arith}

abbrev pub u32_max : ℕ
u32_max = 4294967295

abbrev pub u64_max : ℕ
u64_max = 18446744073709551615

-- `u64::saturating_add` and `u64::saturating_mul`.
abbrev pub saturating_add : ℕ → ℕ → ℕ
saturating_add a b = min (a + b) u64_max

abbrev pub saturating_mul : ℕ → ℕ → ℕ
saturating_mul a b = min (a * b) u64_max

-- `u32::saturating_add(1)`, as for the attempts of a branch.
abbrev pub saturating_suc32 : ℕ → ℕ
saturating_suc32 a = min (a + 1) u32_max

pub le-mul-pow : (r s : ℕ) → r ≤ r * 2 ^ s
le-mul-pow r zero = omega arith
le-mul-pow r (suc s) = omega (arith, le-mul-pow r s, ap (λ (t : ℕ). r * t) (pow-suc 2 s))

-- Powers of two grow with the exponent.
pub mul-pow_mono : (r s t : ℕ) → s ≤ t → r * 2 ^ s ≤ r * 2 ^ t
mul-pow_mono r s zero h = ground arith
mul-pow_mono r zero (suc t) h = omega (arith, le-mul-pow r (suc t))
mul-pow_mono r (suc s) (suc t) h = omega (
  arith,
  mul-pow_mono r s t (omega arith),
  ap (λ (u : ℕ). r * u) (pow-suc 2 s),
  ap (λ (u : ℕ). r * u) (pow-suc 2 t),
)
