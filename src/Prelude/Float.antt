-- ===== src/Prelude/Float.antt =====
-- `f64`: every finite value is a signed dyadic fraction. Products are rounded to 53 significant
-- bits, ties to even, as IEEE 754 does between the smallest normal number and the largest.
use Prim.Native.Nat.{ℕ, zero, suc, ◌+◌, ◌*◌, ◌/◌, ◌%◌, ◌^◌, ◌<◌, min}
use mathlib.Core.Path.{◌≡◌}
use mathlib.Core.Bool.{Bool, true, false, not, ◌&&◌, xor}
use native.Mathlib.Omega.{arith}
use aros_kernel.Prelude.Tests.{ltb, nat_beq, if◌then◌else◌, u32_max, u64_max}

-- `finite negative m e` is m / 2 ^ e, or - m / 2 ^ e.
pub data F64 : Type 0 where
  nan : F64
  infinite : (negative : Bool) → F64
  finite : (negative : Bool) (mantissa exponent : ℕ) → F64

-- How often `m` is halved until 53 bits are left. The fuel serves below 2 ^ 181.
excess : ℕ → ℕ → ℕ
excess zero m = 0
excess (suc fuel) m = elim (ltb m 9007199254740992) [ true ↦ 0 | false ↦ suc (excess fuel (m / 2)) ]

-- The multiple of 2 ^ k nearest to `m`, and of two the one that is even there.
round_at : ℕ → ℕ → ℕ
round_at m k =
    let q = m / 2 ^ k in
    let r = m % 2 ^ k in
    (if ltb (2 * r) (2 ^ k) then q else if ltb (2 ^ k) (2 * r) then q + 1 else q + q % 2) * 2 ^ k

unfoldable pub round53 : ℕ → ℕ
unfolding excess round_at
round53 m = round_at m (excess 128 m)

-- Below 2 ^ 53 every number is kept.
pub round53_exact : (m : ℕ) → m < 9007199254740992 → round53 m ≡ m
unfolding round53
round53_exact m h = ground arith

abbrev pub of_u64 : ℕ → F64
of_u64 n = finite false (round53 n) 0

unfoldable pub mul : F64 → F64 → F64
mul nan b = nan
mul (infinite s) nan = nan
mul (infinite s) (infinite t) = infinite (xor s t)
mul (infinite s) (finite t n f) = if nat_beq n 0 then nan else infinite (xor s t)
mul (finite s m e) nan = nan
mul (finite s m e) (infinite t) = if nat_beq m 0 then nan else infinite (xor s t)
mul (finite s m e) (finite t n f) = finite (xor s t) (round53 (m * n)) (e + f)

-- `as` from a float saturates and drops the fraction; `nan` is 0.
truncate_to : ℕ → F64 → ℕ
truncate_to bound nan = 0
truncate_to bound (infinite s) = if s then 0 else bound
truncate_to bound (finite s m e) = if s then 0 else min bound (m / 2 ^ e)

unfoldable pub to_u64 : F64 → ℕ
unfolding truncate_to
to_u64 = truncate_to u64_max

unfoldable pub to_u32 : F64 → ℕ
unfolding truncate_to
to_u32 = truncate_to u32_max

-- `x < 0.0` and `x > 1.0`; both are false of `nan`.
unfoldable pub below_zero : F64 → Bool
below_zero nan = false
below_zero (infinite s) = s
below_zero (finite s m e) = s && not (nat_beq m 0)

unfoldable pub above_one : F64 → Bool
above_one nan = false
above_one (infinite s) = not s
above_one (finite s m e) = not s && ltb (2 ^ e) m
