-- ===== src/Prelude/Int.antt =====
-- `i32`, as a signed number over the native one.
use Prim.Native.Nat.{ℕ}

-- `negsuc n` is - (n + 1).
pub data ℤ : Type 0 where
  pos negsuc : ℕ → ℤ
