-- ===== src/Hardware/Pressure.antt =====
-- src/hardware/pressure.rs: the levels of memory pressure and their order.
use aros_kernel.Prelude.{ℕ, ◌≤◌, ◌≡◌, ◌⊎◌, Bool, true, false, arith}

pub data MemoryPressureLevel : Type 0 where
  normal warn critical : MemoryPressureLevel

-- `PartialEq` of the level.
abbrev pub level_eq : MemoryPressureLevel → MemoryPressureLevel → Bool
level_eq normal normal = true
level_eq warn warn = true
level_eq critical critical = true
level_eq _ _ = false

-- The match on the pair: `critical` on either side first, then `warn`.
unfoldable pub worse : MemoryPressureLevel → MemoryPressureLevel → MemoryPressureLevel
worse critical b = critical
worse normal critical = critical
worse warn critical = critical
worse warn normal = warn
worse warn warn = warn
worse normal warn = warn
worse normal normal = normal

abbrev pub severity : MemoryPressureLevel → ℕ
severity normal = 0
severity warn = 1
severity critical = 2

-- `worse` is the least upper bound in the order of severity: it is one of the two levels, at
-- least as severe as both, and no more severe than any level that is.
pub worse_is_join :
    (a b : MemoryPressureLevel)
    → ((worse a b ≡ a) ⊎ (worse a b ≡ b))
      × (severity a ≤ severity (worse a b))
      × (severity b ≤ severity (worse a b))
      × ((c : MemoryPressureLevel)
          → severity a ≤ severity c
          → severity b ≤ severity c
          → severity (worse a b) ≤ severity c)
unfolding worse
worse_is_join a b = ground arith
