-- ===== src/Hardware/Thermal.antt =====
-- src/hardware/thermal.rs: the levels of thermal pressure. A signed reading is an integer.

pub data ThermalPressureLevel : Type 0 where
  nominal fair serious critical : ThermalPressureLevel
