-- ===== src/Scheduler/Admission.antt =====
-- src/scheduler/admission.rs: may one more agent run, and how many may.
use native.Mathlib.Nat.{le-div_iff_mul-le}
use aros_kernel.Prelude.{
  zero, suc, ℕ, ◌+◌, ◌-◌, ◌*◌, ◌/◌, ◌≤◌, ◌<◌, ◌≡◌, ◌↔◌, Bool, true, false, arith, min,
  if◌then◌else◌, ltb, leb, u32_max,
}
use aros_kernel.Hardware.Pressure.{MemoryPressureLevel, critical, level_eq}
use aros_kernel.Scheduler.Allocator.{ResourceRequirements, ResourceAllocator}

pub record AdmissionController : Type 0 where
  pub max_agents_hard_limit : ℕ

unfoldable pub can_schedule :
    AdmissionController
    → ResourceRequirements
    → ResourceAllocator
    → MemoryPressureLevel
    → ℕ
    → ℕ
    → Bool
can_schedule c req allocator pressure available_cpu_millicores available_memory_mb =
    if level_eq pressure critical
    then false
    else if ltb available_cpu_millicores req.cpu_millicores
    then false
    else if ltb available_memory_mb req.memory_mb
    then false
    else if leb c.max_agents_hard_limit allocator.active_agents
    then false
    else true

-- How often a need fits into what is available; a need of nothing fits `u32::MAX` times.
unfoldable pub slots : ℕ → ℕ → ℕ
slots need available = if ltb 0 need then available / need else u32_max

unfoldable pub available_slots :
    AdmissionController → ResourceRequirements → ResourceAllocator → MemoryPressureLevel → ℕ → ℕ → ℕ
available_slots c req allocator pressure available_cpu_millicores available_memory_mb =
    if level_eq pressure critical
    then 0
    else (let agent_headroom = c.max_agents_hard_limit - allocator.active_agents in
        let cpu_slots = slots req.cpu_millicores available_cpu_millicores in
        let mem_slots = slots req.memory_mb available_memory_mb in
        min (min agent_headroom cpu_slots) mem_slots)

fits_iff : (n need available : ℕ) → 0 < need → (n ≤ available / need) ↔ (n * need ≤ available)
fits_iff n need available h = le-div_iff_mul-le h

slots_fit : (n need available : ℕ) → n ≤ slots need available → n * need ≤ available
unfolding slots
slots_fit n zero available h = omega arith
slots_fit n (suc need) available h =
    (fits_iff n (suc need) available (omega arith)).0 (ground arith)

some_slot : (need available : ℕ) → (0 < slots need available) ↔ (need ≤ available)
unfolding slots
some_slot zero available = ground arith
some_slot (suc need) available = (
  λ h. omega (arith, slots_fit 1 (suc need) available h),
  λ h. ground (arith, (fits_iff 1 (suc need) available (omega arith)).1 (omega arith)),
)

-- One more agent may be scheduled exactly where there is a slot for it.
can_schedule_iff_slots :
    (c : AdmissionController) (req : ResourceRequirements) (a : ResourceAllocator)
    (pressure : MemoryPressureLevel) (cpu memory : ℕ)
    → (can_schedule c req a pressure cpu memory ≡ true)
      ↔ (0 < available_slots c req a pressure cpu memory)
unfolding can_schedule available_slots
can_schedule_iff_slots c req a pressure cpu memory =
    ground (arith, some_slot req.cpu_millicores cpu, some_slot req.memory_mb memory)

-- As many agents as there are slots fit into the available processor time, the available memory
-- and the limit of the controller.
pub available_slots_fit :
    (c : AdmissionController) (req : ResourceRequirements) (a : ResourceAllocator)
    (pressure : MemoryPressureLevel) (cpu memory : ℕ)
    → a.active_agents ≤ c.max_agents_hard_limit
    → (available_slots c req a pressure cpu memory * req.cpu_millicores ≤ cpu)
      × (available_slots c req a pressure cpu memory * req.memory_mb ≤ memory)
      × (a.active_agents + available_slots c req a pressure cpu memory ≤ c.max_agents_hard_limit)
unfolding available_slots
available_slots_fit c req a pressure cpu memory within = (
  slots_fit n req.cpu_millicores cpu (ground arith),
  slots_fit n req.memory_mb memory (ground arith),
  ground arith,
)
  where
    n : ℕ
    n = available_slots c req a pressure cpu memory
