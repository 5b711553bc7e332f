-- ===== src/Scheduler/Recommender/Fit.antt =====
-- src/scheduler/recommender.rs: the recommended number of agents is the largest that fits.
use mathlib.Core.Bool.{xor}
use native.Mathlib.Nat.{le-div_iff_mul-le, div-le_self, div-lt_iff_lt-mul}
use aros_kernel.Prelude.{
  ℕ, suc, ◌+◌, ◌^◌, Bool-cases, ap, ◌∙◌, inl, inr, ◌-◌, ◌*◌, ◌/◌, ◌≤◌, ◌<◌, ◌≡◌, ◌⊎◌, false, arith,
  min, if◌then◌else◌, ltb, u32_max,
}
use aros_kernel.Prelude.Float.{finite, of_u64, mul, to_u32, round53, round53_exact}
use aros_kernel.Hardware.{SystemResources}
use aros_kernel.Hardware.Pressure.{MemoryPressureLevel, normal, warn, critical}
use aros_kernel.Hardware.Thermal.{ThermalPressureLevel, nominal, fair, serious}
use aros_kernel.Hardware.Thermal as Thermal
use aros_kernel.Scheduler.Recommender.{
  Recommender, dynamic_headroom, recommend_max_agents, thermal_multiplier,
  recommend_max_agents_thermal,
}

-- Below 2 ^ 53 a product with a dyadic fraction is exact until its fraction is dropped.
to_u32-mul :
    (n k e : ℕ)
    → n < 9007199254740992
    → n * k < 9007199254740992
    → n * k / 2 ^ e ≤ u32_max
    → to_u32 (mul (of_u64 n) (finite false k e)) ≡ n * k / 2 ^ e
unfolding to_u32 mul round53 xor
to_u32-mul n k e small product fits =
    ap (λ m. min u32_max (round53 (m * k) / 2 ^ (0 + e))) (round53_exact n small)
    ∙ (ap (λ m. min u32_max (m / 2 ^ (0 + e))) (round53_exact (n * k) product) ∙ ground arith)

-- What the headroom and the heat are meant to be.
abbrev pub reserve : MemoryPressureLevel → ℕ → ℕ
reserve normal base = base
reserve warn base = base * 7 / 4
reserve critical base = base * 5 / 2

abbrev pub cooled : ThermalPressureLevel → ℕ → ℕ
cooled nominal n = n
cooled fair n = n * 3 / 4
cooled serious n = n / 2
cooled Thermal.critical n = n / 4

dynamic_headroom-reserve :
    (r : Recommender) (pressure : MemoryPressureLevel)
    → r.ram_headroom_base_mb ≤ 1_000_000_000
    → dynamic_headroom r pressure ≡ reserve pressure r.ram_headroom_base_mb
unfolding dynamic_headroom
dynamic_headroom-reserve r normal small =
    to_u32-mul r.ram_headroom_base_mb 1 0 (omega arith) (omega arith) (omega arith) ∙ omega arith
dynamic_headroom-reserve r warn small =
    to_u32-mul r.ram_headroom_base_mb 7 2 (omega arith) (omega arith) (omega arith)
dynamic_headroom-reserve r critical small =
    to_u32-mul r.ram_headroom_base_mb 5 1 (omega arith) (omega arith) (omega arith)

cooled-to_u32 :
    (thermal : ThermalPressureLevel) (n : ℕ)
    → n ≤ u32_max
    → min (to_u32 (mul (of_u64 n) (thermal_multiplier thermal))) n ≡ cooled thermal n
cooled-to_u32 nominal n small =
    ap (λ m. min m n) (to_u32-mul n 1 0 (omega arith) (omega arith) (omega arith)) ∙ omega arith
cooled-to_u32 fair n small =
    ap (λ m. min m n) (to_u32-mul n 3 2 (omega arith) (omega arith) (omega arith)) ∙ omega arith
cooled-to_u32 serious n small =
    ap (λ m. min m n) (to_u32-mul n 1 1 (omega arith) (omega arith) (omega arith)) ∙ omega arith
cooled-to_u32 Thermal.critical n small =
    ap (λ m. min m n) (to_u32-mul n 1 2 (omega arith) (omega arith) (omega arith)) ∙ omega arith

-- The recommendation from its bounds: for the processors, the memory and the limit that is set.
abbrev bounded : (cpu share limit : ℕ) → ℕ
bounded cpu share limit = if ltb 0 limit then min (min cpu share) limit else min cpu share

bounded-largest :
    (cpu share limit : ℕ)
    → let n = bounded cpu share limit in
      (n ≤ cpu)
      × (n ≤ share)
      × ((limit ≡ 0) ⊎ (n ≤ limit))
      × ((cpu < suc n) ⊎ (share < suc n) ⊎ ((0 < limit) × (limit < suc n)))
bounded-largest cpu share limit = (ground arith, ground arith, ground arith, ground arith)

exact_bounds :
    (r : Recommender) (resources : SystemResources) (pressure : MemoryPressureLevel) (ram : ℕ)
    → r.ram_headroom_base_mb ≤ 1_000_000_000
    → resources.cpu_count * 2 ≤ u32_max
    → resources.ram_available_mb ≤ u32_max
    → 0 < ram
    → recommend_max_agents r resources pressure ram
      ≡ bounded
          (resources.cpu_count * 2)
          ((resources.ram_available_mb - reserve pressure r.ram_headroom_base_mb) / ram)
          r.max_agents_hard_limit
unfolding recommend_max_agents
exact_bounds r resources pressure ram base cpus memory needed =
    rw (dynamic_headroom-reserve r pressure base, recommend_max_agents)
      (ground (
        arith,
        div-le_self (resources.ram_available_mb - reserve pressure r.ram_headroom_base_mb) ram,
      ))

-- The recommended number is the largest that fits: the agents are at most two for each processor,
-- no more than a limit that is set, and if there is one at all, all of them need, beside the reserve
-- of 1, 7/4 or 5/2 of the base for the pressure, no more memory than is available; one agent more
-- breaks one of these bounds. Heat cuts the number to 3/4, 1/2 or 1/4 of it, rounded down. The base
-- is at most a billion, twice the processors and the memory are 32-bit numbers, and an agent needs
-- some memory.
pub recommended_fit :
    (r : Recommender) (resources : SystemResources) (pressure : MemoryPressureLevel)
    (thermal : ThermalPressureLevel) (ram_per_agent_mb : ℕ)
    → r.ram_headroom_base_mb ≤ 1_000_000_000
    → resources.cpu_count * 2 ≤ u32_max
    → resources.ram_available_mb ≤ u32_max
    → 0 < ram_per_agent_mb
    → let n = recommend_max_agents r resources pressure ram_per_agent_mb in
      let kept = reserve pressure r.ram_headroom_base_mb in
      (n ≤ resources.cpu_count * 2)
      × ((r.max_agents_hard_limit ≡ 0) ⊎ (n ≤ r.max_agents_hard_limit))
      × ((n ≡ 0) ⊎ (n * ram_per_agent_mb + kept ≤ resources.ram_available_mb))
      × ((resources.cpu_count * 2 < suc n)
          ⊎ (resources.ram_available_mb < suc n * ram_per_agent_mb + kept)
          ⊎ ((0 < r.max_agents_hard_limit) × (r.max_agents_hard_limit < suc n)))
      × (recommend_max_agents_thermal r resources pressure thermal ram_per_agent_mb
          ≡ cooled thermal n)
unfolding recommend_max_agents_thermal
recommended_fit r resources pressure thermal ram base cpus memory needed =
    let (on_cpu, in_share, in_limit, largest) =
      bounded-largest (resources.cpu_count * 2) share r.max_agents_hard_limit in
    rw exact (
      on_cpu,
      in_limit,
      fit n in_share,
      elim largest [
        | inl cpu ↦ inl cpu
        | inr (inl more) ↦ inr (inl (too_much n more))
        | inr (inr limit) ↦ inr (inr limit)
      ],
      cooled-to_u32 thermal n (omega arith),
    )
  where
    kept : ℕ
    kept = reserve pressure r.ram_headroom_base_mb

    share : ℕ
    share = (resources.ram_available_mb - kept) / ram

    n : ℕ
    n = bounded (resources.cpu_count * 2) share r.max_agents_hard_limit

    exact : recommend_max_agents r resources pressure ram ≡ n
    exact = exact_bounds r resources pressure ram base cpus memory needed

    fit : (k : ℕ) → k ≤ share → (k ≡ 0) ⊎ (k * ram + kept ≤ resources.ram_available_mb)
    fit k few = elim (Bool-cases (ltb resources.ram_available_mb kept)) [
      | inl short ↦ inl (ground (arith, div-le_self (resources.ram_available_mb - kept) ram))
      | inr enough ↦ inr (ground (arith, (le-div_iff_mul-le needed).0 few))
    ]

    too_much : (k : ℕ) → share < suc k → resources.ram_available_mb < suc k * ram + kept
    too_much k more = omega (arith, (div-lt_iff_lt-mul needed).0 more)
