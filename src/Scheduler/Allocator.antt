-- ===== src/Scheduler/Allocator.antt =====
-- src/scheduler/allocator.rs: the resources that the running agents hold, each a `u32`. The
-- operations hold one lock each, so that each is one step.
use aros_kernel.Prelude.{
  ℕ, suc, ◌+◌, ◌-◌, ◌≤◌, ◌<◌, ◌≡◌, refl, List, [], ◌∷◌, ◌++◌, arith, add32, u32_max, length,
}

pub record ResourceRequirements : Type 0 where
  pub cpu_millicores : ℕ
  pub memory_mb : ℕ

abbrev pub claude_cli : ResourceRequirements
claude_cli = record { cpu_millicores = 500; memory_mb = 250 }

abbrev pub shell : ResourceRequirements
shell = record { cpu_millicores = 200; memory_mb = 50 }

pub record ResourceAllocator : Type 0 where
  pub allocated_cpu : ℕ
  pub allocated_memory : ℕ
  pub active_agents : ℕ

unfoldable pub new : ResourceAllocator
new = record { allocated_cpu = 0; allocated_memory = 0; active_agents = 0 }

unfoldable pub allocate : ResourceRequirements → ResourceAllocator → ResourceAllocator
allocate req a = record {
  allocated_cpu = add32 a.allocated_cpu req.cpu_millicores;
  allocated_memory = add32 a.allocated_memory req.memory_mb;
  active_agents = add32 a.active_agents 1;
}

unfoldable pub release : ResourceRequirements → ResourceAllocator → ResourceAllocator
release req a = record {
  allocated_cpu = a.allocated_cpu - req.cpu_millicores;
  allocated_memory = a.allocated_memory - req.memory_mb;
  active_agents = a.active_agents - 1;
}

abbrev cpu_of : List ResourceRequirements → ℕ
cpu_of [] = 0
cpu_of (r ∷ rs) = r.cpu_millicores + cpu_of rs

abbrev memory_of : List ResourceRequirements → ℕ
memory_of [] = 0
memory_of (r ∷ rs) = r.memory_mb + memory_of rs

-- The allocator holds exactly what the listed agents need, within 32 bits.
pub record Holds (agents : List ResourceRequirements) (a : ResourceAllocator) : Type 0 where
  pub cpu : a.allocated_cpu ≡ cpu_of agents
  pub memory : a.allocated_memory ≡ memory_of agents
  pub count : a.active_agents ≡ length agents
  pub cpu_fits : cpu_of agents ≤ u32_max
  pub memory_fits : memory_of agents ≤ u32_max
  pub count_fits : length agents ≤ u32_max

-- An agent that fits starts: the allocator then holds its needs and those of the others.
pub allocate-Holds :
    (agents : List ResourceRequirements) (r : ResourceRequirements) (a : ResourceAllocator)
    → Holds agents a
    → r.cpu_millicores + cpu_of agents ≤ u32_max
    → r.memory_mb + memory_of agents ≤ u32_max
    → length agents < u32_max
    → Holds (r ∷ agents) (allocate r a)
unfolding allocate
allocate-Holds agents r a h c m n = record {
  cpu = omega (arith, h.cpu);
  memory = omega (arith, h.memory);
  count = omega (arith, h.count);
  cpu_fits = c;
  memory_fits = m;
  count_fits = n;
}

-- Whichever agent of those that run is released, the allocator holds what the others need.
pub release-Holds :
    (before : List ResourceRequirements) (r : ResourceRequirements)
    (after : List ResourceRequirements) (a : ResourceAllocator)
    → Holds (before ++ (r ∷ after)) a
    → Holds (before ++ after) (release r a)
unfolding release
release-Holds before r after a h = record {
  cpu = omega (arith, h.cpu, cpu_split before);
  memory = omega (arith, h.memory, memory_split before);
  count = omega (arith, h.count, count_split before);
  cpu_fits = omega (arith, h.cpu_fits, cpu_split before);
  memory_fits = omega (arith, h.memory_fits, memory_split before);
  count_fits = omega (arith, h.count_fits, count_split before);
}
  where
    cpu_split :
        (b : List ResourceRequirements)
        → cpu_of (b ++ (r ∷ after)) ≡ r.cpu_millicores + cpu_of (b ++ after)
    cpu_split [] = refl
    cpu_split (x ∷ b) = ground (arith, cpu_split b)

    memory_split :
        (b : List ResourceRequirements)
        → memory_of (b ++ (r ∷ after)) ≡ r.memory_mb + memory_of (b ++ after)
    memory_split [] = refl
    memory_split (x ∷ b) = ground (arith, memory_split b)

    count_split :
        (b : List ResourceRequirements) → length (b ++ (r ∷ after)) ≡ suc (length (b ++ after))
    count_split [] = refl
    count_split (x ∷ b) = ground (arith, count_split b)
