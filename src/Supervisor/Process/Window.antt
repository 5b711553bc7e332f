-- ===== src/Supervisor/Process/Window.antt =====
-- src/supervisor/process.rs: the limit on restarts and the wait before each.
use native.Mathlib.Nat.{pow-suc}
use aros_kernel.Prelude.{
  ℕ, zero, suc, ◌+◌, ◌-◌, ◌*◌, ◌^◌, ◌%◌, ◌≤◌, ◌≡◌, ◌⊎◌, inl, inr, refl, ap, Bool, List, [], ◌∷◌,
  ◌++◌, length, filter, arith, min, leb, u32_max, Bool-cases, count_if, count_if-le,
}
use aros_kernel.Prelude.Result.{ok, err}
use aros_kernel.Supervisor.Process.{
  RestartTracker, max_restarts_exceeded, init, current_backoff, saturating_pow2, duration_max,
  record_restart,
}

-- The recorded restarts that the window at `now` still covers.
abbrev pub recent : ℕ → RestartTracker → ℕ
recent now t = count_if (λ at. leb (now - t.policy.restart_window) at) t.restart_times

length-filter : (p : ℕ → Bool) (xs : List ℕ) → length (filter p xs) ≡ count_if p xs
length-filter p [] = refl
length-filter p (x ∷ xs) = ground (arith, length-filter p xs)

-- A restart is refused exactly where the window holds the greatest number of restarts already,
-- and a granted one leaves at most that number in it, the new one included.
pub record_restart_limits :
    (now : ℕ) (t : RestartTracker)
    → length t.restart_times ≤ u32_max
    → (((record_restart now t).0 ≡ err (max_restarts_exceeded init))
        × (t.policy.max_restarts ≤ recent now t))
      ⊎ (((record_restart now t).0 ≡ ok (current_backoff (record_restart now t).1))
          × (length (record_restart now t).1.restart_times ≡ suc (recent now t))
          × (suc (recent now t) ≤ t.policy.max_restarts))
unfolding record_restart
record_restart_limits now t fits =
    elim (Bool-cases (leb t.policy.max_restarts (length times % 4294967296))) [
      | inl full ↦ inl (rw full refl, ground (arith, recent_times, recent_fits))
      | inr room ↦ inr (
        rw room refl,
        rw room (ground (arith, recent_times, length-snoc times)),
        ground (arith, recent_times, recent_fits),
      )
    ]
  where
    times : List ℕ
    times = filter (λ at. leb (now - t.policy.restart_window) at) t.restart_times

    recent_times : length times ≡ recent now t
    recent_times = length-filter (λ at. leb (now - t.policy.restart_window) at) t.restart_times

    recent_fits : recent now t ≤ length t.restart_times
    recent_fits = count_if-le (λ at. leb (now - t.policy.restart_window) at) t.restart_times

    length-snoc : (xs : List ℕ) → length (xs ++ (now ∷ [])) ≡ suc (length xs)
    length-snoc [] = refl
    length-snoc (x ∷ xs) = ground (arith, length-snoc xs)

pow_at : (a b : ℕ) → a ≡ b → 2 ^ a ≡ 2 ^ b
pow_at a b e = ap (λ k. 2 ^ k) e

pow_zero : (j : ℕ) → 2 ^ (32 + j) % 4294967296 ≡ 0
pow_zero zero = refl
pow_zero (suc j) =
    omega (arith, pow_zero j, pow-suc 2 (32 + j), pow_at (32 + suc j) (suc (32 + j)) (omega arith))

pow_mono : (k n : ℕ) → 2 ^ n ≤ 2 ^ (k + n)
pow_mono zero n = omega (arith, pow_at n (0 + n) (omega arith))
pow_mono (suc k) n =
    omega (arith, pow_mono k n, pow-suc 2 (k + n), pow_at (suc k + n) (suc (k + n)) (omega arith))

cut_small : (n : ℕ) → n ≤ 31 → saturating_pow2 n % 4294967296 ≡ 2 ^ n
unfolding saturating_pow2
cut_small n few = ground (arith, pow_mono (31 - n) n, pow_at (31 - n + n) 31 (omega arith))

cut_zero : (n : ℕ) → 32 ≤ n → n ≤ 63 → saturating_pow2 n % 4294967296 ≡ 0
unfolding saturating_pow2
cut_zero n many below = ground (arith, pow_zero (n - 32), pow_at (32 + (n - 32)) n (omega arith))

-- Without a cut of the multiplier: the base doubles with every failure after the first.
abbrev doubled : RestartTracker → ℕ
doubled t = t.policy.backoff_base * 2 ^ (t.consecutive_failures - 1)

cut_large : (n : ℕ) → 64 ≤ n → saturating_pow2 n % 4294967296 ≡ 4294967295
unfolding saturating_pow2
cut_large n many = ground arith

spans : (n : ℕ) → (n ≤ 32) ⊎ ((33 ≤ n) × (n ≤ 64)) ⊎ (65 ≤ n)
spans n = ground arith

-- Up to 32 consecutive failures the wait is the base, doubled for every failure after the first,
-- and capped by the greatest wait; from 33 failures up to 64 there is no wait at all, since the
-- multiplier is cut to its low 32 bits; from 65 on the base is multiplied by 2 ^ 32 - 1.
pub current_backoff_cases :
    (t : RestartTracker)
    → t.policy.backoff_max ≤ duration_max
    → ((t.consecutive_failures ≤ 32) × (current_backoff t ≡ min (doubled t) t.policy.backoff_max))
      ⊎ ((33 ≤ t.consecutive_failures) × (t.consecutive_failures ≤ 64) × (current_backoff t ≡ 0))
      ⊎ ((65 ≤ t.consecutive_failures)
          × (current_backoff t
              ≡ min (min (t.policy.backoff_base * 4294967295) duration_max) t.policy.backoff_max))
unfolding current_backoff
current_backoff_cases t fits = elim (spans t.consecutive_failures) [
  | inl few ↦ inl (few, rw (cut_small (t.consecutive_failures - 1) (omega arith)) (ground arith))
  | inr (inl (many, below)) ↦ inr (
      inl (
        many,
        below,
        rw (cut_zero (t.consecutive_failures - 1) (omega arith) (omega arith)) (ground arith),
      ))
  | inr (inr above) ↦
      inr (inr (above, rw (cut_large (t.consecutive_failures - 1) (omega arith)) refl))
]
