-- ===== src/Supervisor/Triggers/Cycle.antt =====
-- src/supervisor/handler.rs: what the end of a meta cycle leaves in the store.
use mathlib.Core.Path.{subst}
use aros_kernel.Prelude.{
  ℕ, String, ◌≡◌, ◌≢◌, ◌⊎◌, inl, inr, refl, ◌∙◌, Bool, true, false, Option, some, List, arith,
  if◌then◌else◌, string_eq, ◌==◌,
}
use aros_kernel.Prelude.Float.{F64}
use aros_kernel.Prelude.Result.{Result, ok, err, Result-cases}
use aros_kernel.Store.Acl.{StateStore, StoreError}
use aros_kernel.Supervisor.Triggers.{
  Kernel, Handled, persisted, write_failed, TriggerJson, put_then, complete_cycle,
}

abbrev pub drift_key : String
drift_key = "sie/identity/last_drift"

abbrev pub cycle_key : String
cycle_key = "sie/meta/last_cycle"

abbrev pub head_key : String
head_key = "sie/policy/head"

-- A write that succeeds is read back and leaves the other keys alone; one that fails changes nothing.
pub record Remembers {S : Type 0} (store : StateStore S) : Type 0 where
  pub read_back :
      (key : String) (value : List ℕ) (s : S)
      → (store.put key value s).0 ≡ ok tt
      → store.get key (store.put key value s).1 ≡ ok (some value)
  pub others :
      (key other : String) (value : List ℕ) (s : S)
      → key ≢ other
      → store.get other (store.put key value s).1 ≡ store.get other s
  pub failed :
      (key other : String) (value : List ℕ) (s : S) (e : StoreError)
      → (store.put key value s).0 ≡ err e
      → store.get other (store.put key value s).1 ≡ store.get other s

module _ {S Value : Type 0} (store : StateStore S) (wire : TriggerJson Value)
    (remembers : Remembers store) where
  abbrev stored : String → List ℕ → Kernel S → Kernel S
  stored key value k = record k { state_store = (store.put key value k.state_store).1 }

  put_then-ok :
      (key : String) (value : List ℕ) (next : Kernel S → Handled S) (k : Kernel S)
      → (store.put key value k.state_store).0 ≡ ok tt
      → put_then store wire key value next k ≡ next (stored key value k)
  unfolding put_then
  put_then-ok key value next k fine = rw (fine, put_then) refl

  put_then-err :
      (key : String) (value : List ℕ) (next : Kernel S → Handled S) (k : Kernel S) (e : StoreError)
      → (store.put key value k.state_store).0 ≡ err e
      → put_then store wire key value next k ≡ (err (write_failed e), stored key value k)
  unfolding put_then
  put_then-err key value next k e bad = rw (bad, put_then) refl

  abbrev done : String → Bool → F64 → Kernel S → Handled S
  done id changed drift k = (ok (persisted id drift changed), k)

  -- The last write, which a change of the policy makes.
  abbrev head_then : String → Bool → F64 → Kernel S → Handled S
  head_then id changed drift =
      if changed
      then put_then store wire head_key (wire.text_bytes id) (done id changed drift)
      else done id changed drift

  -- What holds after the end of a cycle, where `before` is read of the policy head at its start.
  abbrev pub Ended : String → Bool → F64 → Result (Option (List ℕ)) StoreError → Handled S → Type 0
  Ended id changed drift before r =
      ((r.0 ≡ ok (persisted id drift changed))
        × (store.get drift_key r.1.state_store ≡ ok (some (wire.drift_bytes drift)))
        × (store.get cycle_key r.1.state_store ≡ ok (some (wire.text_bytes id)))
        × (store.get head_key r.1.state_store
            ≡ (if changed then ok (some (wire.text_bytes id)) else before)))
      ⊎ ((e : StoreError) × (r.0 ≡ err (write_failed e))
          × (store.get head_key r.1.state_store ≡ before))

  distinct : (a b : String) → (a == b) ≡ false → a ≢ b
  distinct a b h e = ground (arith, string_eq.beq_iff a b)

  head_then-ends :
      (id : String) (changed : Bool) (drift : F64) (k : Kernel S)
      → store.get drift_key k.state_store ≡ ok (some (wire.drift_bytes drift))
      → store.get cycle_key k.state_store ≡ ok (some (wire.text_bytes id))
      → Ended id changed drift (store.get head_key k.state_store) (head_then id changed drift k)
  head_then-ends id false drift k d c = inl (refl, d, c, refl)
  head_then-ends id true drift k d c =
      elim (Result-cases (store.put head_key (wire.text_bytes id) k.state_store).0) [
        | inl (u, fine) ↦
            rw (put_then-ok head_key (wire.text_bytes id) (done id true drift) k fine) (
              inl (
                refl,
                remembers.others head_key drift_key (wire.text_bytes id) k.state_store
                      (distinct head_key drift_key refl)
                    ∙ d,
                remembers.others head_key cycle_key (wire.text_bytes id) k.state_store
                      (distinct head_key cycle_key refl)
                    ∙ c,
                remembers.read_back head_key (wire.text_bytes id) k.state_store fine,
              ))
        | inr (e, bad) ↦
            rw (put_then-err head_key (wire.text_bytes id) (done id true drift) k e bad) (
              inr (
                e,
                refl,
                remembers.failed head_key head_key (wire.text_bytes id) k.state_store e bad,
              ))
      ]

  abbrev then_cycle : String → Bool → F64 → Kernel S → Handled S
  then_cycle id changed drift =
      put_then store wire cycle_key (wire.text_bytes id) (head_then id changed drift)

  then_cycle-ends :
      (id : String) (changed : Bool) (drift : F64) (k : Kernel S)
      → store.get drift_key k.state_store ≡ ok (some (wire.drift_bytes drift))
      → Ended id changed drift (store.get head_key k.state_store) (then_cycle id changed drift k)
  then_cycle-ends id changed drift k d =
      elim (Result-cases (store.put cycle_key (wire.text_bytes id) k.state_store).0) [
        | inr (e, bad) ↦
            rw (put_then-err cycle_key (wire.text_bytes id) (head_then id changed drift) k e bad) (
              inr (
                e,
                refl,
                remembers.failed cycle_key head_key (wire.text_bytes id) k.state_store e bad,
              ))
        | inl (u, fine) ↦
            rw (put_then-ok cycle_key (wire.text_bytes id) (head_then id changed drift) k fine) (
              subst
                (λ b.
                  Ended id changed drift b
                    (head_then id changed drift (stored cycle_key (wire.text_bytes id) k)))
                (remembers.others cycle_key head_key (wire.text_bytes id) k.state_store
                  (distinct cycle_key head_key refl))
                (head_then-ends id changed drift (stored cycle_key (wire.text_bytes id) k)
                  (remembers.others cycle_key drift_key (wire.text_bytes id) k.state_store
                      (distinct cycle_key drift_key refl)
                    ∙ d)
                  (remembers.read_back cycle_key (wire.text_bytes id) k.state_store fine)))
      ]

  in_order :
      (id : String) (changed : Bool) (drift : F64) (k : Kernel S)
      → complete_cycle store wire id changed drift k
        ≡ put_then store wire drift_key (wire.drift_bytes drift) (then_cycle id changed drift) k
  unfolding complete_cycle
  in_order id changed drift k = refl

  -- The end of a meta cycle is answered in one of two ways. Either all is written: the drift and
  -- the cycle are read back, and the policy head is this cycle where the policy changed, and what
  -- it was where not. Or a write failed, and the policy head is what it was. The store keeps what
  -- is written, and a write that fails changes nothing.
  pub complete_cycle_outcomes :
      (id : String) (changed : Bool) (drift : F64) (k : Kernel S)
      → Ended id changed drift
          (store.get head_key k.state_store)
          (complete_cycle store wire id changed drift k)
  complete_cycle_outcomes id changed drift k =
      elim (Result-cases (store.put drift_key (wire.drift_bytes drift) k.state_store).0) [
        | inr (e, bad) ↦
            rw
              (
                in_order id changed drift k,
                put_then-err drift_key (wire.drift_bytes drift) (then_cycle id changed drift) k e
                    bad,
              )
              (inr (
                e,
                refl,
                remembers.failed drift_key head_key (wire.drift_bytes drift) k.state_store e bad,
              ))
        | inl (u, fine) ↦
            rw
              (
                in_order id changed drift k,
                put_then-ok drift_key (wire.drift_bytes drift) (then_cycle id changed drift) k fine,
              )
              (subst
                (λ b.
                  Ended id changed drift b
                    (then_cycle id changed drift (stored drift_key (wire.drift_bytes drift) k)))
                (remembers.others drift_key head_key (wire.drift_bytes drift) k.state_store
                  (distinct drift_key head_key refl))
                (then_cycle-ends id changed drift (stored drift_key (wire.drift_bytes drift) k)
                  (remembers.read_back drift_key (wire.drift_bytes drift) k.state_store fine)))
      ]
