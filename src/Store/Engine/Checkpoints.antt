-- ===== src/Store/Engine/Checkpoints.antt =====
-- src/store/engine.rs: when the log of the database is written back.
use aros_kernel.Prelude.{
  ℕ, suc, ◌<◌, String, ◌≡◌, refl, inl, inr, ◌⊎◌, true, false, arith, List, u64_max,
}
use aros_kernel.Prelude.Result.{Result, ok, err, Result-cases}
use aros_kernel.Supervisor.Health.{elapsed_secs}
use aros_kernel.Store.Engine.{
  Database, SqliteStateStore, checkpoint, is_due, maybe_checkpoint, record_write, counted,
  sqlite_store,
}

-- Neither trigger of the policy has been reached at the time `now`.
abbrev pub IsFresh : {C : Type 0} → ℕ → SqliteStateStore C → Type 0
IsFresh now s =
    (s.write_count < s.policy.write_threshold)
    × (elapsed_secs s.last_checkpoint now < s.policy.seconds_threshold)

module _ {C : Type 0} (db : Database C) where
  is_due_cases :
      (now : ℕ) (s : SqliteStateStore C)
      → (is_due db now s ≡ true) ⊎ ((is_due db now s ≡ false) × IsFresh now s)
  unfolding is_due
  is_due_cases now s = ground arith

  maybe_checkpoint_cases :
      (now : ℕ) (s : SqliteStateStore C)
      → (IsFresh now (maybe_checkpoint db now s)
          × ((maybe_checkpoint db now s).write_count ≡ s.write_count))
        ⊎ (((maybe_checkpoint db now s).write_count ≡ 0)
            × ((maybe_checkpoint db now s).last_checkpoint ≡ now))
        ⊎ ((e : String) × ((db.execute_batch "PRAGMA wal_checkpoint(TRUNCATE);" s.conn).0 ≡ err e)
            × ((maybe_checkpoint db now s).write_count ≡ s.write_count))
  unfolding maybe_checkpoint checkpoint
  maybe_checkpoint_cases now s = elim (is_due_cases now s) [
    | inr (early, fresh) ↦ rw (early, maybe_checkpoint) (inl (fresh, refl))
    | inl due ↦ elim (Result-cases (db.execute_batch "PRAGMA wal_checkpoint(TRUNCATE);" s.conn).0) [
      | inl (_, fine) ↦ rw (due, maybe_checkpoint, fine, checkpoint) (inr (inl (refl, refl)))
      | inr (e, bad) ↦ rw (due, maybe_checkpoint, bad, checkpoint) (inr (inr (e, refl, refl)))
    ]
  ]

  counted-ok :
      (now : ℕ) (s : SqliteStateStore C) (r : Result Unit String × C)
      → r.0 ≡ ok tt
      → counted db now s r
        ≡ (ok tt, maybe_checkpoint db now (record_write db (record s { conn = r.1 })))
  unfolding counted
  counted-ok now s (ok tt, conn) fine = refl
  counted-ok now s (err e, conn) fine = absurd (ground arith)

  -- After a write that succeeds, either neither trigger of the policy is reached, the count being
  -- one more than before; or a checkpoint was made, and the count is zero and the time is now; or
  -- it was tried and failed, which the writer is not told. The count does not reach 64 bits.
  pub put_checkpoints :
      (now : ℕ) (key : String) (value : List ℕ) (s : SqliteStateStore C)
      → s.write_count < u64_max
      → (db.upsert key value s.conn).0 ≡ ok tt
      → let r = (sqlite_store db now).put key value s in
        (r.0 ≡ ok tt)
        × ((IsFresh now r.1 × (r.1.write_count ≡ suc s.write_count))
            ⊎ ((r.1.write_count ≡ 0) × (r.1.last_checkpoint ≡ now))
            ⊎ ((e : String) × ((db.execute_batch "PRAGMA wal_checkpoint(TRUNCATE);"
                    (db.upsert key value s.conn).1).0
                  ≡ err e)
                × (r.1.write_count ≡ suc s.write_count)))
  unfolding sqlite_store record_write
  put_checkpoints now key value s few fine =
      rw (counted-ok now s (db.upsert key value s.conn) fine) (
        refl,
        elim (maybe_checkpoint_cases now
            (record_write db (record s { conn = (db.upsert key value s.conn).1 }))) [
              | inl (fresh, count) ↦ inl (fresh, omega arith)
              | inr (inl reset) ↦ inr (inl reset)
              | inr (inr (e, bad, count)) ↦ inr (inr (e, bad, omega arith))
            ],
      )
