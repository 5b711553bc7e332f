-- ===== src/Store/Engine/Examples.antt =====
-- A database of two lists of rows, and the theorems about src/store/engine.rs at it.
use aros_kernel.Prelude.{
  ℕ, String, Bool, true, false, Bool-cases, inl, inr, ◌≡◌, refl, ◌⊎◌, List, [], ◌∷◌, arith,
  if◌then◌else◌, ◌==◌, string_eq,
}
use aros_kernel.Prelude.Map.{
  lookup, insert, remove, keys, contains_key, lookup-insert, lookup-remove,
}
use aros_kernel.Prelude.Result.{Result, ok, err}
use aros_kernel.Store.Acl.{StoreError}
use aros_kernel.Store.Engine.{Database, SqliteStateStore, default_checkpoints}
use aros_kernel.Store.Engine.Refinement.{
  View, Same, IsTable, Op, put, get, exists, Run, perform_all, perform_all_refines,
}
use aros_kernel.Store.Engine.Atomicity.{
  IsTransactional, puts, deletes, write_views, atomically, atomically_outcomes, Write,
}

record Rows : Type 0 where
  now : List (String × List ℕ)
  saved : List (String × List ℕ)
  in_transaction : Bool

execute : String → Rows → Result Unit String × Rows
execute statement c =
    if statement == "BEGIN IMMEDIATE;"
    then (if c.in_transaction
        then (err "cannot start a transaction within a transaction", c)
        else (ok tt, record c { saved = c.now; in_transaction = true }))
    else if statement == "COMMIT;"
    then (if c.in_transaction
        then (ok tt, record c { in_transaction = false })
        else (err "cannot commit - no transaction is active", c))
    else if statement == "ROLLBACK;"
    then (if c.in_transaction
        then (ok tt, record c { now = c.saved; in_transaction = false })
        else (err "cannot rollback - no transaction is active", c))
    else (ok tt, c)

rows : Database Rows
rows = record {
  connect = λ path. ok (record { now = []; saved = []; in_transaction = false });
  execute_batch = execute;
  upsert = λ key value c. (ok tt, record c { now = insert key value c.now });
  select_value = λ key c. ok (lookup key c.now);
  delete_row = λ key c. (ok tt, record c { now = remove key c.now });
  select_like = λ pattern c. ok (keys c.now);
  select_one = λ key c. ok (contains_key key c.now);
}

abbrev view : Rows → View
view c = λ k. lookup k c.now

abbrev saved : Rows → View
saved c = λ k. lookup k c.saved

table : IsTable rows view
unfolding rows execute
table = record {
  upserts = λ key value c fine k. lookup-insert key k value c.now;
  upsert_fails = λ key value c e bad. absurd (ground arith);
  deletes = λ key c fine k. lookup-remove key k c.now;
  delete_fails = λ key c e bad. absurd (ground arith);
  selects = λ key c o e. ground arith;
  finds = λ key c b e. ground arith;
  checkpoints = λ c k. refl;
}

abbrev is_open : Rows → Bool
is_open c = c.in_transaction

transactional : IsTransactional rows is_open view saved
unfolding rows execute
transactional = record {
  begins = λ c fine. elim (Bool-cases c.in_transaction) [
    | inl inside ↦ absurd (ground arith)
    | inr outside ↦ rw outside (refl, λ k. refl, λ k. refl)
  ];
  begin_fails = λ c e bad. elim (Bool-cases c.in_transaction) [
    | inl inside ↦ rw inside (refl, λ k. refl)
    | inr outside ↦ absurd (ground arith)
  ];
  upsert_stays =
      λ key value c inside fine. (inside, λ k. refl, λ k. lookup-insert key k value c.now);
  upsert_breaks = λ key value c e inside bad. absurd (ground arith);
  delete_stays = λ key c inside fine. (inside, λ k. refl, λ k. lookup-remove key k c.now);
  delete_breaks = λ key c e inside bad. absurd (ground arith);
  commits = λ c inside fine. rw inside (refl, λ k. refl);
  commit_fails = λ c e inside bad. absurd (ground arith);
  rolls_back = λ c inside. rw inside (refl, λ k. refl);
  no_rollback = λ c outside. rw outside (refl, λ k. refl);
}

abbrev store : SqliteStateStore Rows
store = record {
  conn = record { now = ("/task/a", 1 ∷ []) ∷ []; saved = []; in_transaction = false };
  policy = default_checkpoints;
  write_count = 999;
  last_checkpoint = 0;
}

abbrev ops : List (ℕ × Op)
ops = (5, put "/task/b" (2 ∷ [])) ∷ (6, get "/task/a") ∷ (7, exists "/task/c") ∷ []

perform_all_refines_example :
    Run
      (view store.conn)
      (view (perform_all rows view table ops store).1.conn)
      (perform_all rows view table ops store).0
perform_all_refines_example = perform_all_refines rows view table ops store

abbrev writes : List Write
writes = puts "/task/b" (2 ∷ []) ∷ deletes "/task/a" ∷ []

atomically_outcomes_example :
    (is_open (atomically rows is_open view saved transactional writes store).1 ≡ false)
    × ((((atomically rows is_open view saved transactional writes store).0 ≡ ok tt)
          × Same
              (write_views writes (view store.conn))
              (view (atomically rows is_open view saved transactional writes store).1))
        ⊎ ((e : StoreError) × ((atomically rows is_open view saved transactional writes store).0
              ≡ err e)
            × Same
                (view store.conn)
                (view (atomically rows is_open view saved transactional writes store).1)))
atomically_outcomes_example =
    atomically_outcomes rows is_open view saved transactional writes store refl

upserted : (rows.upsert "/task/b" (2 ∷ []) store.conn).0 ≡ ok tt
unfolding rows
upserted = refl
