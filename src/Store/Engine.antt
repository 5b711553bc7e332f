-- ===== src/Store/Engine.antt =====
-- src/store/engine.rs: the store over a database, and its transactions. The database library is a
-- type `C` of connections with one function for each statement that the engine runs; a statement
-- returns its answer and the connection that it leaves. Times are numbers of nanoseconds.
pub mod Refinement
pub mod Atomicity
pub mod Checkpoints
mod Examples
use Prim.Native.String
use aros_kernel.Prelude.{
  ℕ, String, ◌+◌, Bool, true, false, ◌||◌, Option, none, some, List, if◌then◌else◌, leb, add64,
}
use aros_kernel.Prelude.Result.{Result, ok, err}
use aros_kernel.Store.Acl.{StateStore, StoreError, sqlite}
use aros_kernel.Supervisor.Health.{elapsed_secs}

pub record CheckpointPolicy : Type 0 where
  pub write_threshold : ℕ
  pub seconds_threshold : ℕ

abbrev pub default_checkpoints : CheckpointPolicy
default_checkpoints = record { write_threshold = 1000; seconds_threshold = 60 }

-- The statements on `kv_store`, and `execute_batch` for the others.
pub record Database (C : Type 0) : Type 0 where
  pub connect : String → Result C String
  pub execute_batch : String → C → Result Unit String × C
  pub upsert : String → List ℕ → C → Result Unit String × C
  pub select_value : String → C → Result (Option (List ℕ)) String
  pub delete_row : String → C → Result Unit String × C
  pub select_like : String → C → Result (List String) String
  pub select_one : String → C → Result Bool String

pub record SqliteStateStore (C : Type 0) : Type 0 where
  pub conn : C
  pub policy : CheckpointPolicy
  pub write_count : ℕ
  pub last_checkpoint : ℕ

-- `?` on an error of the database.
abbrev pub lifted : {A : Type 0} → Result A String → Result A StoreError
lifted (ok a) = ok a
lifted (err e) = err (sqlite e)

module _ {C : Type 0} (db : Database C) where
  unfoldable pub open_with_policy :
      ℕ → String → CheckpointPolicy → Result (SqliteStateStore C) StoreError
  open_with_policy now path policy = elim (db.connect path) [
    | err e ↦ err (sqlite e)
    | ok conn ↦
        let (modes, conn) =
          db.execute_batch "PRAGMA journal_mode=WAL; PRAGMA foreign_keys=ON;" conn in
        elim modes [
          | err e ↦ err (sqlite e)
          | ok _ ↦
              let (table, conn) =
                db.execute_batch
                  "CREATE TABLE IF NOT EXISTS kv_store (key TEXT PRIMARY KEY, value BLOB NOT NULL, updated_at TEXT NOT NULL DEFAULT (datetime('now')));"
                  conn in
              elim table [
                | err e ↦ err (sqlite e)
                | ok _ ↦ ok (record {
                  conn = conn;
                  policy = policy;
                  write_count = 0;
                  last_checkpoint = now;
                })
              ]
        ]
  ]

  unfoldable pub open_path : ℕ → String → Result (SqliteStateStore C) StoreError
  unfolding open_with_policy
  open_path now path = open_with_policy now path default_checkpoints

  unfoldable pub checkpoint : ℕ → SqliteStateStore C → Result Unit StoreError × SqliteStateStore C
  checkpoint now s =
      let (answer, conn) = db.execute_batch "PRAGMA wal_checkpoint(TRUNCATE);" s.conn in
      let left = record s { conn = conn } in
      elim answer [
        | err e ↦ (err (sqlite e), left)
        | ok _ ↦ (ok tt, record left { write_count = 0; last_checkpoint = now })
      ]

  -- The policy asks for a checkpoint.
  unfoldable pub is_due : ℕ → SqliteStateStore C → Bool
  is_due now s =
      leb s.policy.write_threshold s.write_count
      || leb s.policy.seconds_threshold (elapsed_secs s.last_checkpoint now)

  unfoldable pub maybe_checkpoint : ℕ → SqliteStateStore C → SqliteStateStore C
  unfolding checkpoint is_due
  maybe_checkpoint now s = if is_due now s then (checkpoint now s).1 else s

  unfoldable pub record_write : SqliteStateStore C → SqliteStateStore C
  record_write s = record s { write_count = add64 s.write_count 1 }

  -- What `put` and `delete` do with the answer of their statement.
  unfoldable pub counted :
      ℕ → SqliteStateStore C → Result Unit String × C → Result Unit StoreError × SqliteStateStore C
  unfolding maybe_checkpoint record_write
  counted now s (err e, conn) = (err (sqlite e), record s { conn = conn })
  counted now s (ok _, conn) =
      (ok tt, maybe_checkpoint now (record_write (record s { conn = conn })))

  -- The operations at the time `now`.
  unfoldable pub sqlite_store : ℕ → StateStore (SqliteStateStore C)
  unfolding counted
  sqlite_store now = record {
    put = λ key value s. counted now s (db.upsert key value s.conn);
    get = λ key s. lifted (db.select_value key s.conn);
    delete = λ key s. counted now s (db.delete_row key s.conn);
    list_keys = λ prefix s. lifted (db.select_like (String.◌++◌ prefix "%") s.conn);
    exists = λ key s. lifted (db.select_one key s.conn);
  }

  -- A transaction holds the lock of the connection, so that it works on the connection alone.
  pub record Transaction : Type 0 where
    pub guard : C
    pub committed : Bool

  unfoldable pub transaction : SqliteStateStore C → Result Transaction StoreError × C
  transaction s =
      let (answer, conn) = db.execute_batch "BEGIN IMMEDIATE;" s.conn in
      elim answer [
        | err e ↦ (err (sqlite e), conn)
        | ok _ ↦ (ok (record { guard = conn; committed = false }), conn)
      ]

  -- What follows the last use of a transaction.
  unfoldable pub drop : Transaction → C
  drop t = if t.committed then t.guard else (db.execute_batch "ROLLBACK;" t.guard).1

  unfoldable pub commit : Transaction → Result Unit StoreError × C
  unfolding drop
  commit t =
      let (answer, conn) = db.execute_batch "COMMIT;" t.guard in
      elim answer [
        | err e ↦ (err (sqlite e), drop (record t { guard = conn }))
        | ok _ ↦ (ok tt, drop (record { guard = conn; committed = true }))
      ]

  unfoldable pub put : String → List ℕ → Transaction → Result Unit StoreError × Transaction
  put key value t =
      let (answer, conn) = db.upsert key value t.guard in (lifted answer, record t { guard = conn })

  unfoldable pub delete : String → Transaction → Result Unit StoreError × Transaction
  delete key t =
      let (answer, conn) = db.delete_row key t.guard in (lifted answer, record t { guard = conn })

  unfoldable pub get : String → Transaction → Result (Option (List ℕ)) StoreError
  get key t = lifted (db.select_value key t.guard)

  unfoldable pub list_keys : String → Transaction → Result (List String) StoreError
  list_keys prefix t = lifted (db.select_like (String.◌++◌ prefix "%") t.guard)

  unfoldable pub exists : String → Transaction → Result Bool StoreError
  exists key t = lifted (db.select_one key t.guard)
