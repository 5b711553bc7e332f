-- ===== src/Store/Engine/Refinement.antt =====
-- src/store/engine.rs: the store is a map from keys to values, whatever its checkpoints do.
use aros_kernel.Prelude.{
  ℕ, String, ◌≡◌, refl, ap, ◌∙◌, Bool, Option, none, some, List, [], ◌∷◌, arith, if◌then◌else◌,
  ◌==◌, string_eq, is_some, inl, inr, Bool-cases,
}
use aros_kernel.Prelude.Result.{Result, ok, err, Result-cases}
use aros_kernel.Store.Acl.{StoreError, sqlite}
use aros_kernel.Store.Engine.{
  Database, SqliteStateStore, lifted, checkpoint, is_due, maybe_checkpoint, record_write, counted,
  sqlite_store,
}

-- What a reader may find under each key.
abbrev pub View : Type 0
View = String → Option (List ℕ)

abbrev pub Same : View → View → Type 0
Same m w = (k : String) → w k ≡ m k

abbrev pub written : String → Option (List ℕ) → View → View
written key value m = λ k. if key == k then value else m k

-- The statements on the table do what SQL says, with `view` for its rows. One that fails changes
-- nothing, and a checkpoint of the log does not touch the rows.
pub record IsTable {C : Type 0} (db : Database C) (view : C → View) : Type 0 where
  pub upserts :
      (key : String) (value : List ℕ) (c : C)
      → (db.upsert key value c).0 ≡ ok tt
      → Same (written key (some value) (view c)) (view (db.upsert key value c).1)
  pub upsert_fails :
      (key : String) (value : List ℕ) (c : C) (e : String)
      → (db.upsert key value c).0 ≡ err e
      → Same (view c) (view (db.upsert key value c).1)
  pub deletes :
      (key : String) (c : C)
      → (db.delete_row key c).0 ≡ ok tt
      → Same (written key none (view c)) (view (db.delete_row key c).1)
  pub delete_fails :
      (key : String) (c : C) (e : String)
      → (db.delete_row key c).0 ≡ err e
      → Same (view c) (view (db.delete_row key c).1)
  pub selects :
      (key : String) (c : C) (o : Option (List ℕ)) → db.select_value key c ≡ ok o → o ≡ view c key
  pub finds :
      (key : String) (c : C) (b : Bool) → db.select_one key c ≡ ok b → b ≡ is_some (view c key)
  pub checkpoints :
      (c : C) → Same (view c) (view (db.execute_batch "PRAGMA wal_checkpoint(TRUNCATE);" c).1)

pub data Op : Type 0 where
  put : String → List ℕ → Op
  delete get exists : String → Op

pub data Reply : Type 0 where
  done : Reply
  value : Option (List ℕ) → Reply
  present : Bool → Reply
  failed : StoreError → Reply

-- What a map may answer to an operation, and what it is afterwards.
pub data Allows (m w : View) : Op → Reply → Type 0 where
  puts : (key : String) (v : List ℕ) → Same (written key (some v) m) w → Allows m w (put key v) done
  takes : (key : String) → Same (written key none m) w → Allows m w (delete key) done
  reads : (key : String) → Same m w → Allows m w (get key) (value (m key))
  tells : (key : String) → Same m w → Allows m w (exists key) (present (is_some (m key)))
  refuses : (op : Op) (e : StoreError) → Same m w → Allows m w op (failed e)

-- A history of operations and replies that a map allows.
pub data Run : View → View → List (Op × Reply) → Type 0 where
  stop : {m w : View} → Same m w → Run m w []
  step :
      {m w x : View} {op : Op} {r : Reply} {history : List (Op × Reply)}
      → Allows m w op r
      → Run w x history
      → Run m x ((op, r) ∷ history)

module _ {C : Type 0} (db : Database C) (view : C → View) (table : IsTable db view) where
  abbrev reply : Result Unit StoreError → Reply
  reply (ok _) = done
  reply (err e) = failed e

  abbrev read : {A : Type 0} → (A → Reply) → Result A StoreError → Reply
  read f (ok a) = f a
  read f (err e) = failed e

  -- One operation on the engine at a time.
  unfoldable pub perform : ℕ → Op → SqliteStateStore C → Reply × SqliteStateStore C
  perform now (put key v) s = let (a, s') = (sqlite_store db now).put key v s in (reply a, s')
  perform now (delete key) s = let (a, s') = (sqlite_store db now).delete key s in (reply a, s')
  perform now (get key) s = (read value ((sqlite_store db now).get key s), s)
  perform now (exists key) s = (read present ((sqlite_store db now).exists key s), s)

  unfoldable pub perform_all :
      List (ℕ × Op) → SqliteStateStore C → List (Op × Reply) × SqliteStateStore C
  perform_all [] s = ([], s)
  perform_all ((now, op) ∷ ops) s =
      let (r, s') = perform now op s in
      let (history, s'') = perform_all ops s' in ((op, r) ∷ history, s'')

  checkpoint-conn :
      (now : ℕ) (s : SqliteStateStore C)
      → (checkpoint db now s).1.conn
        ≡ (db.execute_batch "PRAGMA wal_checkpoint(TRUNCATE);" s.conn).1
  unfolding checkpoint
  checkpoint-conn now s =
      ground (arith, Result-cases (db.execute_batch "PRAGMA wal_checkpoint(TRUNCATE);" s.conn).0)

  -- A checkpoint, taken or not, is not seen.
  maybe_checkpoint-Same :
      (now : ℕ) (s : SqliteStateStore C)
      → Same (view s.conn) (view (maybe_checkpoint db now s).conn)
  unfolding maybe_checkpoint checkpoint
  maybe_checkpoint-Same now s k = elim (Bool-cases (is_due db now s)) [
    | inr early ↦ rw (early, maybe_checkpoint) refl
    | inl due ↦
        rw (due, maybe_checkpoint)
          (ap (λ c. view c k) (checkpoint-conn now s) ∙ table.checkpoints s.conn k)
  ]

  counted-ok :
      (now : ℕ) (s : SqliteStateStore C) (r : Result Unit String × C)
      → r.0 ≡ ok tt
      → ((counted db now s r).0 ≡ ok tt) × Same (view r.1) (view (counted db now s r).1.conn)
  unfolding counted record_write
  counted-ok now s (ok tt, conn) fine =
      (refl, maybe_checkpoint-Same now (record_write db (record s { conn = conn })))
  counted-ok now s (err e, conn) fine = absurd (ground arith)

  counted-err :
      (now : ℕ) (s : SqliteStateStore C) (r : Result Unit String × C) (e : String)
      → r.0 ≡ err e
      → ((counted db now s r).0 ≡ err (sqlite e)) × ((counted db now s r).1.conn ≡ r.1)
  unfolding counted
  counted-err now s (ok tt, conn) e bad = absurd (ground arith)
  counted-err now s (err f, conn) e bad = (ground arith, refl)

  put-Allows :
      (now : ℕ) (key : String) (v : List ℕ) (s : SqliteStateStore C)
      → Allows
          (view s.conn)
          (view (counted db now s (db.upsert key v s.conn)).1.conn)
          (put key v)
          (reply (counted db now s (db.upsert key v s.conn)).0)
  put-Allows now key v s = elim (Result-cases (db.upsert key v s.conn).0) [
    | inl (_, fine) ↦
        let (answer, same) = counted-ok now s (db.upsert key v s.conn) fine in
        rw answer (puts key v (λ k. same k ∙ table.upserts key v s.conn fine k))
    | inr (e, bad) ↦
        let (answer, conn) = counted-err now s (db.upsert key v s.conn) e bad in
        rw answer (
          refuses (put key v) (sqlite e)
            (λ k. ap (λ c. view c k) conn ∙ table.upsert_fails key v s.conn e bad k))
  ]

  delete-Allows :
      (now : ℕ) (key : String) (s : SqliteStateStore C)
      → Allows
          (view s.conn)
          (view (counted db now s (db.delete_row key s.conn)).1.conn)
          (delete key)
          (reply (counted db now s (db.delete_row key s.conn)).0)
  delete-Allows now key s = elim (Result-cases (db.delete_row key s.conn).0) [
    | inl (_, fine) ↦
        let (answer, same) = counted-ok now s (db.delete_row key s.conn) fine in
        rw answer (takes key (λ k. same k ∙ table.deletes key s.conn fine k))
    | inr (e, bad) ↦
        let (answer, conn) = counted-err now s (db.delete_row key s.conn) e bad in
        rw answer (
          refuses (delete key) (sqlite e)
            (λ k. ap (λ c. view c k) conn ∙ table.delete_fails key s.conn e bad k))
  ]

  get-Allows :
      (key : String) (s : SqliteStateStore C)
      → Allows
          (view s.conn)
          (view s.conn)
          (get key)
          (read value (lifted (db.select_value key s.conn)))
  get-Allows key s = elim (Result-cases (db.select_value key s.conn)) [
    | inl (o, fine) ↦ rw (fine, table.selects key s.conn o fine) (reads key (λ k. refl))
    | inr (e, bad) ↦ rw bad (refuses (get key) (sqlite e) (λ k. refl))
  ]

  exists-Allows :
      (key : String) (s : SqliteStateStore C)
      → Allows
          (view s.conn)
          (view s.conn)
          (exists key)
          (read present (lifted (db.select_one key s.conn)))
  exists-Allows key s = elim (Result-cases (db.select_one key s.conn)) [
    | inl (b, fine) ↦ rw (fine, table.finds key s.conn b fine) (tells key (λ k. refl))
    | inr (e, bad) ↦ rw bad (refuses (exists key) (sqlite e) (λ k. refl))
  ]

  perform-Allows :
      (now : ℕ) (op : Op) (s : SqliteStateStore C)
      → Allows (view s.conn) (view (perform now op s).1.conn) op (perform now op s).0
  unfolding perform sqlite_store
  perform-Allows now (put key v) s = put-Allows now key v s
  perform-Allows now (delete key) s = delete-Allows now key s
  perform-Allows now (get key) s = get-Allows key s
  perform-Allows now (exists key) s = exists-Allows key s

  -- Every history of reads and writes, at any times, is one of a map from keys to values that starts
  -- as the table did: a write that succeeds is seen by every later read until the next write to its
  -- key, one that fails changes nothing, and the checkpoints are not seen. The statements of the
  -- database do what SQL says.
  pub perform_all_refines :
      (ops : List (ℕ × Op)) (s : SqliteStateStore C)
      → Run (view s.conn) (view (perform_all ops s).1.conn) (perform_all ops s).0
  unfolding perform_all
  perform_all_refines [] s = stop (λ k. refl)
  perform_all_refines ((now, op) ∷ ops) s =
      step (perform-Allows now op s) (perform_all_refines ops (perform now op s).1)
