-- ===== src/Store/Engine/Atomicity.antt =====
-- src/store/engine.rs: a transaction is seen as a whole or not at all.
use aros_kernel.Prelude.{
  ℕ, String, ◌≡◌, refl, ap, ◌∙◌, Bool, true, false, none, some, List, [], ◌∷◌, arith, string_eq,
  inl, inr, ◌⊎◌,
}
use aros_kernel.Prelude.Result.{Result, ok, err, Result-cases}
use aros_kernel.Store.Acl.{StoreError, sqlite}
use aros_kernel.Store.Engine.{
  Database, SqliteStateStore, Transaction, transaction, drop, commit, put, delete,
}
use aros_kernel.Store.Engine.Refinement.{View, Same, written}

-- A statement inside a transaction leaves it open, with the same state to return to, or the database
-- has rolled it back.
abbrev pub StaysOrReturns :
    {C : Type 0} → (C → Bool) → (view saved : C → View) → (before after : C) → Type 0
StaysOrReturns is_open view saved c d =
    ((is_open d ≡ true) × Same (saved c) (saved d))
    ⊎ ((is_open d ≡ false) × Same (saved c) (view d))

-- The statements on transactions do what the documentation of SQLite says. `is_open` says that the
-- connection is in a transaction, and `saved` is then what a rollback returns to. A transaction does
-- not start in another one, and outside of one a rollback changes nothing. A statement that fails
-- may have rolled back the transaction.
pub record IsTransactional {C : Type 0} (db : Database C) (is_open : C → Bool)
    (view saved : C → View) : Type 0 where
  pub begins :
      (c : C)
      → (db.execute_batch "BEGIN IMMEDIATE;" c).0 ≡ ok tt
      → (is_open (db.execute_batch "BEGIN IMMEDIATE;" c).1 ≡ true)
        × Same (view c) (view (db.execute_batch "BEGIN IMMEDIATE;" c).1)
        × Same (view c) (saved (db.execute_batch "BEGIN IMMEDIATE;" c).1)
  pub begin_fails :
      (c : C) (e : String)
      → (db.execute_batch "BEGIN IMMEDIATE;" c).0 ≡ err e
      → (is_open (db.execute_batch "BEGIN IMMEDIATE;" c).1 ≡ is_open c)
        × Same (view c) (view (db.execute_batch "BEGIN IMMEDIATE;" c).1)
  pub upsert_stays :
      (key : String) (value : List ℕ) (c : C)
      → is_open c ≡ true
      → (db.upsert key value c).0 ≡ ok tt
      → (is_open (db.upsert key value c).1 ≡ true)
        × Same (saved c) (saved (db.upsert key value c).1)
        × Same (written key (some value) (view c)) (view (db.upsert key value c).1)
  pub upsert_breaks :
      (key : String) (value : List ℕ) (c : C) (e : String)
      → is_open c ≡ true
      → (db.upsert key value c).0 ≡ err e
      → StaysOrReturns is_open view saved c (db.upsert key value c).1
  pub delete_stays :
      (key : String) (c : C)
      → is_open c ≡ true
      → (db.delete_row key c).0 ≡ ok tt
      → (is_open (db.delete_row key c).1 ≡ true)
        × Same (saved c) (saved (db.delete_row key c).1)
        × Same (written key none (view c)) (view (db.delete_row key c).1)
  pub delete_breaks :
      (key : String) (c : C) (e : String)
      → is_open c ≡ true
      → (db.delete_row key c).0 ≡ err e
      → StaysOrReturns is_open view saved c (db.delete_row key c).1
  pub commits :
      (c : C)
      → is_open c ≡ true
      → (db.execute_batch "COMMIT;" c).0 ≡ ok tt
      → (is_open (db.execute_batch "COMMIT;" c).1 ≡ false)
        × Same (view c) (view (db.execute_batch "COMMIT;" c).1)
  pub commit_fails :
      (c : C) (e : String)
      → is_open c ≡ true
      → (db.execute_batch "COMMIT;" c).0 ≡ err e
      → StaysOrReturns is_open view saved c (db.execute_batch "COMMIT;" c).1
  pub rolls_back :
      (c : C)
      → is_open c ≡ true
      → (is_open (db.execute_batch "ROLLBACK;" c).1 ≡ false)
        × Same (saved c) (view (db.execute_batch "ROLLBACK;" c).1)
  pub no_rollback :
      (c : C)
      → is_open c ≡ false
      → (is_open (db.execute_batch "ROLLBACK;" c).1 ≡ false)
        × Same (view c) (view (db.execute_batch "ROLLBACK;" c).1)

pub data Write : Type 0 where
  puts : String → List ℕ → Write
  deletes : String → Write

-- A write on a map from keys to values, and several of them.
abbrev pub write_view : Write → View → View
write_view (puts key value) m = written key (some value) m
write_view (deletes key) m = written key none m

abbrev pub write_views : List Write → View → View
write_views [] m = m
write_views (w ∷ ws) m = write_views ws (write_view w m)

Same-write_view : (w : Write) (m n : View) → Same m n → Same (write_view w m) (write_view w n)
Same-write_view (puts key value) m n same k = ground (arith, same k)
Same-write_view (deletes key) m n same k = ground (arith, same k)

Same-write_views :
    (ws : List Write) (m n : View) → Same m n → Same (write_views ws m) (write_views ws n)
Same-write_views [] m n same = same
Same-write_views (w ∷ ws) m n same = Same-write_views ws _ _ (Same-write_view w m n same)

module _ {C : Type 0} (db : Database C) (is_open : C → Bool) (view saved : C → View)
    (transactional : IsTransactional db is_open view saved) where
  -- The writes of a body that stops at the first that fails, as `?` does.
  unfoldable pub write_all : List Write → Transaction db → Result Unit StoreError × Transaction db
  write_all [] t = (ok tt, t)
  write_all (puts key value ∷ ws) t =
      let (answer, t') = put db key value t in
      elim answer [ err e ↦ (err e, t') | ok _ ↦ write_all ws t' ]
  write_all (deletes key ∷ ws) t =
      let (answer, t') = delete db key t in
      elim answer [ err e ↦ (err e, t') | ok _ ↦ write_all ws t' ]

  -- A body of writes in a transaction, committed at its end and dropped at an error.
  unfoldable pub atomically : List Write → SqliteStateStore C → Result Unit StoreError × C
  unfolding write_all
  atomically ws s =
      let (begun, conn) = transaction db s in
      elim begun [
        | err e ↦ (err e, conn)
        | ok t ↦
            let (answer, t') = write_all ws t in
            elim answer [ err e ↦ (err e, drop db t') | ok _ ↦ commit db t' ]
      ]

  -- What a body leaves: nothing of it is saved. If it succeeds, its writes are seen inside.
  record Body (ws : List Write) (t : Transaction db) (r : Result Unit StoreError × Transaction db)
      : Type 0 where
    uncommitted : r.1.committed ≡ t.committed
    left : StaysOrReturns is_open view saved t.guard r.1.guard
    seen :
        r.0 ≡ ok tt
        → (is_open r.1.guard ≡ true)
          × Same (saved t.guard) (saved r.1.guard)
          × Same (write_views ws (view t.guard)) (view r.1.guard)

  StaysOrReturns-trans :
      (b c d : C)
      → Same (saved b) (saved c)
      → StaysOrReturns is_open view saved c d
      → StaysOrReturns is_open view saved b d
  StaysOrReturns-trans b c d still (inl (stays, same)) = inl (stays, λ k. same k ∙ still k)
  StaysOrReturns-trans b c d still (inr (out, same)) = inr (out, λ k. same k ∙ still k)

  -- A write in front of a body.
  Body-cons :
      (w : Write) (ws : List Write) (t u : Transaction db)
      (r : Result Unit StoreError × Transaction db)
      → u.committed ≡ t.committed
      → Same (saved t.guard) (saved u.guard)
      → Same (write_view w (view t.guard)) (view u.guard)
      → Body ws u r
      → Body (w ∷ ws) t r
  Body-cons w ws t u r kept still seen b = record {
    uncommitted = b.uncommitted ∙ kept;
    left = StaysOrReturns-trans t.guard u.guard r.1.guard still b.left;
    seen = λ fine.
        let (stays, same, done) = b.seen fine in
        (stays, λ k. same k ∙ still k, λ k. done k ∙ Same-write_views ws _ _ seen k);
  }

  Body-failed :
      (ws : List Write) (t u : Transaction db) (e : StoreError)
      → u.committed ≡ t.committed
      → StaysOrReturns is_open view saved t.guard u.guard
      → Body ws t (err e, u)
  Body-failed ws t u e kept left = record {
    uncommitted = kept;
    left = left;
    seen = λ fine. absurd (ground arith);
  }

  write_all-Body :
      (ws : List Write) (t : Transaction db) → is_open t.guard ≡ true → Body ws t (write_all ws t)
  unfolding write_all put delete
  write_all-Body [] t inside = record {
    uncommitted = refl;
    left = inl (inside, λ k. refl);
    seen = λ fine. (inside, λ k. refl, λ k. refl);
  }
  write_all-Body (puts key value ∷ ws) t inside =
      elim (Result-cases (db.upsert key value t.guard).0) [
        | inl (_, fine) ↦
            let (stays, still, shown) = transactional.upsert_stays key value t.guard inside fine in
            rw (fine, write_all)
              (Body-cons (puts key value) ws t u _ refl still shown (write_all-Body ws u stays))
        | inr (e, bad) ↦
            rw (bad, write_all)
              (Body-failed (puts key value ∷ ws) t u (sqlite e) refl
                (transactional.upsert_breaks key value t.guard e inside bad))
      ]
    where
      u : Transaction db
      u = record t { guard = (db.upsert key value t.guard).1 }
  write_all-Body (deletes key ∷ ws) t inside = elim (Result-cases (db.delete_row key t.guard).0) [
    | inl (_, fine) ↦
        let (stays, still, shown) = transactional.delete_stays key t.guard inside fine in
        rw (fine, write_all)
          (Body-cons (deletes key) ws t u _ refl still shown (write_all-Body ws u stays))
    | inr (e, bad) ↦
        rw (bad, write_all)
          (Body-failed (deletes key ∷ ws) t u (sqlite e) refl
            (transactional.delete_breaks key t.guard e inside bad))
  ]
    where
      u : Transaction db
      u = record t { guard = (db.delete_row key t.guard).1 }

  -- What is dropped uncommitted is as before, and out of the transaction.
  dropped :
      (c : C) (t : Transaction db)
      → t.committed ≡ false
      → StaysOrReturns is_open view saved c t.guard
      → (is_open (drop db t) ≡ false) × Same (saved c) (view (drop db t))
  unfolding drop
  dropped c t pending (inl (inside, same)) =
      let (out, returns) = transactional.rolls_back t.guard inside in
      rw (pending, drop) (out, λ k. returns k ∙ same k)
  dropped c t pending (inr (outside, same)) =
      let (out, returns) = transactional.no_rollback t.guard outside in
      rw (pending, drop) (out, λ k. returns k ∙ same k)

  commit_outcomes :
      (t : Transaction db)
      → t.committed ≡ false
      → is_open t.guard ≡ true
      → (is_open (commit db t).1 ≡ false)
        × ((((commit db t).0 ≡ ok tt) × Same (view t.guard) (view (commit db t).1))
            ⊎ ((e : StoreError) × ((commit db t).0 ≡ err e)
                × Same (saved t.guard) (view (commit db t).1)))
  unfolding commit drop
  commit_outcomes t pending inside = elim (Result-cases (db.execute_batch "COMMIT;" t.guard).0) [
    | inl (_, fine) ↦
        let (out, same) = transactional.commits t.guard inside fine in
        rw (fine, commit) (out, inl (refl, same))
    | inr (e, bad) ↦
        let (out, same) =
          dropped t.guard (record t { guard = (db.execute_batch "COMMIT;" t.guard).1 }) pending
            (transactional.commit_fails t.guard e inside bad) in
        rw (bad, commit) (out, inr (sqlite e, refl, same))
  ]

  not_begun :
      (s : SqliteStateStore C) (e : String)
      → (db.execute_batch "BEGIN IMMEDIATE;" s.conn).0 ≡ err e
      → transaction db s ≡ (err (sqlite e), (db.execute_batch "BEGIN IMMEDIATE;" s.conn).1)
  unfolding transaction
  not_begun s e bad = rw (bad, transaction) refl

  -- On a connection that is in no transaction, a transaction is all or nothing: either it is answered
  -- `Ok` and the table is as if its writes had been done one after the other, or it is answered with
  -- an error (at its start, at a write, or at the commit) and the table is the one from before. In
  -- both cases the connection is in no transaction afterwards. The statements of the database do
  -- what its documentation says.
  pub atomically_outcomes :
      (ws : List Write) (s : SqliteStateStore C)
      → is_open s.conn ≡ false
      → (is_open (atomically ws s).1 ≡ false)
        × ((((atomically ws s).0 ≡ ok tt)
              × Same (write_views ws (view s.conn)) (view (atomically ws s).1))
            ⊎ ((e : StoreError) × ((atomically ws s).0 ≡ err e)
                × Same (view s.conn) (view (atomically ws s).1)))
  unfolding atomically transaction
  atomically_outcomes ws s free =
      elim (Result-cases (db.execute_batch "BEGIN IMMEDIATE;" s.conn).0) [
        | inr (e, bad) ↦
            let (out, same) = transactional.begin_fails s.conn e bad in
            rw (not_begun s e bad, atomically)
              (
                ap (λ r. is_open r.1) (not_begun s e bad) ∙ (out ∙ free),
                inr (sqlite e, refl, λ k. ap (λ r. view r.1 k) (not_begun s e bad) ∙ same k),
              )
        | inl (_, begun) ↦
            let (inside, shown, kept) = transactional.begins s.conn begun in
            let body = write_all-Body ws t inside in
            elim (Result-cases (write_all ws t).0) [
              | inr (e, bad) ↦
                  let (out, same) = dropped t.guard (write_all ws t).1 body.uncommitted body.left in
                  rw (begun, bad, atomically) (out, inr (e, refl, λ k. same k ∙ kept k))
              | inl (_, fine) ↦
                  let (stays, still, done) = body.seen fine in
                  let (out, ends) = commit_outcomes (write_all ws t).1 body.uncommitted stays in
                  elim ends [
                    | inl (answer, same) ↦
                        rw (begun, fine, atomically)
                          (
                            out,
                            inl (answer, λ k. same k ∙ (done k ∙ Same-write_views ws _ _ shown k)),
                          )
                    | inr (e, answer, same) ↦
                        rw (begun, fine, atomically)
                          (out, inr (e, answer, λ k. same k ∙ (still k ∙ kept k)))
                  ]
            ]
      ]
    where
      t : Transaction db
      t = record { guard = (db.execute_batch "BEGIN IMMEDIATE;" s.conn).1; committed = false }
