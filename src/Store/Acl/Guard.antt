-- ===== src/Store/Acl/Guard.antt =====
-- src/store/acl.rs: what the guard keeps from the processes.
use aros_kernel.Prelude.{
  ℕ, String, ◌≡◌, ◌≢◌, ◌⊎◌, refl, ◌∙◌, inl, inr, true, false, ◌&&◌, sym, ap, beq_self, List, [],
  ◌∷◌, All, arith, Bool-cases, ◌==◌, eq_of_beq, string_eq,
}
use mathlib.Core.Bool.{false≢true}
use aros_kernel.Prelude.Result.{Result, ok, err}
use aros_kernel.Store.Acl.{
  ProcessIdentity, StoreError, append_only, permission_denied, StateStore, AclGuard, is_append_only,
  may_write, check_write, guarded, acl_store, to_string,
}

-- What a process asks a guarded store to change.
pub data Write : Type 0 where
  put : (identity : ProcessIdentity) (key : String) (value : List ℕ) → Write
  delete : (identity : ProcessIdentity) (key : String) → Write

-- No permission of the guard covers the write, if it is one to the key `k`.
abbrev pub Forbidden : String → Write → Type 0
Forbidden k (put identity key value) = may_write identity k ≡ false
Forbidden k (delete identity key) = (may_write identity k ≡ false) ⊎ (is_append_only k ≡ true)

-- A store that keeps what it holds under other keys.
pub record KeepsOthers {S : Type 0} (store : StateStore S) : Type 0 where
  pub put_keeps :
      (key k : String) (value : List ℕ) (s : S)
      → key ≢ k
      → store.get k (store.put key value s).1 ≡ store.get k s
  pub delete_keeps :
      (key k : String) (s : S) → key ≢ k → store.get k (store.delete key s).1 ≡ store.get k s

module _ {S : Type 0} (store : StateStore S) where
  -- One write, through the guard of the process that asks.
  unfoldable pub perform : Write → S → S
  perform (put identity key value) s =
      ((acl_store store).put key value (record { inner = s; identity = identity })).1.inner
  perform (delete identity key) s =
      ((acl_store store).delete key (record { inner = s; identity = identity })).1.inner

  unfoldable pub perform_all : List Write → S → S
  perform_all [] s = s
  perform_all (w ∷ ws) s = perform_all ws (perform w s)

  settled :
      (answer : Result Unit StoreError) (action : S → Result Unit StoreError × S) (g : AclGuard S)
      (k : String)
      → ((e : StoreError) × (answer ≡ err e))
        ⊎ (store.get k (action g.inner).1 ≡ store.get k g.inner)
      → store.get k (guarded answer action g).1.inner ≡ store.get k g.inner
  unfolding guarded
  settled (err e) action g k h = refl
  settled (ok _) action g k (inl (e, impossible)) = absurd (ground arith)
  settled (ok _) action g k (inr same) = same

  different : (key k : String) → (key == k) ≡ false → key ≢ k
  different key k other same =
      absurd (false≢true (sym other ∙ (ap (λ x. key == x) (sym same) ∙ beq_self key)))

  denied_err :
      (identity : ProcessIdentity) (key operation : String)
      → may_write identity key ≡ false
      → (e : StoreError) × (check_write identity key operation ≡ err e)
  unfolding check_write
  denied_err identity key operation denied =
      elim (Bool-cases (operation == "delete" && is_append_only key)) [
        | inl kept ↦ (append_only key, rw kept refl)
        | inr free ↦ (permission_denied (to_string identity) operation key, rw (free, denied) refl)
      ]

  kept_err :
      (identity : ProcessIdentity) (key : String)
      → is_append_only key ≡ true
      → (e : StoreError) × (check_write identity key "delete" ≡ err e)
  unfolding check_write
  kept_err identity key kept = (append_only key, rw kept refl)

  perform_keeps :
      (w : Write) (k : String) (s : S)
      → KeepsOthers store
      → Forbidden k w
      → store.get k (perform w s) ≡ store.get k s
  unfolding perform acl_store
  perform_keeps (put identity key value) k s keeps denied =
      settled (check_write identity key "put") (store.put key value)
        (record { inner = s; identity = identity }) k
        (elim (Bool-cases (key == k)) [
          | inl same ↦ inl (
              denied_err identity key "put"
                (ap (may_write identity) (eq_of_beq key k same) ∙ denied))
          | inr other ↦ inr (keeps.put_keeps key k value s (different key k other))
        ])
  perform_keeps (delete identity key) k s keeps forbidden =
      settled (check_write identity key "delete") (store.delete key)
        (record { inner = s; identity = identity }) k
        (elim (Bool-cases (key == k)) [
          | inl same ↦ inl (refused (eq_of_beq key k same) forbidden)
          | inr other ↦ inr (keeps.delete_keeps key k s (different key k other))
        ])
    where
      refused :
          key ≡ k
          → Forbidden k (delete identity key)
          → (e : StoreError) × (check_write identity key "delete" ≡ err e)
      refused same (inl denied) =
          denied_err identity key "delete" (ap (may_write identity) same ∙ denied)
      refused same (inr kept) = kept_err identity key (ap is_append_only same ∙ kept)

  -- What a store that keeps its other keys holds under a key does not change, whichever writes
  -- the processes ask for, as long as the guard allows none of them on that key: a put takes a
  -- process that may write the key, and a delete takes also a key that is not append-only.
  pub guard_protects :
      (ws : List Write) (k : String) (s : S)
      → KeepsOthers store
      → All (Forbidden k) ws
      → store.get k (perform_all ws s) ≡ store.get k s
  unfolding perform_all
  guard_protects [] k s keeps all = refl
  guard_protects (w ∷ ws) k s keeps (first, rest) =
      guard_protects ws k (perform w s) keeps rest ∙ perform_keeps w k s keeps first
