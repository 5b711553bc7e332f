-- ===== src/Store/Examples.antt =====
-- A store that is an association list, and the theorem about src/store at it.
use aros_kernel.Prelude.{ℕ, String, ◌≡◌, refl, inl, false, List, [], ◌∷◌, arith, string_eq, is_some}
use aros_kernel.Prelude.Map.{lookup, insert, remove, lookup-insert, lookup-remove}
use aros_kernel.Prelude.Result.{ok}
use aros_kernel.Store.Acl.{human, agentic_loop, StateStore, may_write}
use aros_kernel.Store.Acl.Guard.{put, delete, KeepsOthers, perform_all, guard_protects}

abbrev Table : Type 0
Table = List (String × List ℕ)

abbrev table_store : StateStore Table
table_store = record {
  put = λ key value s. (ok tt, insert key value s);
  get = λ key s. ok (lookup key s);
  delete = λ key s. (ok tt, remove key s);
  list_keys = λ prefix s. ok [];
  exists = λ key s. ok (is_some (lookup key s));
}

table-KeepsOthers : KeepsOthers table_store
table-KeepsOthers = record {
  put_keeps =
      λ key k value s apart. ground (arith, lookup-insert key k value s, string_eq.beq_iff key k);
  delete_keeps = λ key k s apart. ground (arith, lookup-remove key k s, string_eq.beq_iff key k);
}

policy_denied : may_write agentic_loop "/policy/p" ≡ false
unfolding may_write
policy_denied = refl

policy_denied_human : may_write human "/policy/p" ≡ false
unfolding may_write
policy_denied_human = refl

guard_protects_example :
    table_store.get "/policy/p" (
      perform_all table_store
        (put agentic_loop "/policy/p" (1 ∷ []) ∷ delete human "/policy/p" ∷ [])
        (("/policy/p", 7 ∷ []) ∷ []))
    ≡ table_store.get "/policy/p" (("/policy/p", 7 ∷ []) ∷ [])
guard_protects_example =
    guard_protects table_store
      (put agentic_loop "/policy/p" (1 ∷ []) ∷ delete human "/policy/p" ∷ []) "/policy/p"
      (("/policy/p", 7 ∷ []) ∷ []) table-KeepsOthers (policy_denied, (inl policy_denied_human, tt))
