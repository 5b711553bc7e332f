-- ===== src/Store/Acl.antt =====
-- src/store/acl.rs, src/store/error.rs and the trait of src/store/mod.rs: the guard in front of a
-- store. A value is a list of bytes; the errors of the engine are texts.
pub mod Guard
use aros_kernel.Prelude.{
  ℕ, String, ◌≡◌, ◌↔◌, Bool, true, false, ◌&&◌, ◌||◌, Option, List, if◌then◌else◌, arith, Eq, ◌==◌,
  string_eq,
}
use aros_kernel.Prelude.Result.{Result, ok, err}
use text.Mathlib.Text.{starts_with}

pub data ProcessIdentity : Type 0 where
  kernel meta_loop harness_loop agentic_loop model_adapter human : ProcessIdentity

abbrev pub identity_beq : ProcessIdentity → ProcessIdentity → Bool
identity_beq kernel kernel = true
identity_beq meta_loop meta_loop = true
identity_beq harness_loop harness_loop = true
identity_beq agentic_loop agentic_loop = true
identity_beq model_adapter model_adapter = true
identity_beq human human = true
identity_beq _ _ = false

pub identity_beq_iff : (a b : ProcessIdentity) → (identity_beq a b ≡ true) ↔ (a ≡ b)
identity_beq_iff a b = ground arith

instance abbrev pub identity_eq : Eq ProcessIdentity
identity_eq = record { beq = identity_beq; beq_iff = identity_beq_iff }

-- The text that `Display` gives, which is the derived `Debug` one.
abbrev pub to_string : ProcessIdentity → String
to_string kernel = "Kernel"
to_string meta_loop = "MetaLoop"
to_string harness_loop = "HarnessLoop"
to_string agentic_loop = "AgenticLoop"
to_string model_adapter = "ModelAdapter"
to_string human = "Human"

pub data StoreError : Type 0 where
  sqlite : String → StoreError
  permission_denied : (identity operation key : String) → StoreError
  append_only : String → StoreError
  serialization : String → StoreError

-- The trait `StateStore` for a store of the type `S`: an operation that takes `&mut self` returns
-- the store that it leaves.
pub record StateStore (S : Type 0) : Type 0 where
  pub put : String → List ℕ → S → Result Unit StoreError × S
  pub get : String → S → Result (Option (List ℕ)) StoreError
  pub delete : String → S → Result Unit StoreError × S
  pub list_keys : String → S → Result (List String) StoreError
  pub exists : String → S → Result Bool StoreError

pub record AclGuard (S : Type 0) : Type 0 where
  pub inner : S
  pub identity : ProcessIdentity

unfoldable pub is_append_only : String → Bool
is_append_only key = starts_with key "/audit/" || starts_with key "/evolution-log/"

unfoldable pub may_write : ProcessIdentity → String → Bool
may_write identity key =
    if identity == kernel
    then true
    else if starts_with key "/policy/"
    then identity == meta_loop
    else if starts_with key "/meta-goals/"
    then identity == human
    else if starts_with key "/security/redzone/"
    then false
    else if starts_with key "/audit/"
    then true
    else if starts_with key "/circuit-breaker/"
    then identity == model_adapter
    else if starts_with key "/dag/"
    then identity == harness_loop
    else if starts_with key "/task/"
    then identity == agentic_loop
    else if starts_with key "/evolution-log/"
    then identity == meta_loop
    else if starts_with key "/self-model/"
    then identity == meta_loop
    else true

unfoldable pub check_write : ProcessIdentity → String → String → Result Unit StoreError
check_write identity key operation =
    if operation == "delete" && is_append_only key
    then err (append_only key)
    else if may_write identity key
    then ok tt
    else err (permission_denied (to_string identity) operation key)

-- What `?` does with the answer of `check_write`.
unfoldable pub guarded :
    {S : Type 0}
    → Result Unit StoreError
    → (S → Result Unit StoreError × S)
    → AclGuard S
    → Result Unit StoreError × AclGuard S
guarded (err e) action g = (err e, g)
guarded (ok _) action g =
    let (answer, inner) = action g.inner in (answer, record g { inner = inner })

-- The store that a guard makes of a store.
unfoldable pub acl_store : {S : Type 0} → StateStore S → StateStore (AclGuard S)
acl_store store = record {
  put = λ key value g. guarded (check_write g.identity key "put") (store.put key value) g;
  get = λ key g. store.get key g.inner;
  delete = λ key g. guarded (check_write g.identity key "delete") (store.delete key) g;
  list_keys = λ prefix g. store.list_keys prefix g.inner;
  exists = λ key g. store.exists key g.inner;
}
