-- ===== src/Prelude/Map.antt =====
-- `std::collections::HashMap` as an association list. The order of the list stands for the order
-- in which the map iterates, which the theorems leave open.
use Prim.Native.Nat.{suc, ◌≤◌, ◌<◌}
use mathlib.Core.Path.{◌≡◌, refl, ap}
use mathlib.Core.Logic.{inl, inr}
use mathlib.Core.Bool.{Bool, true, false}
use mathlib.Core.Option.{Option, none, some}
use mathlib.Core.List.{List, [], ◌∷◌, map}
use native.Mathlib.Omega.{arith}
use aros_kernel.Prelude.Tests.{Eq, ◌==◌, if◌then◌else◌, is_some, Option-cases}
use aros_kernel.Prelude.Lists.{length, In, count_if}

module _ {K V : Type 0} where
  abbrev pub keys : List (K × V) → List K
  keys = map (λ (p : K × V). p.0)

  abbrev pub values : List (K × V) → List V
  values = map (λ (p : K × V). p.1)

  pub length-keys : (m : List (K × V)) → length (keys m) ≡ length m
  length-keys [] = refl
  length-keys (p ∷ m) = ap suc (length-keys m)

  pub length-values : (m : List (K × V)) → length (values m) ≡ length m
  length-values [] = refl
  length-values (p ∷ m) = ap suc (length-values m)

module _ {K V : Type 0} ⦃e : Eq K⦄ where
  unfoldable pub lookup : K → List (K × V) → Option V
  lookup key [] = none
  lookup key (entry ∷ rest) = if entry.0 == key then some entry.1 else lookup key rest

  unfoldable pub remove : K → List (K × V) → List (K × V)
  remove k [] = []
  remove k ((j, w) ∷ m) = if j == k then remove k m else (j, w) ∷ remove k m

  -- A new key comes last, an old one keeps its place.
  unfoldable pub insert : K → V → List (K × V) → List (K × V)
  insert key new [] = (key, new) ∷ []
  insert key new (entry ∷ rest) =
      if entry.0 == key then (entry.0, new) ∷ rest else entry ∷ insert key new rest

  -- `if let Some(v) = m.get_mut(k) { *v = f(v) }`.
  unfoldable pub modify : K → (V → V) → List (K × V) → List (K × V)
  modify k f [] = []
  modify k f ((j, w) ∷ m) = if j == k then (j, f w) ∷ m else (j, w) ∷ modify k f m

  abbrev pub contains_key : K → List (K × V) → Bool
  contains_key k m = is_some (lookup k m)

  -- A map holds each key once.
  abbrev pub UniqueKeys : List (K × V) → Type 0
  UniqueKeys [] = Unit
  UniqueKeys ((j, w) ∷ m) = (lookup j m ≡ none) × UniqueKeys m

  pub lookup-insert :
      (key other : K) (new : V) (m : List (K × V))
      → lookup other (insert key new m) ≡ (if key == other then some new else lookup other m)
  unfolding lookup insert
  lookup-insert key other new [] = refl
  lookup-insert key other new ((at, old) ∷ m) = ground (
    arith,
    lookup-insert key other new m,
    e.beq_iff at other,
    e.beq_iff at key,
    e.beq_iff key other,
  )

  pub lookup-remove :
      (k j : K) (m : List (K × V)) → lookup j (remove k m) ≡ (if k == j then none else lookup j m)
  unfolding lookup remove
  lookup-remove k j [] = ground arith
  lookup-remove k j ((i, w) ∷ m) =
      ground (arith, e.beq_iff k j, e.beq_iff i k, e.beq_iff i j, lookup-remove k j m)

  pub lookup-modify :
      (k j : K) (f : V → V) (m : List (K × V))
      → lookup j (modify k f m)
        ≡ (if k == j then elim (lookup j m) [ none ↦ none | some v ↦ some (f v) ] else lookup j m)
  unfolding lookup modify
  lookup-modify k j f [] = ground arith
  lookup-modify k j f ((i, w) ∷ m) =
      ground (arith, e.beq_iff k j, e.beq_iff i k, e.beq_iff i j, lookup-modify k j f m)

  pub remove_absent : (k : K) (m : List (K × V)) → lookup k m ≡ none → remove k m ≡ m
  unfolding lookup remove
  remove_absent k [] h = refl
  remove_absent k ((i, w) ∷ m) h = ground (arith, remove_absent k m)

  -- To take a new key out again gives the map from before.
  pub remove-insert :
      (k : K) (v : V) (m : List (K × V)) → lookup k m ≡ none → remove k (insert k v m) ≡ m
  unfolding lookup insert remove
  remove-insert k v [] h = ground (arith, e.beq_iff k k)
  remove-insert k v ((i, w) ∷ m) h = ground (arith, remove-insert k v m)

  pub UniqueKeys-insert :
      (k : K) (v : V) (m : List (K × V)) → UniqueKeys m → UniqueKeys (insert k v m)
  unfolding lookup insert
  UniqueKeys-insert k v [] u = ground arith
  UniqueKeys-insert k v ((i, w) ∷ m) u =
      ground (arith, UniqueKeys-insert k v m, lookup-insert k i v m, e.beq_iff k i, e.beq_iff i k)

  pub UniqueKeys-remove : (k : K) (m : List (K × V)) → UniqueKeys m → UniqueKeys (remove k m)
  unfolding lookup remove
  UniqueKeys-remove k [] u = ground arith
  UniqueKeys-remove k ((i, w) ∷ m) u =
      ground (arith, UniqueKeys-remove k m, lookup-remove k i m, e.beq_iff k i, e.beq_iff i k)

  pub UniqueKeys-modify :
      (k : K) (f : V → V) (m : List (K × V)) → UniqueKeys m → UniqueKeys (modify k f m)
  unfolding lookup modify
  UniqueKeys-modify k f [] u = ground arith
  UniqueKeys-modify k f ((i, w) ∷ m) u =
      ground (arith, UniqueKeys-modify k f m, lookup-modify k i f m, e.beq_iff k i, e.beq_iff i k)

  pub length-modify : (k : K) (f : V → V) (m : List (K × V)) → length (modify k f m) ≡ length m
  unfolding modify
  length-modify k f [] = refl
  length-modify k f ((i, w) ∷ m) = ground (arith, length-modify k f m)

  pub keys-modify : (k : K) (f : V → V) (m : List (K × V)) → keys (modify k f m) ≡ keys m
  unfolding modify
  keys-modify k f [] = refl
  keys-modify k f ((i, w) ∷ m) = ground (arith, keys-modify k f m)

  pub In-keys_of_lookup : (k : K) (m : List (K × V)) (v : V) → lookup k m ≡ some v → In k (keys m)
  unfolding lookup
  In-keys_of_lookup k [] v h = cc
  In-keys_of_lookup k ((i, w) ∷ m) v h = ground (arith, e.beq_iff i k, In-keys_of_lookup k m v)

  pub contains_key_of_In : (k : K) (m : List (K × V)) → In k (keys m) → contains_key k m ≡ true
  unfolding lookup
  contains_key_of_In k [] h = elim h [ ]
  contains_key_of_In k ((i, w) ∷ m) h = ground (arith, e.beq_iff i k, contains_key_of_In k m)

  pub In-keys_of_key : (k : K) (m : List (K × V)) → contains_key k m ≡ true → In k (keys m)
  In-keys_of_key k m h = elim (Option-cases (lookup k m)) [
    | inl e ↦ cc (rw e at h)
    | inr (v, e) ↦ In-keys_of_lookup k m v e
  ]

  -- In a map that holds each key once, every value is found under some key.
  pub lookup_of_In-values :
      (m : List (K × V)) (v : V) → UniqueKeys m → In v (values m) → (k : K) × (lookup k m ≡ some v)
  unfolding lookup
  lookup_of_In-values [] v u i = absurd i
  lookup_of_In-values ((j, w) ∷ m) v u (inl same) = (j, ground (arith, e.beq_iff j j))
  lookup_of_In-values ((j, w) ∷ m) v u (inr i) =
      let (k, h) = lookup_of_In-values m v u.1 i in (k, ground (arith, e.beq_iff j k))

  pub In-values_of_lookup :
      (k : K) (m : List (K × V)) (v : V) → lookup k m ≡ some v → In v (values m)
  unfolding lookup
  In-values_of_lookup k [] v h = cc
  In-values_of_lookup k ((j, w) ∷ m) v h = ground (arith, In-values_of_lookup k m v)

  -- A write to one entry, seen by a count over the values.
  pub count_if-modify-le :
      (p : V → Bool) (k : K) (f : V → V) (m : List (K × V))
      → ((v : V) → p (f v) ≡ true → p v ≡ true)
      → count_if p (values (modify k f m)) ≤ count_if p (values m)
  unfolding modify
  count_if-modify-le p k f [] h = omega arith
  count_if-modify-le p k f ((j, w) ∷ m) h = ground (arith, h w, count_if-modify-le p k f m h)

  pub count_if-modify-lt :
      (p : V → Bool) (k : K) (f : V → V) (m : List (K × V)) (v : V)
      → lookup k m ≡ some v
      → p v ≡ true
      → p (f v) ≡ false
      → count_if p (values (modify k f m)) < count_if p (values m)
  unfolding modify lookup
  count_if-modify-lt p k f [] v here before after = cc
  count_if-modify-lt p k f ((j, w) ∷ m) v here before after =
      ground (arith, count_if-modify-lt p k f m v)
