-- ===== src/Prelude/Lists.antt =====
-- Lists by Boolean tests, measured by native numbers.
use Prim.Native.Nat.{ℕ, zero, suc, ◌+◌, ◌≤◌}
use mathlib.Core.Path.{◌≡◌, refl, ap}
use mathlib.Core.Logic.{inl, inr, ◌⊎◌, ◌↔◌}
use mathlib.Core.Bool.{Bool, true, false, ◌&&◌, ◌||◌}
use mathlib.Core.Option.{Option, none, some}
use mathlib.Core.List.{List, [], ◌∷◌, ◌++◌, map}
use native.Mathlib.Omega.{arith}
use aros_kernel.Prelude.Tests.{Eq, ◌==◌, if◌then◌else◌, Bool-cases}

module _ {ℓ} {A : Type ℓ} where
  abbrev pub length : List A → ℕ
  length [] = 0
  length (x ∷ xs) = suc (length xs)

  abbrev pub filter : (A → Bool) → List A → List A
  filter p [] = []
  filter p (x ∷ xs) = if p x then x ∷ filter p xs else filter p xs

  abbrev pub all : (A → Bool) → List A → Bool
  all p [] = true
  all p (x ∷ xs) = p x && all p xs

  abbrev pub any : (A → Bool) → List A → Bool
  any p [] = false
  any p (x ∷ xs) = p x || any p xs

  abbrev pub take : ℕ → List A → List A
  take zero xs = []
  take (suc n) [] = []
  take (suc n) (x ∷ xs) = x ∷ take n xs

  abbrev pub first : List A → Option A
  first [] = none
  first (x ∷ xs) = some x

  -- Every element, as a tuple of proofs.
  abbrev pub All {κ} : (A → Type κ) → List A → Type κ
  All P [] = Unit
  All P (x ∷ xs) = P x × All P xs

-- Membership, as a sum of the positions.
abbrev pub In : {A : Type 0} → A → List A → Type 0
In a [] = ⊥
In a (x ∷ xs) = (a ≡ x) ⊎ In a xs

module _ {ℓ} {A : Type ℓ} where
  pub length-append : (xs ys : List A) → length (xs ++ ys) ≡ length xs + length ys
  length-append [] ys = omega arith
  length-append (x ∷ xs) ys = omega (arith, length-append xs ys)

  pub length-filter-le : (p : A → Bool) (xs : List A) → length (filter p xs) ≤ length xs
  length-filter-le p [] = omega arith
  length-filter-le p (x ∷ xs) = ground (arith, length-filter-le p xs)

  pub length-take-le : (n : ℕ) (xs : List A) → length (take n xs) ≤ n
  length-take-le zero xs = omega arith
  length-take-le (suc n) [] = omega arith
  length-take-le (suc n) (x ∷ xs) = omega (arith, length-take-le n xs)

module _ {A : Type 0} ⦃e : Eq A⦄ where
  -- `contains` of a `Vec` or of a `HashSet`.
  unfoldable pub contains : List A → A → Bool
  contains [] a = false
  contains (x ∷ xs) a = x == a || contains xs a

  pub contains_iff : (xs : List A) (a : A) → (contains xs a ≡ true) ↔ In a xs
  unfolding contains
  contains_iff [] a = (λ h. cc, λ h. elim h [ ])
  contains_iff (x ∷ xs) a = ground (arith, e.beq_iff x a, contains_iff xs a)

  -- `insert` and `remove` of a `HashSet`.
  unfoldable pub insert_item : A → List A → List A
  insert_item a xs = if contains xs a then xs else a ∷ xs

  unfoldable pub remove_item : A → List A → List A
  remove_item a [] = []
  remove_item a (x ∷ xs) = if x == a then remove_item a xs else x ∷ remove_item a xs

  pub remove_item_absent : (a : A) (xs : List A) → contains xs a ≡ false → remove_item a xs ≡ xs
  unfolding remove_item contains
  remove_item_absent a [] h = refl
  remove_item_absent a (x ∷ xs) h = ground (arith, remove_item_absent a xs)

  pub remove_item-insert_item :
      (a : A) (xs : List A) → contains xs a ≡ false → remove_item a (insert_item a xs) ≡ xs
  unfolding insert_item remove_item
  remove_item-insert_item a xs h = ground (arith, remove_item_absent a xs, e.beq_iff a a)

  pub contains-insert_item :
      (a b : A) (xs : List A) → contains (insert_item a xs) b ≡ (a == b || contains xs b)
  unfolding insert_item contains
  contains-insert_item a b xs = ground (arith, e.beq_iff a b)

-- How many elements pass a test.
module _ {ℓ} {A : Type ℓ} where
  abbrev pub count_if : (A → Bool) → List A → ℕ
  count_if p [] = 0
  count_if p (x ∷ xs) = if p x then suc (count_if p xs) else count_if p xs

  pub count_if-le : (p : A → Bool) (xs : List A) → count_if p xs ≤ length xs
  count_if-le p [] = omega arith
  count_if-le p (x ∷ xs) = ground (arith, count_if-le p xs)

  pub count_if_mono :
      (p q : A → Bool) (xs : List A)
      → ((x : A) → p x ≡ true → q x ≡ true)
      → count_if p xs ≤ count_if q xs
  count_if_mono p q [] h = omega arith
  count_if_mono p q (x ∷ xs) h = ground (arith, h x, count_if_mono p q xs h)

-- Membership in what the list functions return.
module _ {A : Type 0} where
  pub In-filter : (p : A → Bool) (a : A) (xs : List A) → In a (filter p xs) → In a xs × (p a ≡ true)
  In-filter p a [] i = absurd i
  In-filter p a (x ∷ xs) i = elim (Bool-cases (p x)) [
    | inl yes_x ↦ elim (let j : In a (x ∷ filter p xs) = rw yes_x at i in j) [
      | inl same ↦ (inl same, rw same yes_x)
      | inr j ↦ let (k, h) = In-filter p a xs j in (inr k, h)
    ]
    | inr no_x ↦ let (k, h) = In-filter p a xs (rw no_x at i) in (inr k, h)
  ]

  pub In-filter_of :
      (p : A → Bool) (a : A) (xs : List A) → In a xs → p a ≡ true → In a (filter p xs)
  In-filter_of p a [] i h = absurd i
  In-filter_of p a (x ∷ xs) (inl same) h = let e : p x ≡ true = rw (← same) h in rw e (inl same)
  In-filter_of p a (x ∷ xs) (inr i) h = elim (Bool-cases (p x)) [
    | inl yes_x ↦ rw yes_x (inr (In-filter_of p a xs i h))
    | inr no_x ↦ rw no_x (In-filter_of p a xs i h)
  ]

  pub In-take : (n : ℕ) (a : A) (xs : List A) → In a (take n xs) → In a xs
  In-take zero a xs i = absurd i
  In-take (suc n) a [] i = absurd i
  In-take (suc n) a (x ∷ xs) (inl same) = inl same
  In-take (suc n) a (x ∷ xs) (inr i) = inr (In-take n a xs i)

  pub In-map :
      {B : Type 0} (f : A → B) (b : B) (xs : List A)
      → In b (map f xs)
      → (a : A) × In a xs × (b ≡ f a)
  In-map f b [] i = absurd i
  In-map f b (x ∷ xs) (inl same) = (x, inl refl, same)
  In-map f b (x ∷ xs) (inr i) = let (a, j, e) = In-map f b xs i in (a, inr j, e)

  pub all_iff : (p : A → Bool) (xs : List A) → (all p xs ≡ true) ↔ ((a : A) → In a xs → p a ≡ true)
  all_iff p [] = (λ _ a i. absurd i, λ _. refl)
  all_iff p (x ∷ xs) = (
    λ h a. elim [ inl same ↦ rw same (ground arith) | inr i ↦ (all_iff p xs).0 (ground arith) a i ],
    λ h. ground (arith, h x (inl refl), (all_iff p xs).1 (λ a i. h a (inr i))),
  )

  pub any_iff :
      (p : A → Bool) (xs : List A) → (any p xs ≡ true) ↔ ((x : A) × In x xs × (p x ≡ true))
  any_iff p [] = (λ h. absurd (ground arith), λ (x, here, _). absurd here)
  any_iff p (x ∷ xs) = (
    λ h. elim (Bool-cases (p x)) [
      | inl holds ↦ (x, inl refl, holds)
      | inr fails ↦ let (y, here, holds) = (any_iff p xs).0 (ground arith) in (y, inr here, holds)
    ],
    λ (y, here, holds). elim here [
      | inl same ↦ ground (arith, ap p same)
      | inr later ↦ ground (arith, (any_iff p xs).1 (y, later, holds))
    ],
  )

pub length-map {ℓ κ} :
    {A : Type ℓ} {B : Type κ} (f : A → B) (xs : List A) → length (map f xs) ≡ length xs
length-map f [] = refl
length-map f (x ∷ xs) = ap suc (length-map f xs)

pub List-cases {ℓ} :
    {A : Type ℓ} (xs : List A) → (xs ≡ []) ⊎ ((x : A) × (rest : List A) × (xs ≡ x ∷ rest))
List-cases [] = inl refl
List-cases (x ∷ xs) = inr (x, xs, refl)
