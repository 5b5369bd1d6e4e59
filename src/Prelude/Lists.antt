-- ===== src/Prelude/Lists.antt =====
-- Lists measured by native numbers, with Boolean tests, as the program uses them.
use Prim.Native.Nat.{ℕ, zero, suc, ◌+◌, ◌≤◌, min}
use mathlib.Core.Path.{◌≡◌, refl}
use mathlib.Core.Logic.{◌⊎◌, inl, inr}
use mathlib.Core.Bool.{Bool, true, false, ◌||◌}
use mathlib.Core.List.{List, [], ◌∷◌, ◌++◌, map}
use mathlib.Core.Option.{Option, none, some}
use native.Mathlib.Omega.{arith}
use config_manager.Prelude.Tests.{if◌then◌else◌, Eq, ◌==◌, ==_iff, ==_refl, Bool-cases}

module _ {ℓ} {A : Type ℓ} where
  abbrev pub length : List A → ℕ
  length [] = 0
  length (x ∷ xs) = suc (length xs)

  abbrev pub get_elem? : List A → ℕ → Option A
  get_elem? [] i = none
  get_elem? (x ∷ xs) zero = some x
  get_elem? (x ∷ xs) (suc i) = get_elem? xs i

  abbrev pub get_or : List A → ℕ → A → A
  get_or [] i d = d
  get_or (x ∷ xs) zero d = x
  get_or (x ∷ xs) (suc i) d = get_or xs i d

  -- `xs[:n]`
  abbrev pub take : ℕ → List A → List A
  take zero xs = []
  take (suc n) [] = []
  take (suc n) (x ∷ xs) = x ∷ take n xs

  -- `xs[n:]`
  abbrev pub drop : ℕ → List A → List A
  drop zero xs = xs
  drop (suc n) [] = []
  drop (suc n) (x ∷ xs) = drop n xs

  abbrev pub All {κ} : (A → Type κ) → List A → Type κ
  All P [] = Unit
  All P (x ∷ xs) = P x × All P xs

  -- `[x for x in xs if p(x)]`
  unfoldable pub filter_where : (A → Bool) → List A → List A
  filter_where p [] = []
  filter_where p (x ∷ xs) = let rest = filter_where p xs in if p x then x ∷ rest else rest

  -- the first element that passes the test
  unfoldable pub find_where : (A → Bool) → List A → Option A
  find_where p [] = none
  find_where p (x ∷ xs) = if p x then some x else find_where p xs

  pub length-append : (xs ys : List A) → length (xs ++ ys) ≡ length xs + length ys
  length-append [] ys = omega arith
  length-append (x ∷ xs) ys = omega (arith, length-append xs ys)

  pub length-take : (n : ℕ) (xs : List A) → length (take n xs) ≡ min n (length xs)
  length-take zero xs = omega arith
  length-take (suc n) [] = omega arith
  length-take (suc n) (x ∷ xs) = omega (arith, length-take n xs)

  pub take-drop : (n : ℕ) (xs : List A) → take n xs ++ drop n xs ≡ xs
  take-drop zero xs = refl
  take-drop (suc n) [] = refl
  take-drop (suc n) (x ∷ xs) = rw (take-drop n xs)

  pub length-filter_where-le : (p : A → Bool) (xs : List A) → length (filter_where p xs) ≤ length xs
  unfolding filter_where
  length-filter_where-le p [] = omega arith
  length-filter_where-le p (x ∷ xs) = ground (arith, length-filter_where-le p xs)

module _ {ℓ} {A : Type ℓ} where
  pub All-append {κ} :
      (P : A → Type κ) (front back : List A) → All P front → All P back → All P (front ++ back)
  All-append P [] back first second = second
  All-append P (a ∷ front) back first second = (first.0, All-append P front back first.1 second)

  pub All-take {κ} : (P : A → Type κ) (n : ℕ) (xs : List A) → All P xs → All P (take n xs)
  All-take P zero xs h = tt
  All-take P (suc n) [] h = tt
  All-take P (suc n) (x ∷ xs) h = (h.0, All-take P n xs h.1)

  pub All-drop {κ} : (P : A → Type κ) (n : ℕ) (xs : List A) → All P xs → All P (drop n xs)
  All-drop P zero xs h = h
  All-drop P (suc n) [] h = tt
  All-drop P (suc n) (x ∷ xs) h = All-drop P n xs h.1

  pub All-weaken {κ} :
      (P Q : A → Type κ) → ((x : A) → P x → Q x) → (xs : List A) → All P xs → All Q xs
  All-weaken P Q f [] h = tt
  All-weaken P Q f (x ∷ xs) h = (f x h.0, All-weaken P Q f xs h.1)

  pub All-pair {κ μ} :
      (P : A → Type κ) (Q : A → Type μ) (xs : List A)
      → All P xs
      → All Q xs
      → All (λ x. P x × Q x) xs
  All-pair P Q [] h k = tt
  All-pair P Q (x ∷ xs) h k = ((h.0, k.0), All-pair P Q xs h.1 k.1)

  pub All-map {κ μ} :
      {B : Type κ} (f : A → B) (P : B → Type μ) (xs : List A)
      → All (λ x. P (f x)) xs
      → All P (map f xs)
  All-map f P [] h = tt
  All-map f P (x ∷ xs) h = (h.0, All-map f P xs h.1)

  pub All-filter_where {κ} :
      (P : A → Type κ) (p : A → Bool) (xs : List A) → All P xs → All P (filter_where p xs)
  unfolding filter_where
  All-filter_where P p [] h = tt
  All-filter_where P p (x ∷ xs) h = elim (Bool-cases (p x)) [
    | inl e ↦ rw e (h.0, All-filter_where P p xs h.1)
    | inr e ↦ rw e (All-filter_where P p xs h.1)
  ]

  pub filter_where_cong :
      (p q : A → Bool) (xs : List A)
      → All (λ x. p x ≡ q x) xs
      → filter_where p xs ≡ filter_where q xs
  unfolding filter_where
  filter_where_cong p q [] h = refl
  filter_where_cong p q (x ∷ xs) h = rw (h.0, filter_where_cong p q xs h.1)

  -- What passed the filter passes the test.
  pub filter_where-All : (p : A → Bool) (xs : List A) → All (λ x. p x ≡ true) (filter_where p xs)
  unfolding filter_where
  filter_where-All p [] = tt
  filter_where-All p (x ∷ xs) = elim (Bool-cases (p x)) [
    | inl e ↦ rw e (e, filter_where-All p xs)
    | inr e ↦ rw e (filter_where-All p xs)
  ]

module _ {ℓ} {A : Type ℓ} ⦃e : Eq A⦄ where
  -- `x in xs`
  unfoldable pub member : A → List A → Bool
  member a [] = false
  member a (x ∷ xs) = a == x || member a xs

  -- no element occurs twice
  abbrev pub Distinct : List A → Type 0
  Distinct [] = Unit
  Distinct (x ∷ xs) = (member x xs ≡ false) × Distinct xs

module _ {ℓ} {A : Type ℓ} ⦃e : Eq A⦄ where
  pub member-append : (a : A) (xs ys : List A) → member a (xs ++ ys) ≡ (member a xs || member a ys)
  unfolding member
  member-append a [] ys = refl
  member-append a (x ∷ xs) ys = ground (arith, member-append a xs ys)

  pub Distinct-append :
      (xs ys : List A)
      → Distinct xs
      → Distinct ys
      → All (λ x. member x ys ≡ false) xs
      → Distinct (xs ++ ys)
  Distinct-append [] ys dx dy h = dy
  Distinct-append (x ∷ xs) ys dx dy h =
      (ground (arith, member-append x xs ys, dx.0, h.0), Distinct-append xs ys dx.1 dy h.1)

module _ {ℓ} {A : Type ℓ} ⦃e : Eq A⦄ where
  disjoint_head :
      (x : A) (xs ys : List A) → All (λ y. member y (x ∷ xs) ≡ false) ys → member x ys ≡ false
  unfolding member
  disjoint_head x xs [] h = refl
  disjoint_head x xs (y ∷ ys) h =
      ground (arith, disjoint_head x xs ys h.1, ==_iff x y, ==_iff y x, h.0)

  -- That two lists share no element may be said from either side.
  pub disjoint_sym :
      (xs ys : List A) → All (λ y. member y xs ≡ false) ys → All (λ x. member x ys ≡ false) xs
  unfolding member
  disjoint_sym [] ys h = tt
  disjoint_sym (x ∷ xs) ys h = (
    disjoint_head x xs ys h,
    disjoint_sym xs ys (
        All-weaken (λ y. member y (x ∷ xs) ≡ false) (λ y. member y xs ≡ false) (λ y k. ground arith)
          ys h),
  )

-- Every element is in the list.
module _ {ℓ} {A : Type ℓ} ⦃e : Eq A⦄ where
  pub member-weaken : (a x : A) (xs : List A) → member a xs ≡ true → member a (x ∷ xs) ≡ true
  unfolding member
  member-weaken a x xs h = ground arith

  pub member-here : (x : A) (xs : List A) → member x (x ∷ xs) ≡ true
  unfolding member
  member-here x xs = rw (==_refl x)

-- Facts about a key of the elements.
module _ {ℓ κ} {A : Type ℓ} {K : Type κ} ⦃e : Eq K⦄ (key : A → K) where
  pub member-map-filter_where :
      (p : A → Bool) (k : K) (xs : List A)
      → member k (map key xs) ≡ false
      → member k (map key (filter_where p xs)) ≡ false
  unfolding member filter_where
  member-map-filter_where p k [] h = refl
  member-map-filter_where p k (x ∷ xs) h = ground (arith, member-map-filter_where p k xs)

  pub All-member-map : (xs : List A) → All (λ x. member (key x) (map key xs) ≡ true) xs
  All-member-map [] = tt
  All-member-map (x ∷ xs) = (
    member-here (key x) (map key xs),
    All-weaken (λ y. member (key y) (map key xs) ≡ true)
        (λ y. member (key y) (key x ∷ map key xs) ≡ true)
        (λ y h. member-weaken (key y) (key x) (map key xs) h) xs (All-member-map xs),
  )

  pub Distinct-map-filter_where :
      (p : A → Bool) (xs : List A) → Distinct (map key xs) → Distinct (map key (filter_where p xs))
  unfolding filter_where
  Distinct-map-filter_where p [] d = tt
  Distinct-map-filter_where p (x ∷ xs) d = elim (Bool-cases (p x)) [
    | inl h ↦ rw h (member-map-filter_where p (key x) xs d.0, Distinct-map-filter_where p xs d.1)
    | inr h ↦ rw h (Distinct-map-filter_where p xs d.1)
  ]

pub List-cases {ℓ} :
    {A : Type ℓ} (l : List A) → (l ≡ []) ⊎ ((x : A) × ((xs : List A) × (l ≡ x ∷ xs)))
List-cases [] = inl refl
List-cases (x ∷ xs) = inr (x, (xs, refl))
