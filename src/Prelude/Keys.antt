-- ===== src/Prelude/Keys.antt =====
-- Tables whose rows have a key: a row added, and the rows of a key removed.
use mathlib.Core.Path.{◌≡◌, refl}
use mathlib.Core.Bool.{false, ◌||◌, ◌&&◌, not}
use mathlib.Core.List.{List, [], ◌∷◌, ◌++◌, map}
use native.Mathlib.Omega.{arith}
use config_manager.Prelude.Tests.{Eq, ◌==◌, ==_iff}
use config_manager.Prelude.Lists.{member, Distinct, filter_where}

module _ {A K : Type 0} ⦃e : Eq K⦄ (key : A → K) where
  map-append_key : (xs ys : List A) → map key (xs ++ ys) ≡ map key xs ++ map key ys
  map-append_key [] ys = refl
  map-append_key (x ∷ xs) ys = rw (map-append_key xs ys)

  pub member-added :
      (k : K) (xs : List A) (new : A)
      → member k (map key (xs ++ new ∷ [])) ≡ (member k (map key xs) || k == key new)
  unfolding member
  member-added k [] new = ground arith
  member-added k (x ∷ xs) new = ground (arith, member-added k xs new)

  pub member-removed :
      (k gone : K) (xs : List A)
      → member k (map key (filter_where (λ x. not (key x == gone)) xs))
        ≡ (member k (map key xs) && not (k == gone))
  unfolding member filter_where
  member-removed k gone [] = refl
  member-removed k gone (x ∷ xs) =
      ground (arith, member-removed k gone xs, ==_iff k (key x), ==_iff (key x) gone, ==_iff k gone)

  new_apart :
      (new x : A) (xs : List A)
      → member (key new) (map key (x ∷ xs)) ≡ false
      → ((key x == key new) ≡ false) × (member (key new) (map key xs) ≡ false)
  unfolding member
  new_apart new x xs h = ground (arith, ==_iff (key x) (key new), ==_iff (key new) (key x))

  pub Distinct-added :
      (xs : List A) (new : A)
      → Distinct (map key xs)
      → member (key new) (map key xs) ≡ false
      → Distinct (map key (xs ++ new ∷ []))
  Distinct-added [] new d fresh = (unfold member in refl, tt)
  Distinct-added (x ∷ xs) new d fresh =
      let (other, rest) = new_apart new x xs fresh in
      (ground (arith, member-added (key x) xs new, d.0, other), Distinct-added xs new d.1 rest)
