-- ===== src/Prelude/SortKeys.antt =====
-- The keys of a sorted list do not depend on the order before the sort.
use mathlib.Core.Path.{◌≡◌, refl, sym, ap, ◌∙◌, subst}
use mathlib.Core.List.{List, [], ◌∷◌, map, Permᴰ}
use Prim.Native.Nat.{ℕ, zero, suc}
use native.Mathlib.Omega.{arith}
use config_manager.Prelude.Lists.{take, All}
use config_manager.Prelude.Sort.{insert_desc, sort_desc}

abbrev itself : ℕ → ℕ
itself n = n

module _ {ℓ} {A : Type ℓ} (key : A → ℕ) where
  map-insert_desc :
      (x : A) (xs : List A)
      → map key (insert_desc key x xs) ≡ insert_desc itself (key x) (map key xs)
  unfolding insert_desc
  map-insert_desc x [] = refl
  map-insert_desc x (y ∷ ys) = ground (arith, map-insert_desc x ys)

  map-sort_desc : (xs : List A) → map key (sort_desc key xs) ≡ sort_desc itself (map key xs)
  unfolding sort_desc
  map-sort_desc [] = refl
  map-sort_desc (x ∷ xs) =
      map-insert_desc x (sort_desc key xs) ∙ ap (insert_desc itself (key x)) (map-sort_desc xs)

  map-take : (n : ℕ) (xs : List A) → map key (take n xs) ≡ take n (map key xs)
  map-take zero xs = refl
  map-take (suc n) [] = refl
  map-take (suc n) (x ∷ xs) = ap (λ (ks : List ℕ). key x ∷ ks) (map-take n xs)

insert_desc_comm :
    (a b : ℕ) (xs : List ℕ)
    → insert_desc itself a (insert_desc itself b xs)
      ≡ insert_desc itself b (insert_desc itself a xs)
unfolding insert_desc
insert_desc_comm a b [] = ground arith
insert_desc_comm a b (x ∷ xs) = ground (arith, insert_desc_comm a b xs)

sort_desc-Permᴰ : {xs ys : List ℕ} → Permᴰ xs ys → sort_desc itself xs ≡ sort_desc itself ys
unfolding sort_desc
sort_desc-Permᴰ Permᴰ.nil = refl
sort_desc-Permᴰ (Permᴰ.cons e p) = rw e (ap (insert_desc itself _) (sort_desc-Permᴰ p))
sort_desc-Permᴰ (Permᴰ.swap {a' = a'} {b' = b'} {l = l} e f) =
    rw (e, f) (insert_desc_comm b' a' (sort_desc itself l))
sort_desc-Permᴰ (Permᴰ.trans p q) = sort_desc-Permᴰ p ∙ sort_desc-Permᴰ q

module _ {ℓ} {A : Type ℓ} (key : A → ℕ) where
  map-Permᴰ : {xs ys : List A} → Permᴰ xs ys → Permᴰ (map key xs) (map key ys)
  map-Permᴰ Permᴰ.nil = Permᴰ.nil
  map-Permᴰ (Permᴰ.cons e p) = Permᴰ.cons (ap key e) (map-Permᴰ p)
  map-Permᴰ (Permᴰ.swap e f) = Permᴰ.swap (ap key e) (ap key f)
  map-Permᴰ (Permᴰ.trans p q) = Permᴰ.trans (map-Permᴰ p) (map-Permᴰ q)

  -- The keys of the first rows of a sort are the same for two lists with the same elements.
  pub map-take-sort_desc :
      (n : ℕ) (xs ys : List A)
      → Permᴰ xs ys
      → map key (take n (sort_desc key xs)) ≡ map key (take n (sort_desc key ys))
  map-take-sort_desc n xs ys p =
      map-take key n (sort_desc key xs)
      ∙ (ap (take n)
            (map-sort_desc key xs ∙ (sort_desc-Permᴰ (map-Permᴰ p) ∙ sym (map-sort_desc key ys)))
          ∙ sym (map-take key n (sort_desc key ys)))

module _ {ℓ κ} {A : Type ℓ} (P : A → Type κ) where
  -- What holds of every element holds in any order.
  pub All-Permᴰ : {xs ys : List A} → Permᴰ xs ys → All P xs → All P ys
  All-Permᴰ Permᴰ.nil h = tt
  All-Permᴰ (Permᴰ.cons e p) h = (subst P e h.0, All-Permᴰ p h.1)
  All-Permᴰ (Permᴰ.swap e f) h = (subst P f h.1.0, (subst P e h.0, h.1.1))
  All-Permᴰ (Permᴰ.trans p q) h = All-Permᴰ q (All-Permᴰ p h)
