-- ===== src/Prelude/Sort.antt =====
-- A stable sort by a number, the largest first: what `ORDER BY ... DESC` and
-- `sort(key=..., reverse=True)` return.
use mathlib.Core.List.Perm
use mathlib.Core.List.{Perm}
use config_manager.Prelude.Tests.{if◌then◌else◌, leb, Bool-cases}
use config_manager.Prelude.Lists.{length, take, drop, All, All-weaken, All-take, All-drop}
use Prim.Native.Nat.{ℕ, zero, suc, ◌≤◌}
use mathlib.Core.Path.{◌≡◌, refl}
use mathlib.Core.Logic.{inl, inr}
use mathlib.Core.List.{List, [], ◌∷◌}
use native.Mathlib.Omega.{arith}

module _ {ℓ} {A : Type ℓ} (key : A → ℕ) where
  -- an equal key that came first stays first
  unfoldable pub insert_desc : A → List A → List A
  insert_desc x [] = x ∷ []
  insert_desc x (y ∷ ys) = if leb (key y) (key x) then x ∷ y ∷ ys else y ∷ insert_desc x ys

  unfoldable pub sort_desc : List A → List A
  unfolding insert_desc
  sort_desc [] = []
  sort_desc (x ∷ xs) = insert_desc x (sort_desc xs)

  -- each element has a key at least as large as all that follow
  abbrev pub IsDescending : List A → Type 0
  IsDescending [] = Unit
  IsDescending (x ∷ xs) = All (λ y. key y ≤ key x) xs × IsDescending xs

module _ {ℓ} {A : Type ℓ} (key : A → ℕ) where
  pub insert_desc-perm : (x : A) (xs : List A) → Perm (insert_desc key x xs) (x ∷ xs)
  unfolding insert_desc
  insert_desc-perm x [] = Perm.rfl
  insert_desc-perm x (y ∷ ys) = elim (Bool-cases (leb (key y) (key x))) [
    | inl e ↦ rw e (Perm.rfl)
    | inr e ↦ rw e (Perm.trans (Perm.cons y (insert_desc-perm x ys)) (Perm.swap x y ys))
  ]

  pub sort_desc-perm : (xs : List A) → Perm (sort_desc key xs) xs
  unfolding sort_desc
  sort_desc-perm [] = Perm.rfl
  sort_desc-perm (x ∷ xs) =
      Perm.trans (insert_desc-perm x (sort_desc key xs)) (Perm.cons x (sort_desc-perm xs))

  length-insert_desc : (x : A) (xs : List A) → length (insert_desc key x xs) ≡ suc (length xs)
  unfolding insert_desc
  length-insert_desc x [] = refl
  length-insert_desc x (y ∷ ys) = ground (arith, length-insert_desc x ys)

  pub length-sort_desc : (xs : List A) → length (sort_desc key xs) ≡ length xs
  unfolding sort_desc
  length-sort_desc [] = refl
  length-sort_desc (x ∷ xs) =
      omega (arith, length-insert_desc x (sort_desc key xs), length-sort_desc xs)

  pub All-insert_desc {κ} :
      (P : A → Type κ) (x : A) (xs : List A) → P x → All P xs → All P (insert_desc key x xs)
  unfolding insert_desc
  All-insert_desc P x [] px h = (px, tt)
  All-insert_desc P x (y ∷ ys) px h = elim (Bool-cases (leb (key y) (key x))) [
    | inl e ↦ rw e (px, h)
    | inr e ↦ rw e (h.0, All-insert_desc P x ys px h.1)
  ]

  pub All-sort_desc {κ} : (P : A → Type κ) (xs : List A) → All P xs → All P (sort_desc key xs)
  unfolding sort_desc
  All-sort_desc P [] h = tt
  All-sort_desc P (x ∷ xs) h = All-insert_desc P x (sort_desc key xs) h.0 (All-sort_desc P xs h.1)

  insert_desc-IsDescending :
      (x : A) (xs : List A) → IsDescending key xs → IsDescending key (insert_desc key x xs)
  unfolding insert_desc
  insert_desc-IsDescending x [] h = (tt, tt)
  insert_desc-IsDescending x (y ∷ ys) h = elim (Bool-cases (leb (key y) (key x))) [
    | inl e ↦ rw e (
      (
        ground arith,
        All-weaken (λ z. key z ≤ key y) (λ z. key z ≤ key x) (λ z le. ground arith) ys h.0,
      ),
      h,
    )
    | inr e ↦ rw e (
      All-insert_desc (λ z. key z ≤ key y) x ys (ground arith) h.0,
      insert_desc-IsDescending x ys h.1,
    )
  ]

  pub sort_desc-IsDescending : (xs : List A) → IsDescending key (sort_desc key xs)
  unfolding sort_desc
  sort_desc-IsDescending [] = tt
  sort_desc-IsDescending (x ∷ xs) =
      insert_desc-IsDescending x (sort_desc key xs) (sort_desc-IsDescending xs)

  pub IsDescending-take : (n : ℕ) (xs : List A) → IsDescending key xs → IsDescending key (take n xs)
  IsDescending-take zero xs h = tt
  IsDescending-take (suc n) [] h = tt
  IsDescending-take (suc n) (x ∷ xs) h =
      (All-take (λ y. key y ≤ key x) n xs h.0, IsDescending-take n xs h.1)

  -- What a limit cuts off has a key no larger than anything that it keeps.
  pub drop-le-take :
      (n : ℕ) (xs : List A)
      → IsDescending key xs
      → All (λ x. All (λ y. key y ≤ key x) (drop n xs)) (take n xs)
  drop-le-take zero xs h = tt
  drop-le-take (suc n) [] h = tt
  drop-le-take (suc n) (x ∷ xs) h = (All-drop (λ y. key y ≤ key x) n xs h.0, drop-le-take n xs h.1)
