-- ===== src/Bot/Documents/Names.antt =====
-- The name under which an uploaded file is stored.
use config_manager.Prelude.{
  ℕ, ◌≤◌, ◌≡◌, refl, true, false, [], ◌∷◌, ◌++◌, arith, length, length-append, length-take, All,
  All-append, All-take, Bool-cases, inl, inr,
}
use config_manager.Prelude.Text.{Text, codes, has}
use config_manager.Prelude.Case.{Unicode, lower}
use config_manager.Bot.Documents.{
  is_safe, only_safe, cut_name, safe_name, ends_with, no_dots, no_slashes,
}

-- Only ASCII letters, digits, full stops, underscores and hyphens.
abbrev pub IsSafe : Text → Type 0
IsSafe s = All (λ (c : ℕ). is_safe c ≡ true) s

only_safe-IsSafe : (s : Text) → IsSafe (only_safe s)
unfolding only_safe
only_safe-IsSafe [] = tt
only_safe-IsSafe (c ∷ s) = (ground arith, only_safe-IsSafe s)

cut_name-IsSafe : (s : Text) → IsSafe s → IsSafe (cut_name s) × (length (cut_name s) ≤ 120)
unfolding cut_name is_safe
cut_name-IsSafe [] h = (
  (
    refl,
    (
      refl,
      (refl, (refl, (refl, (refl, (refl, (refl, (refl, (refl, (refl, (refl, (refl, tt))))))))))),
    ),
  ),
  omega arith,
)
cut_name-IsSafe (c ∷ s) h =
    (All-take (λ (c : ℕ). is_safe c ≡ true) 120 (c ∷ s) h, ground (arith, length-take 120 (c ∷ s)))

-- A name without anything but safe characters has no slash.
has_of_IsSafe : (s : Text) → IsSafe s → has b'/' s ≡ false
unfolding has is_safe
has_of_IsSafe [] h = refl
has_of_IsSafe (c ∷ s) h = ground (arith, has_of_IsSafe s h.1, h.0)

extended-IsSafe : (s : Text) → IsSafe s → IsSafe (s ++ codes ".txt")
unfolding is_safe
extended-IsSafe s h =
    All-append (λ (c : ℕ). is_safe c ≡ true) s (codes ".txt") h (refl, (refl, (refl, (refl, tt))))

-- Whatever its sender called a file, the name under which it is stored holds nothing but ASCII letters,
-- digits, full stops, underscores and hyphens, so no slash, and has at most 124 characters.
pub safe_name-IsSafe :
    (u : Unicode) (name : Text)
    → IsSafe (safe_name u name)
      × ((has b'/' (safe_name u name) ≡ false) × (length (safe_name u name) ≤ 124))
unfolding safe_name
safe_name-IsSafe u name =
    let raw = only_safe (no_dots (no_slashes false name)) in
    let cut = cut_name-IsSafe raw (only_safe-IsSafe (no_dots (no_slashes false name))) in
    elim (Bool-cases (ends_with (codes ".txt") (lower u (cut_name raw)))) [
      | inl e ↦ rw e (cut.0, (has_of_IsSafe (cut_name raw) cut.0, omega (arith, cut.1)))
      | inr e ↦ rw e (
        extended-IsSafe (cut_name raw) cut.0,
        (
          has_of_IsSafe (cut_name raw ++ codes ".txt") (extended-IsSafe (cut_name raw) cut.0),
          omega (arith, cut.1, length-append (cut_name raw) (codes ".txt")),
        ),
      )
    ]
