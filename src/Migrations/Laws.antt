-- ===== src/Migrations/Laws.antt =====
-- The loop over the pending migrations, for database/migrations/manager.py.

use config_manager.Prelude.{
  ◌≡◌, refl, sym, ap, ◌∙◌, Bool, true, false, not, some, List, [], ◌∷◌, ◌++◌, member, member-append,
  filter_where, All, All-weaken, All-pair, filter_where-All, All-filter_where, member-weaken,
  member-here, Bool-cases, Option-cases, inl, inr, ◌⊎◌, arith, ◌==◌, ==_iff,
}
use mathlib.Core.List.{append_assoc, append-nil}
use mathlib.Core.Path.{subst}
use config_manager.Prelude.Text.{Text, text_eq}
use config_manager.Migrations.{
  apply_all_pending, get_pending_migrations, get_migration_files, Step, not_importable, missing,
  runs, fails, Files, Manager, with_version, record_version, apply_migration, apply_all,
}
use mathlib.Core.Option.{some-injective}

-- an upgrade that runs
abbrev pub is_runs : Step → Bool
is_runs not_importable = false
is_runs missing = false
is_runs runs = true
is_runs fails = false

Step-cases : (u : Step) → ((u ≡ not_importable) ⊎ (u ≡ missing)) ⊎ ((u ≡ runs) ⊎ (u ≡ fails))
Step-cases not_importable = inl (inl refl)
Step-cases missing = inl (inr refl)
Step-cases runs = inr (inl refl)
Step-cases fails = inr (inr refl)

module _ (a : Text) where
  member-filter_where :
      (p : Text → Bool) (xs : List Text)
      → member a xs ≡ true
      → p a ≡ true
      → member a (filter_where p xs) ≡ true
  unfolding member filter_where
  member-filter_where p [] h pass = ground arith
  member-filter_where p (x ∷ xs) h pass = elim (Bool-cases (a == x)) [
    | inl same ↦
        let also : p x ≡ true = subst (λ t. p t ≡ true) ((==_iff a x).0 same) pass in
        rw (also, same)
    | inr other ↦ let ih = member-filter_where p xs (ground arith) pass in ground arith
  ]

  All-member : (P : Text → Type 0) (xs : List Text) → All P xs → member a xs ≡ true → P a
  unfolding member
  All-member P [] h listed = ground arith
  All-member P (x ∷ xs) h listed = elim (Bool-cases (a == x)) [
    | inl same ↦ subst P (sym ((==_iff a x).0 same)) h.0
    | inr other ↦ All-member P xs h.1 (ground arith)
  ]

All-member_self : (xs : List Text) → All (λ v. member v xs ≡ true) xs
All-member_self [] = tt
All-member_self (x ∷ xs) = (
  member-here x xs,
  All-weaken (λ v. member v xs ≡ true) (λ v. member v (x ∷ xs) ≡ true)
      (λ v h. member-weaken v x xs h) xs (All-member_self xs),
)

module _ (files : Files) where
  abbrev pub does : Text → Bool
  does version = is_runs (files.upgrade version)

  -- A file among the pending ones has been dealt with, if no exception came.
  abbrev Settled : Text → Type 0
  Settled version = (files.upgrade version ≡ missing) ⊎ (files.upgrade version ≡ runs)

  apply_migration-outcome :
      (v : Text) (m m' : Manager)
      → apply_migration files v m ≡ some m'
      → ((files.upgrade v ≡ missing) × (m' ≡ m))
        ⊎ ((files.upgrade v ≡ runs) × (m' ≡ with_version v m))
  unfolding apply_migration record_version
  apply_migration-outcome v m m' h = elim (Step-cases (files.upgrade v)) [
    | inl (inl e) ↦ ground arith
    | inl (inr e) ↦ inl (e, ground arith)
    | inr (inl e) ↦ inr (
      e,
      elim (Bool-cases (member v m.versions)) [ inl known ↦ ground arith | inr new ↦ ground arith ],
    )
    | inr (inr e) ↦ ground arith
  ]

  -- What the loop has done, if it ended without an exception.
  record Done (versions : List Text) (m m' : Manager) : Type 0 where
    applied_grown : m'.applied_migrations ≡ m.applied_migrations ++ filter_where does versions
    ran_grown : m'.ran ≡ m.ran ++ filter_where does versions
    all_settled : All Settled versions

  apply_all-Done :
      (versions : List Text) (m m' : Manager)
      → apply_all files versions m ≡ some m'
      → Done versions m m'
  unfolding apply_all filter_where
  apply_all-Done [] m m' h =
      let same = some-injective m m' h in
      record {
        applied_grown =
            sym (ap Manager.applied_migrations same) ∙ sym (append-nil m.applied_migrations);
        ran_grown = sym (ap Manager.ran same) ∙ sym (append-nil m.ran);
        all_settled = tt;
      }
  apply_all-Done (v ∷ vs) m m' h = elim (Option-cases (apply_migration files v m)) [
    | inl e ↦ ground arith
    | inr (m1, e) ↦
        let rest = apply_all-Done vs m1 m' (ground arith) in
        elim (apply_migration-outcome v m m1 e) [
          | inl (gone, same) ↦ record {
            applied_grown = rw gone (
                rest.applied_grown
                ∙ ap (λ (n : Manager). n.applied_migrations ++ filter_where does vs) same);
            ran_grown =
                rw gone (rest.ran_grown ∙ ap (λ (n : Manager). n.ran ++ filter_where does vs) same);
            all_settled = (inl gone, rest.all_settled);
          }
          | inr (ran, same) ↦ record {
            applied_grown = rw ran (
                rest.applied_grown
                ∙ ap (λ (n : Manager). n.applied_migrations ++ filter_where does vs) same
                ∙ append_assoc m.applied_migrations (v ∷ []) (filter_where does vs));
            ran_grown = rw ran (
                rest.ran_grown
                ∙ ap (λ (n : Manager). n.ran ++ filter_where does vs) same
                ∙ append_assoc m.ran (v ∷ []) (filter_where does vs));
            all_settled = (inr ran, rest.all_settled);
          }
        ]
  ]

  -- A list whose upgrades are all missing is run through without an effect.
  apply_all-missing :
      (versions : List Text) (m : Manager)
      → All (λ v. files.upgrade v ≡ missing) versions
      → apply_all files versions m ≡ some m
  unfolding apply_all apply_migration
  apply_all-missing [] m gone = refl
  apply_all-missing (v ∷ vs) m gone =
      let e = gone.0 in ground (arith, apply_all-missing vs m gone.1)

  abbrev waits : List Text → Text → Bool
  waits known v = not (member v known)

  -- What still waits after a run without an exception has no upgrade.
  waits-missing :
      (versions : List Text) (known : List Text) (v : Text)
      → All Settled (filter_where (waits known) versions)
      → member v versions ≡ true
      → waits (known ++ filter_where does (filter_where (waits known) versions)) v ≡ true
      → files.upgrade v ≡ missing
  waits-missing versions known v settled listed left =
      let apart = member-append v known (filter_where does (filter_where (waits known) versions)) in
      let fresh : waits known v ≡ true = ground arith in
      let was_pending = member-filter_where v (waits known) versions listed fresh in
      elim (All-member v Settled (filter_where (waits known) versions) settled was_pending) [
        | inl gone ↦ gone
        | inr ran ↦
            let done =
              member-filter_where v does (filter_where (waits known) versions) was_pending
                (rw ran refl) in
            ground arith
      ]

  -- If a run raises no exception, the upgrades that it ran are those of the pending files that have one, in the order
  -- of these files, and a second run with the same manager changes nothing.
  pub apply_all_pending-once :
      (m m' : Manager)
      → apply_all_pending files m ≡ some m'
      → (m'.ran ≡ m.ran ++ filter_where does (get_pending_migrations files m))
        × (apply_all_pending files m' ≡ some m')
  unfolding apply_all_pending get_pending_migrations
  apply_all_pending-once m m' h =
      let all = get_migration_files files in
      let done = apply_all-Done (filter_where (waits m.applied_migrations) all) m m' h in
      let left =
        All-weaken (λ v. (member v all ≡ true) × (waits m'.applied_migrations v ≡ true))
          (λ v. files.upgrade v ≡ missing)
          (λ v w.
            waits-missing all m.applied_migrations v done.all_settled w.0
              (subst (λ known. waits known v ≡ true) done.applied_grown w.1))
          (filter_where (waits m'.applied_migrations) all)
          (All-pair (λ v. member v all ≡ true) (λ v. waits m'.applied_migrations v ≡ true)
            (filter_where (waits m'.applied_migrations) all)
            (All-filter_where (λ v. member v all ≡ true) (waits m'.applied_migrations) all
              (All-member_self all))
            (filter_where-All (waits m'.applied_migrations) all)) in
      (done.ran_grown, apply_all-missing (filter_where (waits m'.applied_migrations) all) m' left)
