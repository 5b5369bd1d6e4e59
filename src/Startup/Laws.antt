-- ===== src/Startup/Laws.antt =====
-- The administrators at a later start, for migrate_admins_json of main.py.

use config_manager.Prelude.{
  ℕ, ◌≡◌, refl, Bool, true, Option, none, some, List, [], ◌∷◌, ==_refl, member, nat_eq, inl, inr,
  arith, Bool-cases, Option-cases,
}
use config_manager.Prelude.Case.{Unicode}
use config_manager.Utils.Numbers.{user_key}
use config_manager.Database.Models.{Admin}
use config_manager.Database.Users.{fits, insert_admin, add_admin, get_admin_ids}
use config_manager.Database.Users.Laws.{insert_admin-member}
use config_manager.Startup.{Entry, is_owner_id, entry_int, add_entries, migrate_admins_json}

module _ (u : Unicode) (owner : ℕ) where
  abbrev has : ℕ → List Admin → Bool
  has k admins = member k (get_admin_ids admins)

  -- Who is an administrator stays one.
  add_entries-has :
      (now : ℕ) (ids : List Entry) (k : ℕ) (admins : List Admin)
      → has k admins ≡ true
      → has k (add_entries u now owner ids admins) ≡ true
  unfolding add_entries add_admin
  add_entries-has now [] k admins h = h
  add_entries-has now (uid ∷ ids) k admins h = elim (Bool-cases (is_owner_id owner uid)) [
    | inl e ↦ rw e (add_entries-has now ids k admins h)
    | inr e ↦ elim (Option-cases (entry_int u uid)) [
      | inl f ↦ rw (e, f) h
      | inr (n, f) ↦
          let more = insert_admin-member now (user_key n) owner k admins in
          elim (Bool-cases (fits (user_key n))) [
            | inl g ↦
                rw (e, f, g)
                  (add_entries-has now ids k (insert_admin now (user_key n) owner admins).1
                    (ground arith))
            | inr g ↦ rw (e, f, g) h
          ]
    ]
  ]

  -- Once the loop has run, it adds nobody to a table that has all these administrators.
  add_entries-again :
      (now later : ℕ) (ids : List Entry) (admins all : List Admin)
      → ((k : ℕ) → has k (add_entries u now owner ids admins) ≡ true → has k all ≡ true)
      → add_entries u later owner ids all ≡ all
  unfolding add_entries add_admin insert_admin
  add_entries-again now later [] admins all within = refl
  add_entries-again now later (uid ∷ ids) admins all within =
      elim (Bool-cases (is_owner_id owner uid)) [
        | inl e ↦ rw e (add_entries-again now later ids admins all (λ k h. within k (rw e h)))
        | inr e ↦ elim (Option-cases (entry_int u uid)) [
          | inl f ↦ rw (e, f) refl
          | inr (n, f) ↦
              let grown = (insert_admin now (user_key n) owner admins).1 in
              let new = insert_admin-member now (user_key n) owner (user_key n) admins in
              let self = ==_refl (user_key n) in
              elim (Bool-cases (fits (user_key n))) [
                | inl g ↦
                    let there : has (user_key n) all ≡ true =
                      within (user_key n) (
                        rw (e, f, g) (add_entries-has now ids (user_key n) grown (ground arith))) in
                    rw (e, f, g, there)
                      (add_entries-again now later ids grown all (λ k h. within k (rw (e, f, g) h)))
                | inr g ↦ rw (e, f, g) refl
              ]
        ]
      ]

  -- If a later start reads the same file of administrators again, with the same owner, it changes nothing.
  pub migrate_admins_json-again :
      (now later : ℕ) (file : Option (List Entry)) (admins : List Admin)
      → migrate_admins_json u later owner file (migrate_admins_json u now owner file admins)
        ≡ migrate_admins_json u now owner file admins
  unfolding migrate_admins_json
  migrate_admins_json-again now later none admins = refl
  migrate_admins_json-again now later (some ids) admins =
      add_entries-again now later ids admins (add_entries u now owner ids admins) (λ k h. h)
