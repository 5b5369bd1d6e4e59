-- ===== src/Database/Sources/Laws.antt =====
-- The keys of the sources, and the age of the addresses.
use config_manager.Prelude.{
  member-weaken, member-here, if◌then◌else◌, not, ◌≤◌, All, All-weaken, filter_where-All, ◌*◌, ap,
  sym, ◌∙◌, ◌⊎◌, nat_eq, ℕ, ◌+◌, ◌≡◌, refl, true, false, none, some, List, [], ◌∷◌, map, length,
  member, Distinct, filter_where, Eq, ◌==◌, ==_iff, Bool-cases, inl, inr, arith,
}
use config_manager.Prelude.Keys.{Distinct-added}
use config_manager.Prelude.Text.{Text, text_eq}
use config_manager.Database.Models.{ScraperSource, CleanIp}
use config_manager.Database.Sources.{
  new_source, SourceTable, with_name, with_url, added, duplicate_url, duplicate_name, is_old,
  add_scraper_source, Added, one_or_none, delete_old_clean_ips,
}

module _ {A K : Type 0} ⦃e : Eq K⦄ (key : A → K) where
  without :
      (v : K) (xs : List A) → member v (map key xs) ≡ false → filter_where (λ x. key x == v) xs ≡ []
  unfolding member filter_where
  without v [] h = refl
  without v (x ∷ xs) h = ground (arith, without v xs, ==_iff (key x) v, ==_iff v (key x))

  -- A lookup by a key that occurs once at most raises nothing, and tells whether the key is there.
  pub one_or_none-Distinct :
      (v : K) (xs : List A)
      → Distinct (map key xs)
      → ((one_or_none (filter_where (λ x. key x == v) xs) ≡ some none)
          × (member v (map key xs) ≡ false))
        ⊎ ((a : A) × ((one_or_none (filter_where (λ x. key x == v) xs) ≡ some (some a))
              × (member v (map key xs) ≡ true)))
  unfolding member filter_where one_or_none
  one_or_none-Distinct v [] d = inl (refl, refl)
  one_or_none-Distinct v (x ∷ xs) d = elim (Bool-cases (key x == v)) [
    | inl h ↦
        let kv : key x ≡ v = (==_iff (key x) v).0 h in
        let alone : filter_where (λ y. key y == v) xs ≡ [] =
          without v xs (ap (λ (w : K). member w (map key xs)) (sym kv) ∙ d.0) in
        inr (x, (rw (h, alone), ground (arith, ==_iff v (key x), kv)))
    | inr h ↦ elim (one_or_none-Distinct v xs d.1) [
      | inl (e, m) ↦ inl (rw h e, ground (arith, ==_iff v (key x), ==_iff (key x) v, m, h))
      | inr (a, (e, m)) ↦ inr (a, (rw h e, ground (arith, m)))
    ]
  ]

abbrev pub url_of : ScraperSource → Text
url_of s = s.url

abbrev pub name_of : ScraperSource → Text
name_of s = s.name

-- What `add_scraper_source` tells of a table.
abbrev pub answer_for : Text → Text → List ScraperSource → Added
answer_for name url rows =
    if member url (map url_of rows)
    then duplicate_url
    else if member name (map name_of rows)
    then duplicate_name
    else added

-- What an addition without an exception does to the table.
pub added_or_same :
    (now : ℕ) (name url source_type : Text) (t : SourceTable) (r : Added × SourceTable)
    → add_scraper_source now name url source_type t ≡ some r
    → (r.1 ≡ t) ⊎ (r.1 ≡ new_source now name url source_type t)
unfolding add_scraper_source
added_or_same now name url source_type t r h = ground arith

-- If no two sources have one address and no two one name, then adding a source raises nothing, tells
-- which of the two is taken, if one is, and leaves such a table.
pub add_scraper_source-Distinct :
    (now : ℕ) (name url source_type : Text) (t : SourceTable)
    → Distinct (map url_of t.rows)
    → Distinct (map name_of t.rows)
    → (t' : SourceTable) × ((add_scraper_source now name url source_type t
          ≡ some (answer_for name url t.rows, t'))
        × (Distinct (map url_of t'.rows) × Distinct (map name_of t'.rows)))
unfolding add_scraper_source with_url with_name
add_scraper_source-Distinct now name url source_type t du dn =
    elim (one_or_none-Distinct url_of url t.rows du) [
      | inr (s, (e, m)) ↦ (t, (rw (e, m, add_scraper_source), (du, dn)))
      | inl (e, m) ↦ elim (one_or_none-Distinct name_of name t.rows dn) [
        | inr (s, (e', m')) ↦ (t, (rw (e, m, e', m', add_scraper_source), (du, dn)))
        | inl (e', m') ↦ (
          new_source now name url source_type t,
          (
            rw (e, m, e', m', add_scraper_source),
            unfold new_source in
                (Distinct-added url_of t.rows _ du m, Distinct-added name_of t.rows _ dn m'),
          ),
        )
      ]
    ]

delete-length :
    (now days : ℕ) (rows : List CleanIp)
    → length (filter_where (is_old now days) rows)
        + length (filter_where (λ r. not (is_old now days r)) rows)
      ≡ length rows
unfolding filter_where
delete-length now days [] = omega arith
delete-length now days (r ∷ rows) = ground (arith, delete-length now days rows)

abbrev pub ip_of : CleanIp → Text
ip_of r = r.ip

kept_member :
    (now days : ℕ) (r : CleanIp) (rows : List CleanIp) (ip : Text)
    → member ip (map ip_of (filter_where (λ s. not (is_old now days s)) rows)) ≡ true
    → member ip (map ip_of (filter_where (λ s. not (is_old now days s)) (r ∷ rows))) ≡ true
unfolding filter_where
kept_member now days r rows ip h = elim (Bool-cases (is_old now days r)) [
  | inl e ↦ rw e h
  | inr e ↦ rw e (member-weaken ip r.ip _ h)
]

kept :
    (now days : ℕ) (rows : List CleanIp)
    → All
        (λ r.
          is_old now days r ≡ false
          → member r.ip (map ip_of (filter_where (λ s. not (is_old now days s)) rows)) ≡ true)
        rows
kept now days [] = tt
kept now days (r ∷ rows) = (
  λ young. unfold filter_where in rw young (member-here r.ip _),
  All-weaken _ _ (λ s h young. kept_member now days r rows s.ip (h young)) rows
      (kept now days rows),
)

-- `delete_old_clean_ips` leaves no address older than the limit, deletes none that is younger, and
-- returns the number of those that are gone.
pub delete_old_clean_ips-length :
    (now days : ℕ) (rows : List CleanIp)
    → let (count, left) = delete_old_clean_ips now days rows in
      (count + length left ≡ length rows)
      × (All (λ r. now ≤ r.created_at + days * 86400) left
          × All (λ r. now ≤ r.created_at + days * 86400 → member r.ip (map ip_of left) ≡ true) rows)
unfolding delete_old_clean_ips
delete_old_clean_ips-length now days rows = (
  delete-length now days rows,
  (
    All-weaken (λ r. not (is_old now days r) ≡ true) _ (λ r h. unfold is_old in ground arith) _
        (filter_where-All (λ r. not (is_old now days r)) rows),
    All-weaken _ _ (λ r h young. h (unfold is_old in ground arith)) rows (kept now days rows),
  ),
)
