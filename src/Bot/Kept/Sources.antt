-- ===== src/Bot/Kept/Sources.antt =====
-- The table of sources, whatever the users of the bot do.
use config_manager.Prelude.{
  find_where, nat_eq, ℕ, suc, ◌<◌, ◌≡◌, refl, sym, ap, ◌∙◌, Bool, false, not, Option, none, some,
  List, [], ◌∷◌, map, arith, Bool-cases, inl, inr, ◌==◌, member, Distinct, All, All-weaken,
  All-append, ◌⊎◌,
}
use mathlib.Core.Path.{subst}
use config_manager.Prelude.Keys.{Distinct-added}
use config_manager.Prelude.Text.{Text, text_eq}
use config_manager.Database.Models.{ScraperSource}
use config_manager.Database.Sources.{
  toggle_scraper_source, with_id, Added, SourceTable, new_source, add_scraper_source, toggled,
}
use config_manager.Database.Sources.Laws.{
  added_or_same, one_or_none-Distinct, url_of, name_of, add_scraper_source-Distinct,
}

abbrev pub id_of : ScraperSource → ℕ
id_of s = s.id

-- No two sources have one number, one address or one name, and the next number is above all others.
pub record SourcesOk (t : SourceTable) : Type 0 where
  pub ids_once : Distinct (map id_of t.rows)
  pub ids_below : All (λ (s : ScraperSource). s.id < t.next_id) t.rows
  pub urls_once : Distinct (map url_of t.rows)
  pub names_once : Distinct (map name_of t.rows)

fresh_id :
    (n : ℕ) (rows : List ScraperSource)
    → All (λ (s : ScraperSource). s.id < n) rows
    → member n (map id_of rows) ≡ false
unfolding member
fresh_id n [] h = refl
fresh_id n (s ∷ rows) h = ground (arith, fresh_id n rows h.1, h.0)

new_source-ids :
    (now : ℕ) (name url source_type : Text) (t : SourceTable)
    → SourcesOk t
    → let t' = new_source now name url source_type t in
      Distinct (map id_of t'.rows) × All (λ (s : ScraperSource). s.id < t'.next_id) t'.rows
unfolding new_source
new_source-ids now name url source_type t p = (
  Distinct-added id_of t.rows _ p.ids_once (fresh_id t.next_id t.rows p.ids_below),
  All-append (λ (s : ScraperSource). s.id < suc t.next_id) t.rows _
      (All-weaken (λ (s : ScraperSource). s.id < t.next_id) _ (λ s h. omega arith) t.rows
        p.ids_below)
      (omega arith, tt),
)

pub add_scraper_source-SourcesOk :
    (now : ℕ) (name url source_type : Text) (t : SourceTable) (r : Added × SourceTable)
    → add_scraper_source now name url source_type t ≡ some r
    → SourcesOk t
    → SourcesOk r.1
add_scraper_source-SourcesOk now name url source_type t r h p =
    let (t', (e, (du, dn))) =
      add_scraper_source-Distinct now name url source_type t p.urls_once p.names_once in
    elim (added_or_same now name url source_type t r h) [
      | inl q ↦ subst SourcesOk (sym q) p
      | inr q ↦
          let same : r.1 ≡ t' = ground (arith, e, h) in
          let (ids, below) = new_source-ids now name url source_type t p in
          subst SourcesOk (sym q) (record {
            ids_once = ids;
            ids_below = below;
            urls_once = subst (λ (x : SourceTable). Distinct (map url_of x.rows)) (sym same ∙ q) du;
            names_once =
                subst (λ (x : SourceTable). Distinct (map name_of x.rows)) (sym same ∙ q) dn;
          })
    ]

toggled-key :
    {K : Type 0} (key : ScraperSource → K)
    → ((s : ScraperSource) (b : Bool) → key (record s { is_active = b }) ≡ key s)
    → (n : ℕ) (rows : List ScraperSource) → map key (toggled n rows) ≡ map key rows
unfolding toggled
toggled-key key h n [] = refl
toggled-key {K} key h n (s ∷ rows) = elim (Bool-cases (s.id == n)) [
  | inl e ↦ rw e (ap (λ (k : K). k ∷ map key rows) (h s (not s.is_active)))
  | inr e ↦ rw e (ap (λ (ks : List K). key s ∷ ks) (toggled-key key h n rows))
]

toggled-below :
    (m n : ℕ) (rows : List ScraperSource)
    → All (λ (s : ScraperSource). s.id < m) rows
    → All (λ (s : ScraperSource). s.id < m) (toggled n rows)
unfolding toggled
toggled-below m n [] h = tt
toggled-below m n (s ∷ rows) h = elim (Bool-cases (s.id == n)) [
  | inl e ↦ rw e h
  | inr e ↦ rw e (h.0, toggled-below m n rows h.1)
]

toggled_or_same :
    (n : ℕ) (t : SourceTable) (r : Option ScraperSource × SourceTable)
    → toggle_scraper_source n t ≡ some r
    → (r.1 ≡ t) ⊎ (r.1 ≡ record { rows = toggled n t.rows; next_id = t.next_id })
unfolding toggle_scraper_source
toggled_or_same n t r h = ground arith

pub toggle_scraper_source-SourcesOk :
    (n : ℕ) (t : SourceTable) (r : Option ScraperSource × SourceTable)
    → toggle_scraper_source n t ≡ some r
    → SourcesOk t
    → SourcesOk r.1
toggle_scraper_source-SourcesOk n t r h p = elim (toggled_or_same n t r h) [
  | inl q ↦ subst SourcesOk (sym q) p
  | inr q ↦ subst SourcesOk (sym q) (record {
    ids_once = rw (toggled-key id_of (λ s b. refl) n t.rows) p.ids_once;
    ids_below = toggled-below t.next_id n t.rows p.ids_below;
    urls_once = rw (toggled-key url_of (λ s b. refl) n t.rows) p.urls_once;
    names_once = rw (toggled-key name_of (λ s b. refl) n t.rows) p.names_once;
  })
]

-- A source is toggled without an exception.
pub toggle_scraper_source_total :
    (n : ℕ) (t : SourceTable)
    → SourcesOk t
    → (r : Option ScraperSource × SourceTable) × (toggle_scraper_source n t ≡ some r)
unfolding toggle_scraper_source with_id
toggle_scraper_source_total n t p = elim (one_or_none-Distinct id_of n t.rows p.ids_once) [
  | inl (e, m) ↦ ((none, t), rw (e, toggle_scraper_source) refl)
  | inr (s, (e, m)) ↦
      let rows = toggled n t.rows in
      (
        (
          find_where (λ (r : ScraperSource). r.id == n) rows,
          record { rows = rows; next_id = t.next_id },
        ),
        rw (e, toggle_scraper_source) refl,
      )
]
