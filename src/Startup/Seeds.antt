-- ===== src/Startup/Seeds.antt =====
-- The default sources, for seed_default_sources of main.py.
use config_manager.Prelude.{
  ℕ, List-cases, ◌≡◌, refl, ap, ◌∙◌, Bool, true, false, List, [], ◌∷◌, ◌++◌, inl, inr, arith,
  Option-cases, filter_where,
}
use config_manager.Prelude.Text.{text_eq}
use config_manager.Database.Models.{ScraperSource}
use config_manager.Database.Sources.Laws.{added_or_same}
use config_manager.Database.Sources.{
  SourceTable, add_scraper_source, with_url, with_name, one_or_none, new_source,
}
use config_manager.Startup.{Source, add_sources, seed_default_sources}

abbrev is_empty : List ScraperSource → Bool
is_empty [] = true
is_empty (s ∷ rows) = false

is_empty-append :
    (rows : List ScraperSource) (s : ScraperSource) → is_empty (rows ++ s ∷ []) ≡ false
is_empty-append [] s = refl
is_empty-append (r ∷ rows) s = refl

-- A table that has a row keeps one.
add_sources-rows :
    (now : ℕ) (sources : List Source) (t : SourceTable)
    → is_empty t.rows ≡ false
    → is_empty (add_sources now sources t).rows ≡ false
unfolding add_sources new_source
add_sources-rows now [] t full = full
add_sources-rows now (src ∷ sources) t full =
    elim (Option-cases (add_scraper_source now src.name src.url src.source_type t)) [
      | inl e ↦ rw (e, is_empty) full
      | inr (r, e) ↦
          let kept : is_empty r.1.rows ≡ false =
            elim (added_or_same now src.name src.url src.source_type t r e) [
              | inl same ↦ ap (λ (q : SourceTable). is_empty q.rows) same ∙ full
              | inr new ↦ ap (λ (q : SourceTable). is_empty q.rows) new ∙ is_empty-append t.rows _
            ] in
          rw (e, is_empty) (add_sources-rows now sources r.1 kept)
    ]

seed_default_sources-full :
    (now : ℕ) (tg sub : List Source) (t : SourceTable)
    → is_empty t.rows ≡ false
    → seed_default_sources now tg sub t ≡ t
unfolding seed_default_sources
seed_default_sources-full now tg sub t full = elim (List-cases t.rows) [
  | inl e ↦ ground arith
  | inr (s, (rows, e)) ↦ rw e refl
]

abbrev table : List ScraperSource → ℕ → SourceTable
table rows i = record { rows = rows; next_id = i }

-- The first source of an empty table is added.
add_sources-first :
    (now i : ℕ) (src : Source) (sources : List Source)
    → is_empty (add_sources now (src ∷ sources) (table [] i)).rows ≡ false
unfolding add_sources add_scraper_source with_url with_name filter_where one_or_none new_source
add_sources-first now i src sources =
    add_sources-rows now sources (new_source now src.name src.url src.source_type (table [] i)) refl

-- A start with the default sources changes nothing at a later start with the same ones.
pub seed_default_sources-again :
    (now later : ℕ) (tg sub : List Source) (t : SourceTable)
    → seed_default_sources later tg sub (seed_default_sources now tg sub t)
      ≡ seed_default_sources now tg sub t
unfolding seed_default_sources add_sources
seed_default_sources-again now later tg sub t = at t.rows tg sub t.next_id
  where
    at :
        (rows : List ScraperSource) (tg sub : List Source) (i : ℕ)
        → seed_default_sources later tg sub (seed_default_sources now tg sub (table rows i))
          ≡ seed_default_sources now tg sub (table rows i)
    at (s ∷ rows) tg sub i = refl
    at [] [] [] i = refl
    at [] [] (src ∷ sub) i =
        seed_default_sources-full later [] (src ∷ sub) _ (add_sources-first now i src sub)
    at [] (src ∷ tg) sub i =
        seed_default_sources-full later (src ∷ tg) sub _ (add_sources-first now i src (tg ++ sub))
