-- ===== src/Services/ScraperService/Laws.antt =====
-- What requests to the service keep, and what they answer.
use config_manager.Prelude.{
  ℕ, nat_eq, ◌==◌, ◌<◌, ◌≡◌, refl, sym, Bool, not, List, [], ◌∷◌, Option-cases, inl, inr, ◌⊎◌,
  arith, All-filter_where, Distinct-map-filter_where, filter_where,
}
use mathlib.Core.Path.{subst}
use config_manager.Prelude.Text.{Text, text_eq}
use config_manager.Database.Models.{ScraperSource}
use config_manager.Database.Sources.{SourceTable, add_scraper_source, remove_scraper_source}
use config_manager.Database.Sources.Laws.{answer_for, url_of, name_of, add_scraper_source-Distinct}
use config_manager.Bot.Kept.Sources.{SourcesOk, id_of, add_scraper_source-SourcesOk}
use config_manager.Services.ScraperService.{
  result, add_source, remove_source, toggle_source_by_id, Request, add, remove, toggle,
  answer_request, answer_requests,
}

-- With distinct addresses and names `add_source` never answers with an error.
add_source-answer :
    (now : ℕ) (name url source_type : Text) (t : SourceTable)
    → SourcesOk t
    → (add_source now name url source_type t).0 ≡ result (answer_for name url t.rows)
unfolding add_source
add_source-answer now name url source_type t ok =
    let (t', (e, rest)) =
      add_scraper_source-Distinct now name url source_type t ok.urls_once ok.names_once in
    rw (e, add_source) refl

add_source-SourcesOk :
    (now : ℕ) (name url source_type : Text) (t : SourceTable)
    → SourcesOk t
    → SourcesOk (add_source now name url source_type t).1
unfolding add_source
add_source-SourcesOk now name url source_type t ok =
    elim (Option-cases (add_scraper_source now name url source_type t)) [
      | inl e ↦ rw (e, add_source) ok
      | inr (r, e) ↦
          rw (e, add_source) (add_scraper_source-SourcesOk now name url source_type t r e ok)
    ]

-- A table without some of its sources.
without : (ScraperSource → Bool) → SourceTable → SourceTable
without p t = record { rows = filter_where p t.rows; next_id = t.next_id }

without-SourcesOk :
    (p : ScraperSource → Bool) (t : SourceTable) → SourcesOk t → SourcesOk (without p t)
unfolding without
without-SourcesOk p t ok = record {
  ids_once = Distinct-map-filter_where id_of p t.rows ok.ids_once;
  ids_below = All-filter_where (λ (s : ScraperSource). s.id < t.next_id) p t.rows ok.ids_below;
  urls_once = Distinct-map-filter_where url_of p t.rows ok.urls_once;
  names_once = Distinct-map-filter_where name_of p t.rows ok.names_once;
}

removed_or_same :
    (i : ℕ) (t : SourceTable)
    → ((remove_source i t).1 ≡ t)
      ⊎ ((remove_source i t).1 ≡ without (λ (r : ScraperSource). not (r.id == i)) t)
unfolding remove_source remove_scraper_source without
removed_or_same i t = ground arith

remove_source-SourcesOk : (i : ℕ) (t : SourceTable) → SourcesOk t → SourcesOk (remove_source i t).1
remove_source-SourcesOk i t ok = elim (removed_or_same i t) [
  | inl same ↦ subst SourcesOk (sym same) ok
  | inr less ↦
      subst SourcesOk (sym less) (without-SourcesOk (λ (r : ScraperSource). not (r.id == i)) t ok)
]

answer_request-SourcesOk :
    (r : Request) (t : SourceTable) → SourcesOk t → SourcesOk (answer_request r t)
unfolding answer_request toggle_source_by_id
answer_request-SourcesOk (add now name url source_type) t ok =
    add_source-SourcesOk now name url source_type t ok
answer_request-SourcesOk (remove i) t ok = remove_source-SourcesOk i t ok
answer_request-SourcesOk (toggle i) t ok = ok

answer_requests-SourcesOk :
    (rs : List Request) (t : SourceTable) → SourcesOk t → SourcesOk (answer_requests rs t)
unfolding answer_requests
answer_requests-SourcesOk [] t ok = ok
answer_requests-SourcesOk (r ∷ rs) t ok =
    answer_requests-SourcesOk rs (answer_request r t) (answer_request-SourcesOk r t ok)

-- After any requests to the service that begin with a table whose sources have distinct numbers, addresses and names, an
-- addition is answered without an error: it is refused for an address or a name that the table has, and for no other.
answer_requests-add_source :
    (rs : List Request) (now : ℕ) (name url source_type : Text) (t : SourceTable)
    → SourcesOk t
    → let t' = answer_requests rs t in
      ((add_source now name url source_type t').0 ≡ result (answer_for name url t'.rows))
      × SourcesOk t'
answer_requests-add_source rs now name url source_type t ok =
    let ok' = answer_requests-SourcesOk rs t ok in
    (add_source-answer now name url source_type (answer_requests rs t) ok', ok')
