-- ===== src/Pipeline/Separate.antt =====
-- The configs of one source that the scrapers return have different hashes.
use config_manager.Prelude.{
  ℕ, refl, none, some, Option, ◌≡◌, ◌==◌, List, [], ◌∷◌, map, Distinct, All, Bool-cases, inl, inr,
  sym,
}
use config_manager.Prelude.Text.{Text, text_eq, codes}
use config_manager.Validator.{Context, hash_of}
use config_manager.Scraper.{
  fetch_subscription, Web, fetch, scrape_one, put_result, put_outcome, scrape_sources,
}
use config_manager.Scraper.Laws.{scrape_source-Distinct, scrape_subscription-Distinct}
use config_manager.Database.Models.{ScraperSource}
use mathlib.Core.Path.{subst}
use config_manager.Database.Sources.{SourceTable, get_active_scraper_sources}
use config_manager.Startup.{Source}
use config_manager.Scraper.All.{
  scrape_from, Database, Scrape, scrape_all, scrape_channels, scrape_subscriptions,
}
use config_manager.Scraper.All.Laws.{scrape_all-cases, scrape_database-results}

-- no two configs of one source have one hash
abbrev pub Separate : Context → List (Text × List Text) → Type 0
Separate ctx sources = All (λ (s : Text × List Text). Distinct (map (hash_of ctx) s.1)) sources

put_result-Separate :
    (ctx : Context) (name : Text) (configs : List Text) (found : List (Text × List Text))
    → Distinct (map (hash_of ctx) configs)
    → Separate ctx found
    → Separate ctx (put_result name configs found)
unfolding put_result
put_result-Separate ctx name configs [] d s = (d, tt)
put_result-Separate ctx name configs ((n, old) ∷ rest) d s = elim (Bool-cases (n == name)) [
  | inl e ↦ rw e (d, s.1)
  | inr e ↦ rw e (s.0, put_result-Separate ctx name configs rest d s.1)
]

put_outcome-Separate :
    (ctx : Context) (name : Text) (outcome : Option (List Text)) (found : List (Text × List Text))
    → ((configs : List Text) → outcome ≡ some configs → Distinct (map (hash_of ctx) configs))
    → Separate ctx found
    → Separate ctx (put_outcome name (some outcome) found)
unfolding put_outcome
put_outcome-Separate ctx name none found d s = put_result-Separate ctx name [] found tt s
put_outcome-Separate ctx name (some configs) found d s =
    put_result-Separate ctx name configs found (d configs refl) s

scrape_one-Separate :
    (ctx : Context) (web : Web) (retries : ℕ) (src : ScraperSource)
    (found : List (Text × List Text))
    → Separate ctx found
    → Separate ctx (put_outcome src.name (scrape_one ctx.md5 web retries src) found)
unfolding scrape_one
scrape_one-Separate ctx web retries src found s =
    let page = fetch (web.response src.url) retries in
    elim (Bool-cases (src.source_type == codes "telegram")) [
      | inl e ↦ rw e (
          put_outcome-Separate ctx src.name _ found
            (λ cs h. (scrape_source-Distinct ctx.md5 web.channel_searches page 2000 cs h).0) s)
      | inr e ↦ elim (Bool-cases (src.source_type == codes "subscription")) [
        | inl e' ↦
            rw (e, e')
              (put_outcome-Separate ctx src.name _ found
                (λ cs h.
                  (scrape_subscription-Distinct ctx.md5 web.b64decode web.subscription_searches
                    (fetch_subscription (web.response src.url) retries) 5000 cs h).0)
                s)
        | inr e' ↦ rw (e, e') (unfold put_outcome in s)
      ]
    ]

scrape_sources-Separate :
    (ctx : Context) (web : Web) (retries : ℕ) (sources : List ScraperSource)
    (found : List (Text × List Text))
    → Separate ctx found
    → Separate ctx (scrape_sources ctx.md5 web retries sources found)
unfolding scrape_sources
scrape_sources-Separate ctx web retries [] found s = s
scrape_sources-Separate ctx web retries (src ∷ rest) found s =
    scrape_sources-Separate ctx web retries rest _ (scrape_one-Separate ctx web retries src found s)

scrape_channels-Separate :
    (ctx : Context) (web : Web) (retries : ℕ) (sources : List Source)
    (found : List (Text × List Text))
    → Separate ctx found
    → Separate ctx (scrape_channels ctx.md5 web retries sources found)
unfolding scrape_channels
scrape_channels-Separate ctx web retries [] found s = s
scrape_channels-Separate ctx web retries (src ∷ rest) found s =
    scrape_channels-Separate ctx web retries rest _ (
      put_outcome-Separate ctx src.name _ found
        (λ cs h.
          (scrape_source-Distinct ctx.md5 web.channel_searches
            (fetch (web.response src.url) retries) 2000 cs h).0)
        s)

scrape_subscriptions-Separate :
    (ctx : Context) (web : Web) (retries : ℕ) (sources : List Source)
    (found : List (Text × List Text))
    → Separate ctx found
    → Separate ctx (scrape_subscriptions ctx.md5 web retries sources found)
unfolding scrape_subscriptions
scrape_subscriptions-Separate ctx web retries [] found s = s
scrape_subscriptions-Separate ctx web retries (src ∷ rest) found s =
    scrape_subscriptions-Separate ctx web retries rest _ (
      put_outcome-Separate ctx src.name _ found
        (λ cs h.
          (scrape_subscription-Distinct ctx.md5 web.b64decode web.subscription_searches
            (fetch_subscription (web.response src.url) retries) 5000 cs h).0)
        s)

pub scrape_all-Separate :
    (ctx : Context) (web : Web) (retries : ℕ) (db : Database) (channels subscriptions : List Source)
    (t : SourceTable)
    → Separate ctx (scrape_all ctx.md5 web retries db channels subscriptions t).results
unfolding scrape_from
scrape_all-Separate ctx web retries db channels subscriptions t =
    let separate_results : Scrape → Type 0 = λ s. Separate ctx s.results in
    elim (scrape_all-cases ctx.md5 web retries db channels subscriptions t) [
      | inl q ↦ subst separate_results (sym q) (
          scrape_subscriptions-Separate ctx web retries subscriptions _
            (scrape_channels-Separate ctx web retries channels [] tt))
      | inr q ↦
          let sources = get_active_scraper_sources db.order t in
          subst separate_results (sym q) (
            subst (λ (r : List (Text × List Text)). Separate ctx r)
              (sym (
                scrape_database-results ctx.md5 web retries db sources
                  (record { results = []; table = t })))
              (scrape_sources-Separate ctx web retries sources [] tt))
    ]
