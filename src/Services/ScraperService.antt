-- ===== src/Services/ScraperService.antt =====
-- services/scraper_service.py: what an administrator does to the sources through the service. Several methods call
-- functions that database/crud.py does not have; that is an AttributeError, which they catch.
pub mod Laws
use config_manager.Prelude.{ℕ, Bool, true, false, Option, none, some, List, [], ◌∷◌}
use config_manager.Prelude.Text.{Text}
use config_manager.Database.Models.{ScraperSource}
use config_manager.Database.Sources.{
  SourceTable, Added, add_scraper_source, remove_scraper_source, list_scraper_sources,
}

-- the texts that `add_source` returns
pub data AddReply : Type 0 where
  result : Added → AddReply
  error : AddReply

-- `add_source`
unfoldable pub add_source : ℕ → Text → Text → Text → SourceTable → AddReply × SourceTable
add_source now name url source_type t = elim (add_scraper_source now name url source_type t) [
  | none ↦ (error, t)
  | some r ↦ (result r.0, r.1)
]

-- `remove_source`
unfoldable pub remove_source : ℕ → SourceTable → Bool × SourceTable
remove_source source_id t = elim (remove_scraper_source source_id t) [
  | none ↦ (false, t)
  | some r ↦ r
]

-- `toggle_source`, which calls `crud.get_scraper_source`
unfoldable pub toggle_source_by_id : ℕ → SourceTable → Bool × SourceTable
toggle_source_by_id source_id t = (false, t)

-- `get_sources`
unfoldable pub get_sources :
    (List ScraperSource → List ScraperSource) → SourceTable → List ScraperSource
unfolding list_scraper_sources
get_sources order t = list_scraper_sources order t

-- A request of an administrator.
pub data Request : Type 0 where
  add : ℕ → Text → Text → Text → Request
  remove : ℕ → Request
  toggle : ℕ → Request

unfoldable pub answer_request : Request → SourceTable → SourceTable
unfolding add_source remove_source toggle_source_by_id
answer_request (add now name url source_type) t = (add_source now name url source_type t).1
answer_request (remove source_id) t = (remove_source source_id t).1
answer_request (toggle source_id) t = (toggle_source_by_id source_id t).1

unfoldable pub answer_requests : List Request → SourceTable → SourceTable
unfolding answer_request
answer_requests [] t = t
answer_requests (r ∷ rs) t = answer_requests rs (answer_request r t)
