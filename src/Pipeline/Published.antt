-- ===== src/Pipeline/Published.antt =====
-- What the job queues for publication, beside what it stores.
use config_manager.Prelude.{
  take, ℕ, ◌≡◌, refl, sym, ◌∙◌, Bool, true, false, Option, none, some, List, [], ◌∷◌, ◌++◌, map,
  Bool-cases, inl, inr, ap, not, ◌&&◌, drop, zero, suc,
}
use mathlib.Core.List.{append_assoc, append-nil}
use config_manager.Prelude.Text.{Text}
use config_manager.Database.Models.{ProcessedConfig}
use config_manager.Database.Configs.{ConfigTable, Validated, add_row, add_rows, new_row}
use config_manager.Database.Configs.Saving.{batch_save_configs-eq, unseen}
use config_manager.Validator.{Context, run, new_batch, results}
use mathlib.Core.Path.{subst}
use config_manager.Pipeline.{
  is_cancel, cancelled_at, put_until, PublishItem, new_job, publish_limit, Job, Around, to_publish,
  store, store_if_any, process_source, process_all, scraper_job,
}

-- the text and the country of a row, as it is stored
abbrev pub stored_pair : ProcessedConfig → Option Text × Option Text
stored_pair r = (r.watermarked_config, r.country_code)

abbrev pub queued_pair : PublishItem → Option Text × Option Text
queued_pair i = (some i.config, some i.country_code)

-- Two states of which the second has some rows more, and the items of the first of these rows more: of all of them, if the
-- job went on (`complete`).
pub record Extends (complete : Bool) (before after : Job) : Type 0 where
  pub new : List PublishItem
  pub unsent : List PublishItem
  pub queued_new : after.queued ≡ before.queued ++ new
  pub stored_new :
      map stored_pair after.table.rows
      ≡ map stored_pair before.table.rows ++ map queued_pair (new ++ unsent)
  pub all_sent : complete ≡ true → unsent ≡ []

map-append_pair :
    (rs ss : List ProcessedConfig)
    → map stored_pair (rs ++ ss) ≡ map stored_pair rs ++ map stored_pair ss
map-append_pair [] ss = refl
map-append_pair (r ∷ rs) ss = rw (map-append_pair rs ss)

map-append_queued :
    (rs ss : List PublishItem)
    → map queued_pair (rs ++ ss) ≡ map queued_pair rs ++ map queued_pair ss
map-append_queued [] ss = refl
map-append_queued (r ∷ rs) ss = rw (map-append_queued rs ss)

stored-add_rows :
    (now : ℕ) (source : Option Text) (items : List Validated) (t : ConfigTable)
    → map stored_pair (add_rows now source items t).rows
      ≡ map stored_pair t.rows ++ map queued_pair (map to_publish items)
unfolding add_rows add_row new_row
stored-add_rows now source [] t = sym (append-nil (map stored_pair t.rows))
stored-add_rows now source (c ∷ cs) t = rw (
  stored-add_rows now source cs (add_row now c source true t),
  map-append_pair t.rows (new_row t.next_id now c source true ∷ []),
  append_assoc,
)

Extends-refl : (b : Bool) (j k : Job) → j.queued ≡ k.queued → j.table ≡ k.table → Extends b j k
Extends-refl b j k q t = record {
  new = [];
  unsent = [];
  queued_new = sym q ∙ sym (append-nil j.queued);
  stored_new = rw (sym t) (sym (append-nil (map stored_pair j.table.rows)));
  all_sent = λ h. refl;
}

-- A state that the job went on from is extended further.
Extends-trans : (b : Bool) (i j k : Job) → Extends true i j → Extends b j k → Extends b i k
Extends-trans b i j k p q =
    let first : map stored_pair j.table.rows
        ≡ map stored_pair i.table.rows ++ map queued_pair p.new =
      p.stored_new
      ∙ ap (λ (l : List PublishItem). map stored_pair i.table.rows ++ map queued_pair (p.new ++ l))
          (p.all_sent refl)
      ∙ ap (λ (l : List PublishItem). map stored_pair i.table.rows ++ map queued_pair l)
          (append-nil p.new) in
    record {
      new = p.new ++ q.new;
      unsent = q.unsent;
      queued_new = rw (q.queued_new, p.queued_new, append_assoc);
      stored_new = rw (
        q.stored_new,
        first,
        append_assoc p.new q.new q.unsent,
        map-append_queued p.new (q.new ++ q.unsent),
        append_assoc,
      );
      all_sent = q.all_sent;
    }

-- what a cancel keeps from the queue
abbrev kept_back : Option ℕ → List Validated → List PublishItem
kept_back none new = []
kept_back (some n) new = map to_publish (drop n new)

cut :
    {A B : Type 0} (f : A → B) (n : ℕ) (xs : List A)
    → map f (take n xs) ++ map f (drop n xs) ≡ map f xs
cut f zero xs = refl
cut f (suc n) [] = refl
cut f (suc n) (x ∷ xs) = rw (cut f n xs) refl

put_until-kept_back :
    (c : Option ℕ) (new : List Validated) → put_until c new ++ kept_back c new ≡ map to_publish new
unfolding put_until
put_until-kept_back none new = append-nil (map to_publish new)
put_until-kept_back (some n) new = cut to_publish n new

kept_back-none :
    (c : Option ℕ) (new : List Validated) → not (is_cancel c) ≡ true → kept_back c new ≡ []
kept_back-none none new h = refl
kept_back-none (some n) new h = cc

store-Extends :
    (around : Around) (source : Text) (validated : List Validated) (job : Job)
    → Extends (not (is_cancel (around.cancel source))) job (store around source validated job)
unfolding store
store-Extends around source validated job = elim (Bool-cases (around.stores source)) [
  | inl e ↦
      let new = unseen job.table validated in
      rw (e, batch_save_configs-eq (around.clock source) (some source) validated job.table)
        (record {
          new = put_until (around.cancel source) new;
          unsent = kept_back (around.cancel source) new;
          queued_new = refl;
          stored_new =
              stored-add_rows (around.clock source) (some source) new job.table
              ∙ ap (λ (l : List PublishItem). map stored_pair job.table.rows ++ map queued_pair l)
                  (sym (put_until-kept_back (around.cancel source) new));
          all_sent = kept_back-none (around.cancel source) new;
        })
  | inr e ↦ rw e (Extends-refl (not (is_cancel (around.cancel source))) job job refl refl)
]

store_if_any-Extends :
    (around : Around) (source : Text) (validated : List Validated) (job : Job)
    → Extends
        (not (is_cancel (around.cancel source)))
        job
        (store_if_any around source validated job)
unfolding store_if_any
store_if_any-Extends around source [] job =
    Extends-refl (not (is_cancel (around.cancel source))) job job refl refl
store_if_any-Extends around source (c ∷ cs) job = store-Extends around source (c ∷ cs) job

process_source-Extends :
    (ctx : Context) (around : Around) (source : Text) (configs : List Text) (job : Job)
    → Extends
        (not (cancelled_at around source configs))
        job
        (process_source ctx around source configs job)
unfolding process_source cancelled_at
process_source-Extends ctx around source [] job =
    Extends-refl (not (cancelled_at around source [])) job job refl refl
process_source-Extends ctx around source (c ∷ cs) job =
    let limited = take publish_limit (c ∷ cs) in
    let batch = run ctx 10 (around.events source) (new_batch job.validator limited) in
    let begun : Job = record {
      validator = batch.validator;
      table = job.table;
      queued = job.queued;
    } in
    let ended = store_if_any around source (results batch.tasks) begun in
    Extends-trans (not (is_cancel (around.cancel source))) job begun ended
      (Extends-refl true job begun refl refl)
      (store_if_any-Extends around source (results batch.tasks) begun)

-- No source is one at which the job is cancelled.
unfoldable pub undisturbed : Around → List (Text × List Text) → Bool
unfolding cancelled_at
undisturbed around [] = true
undisturbed around ((source, configs) ∷ rest) =
    not (cancelled_at around source configs) && undisturbed around rest

process_all-Extends :
    (ctx : Context) (around : Around) (sources : List (Text × List Text)) (job : Job)
    → Extends (undisturbed around sources) job (process_all ctx around sources job)
unfolding process_all undisturbed
process_all-Extends ctx around [] job = Extends-refl true job job refl refl
process_all-Extends ctx around ((source, configs) ∷ rest) job =
    let one = process_source-Extends ctx around source configs job in
    let done = process_source ctx around source configs job in
    elim (Bool-cases (cancelled_at around source configs)) [
      | inl e ↦ rw e (subst (λ (b : Bool). Extends (not b) job done) e one)
      | inr e ↦ rw e (
          Extends-trans (undisturbed around rest) job done _
            (subst (λ (b : Bool). Extends (not b) job done) e one)
            (process_all-Extends ctx around rest done))
    ]

-- the sources that a run goes through
unfoldable pub scraped_sources : Bool → Option (List (Text × List Text)) → List (Text × List Text)
scraped_sources false scraped = []
scraped_sources true none = []
scraped_sources true (some sources) = sources

-- Whatever the sources give, the events' order, the transactions that fail, and wherever the run is cancelled: the items that
-- a run queues for publication are the rows that it stores, one for one and in their order, with their watermarked
-- text and their country, up to a place. This place is the end if the job is not cancelled at any source; a cancel
-- leaves the rows after it stored but not queued.
pub scraper_job-Extends :
    (ctx : Context) (around : Around) (enabled : Bool) (scraped : Option (List (Text × List Text)))
    (table : ConfigTable) (queued : List PublishItem)
    → Extends
        (undisturbed around (scraped_sources enabled scraped))
        (new_job table queued)
        (scraper_job ctx around enabled scraped table queued)
unfolding scraper_job scraped_sources undisturbed
scraper_job-Extends ctx around false scraped table queued =
    Extends-refl true (new_job table queued) (new_job table queued) refl refl
scraper_job-Extends ctx around true none table queued =
    Extends-refl true (new_job table queued) (new_job table queued) refl refl
scraper_job-Extends ctx around true (some sources) table queued =
    process_all-Extends ctx around sources (new_job table queued)
