-- ===== src/Validator/Invariant.antt =====
-- What holds of a batch of validations at any time, in whatever order its events come.
use config_manager.Prelude.{
  ltb, Bool-cases, ℕ, ◌≡◌, refl, inl, inr, ◌∙◌, ◌||◌, List, [], ◌∷◌, map, member, arith, All,
}
use config_manager.Prelude.Text.{Text, text_eq}
use config_manager.Validator.{
  arrived, step, run, new_batch, Context, Validator, ready, Event, start, arrived, Batch,
  advance_at, results,
}
use config_manager.Validator.Changes.{config_of}
use config_manager.Validator.Growth.{Good, result_hashes, Grown-recorded, advance_at-keeps}

-- What holds of a batch for the configs given and the hashes seen before.
pub record Invariant (ctx : Context) (seen : List Text) (configs : List Text) (b : Batch)
    : Type 0 where
  pub same_configs : map config_of b.tasks ≡ configs
  pub good : All (Good ctx b.validator.seen_hashes) b.tasks
  pub recorded :
      (h : Text)
      → member h b.validator.seen_hashes ≡ (member h seen || member h (result_hashes b.tasks))

module _ (ctx : Context) (seen configs : List Text) where
  advanced-Invariant :
      (e : Event) (i held : ℕ) (b : Batch)
      → Invariant ctx seen configs b
      → let (ts, v) = advance_at ctx b.validator e i b.tasks in
        Invariant ctx seen configs (record { validator = v; tasks = ts; held = held })
  advanced-Invariant e i held b inv =
      let (same, (good, grown)) = advance_at-keeps ctx b.validator e i b.tasks inv.good in
      record {
        same_configs = same ∙ inv.same_configs;
        good = good;
        recorded = Grown-recorded seen _ _ _ _ grown inv.recorded;
      }

  step-Invariant :
      (max_concurrent : ℕ) (e : ℕ × Event) (b : Batch)
      → Invariant ctx seen configs b
      → Invariant ctx seen configs (step ctx max_concurrent e b)
  unfolding step
  step-Invariant m (i, start) b inv = elim (Bool-cases (ltb b.held m)) [
    | inl e ↦ rw e (advanced-Invariant start i _ b inv)
    | inr e ↦ rw e inv
  ]
  step-Invariant m (i, arrived country) b inv = advanced-Invariant (arrived country) i _ b inv

  run-Invariant :
      (max_concurrent : ℕ) (events : List (ℕ × Event)) (b : Batch)
      → Invariant ctx seen configs b
      → Invariant ctx seen configs (run ctx max_concurrent events b)
  unfolding run
  run-Invariant m [] b inv = inv
  run-Invariant m (e ∷ es) b inv = run-Invariant m es (step ctx m e b) (step-Invariant m e b inv)

new_configs : (configs : List Text) → map config_of (map ready configs) ≡ configs
new_configs [] = refl
new_configs (c ∷ cs) = rw (new_configs cs)

new_results : (configs : List Text) → results (map ready configs) ≡ []
unfolding results
new_results [] = refl
new_results (c ∷ cs) = new_results cs

new-Good : (ctx : Context) (seen configs : List Text) → All (Good ctx seen) (map ready configs)
new-Good ctx seen [] = tt
new-Good ctx seen (c ∷ cs) = (tt, new-Good ctx seen cs)

new_batch-Invariant :
    (ctx : Context) (v : Validator) (configs : List Text)
    → Invariant ctx v.seen_hashes configs (new_batch v configs)
unfolding new_batch
new_batch-Invariant ctx v configs = record {
  same_configs = new_configs configs;
  good = new-Good ctx v.seen_hashes configs;
  recorded = λ h. rw (new_results configs) (unfold member in ground arith);
}

pub batch-Invariant :
    (ctx : Context) (m : ℕ) (events : List (ℕ × Event)) (v : Validator) (configs : List Text)
    → Invariant ctx v.seen_hashes configs (run ctx m events (new_batch v configs))
batch-Invariant ctx m events v configs =
    run-Invariant ctx v.seen_hashes configs m events (new_batch v configs)
      (new_batch-Invariant ctx v configs)
