-- ===== src/Validator/Results.antt =====
-- What a batch of validations returns, in whatever order its events come.
use config_manager.Prelude.{
  ◌∙◌, All-map, All-pair, ap, ℕ, ◌≡◌, ◌≢◌, refl, sym, ◌⊎◌, inl, inr, true, false, ◌||◌, none, some,
  List, [], ◌∷◌, map, member, Distinct, arith, All, All-weaken, member-here, member-weaken,
}
use mathlib.Core.Path.{subst}
use config_manager.Prelude.Text.{Text, text_eq}
use config_manager.Utils.Protocol.{detect_protocol, unknown_name}
use config_manager.Database.Configs.{Validated, item_hash}
use config_manager.Validator.{
  Context, Validator, Task, ready, fetching, returned, raised, hash_of, accepted, Event, run,
  new_batch, results,
}
use config_manager.Validator.Changes.{Unhashable, config_of}
use config_manager.Validator.Growth.{Good, result_hashes}
use config_manager.Validator.Invariant.{batch-Invariant}

-- The dictionary of a config, with a known protocol, of a config of the batch.
abbrev pub FromBatch : Context → List Text → Validated → Type 0
FromBatch ctx configs r =
    (r ≡ accepted ctx r.raw_config r.country_code)
    × ((detect_protocol ctx.unicode r.raw_config ≢ unknown_name)
        × (member r.raw_config configs ≡ true))

own :
    (ctx : Context) (c : Text) (r : Validated)
    → r ≡ accepted ctx c r.country_code
    → r.raw_config ≡ c
unfolding accepted
own ctx c r e = ap (λ (x : Validated). x.raw_config) e

own_hash :
    (ctx : Context) (c : Text) (r : Validated)
    → r ≡ accepted ctx c r.country_code
    → item_hash r ≡ hash_of ctx c
unfolding accepted
own_hash ctx c r e = ap (λ (x : Validated). x.config_hash) e

wider :
    (ctx : Context) (c : Text) (ts : List Task)
    → All (FromBatch ctx (map config_of ts)) (results ts)
    → All (FromBatch ctx (c ∷ map config_of ts)) (results ts)
wider ctx c ts h =
    All-weaken _ _ (λ r (e, (k, m)). (e, (k, member-weaken r.raw_config c (map config_of ts) m)))
      (results ts) h

Good-results :
    (ctx : Context) (seen : List Text) (ts : List Task)
    → All (Good ctx seen) ts
    → All (FromBatch ctx (map config_of ts)) (results ts)
unfolding results
Good-results ctx seen [] g = tt
Good-results ctx seen (ready c ∷ ts) g = wider ctx c ts (Good-results ctx seen ts g.1)
Good-results ctx seen (fetching c h ∷ ts) g = wider ctx c ts (Good-results ctx seen ts g.1)
Good-results ctx seen (raised c ∷ ts) g = wider ctx c ts (Good-results ctx seen ts g.1)
Good-results ctx seen (returned c none ∷ ts) g = wider ctx c ts (Good-results ctx seen ts g.1)
Good-results ctx seen (returned c (some r) ∷ ts) g =
    let e : r.raw_config ≡ c = own ctx c r g.0.0 in
    (
      (
        subst (λ x. r ≡ accepted ctx x r.country_code) (sym e) g.0.0,
        (rw e g.0.1, rw e (member-here c (map config_of ts))),
      ),
      wider ctx c ts (Good-results ctx seen ts g.1),
    )

-- Whatever the order of the events: each dictionary returned is the one of a config of the batch,
-- whose protocol is known.
pub results-FromBatch :
    (ctx : Context) (max_concurrent : ℕ) (events : List (ℕ × Event)) (v : Validator)
    (configs : List Text)
    → All
        (FromBatch ctx configs)
        (results (run ctx max_concurrent events (new_batch v configs)).tasks)
results-FromBatch ctx m events v configs =
    let inv = batch-Invariant ctx m events v configs in
    subst (λ cs. All (FromBatch ctx cs) (results (run ctx m events (new_batch v configs)).tasks))
      inv.same_configs (Good-results ctx _ _ inv.good)

results-new :
    (ctx : Context) (seen : List Text) (h : Text) (ts : List Task)
    → All (Good ctx seen) ts
    → member h (map (hash_of ctx) (map config_of ts)) ≡ false
    → member h (result_hashes ts) ≡ false
unfolding results member
results-new ctx seen h [] g m = refl
results-new ctx seen h (ready c ∷ ts) g m = results-new ctx seen h ts g.1 (ground arith)
results-new ctx seen h (fetching c x ∷ ts) g m = results-new ctx seen h ts g.1 (ground arith)
results-new ctx seen h (raised c ∷ ts) g m = results-new ctx seen h ts g.1 (ground arith)
results-new ctx seen h (returned c none ∷ ts) g m = results-new ctx seen h ts g.1 (ground arith)
results-new ctx seen h (returned c (some r) ∷ ts) g m =
    rw (own_hash ctx c r g.0.0) (ground (arith, results-new ctx seen h ts g.1))

results-Distinct :
    (ctx : Context) (seen : List Text) (ts : List Task)
    → All (Good ctx seen) ts
    → Distinct (map (hash_of ctx) (map config_of ts))
    → Distinct (result_hashes ts)
unfolding results
results-Distinct ctx seen [] g d = tt
results-Distinct ctx seen (ready c ∷ ts) g d = results-Distinct ctx seen ts g.1 d.1
results-Distinct ctx seen (fetching c h ∷ ts) g d = results-Distinct ctx seen ts g.1 d.1
results-Distinct ctx seen (raised c ∷ ts) g d = results-Distinct ctx seen ts g.1 d.1
results-Distinct ctx seen (returned c none ∷ ts) g d = results-Distinct ctx seen ts g.1 d.1
results-Distinct ctx seen (returned c (some r) ∷ ts) g d = (
  rw (own_hash ctx c r g.0.0) (results-new ctx seen (hash_of ctx c) ts g.1 d.0),
  results-Distinct ctx seen ts g.1 d.1,
)

-- Whatever the order of the events: if no two configs of the batch have one hash, then no two
-- dictionaries returned have.
pub validate_batch-Distinct :
    (ctx : Context) (max_concurrent : ℕ) (events : List (ℕ × Event)) (v : Validator)
    (configs : List Text)
    → Distinct (map (hash_of ctx) configs)
    → Distinct (map item_hash (results (run ctx max_concurrent events (new_batch v configs)).tasks))
validate_batch-Distinct ctx m events v configs d =
    let inv = batch-Invariant ctx m events v configs in
    results-Distinct ctx _ _ inv.good
      (subst (λ cs. Distinct (map (hash_of ctx) cs)) (sym inv.same_configs) d)

-- a task that has ended
abbrev pub Over : Task → Type 0
Over (ready c) = false ≡ true
Over (fetching c h) = false ≡ true
Over (returned c o) = Unit
Over (raised c) = Unit

-- Why a config may be missing from the results.
abbrev pub Covered : Context → List Text → List Text → Text → Type 0
Covered ctx seen found c =
    (detect_protocol ctx.unicode c ≡ unknown_name)
    ⊎ (Unhashable ctx c ⊎ ((member (hash_of ctx c) seen || member (hash_of ctx c) found) ≡ true))

-- What a task returned is among the results.
abbrev Counted : List Text → Task → Type 0
Counted found (ready c) = Unit
Counted found (fetching c h) = Unit
Counted found (returned c none) = Unit
Counted found (returned c (some r)) = member (item_hash r) found ≡ true
Counted found (raised c) = Unit

Counted-cons : (k : Text) (found : List Text) (t : Task) → Counted found t → Counted (k ∷ found) t
Counted-cons k found (ready c) h = tt
Counted-cons k found (fetching c x) h = tt
Counted-cons k found (returned c none) h = tt
Counted-cons k found (returned c (some r)) h = member-weaken (item_hash r) k found h
Counted-cons k found (raised c) h = tt

results-Counted : (ts : List Task) → All (Counted (result_hashes ts)) ts
unfolding results
results-Counted [] = tt
results-Counted (ready c ∷ ts) = (tt, results-Counted ts)
results-Counted (fetching c h ∷ ts) = (tt, results-Counted ts)
results-Counted (returned c none ∷ ts) = (tt, results-Counted ts)
results-Counted (returned c (some r) ∷ ts) = (
  member-here (item_hash r) (result_hashes ts),
  All-weaken (Counted (result_hashes ts)) _ (Counted-cons (item_hash r) (result_hashes ts)) ts
      (results-Counted ts),
)
results-Counted (raised c ∷ ts) = (tt, results-Counted ts)

Over-Covered :
    (ctx : Context) (seen now found : List Text) (t : Task)
    → ((h : Text) → member h now ≡ (member h seen || member h found))
    → Good ctx now t × (Over t × Counted found t)
    → Covered ctx seen found (config_of t)
Over-Covered ctx seen now found (ready c) r (g, (o, k)) = cc
Over-Covered ctx seen now found (fetching c h) r (g, (o, k)) = cc
Over-Covered ctx seen now found (returned c none) r (inl e, (o, k)) = inl e
Over-Covered ctx seen now found (returned c none) r (inr e, (o, k)) =
    inr (inr (sym (r (hash_of ctx c)) ∙ e))
Over-Covered ctx seen now found (returned c (some x)) r (g, (o, k)) =
    inr (inr (rw (sym (own_hash ctx c x g.0)) (ground arith)))
Over-Covered ctx seen now found (raised c) r (g, (o, k)) = inr (inl g)

-- When every task of the batch has ended, whatever the order of the events was: a config of known
-- protocol, whose host is no JSON list or object, and whose hash the validator had not seen, has its hash among the
-- results. None is lost.
pub validate_batch-Covered :
    (ctx : Context) (max_concurrent : ℕ) (events : List (ℕ × Event)) (v : Validator)
    (configs : List Text)
    → let b = run ctx max_concurrent events (new_batch v configs) in
      All Over b.tasks → All (Covered ctx v.seen_hashes (result_hashes b.tasks)) configs
validate_batch-Covered ctx m events v configs over =
    let b = run ctx m events (new_batch v configs) in
    let inv = batch-Invariant ctx m events v configs in
    subst (All (Covered ctx v.seen_hashes (result_hashes b.tasks))) inv.same_configs (
      All-map config_of _ b.tasks (
        All-weaken _ _ (λ t h. Over-Covered ctx _ _ _ t inv.recorded h) b.tasks
          (All-pair _ _ b.tasks inv.good (All-pair _ _ b.tasks over (results-Counted b.tasks)))))
