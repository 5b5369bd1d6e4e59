-- ===== src/Perf/Ranking.antt =====
-- The ranking of the results: what is shown first, and what the order of completion changes.
use config_manager.Prelude.{
  ◌⊎◌, All, inr, inl, Option-cases, ℕ, zero, suc, ◌+◌, ◌≤◌, ◌≡◌, true, false, Option, none, some,
  arith, length, All-take, drop, length-take, Bool-cases, if◌then◌else◌, [], ◌∷◌,
}
use mathlib.Core.List.{Permᴰ}
use mathlib.Core.Path.{◌≡◌, refl}
use config_manager.Prelude.SortKeys.{map-take-sort_desc, All-Permᴰ}
use config_manager.Prelude.Sort.{
  sort_desc, IsDescending, All-sort_desc, sort_desc-IsDescending, IsDescending-take, drop-le-take,
}
use config_manager.Utils.Codec.{Value, truthy}
use config_manager.Prelude.Text.{Text, codes, starts_with, strip}
use config_manager.Perf.{
  ◌∷◌, map, Setting, PerfResult, samples, server_of, failed, scored, protocol_or, port_of, over_tcp,
  over_xray, perf_for_one, evaluate_white_configs, mean_of, List, Bool, Value, Text,
  ProcessedConfig,
}
use config_manager.Perf.Scores.{Mean, stability_score, ttfb_score, final_score}

abbrev pub score_of : PerfResult → ℕ
score_of r = r.score

-- the results of the rows, in the order of the rows
abbrev pub results_of : Setting → List ProcessedConfig → List PerfResult
results_of g rows = map (λ (row : ProcessedConfig). perf_for_one g row) rows

-- A result is consistent: the score lies between 0 and 1000 tenths and is positive exactly for a config
-- that is alive, and no more rounds answered than there were.
pub record Consistent (r : PerfResult) : Type 0 where
  pub score_bound : r.score ≤ 1000
  pub alive_or_zero : ((r.alive ≡ true) × (70 ≤ r.score)) ⊎ ((r.alive ≡ false) × (r.score ≡ 0))
  pub rounds_bound : r.stability_success ≤ 3

samples-bound : (probe : ℕ → Option ℕ) (i left : ℕ) → length (samples probe i left) ≤ left
unfolding samples
samples-bound probe i zero = omega arith
samples-bound probe i (suc left) = ground (arith, samples-bound probe (i + 1) left)

final_score_bounds :
    (avg : Option Mean) (n : ℕ) → (70 ≤ final_score avg n true) × (final_score avg n true ≤ 1000)
unfolding final_score ttfb_score stability_score
final_score_bounds none n = (ground arith, ground arith)
final_score_bounds (some m) n = (ground arith, ground arith)

module _ (g : Setting) (row : ProcessedConfig) where
  failed-Consistent : (server : Option Value) → Consistent (failed g row server)
  unfolding failed
  failed-Consistent server = record {
    score_bound = omega arith;
    alive_or_zero = inr (refl, refl);
    rounds_bound = omega arith;
  }

  scored-Consistent :
      (protocol : Option Text) (server : Value) (alive : Bool) (times : List ℕ)
      → length times ≤ 3
      → Consistent (scored g row protocol server alive times)
  unfolding scored
  scored-Consistent protocol server true times h = record {
    score_bound = (final_score_bounds (mean_of times) (length times)).1;
    alive_or_zero = inl (refl, (final_score_bounds (mean_of times) (length times)).0);
    rounds_bound = h;
  }
  scored-Consistent protocol server false times h = record {
    score_bound = unfold final_score in omega arith;
    alive_or_zero = inr (refl, unfold final_score in refl);
    rounds_bound = h;
  }

  over_tcp-Consistent : (server : Value) → Consistent (over_tcp g row server)
  unfolding over_tcp
  over_tcp-Consistent server =
      scored-Consistent (protocol_or g row) server _
        (samples (g.machine.connect server (port_of g row)) 0 3)
        (samples-bound (g.machine.connect server (port_of g row)) 0 3)

  over_xray-Consistent : (server : Value) → Consistent (over_xray g row server)
  unfolding over_xray
  over_xray-Consistent server = elim (Bool-cases (g.machine.opens row)) [
    | inl e ↦
        rw (e, over_xray)
          (scored-Consistent row.protocol server true (samples (g.machine.ttfb row) 0 3)
            (samples-bound (g.machine.ttfb row) 0 3))
    | inr e ↦ rw (e, over_xray) (failed-Consistent (some server))
  ]

  -- the three tests of a config with a server
  measured-Consistent :
      (server : Value)
      → Consistent (
          if truthy server
          then (if starts_with (codes "{") (strip row.raw_config)
              then (if g.machine.spawns row
                  then over_xray g row server
                  else failed g row (some server))
              else over_tcp g row server)
          else failed g row none)
  measured-Consistent server = elim (Bool-cases (truthy server)) [
    | inr e ↦ rw e (failed-Consistent none)
    | inl e ↦ elim (Bool-cases (starts_with (codes "{") (strip row.raw_config))) [
      | inr e' ↦ rw (e, e') (over_tcp-Consistent server)
      | inl e' ↦ elim (Bool-cases (g.machine.spawns row)) [
        | inl k ↦ rw (e, e', k) (over_xray-Consistent server)
        | inr k ↦ rw (e, e', k) (failed-Consistent (some server))
      ]
    ]
  ]

  perf_for_one-Consistent : Consistent (perf_for_one g row)
  unfolding perf_for_one
  perf_for_one-Consistent = elim (Option-cases (server_of g row)) [
    | inl e ↦ rw (e, perf_for_one) (failed-Consistent none)
    | inr (server, e) ↦ rw (e, perf_for_one) (measured-Consistent server)
  ]

results_of-Consistent :
    (g : Setting) (rows : List ProcessedConfig) → All Consistent (results_of g rows)
results_of-Consistent g [] = tt
results_of-Consistent g (r ∷ rs) = (perf_for_one-Consistent g r, results_of-Consistent g rs)

-- In whatever order the measurements end, the results come with falling scores, at most as many as asked
-- for; each is consistent: a score of at most 1000 tenths, of at least 70 for a config that is alive and of
-- 0 for one that is not, and at most three rounds that answered. None that is left out, of all rows, has a
-- higher score than one that is shown.
pub evaluate_white_configs-ranked :
    (g : Setting) (completed : List PerfResult → List PerfResult) (rows : List ProcessedConfig)
    (top_n : ℕ)
    → Permᴰ (results_of g rows) (completed (results_of g rows))
    → let shown = evaluate_white_configs g completed rows top_n in
      let left_out = drop top_n (sort_desc score_of (completed (results_of g rows))) in
      (IsDescending score_of shown × (length shown ≤ top_n))
      × (All Consistent shown
          × All (λ (r : PerfResult). All (λ (q : PerfResult). q.score ≤ r.score) left_out) shown)
unfolding evaluate_white_configs
evaluate_white_configs-ranked g completed rows top_n p =
    let sorted = sort_desc score_of (completed (results_of g rows)) in
    let down = sort_desc-IsDescending score_of (completed (results_of g rows)) in
    (
      (IsDescending-take score_of top_n sorted down, ground (arith, length-take top_n sorted)),
      (
        All-take Consistent top_n sorted (
            All-sort_desc score_of Consistent (completed (results_of g rows))
              (All-Permᴰ Consistent p (results_of-Consistent g rows))),
        drop-le-take score_of top_n sorted down,
      ),
    )

-- The scores that are shown do not depend on the order in which the measurements end.
pub evaluate_white_configs-order :
    (g : Setting) (first second : List PerfResult → List PerfResult) (rows : List ProcessedConfig)
    (top_n : ℕ)
    → Permᴰ (first (results_of g rows)) (second (results_of g rows))
    → map score_of (evaluate_white_configs g first rows top_n)
      ≡ map score_of (evaluate_white_configs g second rows top_n)
unfolding evaluate_white_configs
evaluate_white_configs-order g first second rows top_n p =
    map-take-sort_desc score_of top_n (first (results_of g rows)) (second (results_of g rows)) p
