-- ===== src/Perf/Scores.antt =====
-- core/white_configs_perf_tester.py, the scores, in tenths: `ttfb * 0.7 + st * 0.3` is `ttfb * 7 + st * 3`
-- tenths.
use config_manager.Prelude.{
  ℕ, ◌+◌, ◌*◌, Bool, true, false, Option, none, some, List, [], ◌∷◌, length, ltb, leb,
  if◌then◌else◌, nat_beq,
}

-- a mean in microseconds: the sum of the samples, and their number
pub record Mean : Type 0 where
  pub total : ℕ
  pub count : ℕ

unfoldable pub sum : List ℕ → ℕ
sum [] = 0
sum (n ∷ ns) = n + sum ns

-- `sum(samples) / len(samples) if samples else None`
unfoldable pub mean_of : List ℕ → Option Mean
unfolding sum
mean_of [] = none
mean_of (n ∷ ns) = some (record { total = sum (n ∷ ns); count = length (n ∷ ns) })

unfoldable pub stability_score : ℕ → ℕ
stability_score successes =
    if nat_beq successes 3
    then 100
    else if nat_beq successes 2
    then 60
    else if nat_beq successes 1
    then 20
    else 0

-- Milliseconds are compared as `total < limit * 1000 * count`.
unfoldable pub ttfb_score : Option Mean → ℕ
ttfb_score none = 10
ttfb_score (some m) =
    if ltb m.total (150000 * m.count)
    then 100
    else if leb m.total (300000 * m.count)
    then 80
    else if leb m.total (600000 * m.count)
    then 60
    else if leb m.total (1000000 * m.count)
    then 40
    else 10

unfoldable pub final_score : Option Mean → ℕ → Bool → ℕ
unfolding stability_score ttfb_score
final_score avg successes false = 0
final_score avg successes true = ttfb_score avg * 7 + stability_score successes * 3
