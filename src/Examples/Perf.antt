-- ===== src/Examples/Perf.antt =====
-- The performance test on two links, of which one answers.
use config_manager.Prelude.{
  Option, ℕ, ◌≡◌, ◌≤◌, refl, true, false, none, some, List, [], ◌∷◌, map, length, drop, All,
  if◌then◌else◌, ◌==◌,
}
use config_manager.Prelude.Text.{Text, text_eq, codes, text_beq}
use config_manager.Prelude.Case.{ascii_only}
use config_manager.Prelude.Sort.{sort_desc, IsDescending}
use config_manager.Utils.Codec.{Value, str}
use config_manager.Database.Models.{ProcessedConfig}
use config_manager.Utils.Host.{extract_host}
use config_manager.Utils.Codec.{truthy}
use config_manager.Prelude.Text.{starts_with, strip, has, before}
use config_manager.Perf.{Setting, PerfResult, evaluate_white_configs}
use config_manager.Perf.Ranking.{
  score_of, results_of, Consistent, evaluate_white_configs-ranked, evaluate_white_configs-order,
}
use config_manager.Examples.Values.{no_codec}
use mathlib.Core.List.{Permᴰ}

-- Only one server answers, after 200 milliseconds.
abbrev answers : Value → Option ℕ
answers (str h) = if h == codes "a.b" then some 200000 else none
answers _ = none

abbrev local : Setting
local = record {
  unicode = ascii_only;
  codec = no_codec;
  number = λ t. none;
  machine = record {
    spawns = λ r. false;
    opens = λ r. false;
    ttfb = λ r i. none;
    connect = λ v p i. answers v;
  };
}

abbrev row_of : ℕ → Text → ProcessedConfig
row_of i raw = record {
  id = i;
  raw_config = raw;
  watermarked_config = none;
  config_hash = raw;
  country_code = none;
  protocol = none;
  host = none;
  source = none;
  is_valid = true;
  created_at = i;
}

abbrev two_rows : List ProcessedConfig
two_rows = row_of 1 (codes "vless://u@c.d:80") ∷ row_of 2 (codes "vless://u@a.b:443?x") ∷ []

abbrev swapped : List PerfResult → List PerfResult
swapped (r ∷ q ∷ rs) = q ∷ r ∷ rs
swapped (r ∷ []) = r ∷ []
swapped [] = []

evaluate_white_configs-ranked_example :
    let shown = evaluate_white_configs local swapped two_rows 1 in
    let left_out = drop 1 (sort_desc score_of (swapped (results_of local two_rows))) in
    (IsDescending score_of shown × (length shown ≤ 1))
    × (All Consistent shown
        × All (λ (r : PerfResult). All (λ (q : PerfResult). q.score ≤ r.score) left_out) shown)
evaluate_white_configs-ranked_example =
    evaluate_white_configs-ranked local swapped two_rows 1 (Permᴰ.swap refl refl)

evaluate_white_configs-order_example :
    map score_of (evaluate_white_configs local (λ rs. rs) two_rows 1)
    ≡ map score_of (evaluate_white_configs local swapped two_rows 1)
evaluate_white_configs-order_example =
    evaluate_white_configs-order local (λ rs. rs) swapped two_rows 1 (Permᴰ.swap refl refl)

-- The server that answers has the score 86.
score_test : map score_of (evaluate_white_configs local swapped two_rows 1) ≡ 860 ∷ []
unfolding evaluate_white_configs sort_desc extract_host starts_with strip has before truthy text_beq
score_test = refl
