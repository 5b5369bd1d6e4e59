-- ===== src/Perf.antt =====
-- core/white_configs_perf_tester.py and the writer of its results. Times are whole microseconds, and a
-- score is counted in tenths; the processes and sockets are a Machine.
pub mod Port
pub mod Scores
pub mod Ranking
use config_manager.Prelude.{
  ℕ, zero, suc, ◌+◌, ◌*◌, ◌≤◌, Bool, true, false, ◌&&◌, Option, none, some, List, [], ◌∷◌, ◌++◌,
  map, length, ltb, leb, take, if◌then◌else◌,
}
use config_manager.Prelude.Text.{Text, codes, starts_with, strip}
use config_manager.Prelude.Case.{Unicode}
use config_manager.Prelude.Sort.{sort_desc}
use config_manager.Utils.Codec.{Codec, Value, truthy}
use config_manager.Utils.Host.{extract_host}
use config_manager.Utils.Protocol.{detect_protocol}
use config_manager.Database.Models.{ProcessedConfig, config_text}
use config_manager.Utils.Numbers.{ℤ, pos}
use config_manager.Perf.Port.{extract_port}
use config_manager.Perf.Scores.{Mean, mean_of, final_score}

-- What the machine does: whether xray starts for a row and opens its port in time, and the time of a
-- request through it, or of a connection to a server, in a round.
pub record Machine : Type 0 where
  pub spawns : ProcessedConfig → Bool
  pub opens : ProcessedConfig → Bool
  pub ttfb : ProcessedConfig → ℕ → Option ℕ
  pub connect : Value → ℤ → ℕ → Option ℕ

-- The interpreter, the JSON library with `int` of a JSON number, and the machine.
pub record Setting : Type 0 where
  pub unicode : Unicode
  pub codec : Codec
  pub number : Text → Option ℤ
  pub machine : Machine

pub record PerfResult : Type 0 where
  pub config_id : ℕ
  pub protocol : Option Text
  pub server : Option Value
  pub alive : Bool
  pub avg_ttfb : Option Mean
  pub stability_success : ℕ
  pub score : ℕ
  pub config_link : Text

-- the samples of the rounds that answered, from round `i` on, with `left` rounds to go
unfoldable pub samples : (ℕ → Option ℕ) → ℕ → ℕ → List ℕ
samples probe i zero = []
samples probe i (suc left) =
    let rest = samples probe (i + 1) left in elim (probe i) [ none ↦ rest | some ms ↦ ms ∷ rest ]

abbrev pub stability_rounds : ℕ
stability_rounds = 3

module _ (g : Setting) (row : ProcessedConfig) where
  -- `row.host or extract_host(row.raw_config)`
  unfoldable pub server_of : Option Value
  server_of =
      let extracted = extract_host g.codec row.raw_config in
      elim row.host [ none ↦ extracted | some h ↦ if truthy h then some h else extracted ]

  unfoldable pub link_of : Text
  link_of = elim row.raw_config [ [] ↦ [] | c ∷ s ↦ strip (config_text row) ]

  -- a result of a config that is not alive
  unfoldable pub failed : Option Value → PerfResult
  unfolding link_of
  failed server = record {
    config_id = row.id;
    protocol = row.protocol;
    server = server;
    alive = false;
    avg_ttfb = none;
    stability_success = 0;
    score = 0;
    config_link = link_of;
  }

  -- a result from the samples of three rounds
  unfoldable pub scored : Option Text → Value → Bool → List ℕ → PerfResult
  unfolding link_of mean_of final_score
  scored protocol server alive times = record {
    config_id = row.id;
    protocol = protocol;
    server = some server;
    alive = alive;
    avg_ttfb = mean_of times;
    stability_success = length times;
    score = final_score (mean_of times) (length times) alive;
    config_link = link_of;
  }

  -- `protocol or detect_protocol(cfg_link)`
  unfoldable pub protocol_or : Option Text
  unfolding link_of
  protocol_or =
      let detected = some (detect_protocol g.unicode link_of) in
      elim row.protocol [
        | none ↦ detected
        | some p ↦ elim p [ [] ↦ detected | c ∷ s ↦ some (c ∷ s) ]
      ]

  -- the port, or 443
  unfoldable pub port_of : ℤ
  port_of = elim (extract_port g.unicode g.codec g.number row.raw_config) [
    | none ↦ pos 443
    | some p ↦ p
  ]

  -- the fallback for links, which xray does not run
  unfoldable pub over_tcp : Value → PerfResult
  unfolding samples scored protocol_or port_of
  over_tcp server =
      let times = samples (g.machine.connect server port_of) 0 stability_rounds in
      scored protocol_or server (ltb 0 (length times)) times

  -- the measurement through xray
  unfoldable pub over_xray : Value → PerfResult
  unfolding samples scored failed
  over_xray server =
      if g.machine.opens row
      then scored row.protocol server true (samples (g.machine.ttfb row) 0 stability_rounds)
      else failed (some server)

  unfoldable pub perf_for_one : PerfResult
  unfolding server_of failed over_tcp over_xray
  perf_for_one = elim server_of [
    | none ↦ failed none
    | some server ↦
        if truthy server
        then (if starts_with (codes "{") (strip row.raw_config)
            then (if g.machine.spawns row then over_xray server else failed (some server))
            else over_tcp server)
        else failed none
  ]

-- `completed` is the order in which the tasks end.
unfoldable pub evaluate_white_configs :
    Setting → (List PerfResult → List PerfResult) → List ProcessedConfig → ℕ → List PerfResult
unfolding perf_for_one
evaluate_white_configs g completed rows top_n = take top_n (
    sort_desc (λ (r : PerfResult). r.score)
      (completed (map (λ (row : ProcessedConfig). perf_for_one g row) rows)))

-- the lines of the results
unfoldable pub result_lines : List PerfResult → List Text
result_lines [] = []
result_lines (r ∷ rs) =
    let rest = result_lines rs in
    elim (strip r.config_link) [ [] ↦ rest | c ∷ s ↦ if r.alive then (c ∷ s) ∷ rest else rest ]

-- `"\n".join(lines)`
unfoldable pub join_lines : List Text → Text
join_lines [] = []
join_lines (l ∷ []) = l
join_lines (l ∷ m ∷ ls) = l ++ b'\n' ∷ join_lines (m ∷ ls)

-- `export_perf_results_to_txt`; `stamp` is the time, as it is written.
unfoldable pub export_perf_results_to_txt : Text → Text → List PerfResult → Text
unfolding result_lines join_lines
export_perf_results_to_txt operator stamp results =
    join_lines (
      codes "# white-configs-perf"
      ∷ (codes "# operator: " ++ operator)
      ∷ (codes "# generated_at: " ++ stamp)
      ∷ codes "━━━━━━━━━━━━━━━━━━━━"
      ∷ codes "# each line is a raw config link (v2ray/vless compatible)"
      ∷ result_lines results)
    ++ codes "\n"
