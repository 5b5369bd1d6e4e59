-- ===== src/Examples/Batches.antt =====
-- processor/validator.py at a concrete batch.
use config_manager.Prelude.{ℕ, ◌≡◌, ◌≤◌, refl, List, [], ◌∷◌, member, All}
use config_manager.Prelude.Text.{
  text_eq, text_beq, codes, strip, lstrip, rstrip, is_space, starts_with, before, has,
}
use config_manager.Prelude.Case.{lower}
use config_manager.Utils.Codec.{truthy}
use config_manager.Utils.Host.{extract_host, search_host, host_here}
use config_manager.Utils.Protocol.{detect_protocol}
use config_manager.Validator.{
  turn, turn_at, release, accepted, Event, start, arrived, run, step, advance_at, advance, begin,
  locate, look_up, finish, resume, new_batch, results, running, cached,
}
use config_manager.Validator.Results.{Covered, validate_batch-Covered}
use config_manager.Validator.Growth.{result_hashes}
use config_manager.Validator.Race.{run-running, run-both_accepted}
use config_manager.Examples.Values.{plain_context, new_validator, link, other_link}

-- both begin, and the countries arrive in the other order
abbrev pub crossed : List (ℕ × Event)
crossed = (0, start) ∷ (1, start) ∷ (1, arrived (codes "US")) ∷ (0, arrived (codes "DE")) ∷ []

validate_batch-Covered_example :
    All
      (Covered plain_context [] (
        result_hashes
          (run plain_context 10 crossed (new_batch new_validator (link ∷ other_link ∷ []))).tasks))
      (link ∷ other_link ∷ [])
unfolding run step advance_at advance begin locate look_up finish resume new_batch turn_at turn
    release text_beq detect_protocol starts_with strip lower member extract_host has before truthy
validate_batch-Covered_example =
    validate_batch-Covered plain_context 10 crossed new_validator (link ∷ other_link ∷ [])
      (tt, (tt, tt))

run-running_example :
    let b = run plain_context 1 crossed (new_batch new_validator (link ∷ other_link ∷ [])) in
    (b.held ≡ running b.tasks) × (running b.tasks ≤ 1)
run-running_example = run-running plain_context 1 crossed new_validator (link ∷ other_link ∷ [])

run-both_accepted_example :
    (results
        (run plain_context 10
          ((0, start) ∷ (1, start) ∷ (0, arrived (codes "DE")) ∷ (1, arrived (codes "US")) ∷ [])
          (new_batch new_validator (link ∷ link ∷ []))).tasks
      ≡ accepted plain_context link (codes "DE") ∷ accepted plain_context link (codes "US") ∷ [])
    × (results
          (run plain_context 10
            ((0, start) ∷ (0, arrived (codes "DE")) ∷ (1, start) ∷ (1, arrived (codes "US")) ∷ [])
            (new_batch new_validator (link ∷ link ∷ []))).tasks
        ≡ accepted plain_context link (codes "DE") ∷ [])
unfolding detect_protocol lower strip lstrip rstrip is_space starts_with text_beq member
    extract_host search_host host_here cached before has
run-both_accepted_example =
    run-both_accepted plain_context new_validator link link b'a' (codes ".b") (codes "DE")
      (codes "US") refl refl refl refl refl refl refl
