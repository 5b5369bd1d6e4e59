-- ===== src/Validator.antt =====
-- processor/validator.py, as every caller runs it: without the connection test. A validation pauses
-- at one place, the request for the country; other validations of the batch run meanwhile.
pub mod Changes
pub mod Growth
pub mod Invariant
pub mod Results
pub mod Race
use config_manager.Prelude.{
  ℕ, zero, suc, ◌-◌, Bool, true, false, Option, none, some, List, [], ◌∷◌, map, length, member, ltb,
  find_where, if◌then◌else◌, ◌==◌,
}
use config_manager.Prelude.Text.{Text, text_eq, codes}
use config_manager.Prelude.Case.{Unicode}
use config_manager.Utils.Codec.{Value, null, str, scalar, container, Codec, truthy}
use config_manager.Utils.Dedup.{config_hash}
use config_manager.Utils.Host.{extract_host}
use config_manager.Utils.Protocol.{detect_protocol, unknown_name}
use config_manager.Parser.{inject_watermark}
use config_manager.Database.Configs.{Validated}

-- What a validation reads and never changes: the tables of Unicode, `json` and `base64`, the name of
-- the channel, MD5, and equality of the keys of a dictionary.
pub record Context : Type 0 where
  pub unicode : Unicode
  pub codec : Codec
  pub channel : Text
  pub md5 : Text → Text
  pub same_key : Value → Value → Bool

-- `_seen_hashes` and `_country_cache`
pub record Validator : Type 0 where
  pub seen_hashes : List Text
  pub country_cache : List (Value × Text)

-- A validation, with its config: not begun, waiting for the country of a host, returned, or ended by
-- an exception.
pub data Task : Type 0 where
  ready : Text → Task
  fetching : Text → Value → Task
  returned : Text → Option Validated → Task
  raised : Text → Task

abbrev pub hash_of : Context → Text → Text
hash_of ctx config = config_hash ctx.md5 config

-- the dictionary that is returned for an accepted config
unfoldable pub accepted : Context → Text → Text → Validated
accepted ctx config country = record {
  raw_config = config;
  watermarked_config = inject_watermark ctx.unicode ctx.codec ctx.channel config country;
  config_hash = hash_of ctx config;
  country_code = country;
  protocol = detect_protocol ctx.unicode config;
  host = extract_host ctx.codec config;
}

-- from the watermark on
unfoldable pub finish : Context → Validator → Text → Text → Task × Validator
unfolding accepted
finish ctx v config country = (
  returned config (some (accepted ctx config country)),
  record { seen_hashes = hash_of ctx config ∷ v.seen_hashes; country_cache = v.country_cache },
)

unfoldable pub cached : Context → Value → List (Value × Text) → Option Text
cached ctx host [] = none
cached ctx host ((k, c) ∷ rest) = if ctx.same_key k host then some c else cached ctx host rest

-- The lookup of the country. A list or an object is no key of a dictionary.
unfoldable pub look_up : Context → Validator → Text → Value → Task × Validator
unfolding cached finish
look_up ctx v config (container b t) = (raised config, v)
look_up ctx v config host = elim (cached ctx host v.country_cache) [
  | none ↦ (fetching config host, v)
  | some country ↦ finish ctx v config country
]

-- `if host:`, and "UN" where there is none
unfoldable pub locate : Context → Validator → Text → Option Value → Task × Validator
unfolding look_up finish
locate ctx v config none = finish ctx v config (codes "UN")
locate ctx v config (some host) =
    if truthy host then look_up ctx v config host else finish ctx v config (codes "UN")

-- `validate_one` up to where it first pauses
unfoldable pub begin : Context → Validator → Text → Task × Validator
unfolding locate
begin ctx v config =
    if detect_protocol ctx.unicode config == unknown_name
    then (returned config none, v)
    else if member (hash_of ctx config) v.seen_hashes
    then (returned config none, v)
    else locate ctx v config (extract_host ctx.codec config)

-- `validate_one` from the answer of `fetch_country_code` on
unfoldable pub resume : Context → Validator → Text → Value → Text → Task × Validator
unfolding finish
resume ctx v config host country =
    finish ctx
      (record { seen_hashes = v.seen_hashes; country_cache = (host, country) ∷ v.country_cache })
      config country

-- A validation that is not interrupted; `country_of` is `fetch_country_code`.
unfoldable pub validate_one : Context → (Value → Text) → Validator → Text → Task × Validator
unfolding begin resume
validate_one ctx country_of v config =
    let (t, v') = begin ctx v config in
    elim t [
      | ready c ↦ (ready c, v')
      | fetching c host ↦ resume ctx v' c host (country_of host)
      | returned c o ↦ (returned c o, v')
      | raised c ↦ (raised c, v')
    ]

-- `validate_batch`: the tasks in the order of the configs, which share the validator. What happens
-- next is that a task begins, or that the country of a waiting task arrives.
pub data Event : Type 0 where
  start : Event
  arrived : Text → Event

-- `held` counts what `asyncio.Semaphore` has given out: its value is `max_concurrent` less that.
pub record Batch : Type 0 where
  pub validator : Validator
  pub tasks : List Task
  pub held : ℕ

unfoldable pub advance : Context → Validator → Event → Task → Task × Validator
unfolding begin resume
advance ctx v start (ready config) = begin ctx v config
advance ctx v (arrived country) (fetching config host) = resume ctx v config host country
advance ctx v e t = (t, v)

-- the event at a position of the list
unfoldable pub advance_at : Context → Validator → Event → ℕ → List Task → List Task × Validator
unfolding advance
advance_at ctx v e i [] = ([], v)
advance_at ctx v e zero (t ∷ ts) = let (t', v') = advance ctx v e t in (t' ∷ ts, v')
advance_at ctx v e (suc i) (t ∷ ts) = let (ts', v') = advance_at ctx v e i ts in (t ∷ ts', v')

-- The end of `async with semaphore`, unless the task has paused within it.
unfoldable pub release : Task → ℕ → ℕ
release (fetching c h) held = held
release t held = held - 1

-- A task that begins acquires the semaphore first, and each that returns or raises releases it.
unfoldable pub turn : Context → Validator → Event → Task → ℕ → ℕ
unfolding release begin resume
turn ctx v start (ready config) held = release (begin ctx v config).0 (suc held)
turn ctx v (arrived country) (fetching config host) held =
    release (resume ctx v config host country).0 held
turn ctx v e t held = held

-- the same for the event at a position of the list
unfoldable pub turn_at : Context → Validator → Event → ℕ → List Task → ℕ → ℕ
unfolding turn
turn_at ctx v e i [] held = held
turn_at ctx v e zero (t ∷ ts) held = turn ctx v e t held
turn_at ctx v e (suc i) (t ∷ ts) held = turn_at ctx v e i ts held

-- The tasks that have begun and not ended.
unfoldable pub running : List Task → ℕ
running [] = 0
running (fetching c h ∷ ts) = suc (running ts)
running (t ∷ ts) = running ts

-- One event. A task that is to begin waits while the semaphore is given out `max_concurrent` times.
unfoldable pub step : Context → ℕ → ℕ × Event → Batch → Batch
unfolding advance_at turn_at
step ctx max_concurrent (i, start) b =
    let (ts, v) = advance_at ctx b.validator start i b.tasks in
    let held = turn_at ctx b.validator start i b.tasks b.held in
    if ltb b.held max_concurrent then record { validator = v; tasks = ts; held = held } else b
step ctx max_concurrent (i, arrived country) b =
    let (ts, v) = advance_at ctx b.validator (arrived country) i b.tasks in
    record {
      validator = v;
      tasks = ts;
      held = turn_at ctx b.validator (arrived country) i b.tasks b.held;
    }

unfoldable pub run : Context → ℕ → List (ℕ × Event) → Batch → Batch
unfolding step
run ctx max_concurrent [] b = b
run ctx max_concurrent (e ∷ es) b = run ctx max_concurrent es (step ctx max_concurrent e b)

unfoldable pub new_batch : Validator → List Text → Batch
new_batch v configs = record { validator = v; tasks = map ready configs; held = 0 }

-- The loop over the outcomes: what is a dictionary.
unfoldable pub results : List Task → List Validated
results [] = []
results (returned c (some r) ∷ ts) = r ∷ results ts
results (t ∷ ts) = results ts
