-- ===== src/Validator/Race.antt =====
-- How many validations run at once, and two validations whose configs have one hash.
use config_manager.Prelude.{
  member-here, sym, map, ℕ, zero, suc, ◌≤◌, ◌≡◌, refl, true, false, none, some, List, [], ◌∷◌,
  member, arith, ltb, Bool-cases, inl, inr, ◌==◌, ◌+◌, ◌∙◌, ap,
}
use config_manager.Prelude.Text.{Text, text_eq}
use config_manager.Utils.Codec.{truthy, str}
use config_manager.Utils.Host.{extract_host}
use config_manager.Utils.Protocol.{detect_protocol, unknown_name}
use config_manager.Validator.{
  turn, turn_at, release, Context, Validator, Task, ready, fetching, returned, raised, hash_of,
  accepted, Event, start, arrived, cached, Batch, begin, locate, look_up, finish, resume, advance,
  advance_at, step, run, new_batch, results, running,
}

release-running :
    (n : ℕ) (t : Task) (ts : List Task) → release t (suc (n + running ts)) ≡ n + running (t ∷ ts)
unfolding release running
release-running n (ready c) ts = omega arith
release-running n (fetching c h) ts = omega arith
release-running n (returned c o) ts = omega arith
release-running n (raised c) ts = omega arith

turn-running :
    (ctx : Context) (v : Validator) (e : Event) (n : ℕ) (t : Task) (ts : List Task)
    → turn ctx v e t (n + running (t ∷ ts)) ≡ n + running ((advance ctx v e t).0 ∷ ts)
unfolding turn advance running release resume finish
turn-running ctx v start n (ready c) ts = release-running n (begin ctx v c).0 ts
turn-running ctx v start n (fetching c h) ts = refl
turn-running ctx v start n (returned c o) ts = refl
turn-running ctx v start n (raised c) ts = refl
turn-running ctx v (arrived country) n (ready c) ts = refl
turn-running ctx v (arrived country) n (fetching c h) ts = omega arith
turn-running ctx v (arrived country) n (returned c o) ts = refl
turn-running ctx v (arrived country) n (raised c) ts = refl

turn_at-running :
    (ctx : Context) (v : Validator) (e : Event) (i n : ℕ) (ts : List Task)
    → turn_at ctx v e i ts (n + running ts) ≡ n + running (advance_at ctx v e i ts).0
unfolding turn_at advance_at running
turn_at-running ctx v e i n [] = refl
turn_at-running ctx v e zero n (t ∷ ts) = turn-running ctx v e n t ts
turn_at-running ctx v e (suc i) n (ready c ∷ ts) = turn_at-running ctx v e i n ts
turn_at-running ctx v e (suc i) n (fetching c h ∷ ts) =
    let more : suc n + running ts ≡ n + suc (running ts) = omega arith in
    let moved : suc n + running (advance_at ctx v e i ts).0
        ≡ n + suc (running (advance_at ctx v e i ts).0) =
      omega arith in
    ap (turn_at ctx v e i ts) (sym more) ∙ turn_at-running ctx v e i (suc n) ts ∙ moved
turn_at-running ctx v e (suc i) n (returned c o ∷ ts) = turn_at-running ctx v e i n ts
turn_at-running ctx v e (suc i) n (raised c ∷ ts) = turn_at-running ctx v e i n ts

-- What the semaphore has given out is what runs, and no more than it may give out.
abbrev Bounded : ℕ → Batch → Type 0
Bounded m b = (b.held ≡ running b.tasks) × (b.held ≤ m)

release-le : (t : Task) (held : ℕ) → release t held ≤ held
unfolding release
release-le (ready c) held = omega arith
release-le (fetching c h) held = omega arith
release-le (returned c o) held = omega arith
release-le (raised c) held = omega arith

start-le :
    (ctx : Context) (v : Validator) (i : ℕ) (ts : List Task) (held : ℕ)
    → turn_at ctx v start i ts held ≤ suc held
unfolding turn_at turn
start-le ctx v i [] held = omega arith
start-le ctx v zero (ready c ∷ ts) held = release-le (begin ctx v c).0 (suc held)
start-le ctx v zero (fetching c h ∷ ts) held = omega arith
start-le ctx v zero (returned c o ∷ ts) held = omega arith
start-le ctx v zero (raised c ∷ ts) held = omega arith
start-le ctx v (suc i) (t ∷ ts) held = start-le ctx v i ts held

arrived-le :
    (ctx : Context) (v : Validator) (country : Text) (i : ℕ) (ts : List Task) (held : ℕ)
    → turn_at ctx v (arrived country) i ts held ≤ held
unfolding turn_at turn
arrived-le ctx v country i [] held = omega arith
arrived-le ctx v country zero (ready c ∷ ts) held = omega arith
arrived-le ctx v country zero (fetching c h ∷ ts) held =
    release-le (resume ctx v c h country).0 held
arrived-le ctx v country zero (returned c o ∷ ts) held = omega arith
arrived-le ctx v country zero (raised c ∷ ts) held = omega arith
arrived-le ctx v country (suc i) (t ∷ ts) held = arrived-le ctx v country i ts held

turned-running :
    (ctx : Context) (e : Event) (i : ℕ) (b : Batch)
    → b.held ≡ running b.tasks
    → turn_at ctx b.validator e i b.tasks b.held
      ≡ running (advance_at ctx b.validator e i b.tasks).0
turned-running ctx e i b h =
    let before : b.held ≡ 0 + running b.tasks = omega arith in
    let after : 0 + running (advance_at ctx b.validator e i b.tasks).0
        ≡ running (advance_at ctx b.validator e i b.tasks).0 =
      omega arith in
    ap (turn_at ctx b.validator e i b.tasks) before
    ∙ turn_at-running ctx b.validator e i 0 b.tasks
    ∙ after

step-Bounded :
    (ctx : Context) (m : ℕ) (e : ℕ × Event) (b : Batch) → Bounded m b → Bounded m (step ctx m e b)
unfolding step
step-Bounded ctx m (i, start) b h = elim (Bool-cases (ltb b.held m)) [
  | inl e ↦
      rw e (
        turned-running ctx start i b h.0,
        ground (arith, start-le ctx b.validator i b.tasks b.held),
      )
  | inr e ↦ rw e h
]
step-Bounded ctx m (i, arrived country) b h = (
  turned-running ctx (arrived country) i b h.0,
  omega (arith, arrived-le ctx b.validator country i b.tasks b.held, h.1),
)

run-Bounded :
    (ctx : Context) (m : ℕ) (events : List (ℕ × Event)) (b : Batch)
    → Bounded m b
    → Bounded m (run ctx m events b)
unfolding run
run-Bounded ctx m [] b h = h
run-Bounded ctx m (e ∷ es) b h = run-Bounded ctx m es (step ctx m e b) (step-Bounded ctx m e b h)

none_runs : (cs : List Text) → running (map ready cs) ≡ 0
unfolding running
none_runs [] = refl
none_runs (c ∷ cs) = none_runs cs

-- The semaphore counts what runs: at any time of a batch it has been given out as often as there are validations that
-- have begun and not ended, whether the ended ones returned or raised an exception, and these are `max_concurrent` at most.
pub run-running :
    (ctx : Context) (max_concurrent : ℕ) (events : List (ℕ × Event)) (v : Validator)
    (configs : List Text)
    → let b = run ctx max_concurrent events (new_batch v configs) in
      (b.held ≡ running b.tasks) × (running b.tasks ≤ max_concurrent)
unfolding new_batch
run-running ctx m events v configs =
    let (same, le) =
      run-Bounded ctx m events (new_batch v configs) (sym (none_runs configs), omega arith) in
    (same, omega (arith, same, le))

look_up-fetches :
    (ctx : Context) (v : Validator) (c : Text) (x : ℕ) (s : Text)
    → cached ctx (str (x ∷ s)) v.country_cache ≡ none
    → look_up ctx v c (str (x ∷ s)) ≡ (fetching c (str (x ∷ s)), v)
unfolding look_up
look_up-fetches ctx v c x s n = rw (n, look_up)

locate-fetches :
    (ctx : Context) (v : Validator) (c : Text) (x : ℕ) (s : Text)
    → cached ctx (str (x ∷ s)) v.country_cache ≡ none
    → locate ctx v c (some (str (x ∷ s))) ≡ (fetching c (str (x ∷ s)), v)
unfolding locate truthy
locate-fetches ctx v c x s n = look_up-fetches ctx v c x s n

begin-fetches :
    (ctx : Context) (v : Validator) (c : Text) (x : ℕ) (s : Text)
    → (detect_protocol ctx.unicode c == unknown_name) ≡ false
    → member (hash_of ctx c) v.seen_hashes ≡ false
    → extract_host ctx.codec c ≡ some (str (x ∷ s))
    → cached ctx (str (x ∷ s)) v.country_cache ≡ none
    → begin ctx v c ≡ (fetching c (str (x ∷ s)), v)
unfolding begin
begin-fetches ctx v c x s k m h n = rw (k, m, h) (locate-fetches ctx v c x s n)

begin-rejects :
    (ctx : Context) (v : Validator) (c : Text)
    → (detect_protocol ctx.unicode c == unknown_name) ≡ false
    → member (hash_of ctx c) v.seen_hashes ≡ true
    → begin ctx v c ≡ (returned c none, v)
unfolding begin
begin-rejects ctx v c k m = rw (k, m)

-- Of two configs with one hash, of a known protocol and a host whose country is not in the cache,
-- that begin before the first country arrives, both are accepted, although a validation that begins
-- after the other returned is rejected.
pub run-both_accepted :
    (ctx : Context) (v : Validator) (c d : Text) (x : ℕ) (s : Text) (country other : Text)
    → hash_of ctx c ≡ hash_of ctx d
    → (detect_protocol ctx.unicode c == unknown_name) ≡ false
    → (detect_protocol ctx.unicode d == unknown_name) ≡ false
    → member (hash_of ctx c) v.seen_hashes ≡ false
    → extract_host ctx.codec c ≡ some (str (x ∷ s))
    → extract_host ctx.codec d ≡ some (str (x ∷ s))
    → cached ctx (str (x ∷ s)) v.country_cache ≡ none
    → (results
          (run ctx 10
            ((0, start) ∷ (1, start) ∷ (0, arrived country) ∷ (1, arrived other) ∷ [])
            (new_batch v (c ∷ d ∷ []))).tasks
        ≡ accepted ctx c country ∷ accepted ctx d other ∷ [])
      × (results
            (run ctx 10
              ((0, start) ∷ (0, arrived country) ∷ (1, start) ∷ (1, arrived other) ∷ [])
              (new_batch v (c ∷ d ∷ []))).tasks
          ≡ accepted ctx c country ∷ [])
unfolding run step new_batch results advance_at advance resume finish turn_at turn release
run-both_accepted ctx v c d x s country other eh kc kd m hc hd nc =
    let bc : begin ctx v c ≡ (fetching c (str (x ∷ s)), v) = begin-fetches ctx v c x s kc m hc nc in
    let bd : begin ctx v d ≡ (fetching d (str (x ∷ s)), v) =
      begin-fetches ctx v d x s kd (rw (sym eh) m) hd nc in
    let w : Validator = record {
      seen_hashes = hash_of ctx c ∷ v.seen_hashes;
      country_cache = (str (x ∷ s), country) ∷ v.country_cache;
    } in
    let br : begin ctx w d ≡ (returned d none, w) =
      begin-rejects ctx w d kd (rw (sym eh) (member-here (hash_of ctx c) v.seen_hashes)) in
    (rw (bc, bd) refl, rw (bc, br) refl)
