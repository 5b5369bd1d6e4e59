-- ===== src/Utils/Limiter.antt =====
-- core/utils.py, `_GeoRateLimiter`. Times count tenths of a second.
use mathlib.Core.Path.{subst}
use config_manager.Prelude.{
  sym, ap, ◌∙◌, false, List-cases, length-filter_where-le, ltb→lt, leb→le, ℕ, ◌+◌, ◌-◌, ◌≤◌, ◌<◌,
  ◌≡◌, refl, ◌⊎◌, inl, inr, Option, none, some, List, [], ◌∷◌, ◌++◌, length, length-append,
  filter_where, filter_where-All, All, ltb, leb, true, if◌then◌else◌, Bool-cases, arith,
}

-- `[t for t in self._timestamps if now - t < 60]`
unfoldable pub recent : ℕ → List ℕ → List ℕ
recent now timestamps = filter_where (λ t. ltb now (t + 600)) timestamps

-- the wait until 0.1 seconds after the oldest call leaves the minute; `none` is an IndexError.
unfoldable pub wait_for : ℕ → ℕ → List ℕ → Option (ℕ × List ℕ)
wait_for now later [] = none
wait_for now later (oldest ∷ rest) = some (oldest + 601 - now, later ∷ [])

-- `acquire`, begun at `now`, with the clock at `later` when the call is recorded: how long it sleeps,
-- and the calls recorded. The lock lets one call run at a time.
unfoldable pub acquire : ℕ → ℕ → ℕ → List ℕ → Option (ℕ × List ℕ)
unfolding recent wait_for
acquire calls_per_minute now later timestamps =
    let kept = recent now timestamps in
    let granted = some (0, kept ++ later ∷ []) in
    if leb calls_per_minute (length kept) then wait_for now later kept else granted

-- A call that is granted to a limiter that knows the calls `timestamps`: how long it sleeps, and what it records. When it is
-- granted fewer calls than the limit are younger than a minute. It has slept no longer than until 0.1 seconds after the
-- oldest call that was younger than a minute reached this age, and not at all if there was room.
abbrev pub Granted : ℕ → ℕ → ℕ → List ℕ → Option (ℕ × List ℕ) → Type 0
Granted calls_per_minute now later timestamps result =
    (wait : ℕ) × ((recorded : List ℕ) × ((result ≡ some (wait, recorded))
        × ((length recorded ≤ calls_per_minute)
            × ((length (recent (now + wait) timestamps) < calls_per_minute)
                × (((wait ≡ 0) × (recorded ≡ recent now timestamps ++ later ∷ []))
                    ⊎ ((oldest : ℕ) × ((rest : List ℕ) × ((recent now timestamps ≡ oldest ∷ rest)
                            × ((calls_per_minute ≤ length (oldest ∷ rest))
                                × (now + wait ≡ oldest + 601))))))))))

-- Later fewer calls are recent.
recent-le :
    (now wait : ℕ) (timestamps : List ℕ)
    → length (recent (now + wait) timestamps) ≤ length (recent now timestamps)
unfolding recent filter_where
recent-le now wait [] = omega arith
recent-le now wait (t ∷ ts) = elim (Bool-cases (ltb (now + wait) (t + 600))) [
  | inl e ↦
      let young : ltb now (t + 600) ≡ true = ground (arith, e) in
      rw (e, young) (omega (arith, recent-le now wait ts))
  | inr e ↦ elim (Bool-cases (ltb now (t + 600))) [
    | inl f ↦ rw (e, f) (omega (arith, recent-le now wait ts))
    | inr f ↦ rw (e, f) (recent-le now wait ts)
  ]
]

-- They are fewer by one at least when the oldest is no longer recent.
recent-lt :
    (now wait oldest : ℕ) (rest timestamps : List ℕ)
    → recent now timestamps ≡ oldest ∷ rest
    → oldest + 600 ≤ now + wait
    → length (recent (now + wait) timestamps) < length (oldest ∷ rest)
unfolding recent filter_where
recent-lt now wait oldest rest [] h old = cc
recent-lt now wait oldest rest (t ∷ ts) h old = elim (Bool-cases (ltb now (t + 600))) [
  | inl f ↦
      let kept : t ∷ recent now ts ≡ oldest ∷ rest = sym (rw f refl) ∙ h in
      let first : t ≡ oldest = cc in
      let others : recent now ts ≡ rest = cc in
      let gone : ltb (now + wait) (t + 600) ≡ false = ground (arith, first, old) in
      rw gone (omega (arith, recent-le now wait ts, ap length others))
  | inr f ↦
      let kept : recent now ts ≡ oldest ∷ rest = sym (rw f refl) ∙ h in
      let gone : ltb (now + wait) (t + 600) ≡ false = ground (arith, f) in
      rw gone (recent-lt now wait oldest rest ts kept old)
]

first_young :
    (now oldest : ℕ) (rest timestamps : List ℕ)
    → recent now timestamps ≡ oldest ∷ rest
    → now < oldest + 600
unfolding recent
first_young now oldest rest timestamps h =
    let fresh : All (λ t. ltb now (t + 600) ≡ true) (oldest ∷ rest) =
      subst (All (λ t. ltb now (t + 600) ≡ true)) h
        (filter_where-All (λ t. ltb now (t + 600)) timestamps) in
    ltb→lt now (oldest + 600) fresh.0

recent_le : (now : ℕ) (timestamps : List ℕ) → length (recent now timestamps) ≤ length timestamps
unfolding recent
recent_le now timestamps = length-filter_where-le (λ t. ltb now (t + 600)) timestamps

-- With a limit of at least one, and no more calls recorded than the limit, a call is always granted, and no more calls
-- than the limit are recorded after it. When it is granted, at once or after its sleep, fewer of the recorded calls than
-- the limit are younger than a minute; it sleeps only if there was no room, and then until 0.1 seconds after the first of
-- the recent calls is a minute old.
pub acquire-Granted :
    (calls_per_minute now later : ℕ) (timestamps : List ℕ)
    → 1 ≤ calls_per_minute
    → length timestamps ≤ calls_per_minute
    → Granted calls_per_minute now later timestamps (acquire calls_per_minute now later timestamps)
unfolding acquire wait_for
acquire-Granted limit now later timestamps one bound =
    elim (Bool-cases (leb limit (length (recent now timestamps)))) [
      | inl full ↦ elim (List-cases (recent now timestamps)) [
        | inl none_recent ↦ absurd (ground (arith, full, none_recent, one))
        | inr (oldest, (rest, some_recent)) ↦
            let enough : limit ≤ length (recent now timestamps) = leb→le limit _ full in
            let many : limit ≤ length (oldest ∷ rest) =
              omega (arith, ap length some_recent, enough) in
            let young : now < oldest + 600 = first_young now oldest rest timestamps some_recent in
            let few : length (oldest ∷ rest) ≤ limit =
              omega (arith, ap length some_recent, recent_le now timestamps, bound) in
            (
              oldest + 601 - now,
              (
                later ∷ [],
                (
                  rw (full, some_recent) refl,
                  (
                    omega arith,
                    (
                      omega (
                        arith,
                        recent-lt now (oldest + 601 - now) oldest rest timestamps some_recent
                            (omega arith),
                        few,
                      ),
                      inr (oldest, (rest, (some_recent, (many, omega arith)))),
                    ),
                  ),
                ),
              ),
            )
      ]
      | inr room ↦
          let few : length (recent now timestamps) < limit = ground (arith, room) in
          (
            0,
            (
              recent now timestamps ++ later ∷ [],
              (
                rw room refl,
                (
                  omega (arith, length-append (recent now timestamps) (later ∷ []), few),
                  (omega (arith, recent-le now 0 timestamps, few), inl (refl, refl)),
                ),
              ),
            ),
          )
    ]
