-- ===== src/Database/Retry.antt =====
-- database/connection.py, `with_retry`: an operation is called again after a lost connection.
use config_manager.Prelude.{refl, sym, ◌-◌, ℕ, zero, suc, ◌+◌, ◌≤◌, ◌<◌, ◌≡◌, ◌⊎◌, inl, inr, arith}

-- What a call of the operation gives: a value, `DisconnectionError` or `OperationalError`, or another
-- exception.
pub data Outcome {ℓ} (A : Type ℓ) : Type ℓ where
  value : A → Outcome A
  lost : Outcome A
  other : Outcome A

-- What is returned or raised, and the number of calls; the first argument is those of the attempts
-- that follow.
unfoldable pub after_call {ℓ} : {A : Type ℓ} → Outcome A × ℕ → Outcome A → Outcome A × ℕ
after_call next (value a) = (value a, 1)
after_call (result, calls) lost = (result, suc calls)
after_call next other = (other, 1)

-- `for attempt in range(max_retries + 1)`, from an attempt on, with `left` further ones
unfoldable pub retry_from {ℓ} : {A : Type ℓ} → (ℕ → Outcome A) → ℕ → ℕ → Outcome A × ℕ
unfolding after_call
retry_from call attempt zero = (call attempt, 1)
retry_from call attempt (suc left) = after_call (retry_from call (attempt + 1) left) (call attempt)

unfoldable pub with_retry {ℓ} : {A : Type ℓ} → (ℕ → Outcome A) → ℕ → Outcome A × ℕ
unfolding retry_from
with_retry call max_retries = retry_from call 0 max_retries

-- the connection was not lost
abbrev pub Settled {ℓ} : {A : Type ℓ} → Outcome A → Type 0
Settled (value a) = Unit
Settled lost = 0 < 0
Settled other = Unit

eq_or_lt : (a k : ℕ) → a ≤ k → (a ≡ k) ⊎ (a < k)
eq_or_lt a k h = ground arith

after_call-Settled {ℓ} :
    {A : Type ℓ} (next : Outcome A × ℕ) (o : Outcome A) → Settled o → after_call next o ≡ (o, 1)
unfolding after_call
after_call-Settled next (value a) s = refl
after_call-Settled next lost s = absurd (omega arith)
after_call-Settled next other s = refl

module _ {ℓ} {A : Type ℓ} (call : ℕ → Outcome A) where
  retry_from-first :
      (a left k : ℕ) (o : Outcome A)
      → a ≤ k
      → k ≤ a + left
      → ((j : ℕ) → a ≤ j → j < k → call j ≡ lost)
      → call k ≡ o
      → Settled o
      → (calls : ℕ) → a + calls ≡ k + 1
      → retry_from call a left ≡ (o, calls)
  unfolding retry_from
  retry_from-first a zero k o ak ka before found settled calls e =
      let ek : a ≡ k = omega arith in let ec : calls ≡ 1 = omega arith in rw (ek, ec, found)
  retry_from-first a (suc left) k o ak ka before found settled calls e = elim (eq_or_lt a k ak) [
    | inl ek ↦
        let ec : calls ≡ 1 = omega arith in
        rw (ek, ec, found) (after_call-Settled (retry_from call (k + 1) left) o settled)
    | inr lt ↦
        let ec : calls ≡ suc (calls - 1) = omega arith in
        rw
          (
            before a (omega arith) lt,
            retry_from-first (a + 1) left k o (omega arith) (omega arith)
                (λ j aj jk. before j (omega arith) jk) found settled (calls - 1) (omega arith),
          )
          (rw (sym ec) (unfold after_call in refl))
  ]

  retry_from-none :
      (a left : ℕ)
      → ((j : ℕ) → a ≤ j → j ≤ a + left → call j ≡ lost)
      → retry_from call a left ≡ (lost, left + 1)
  unfolding retry_from after_call
  retry_from-none a zero all =
      rw (all a (omega arith) (omega arith)) (let e : 0 + 1 ≡ 1 = omega arith in rw e)
  retry_from-none a (suc left) all =
      let e : suc (left + 1) ≡ suc left + 1 = omega arith in
      rw (
        all a (omega arith) (omega arith),
        retry_from-none (a + 1) left (λ j aj jl. all j (omega arith) (omega arith)),
        e,
      )

  -- The first call whose connection is not lost, among the first `max_retries + 1`, decides: its value
  -- is returned or its exception raised, and there is no call after it. When the connection is lost in all of
  -- them, that is raised, after `max_retries + 1` calls.
  pub with_retry-first :
      (max_retries : ℕ)
      → ((k : ℕ) (o : Outcome A)
          → k ≤ max_retries
          → ((j : ℕ) → j < k → call j ≡ lost)
          → call k ≡ o
          → Settled o
          → with_retry call max_retries ≡ (o, k + 1))
        × (((j : ℕ) → j ≤ max_retries → call j ≡ lost)
            → with_retry call max_retries ≡ (lost, max_retries + 1))
  unfolding with_retry
  with_retry-first max_retries = (
    λ k o le before found settled.
        retry_from-first 0 max_retries k o (omega arith) (omega arith) (λ j _ jk. before j jk) found
          settled (k + 1) (omega arith),
    λ all. retry_from-none 0 max_retries (λ j _ jl. all j (omega arith)),
  )
