-- ===== src/Publisher/Pool/Weights.antt =====
-- Sums over lists, by which items are counted: a sum for every weight tells the items and how often each is there.
use config_manager.Prelude.{
  ℕ, zero, suc, ◌+◌, ◌≡◌, refl, Option, none, some, List, [], ◌∷◌, ◌++◌, map, arith, get_elem?,
}
use config_manager.Pipeline.{PublishItem}
use config_manager.Publisher.Pool.{
  Worker, getting, resting, ended, crashed, cancelled, sending, set_worker, held, cancel,
}

module _ {ℓ} {A : Type ℓ} where
  unfoldable pub total : (A → ℕ) → List A → ℕ
  total w [] = 0
  total w (x ∷ xs) = w x + total w xs

  pub total-append : (w : A → ℕ) (xs ys : List A) → total w (xs ++ ys) ≡ total w xs + total w ys
  unfolding total
  total-append w [] ys = omega arith
  total-append w (x ∷ xs) ys = omega (arith, total-append w xs ys)

module _ (w : PublishItem → ℕ) where
  -- the weight of what a worker holds
  abbrev pub of_worker : Worker → ℕ
  of_worker (sending item) = w item
  of_worker getting = 0
  of_worker resting = 0
  of_worker ended = 0
  of_worker crashed = 0
  of_worker cancelled = 0

  -- the weight of an entry of the queue
  abbrev pub of_entry : Option PublishItem → ℕ
  of_entry none = 0
  of_entry (some item) = w item

  pub total-held : (ws : List Worker) → total w (held ws) ≡ total of_worker ws
  unfolding total held
  total-held [] = refl
  total-held (getting ∷ ws) = omega (arith, total-held ws)
  total-held (resting ∷ ws) = omega (arith, total-held ws)
  total-held (ended ∷ ws) = omega (arith, total-held ws)
  total-held (crashed ∷ ws) = omega (arith, total-held ws)
  total-held (cancelled ∷ ws) = omega (arith, total-held ws)
  total-held (sending item ∷ ws) = omega (arith, total-held ws)

  pub total-cancel : (ws : List Worker) → total of_worker (map cancel ws) ≡ 0
  unfolding total cancel
  total-cancel [] = refl
  total-cancel (getting ∷ ws) = omega (arith, total-cancel ws)
  total-cancel (resting ∷ ws) = omega (arith, total-cancel ws)
  total-cancel (ended ∷ ws) = omega (arith, total-cancel ws)
  total-cancel (crashed ∷ ws) = omega (arith, total-cancel ws)
  total-cancel (cancelled ∷ ws) = omega (arith, total-cancel ws)
  total-cancel (sending item ∷ ws) = omega (arith, total-cancel ws)

-- What a change of one worker adds to a sum, and what it takes.
pub total-set_worker :
    (v : Worker → ℕ) (ws : List Worker) (i : ℕ) (old new : Worker)
    → get_elem? ws i ≡ some old
    → total v (set_worker ws i new) + v old ≡ total v ws + v new
unfolding total set_worker
total-set_worker v [] i old new h = ground arith
total-set_worker v (x ∷ ws) zero old new h = ground arith
total-set_worker v (x ∷ ws) (suc i) old new h = ground (arith, total-set_worker v ws i old new h)
