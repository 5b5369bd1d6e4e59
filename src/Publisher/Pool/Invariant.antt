-- ===== src/Publisher/Pool/Invariant.antt =====
-- Every item that is put into the queue, followed through the pool, and the count of `task_done`.
use config_manager.Prelude.{
  ℕ, zero, suc, ◌+◌, ◌≤◌, ◌<◌, ◌≢◌, ◌≡◌, ◌⊎◌, inl, inr, refl, ap, ◌∙◌, Bool, Option, none, some,
  List, [], ◌∷◌, ◌++◌, arith, length, length-append, Bool-cases,
}
use mathlib.Core.List.{append_assoc}
use config_manager.Pipeline.{PublishItem}
use config_manager.Publisher.Pool.{
  getting, resting, ended, crashed, sending, Pool, maxsize, held, Move, puts, gets, leaves,
  finishes, crashes, wakes, stops, Reach, here, next, put, get_item, leave, finish_item, crash,
  wake, stop_pool, new_pool, task_done, task_is_done, new_workers,
}
use config_manager.Publisher.Pool.Weights.{
  total, total-append, of_worker, of_entry, total-held, total-cancel, total-set_worker,
}

-- The first in is the first out, and the queue keeps its bound.
record IsFifo (p : Pool) : Type 0 where
  pub in_order : p.all_put ≡ p.taken ++ p.queue
  pub bounded : length p.queue ≤ maxsize

put-IsFifo :
    (p : Pool) (x : Option PublishItem) → length p.queue < maxsize → IsFifo p → IsFifo (put x p)
unfolding put
put-IsFifo p x room v = record {
  in_order =
      ap (λ (l : List (Option PublishItem)). l ++ x ∷ []) v.in_order
      ∙ append_assoc p.taken p.queue (x ∷ []);
  bounded = omega (arith, length-append p.queue (x ∷ []));
}

Move-IsFifo : {p q : Pool} → Move p q → IsFifo p → IsFifo q
unfolding put get_item leave finish_item crash wake stop_pool
Move-IsFifo (puts {p} item room) v = put-IsFifo p (some item) room v
Move-IsFifo (gets {p} i item rest g e) v = record {
  in_order =
      rw (append_assoc p.taken (some item ∷ []) rest)
        (v.in_order ∙ ap (λ (l : List (Option PublishItem)). p.taken ++ l) e);
  bounded = omega (arith, ap length e);
}
Move-IsFifo (leaves {p} i rest u g e d) v = record {
  in_order =
      rw (append_assoc p.taken (none ∷ []) rest)
        (v.in_order ∙ ap (λ (l : List (Option PublishItem)). p.taken ++ l) e);
  bounded = omega (arith, ap length e);
}
Move-IsFifo (finishes i item ok u g d) v = record { in_order = v.in_order; bounded = v.bounded }
Move-IsFifo (crashes i item g) v = record { in_order = v.in_order; bounded = v.bounded }
Move-IsFifo (wakes i g) v = record { in_order = v.in_order; bounded = v.bounded }
Move-IsFifo (stops {p} room) v = elim (Bool-cases (task_is_done p.workers)) [
  | inl over ↦ rw over (put-IsFifo p none room v)
  | inr live ↦
      let signalled = put-IsFifo p none room v in
      rw live (record { in_order = signalled.in_order; bounded = signalled.bounded })
]

task_done-some : (n u : ℕ) → task_done n ≡ some u → n ≡ suc u
unfolding task_done
task_done-some zero u d = ground arith
task_done-some (suc n) u d = ground arith

module _ (w : PublishItem → ℕ) where
  abbrev pub answer_weight : PublishItem × Bool → ℕ
  answer_weight a = w a.0

  -- What is taken is answered, in the hands of a worker, or dropped.
  abbrev IsKept : Pool → Type 0
  IsKept p =
      total (of_entry w) p.taken
      ≡ total answer_weight p.answered + total (of_worker w) p.workers + total w p.dropped

  Move-IsKept : {p q : Pool} → Move p q → IsKept p → IsKept q
  unfolding put get_item leave finish_item crash wake stop_pool total
  Move-IsKept (puts item room) v = v
  Move-IsKept (gets {p} i item rest g e) v = omega (
    arith,
    total-append (of_entry w) p.taken (some item ∷ []),
    total-set_worker (of_worker w) p.workers i getting (sending item) g,
  )
  Move-IsKept (leaves {p} i rest u g e d) v = omega (
    arith,
    total-append (of_entry w) p.taken (none ∷ []),
    total-set_worker (of_worker w) p.workers i getting ended g,
  )
  Move-IsKept (finishes {p} i item ok u g d) v = omega (
    arith,
    total-append answer_weight p.answered ((item, ok) ∷ []),
    total-set_worker (of_worker w) p.workers i (sending item) resting g,
  )
  Move-IsKept (crashes {p} i item g) v = omega (
    arith,
    total-append w p.dropped (item ∷ []),
    total-set_worker (of_worker w) p.workers i (sending item) crashed g,
  )
  Move-IsKept (wakes {p} i g) v =
      omega (arith, total-set_worker (of_worker w) p.workers i resting getting g)
  Move-IsKept (stops {p} room) v = elim (Bool-cases (task_is_done p.workers)) [
    | inl over ↦ rw over v
    | inr live ↦ rw live (
        omega (
          arith,
          total-append w p.dropped (held p.workers),
          total-held w p.workers,
          total-cancel w p.workers,
        ))
  ]

abbrev one : PublishItem → ℕ
one item = 1

-- What `task_done` has to be called for.
abbrev IsCounted : Pool → Type 0
IsCounted p = p.unfinished ≡ length p.queue + total (of_worker one) p.workers + total one p.dropped

Move-IsCounted : {p q : Pool} → Move p q → IsCounted p → IsCounted q
unfolding put get_item leave finish_item crash wake stop_pool total task_done
Move-IsCounted (puts {p} item room) v = omega (arith, length-append p.queue (some item ∷ []))
Move-IsCounted (gets {p} i item rest g e) v =
    omega
      (arith, ap length e, total-set_worker (of_worker one) p.workers i getting (sending item) g)
Move-IsCounted (leaves {p} i rest u g e d) v = omega (
  arith,
  ap length e,
  task_done-some p.unfinished u d,
  total-set_worker (of_worker one) p.workers i getting ended g,
)
Move-IsCounted (finishes {p} i item ok u g d) v = omega (
  arith,
  task_done-some p.unfinished u d,
  total-set_worker (of_worker one) p.workers i (sending item) resting g,
)
Move-IsCounted (crashes {p} i item g) v = omega (
  arith,
  total-append one p.dropped (item ∷ []),
  total-set_worker (of_worker one) p.workers i (sending item) crashed g,
)
Move-IsCounted (wakes {p} i g) v =
    omega (arith, total-set_worker (of_worker one) p.workers i resting getting g)
Move-IsCounted (stops {p} room) v = elim (Bool-cases (task_is_done p.workers)) [
  | inl over ↦ rw over (omega (arith, length-append p.queue (none ∷ [])))
  | inr live ↦ rw live (
      omega (
        arith,
        length-append p.queue (none ∷ []),
        total-append one p.dropped (held p.workers),
        total-held one p.workers,
        total-cancel one p.workers,
      ))
]

Reach-IsFifo : {p : Pool} → Reach new_pool p → IsFifo p
unfolding new_pool
Reach-IsFifo here = record { in_order = refl; bounded = omega arith }
Reach-IsFifo (next r s) = Move-IsFifo s (Reach-IsFifo r)

Reach-IsKept : (w : PublishItem → ℕ) {p : Pool} → Reach new_pool p → IsKept w p
unfolding new_pool total new_workers
Reach-IsKept w here = refl
Reach-IsKept w (next r s) = Move-IsKept w s (Reach-IsKept w r)

Reach-IsCounted : {p : Pool} → Reach new_pool p → IsCounted p
unfolding new_pool total new_workers
Reach-IsCounted here = refl
Reach-IsCounted (next r s) = Move-IsCounted s (Reach-IsCounted r)

-- In such a pool every item that was put is, as often as it was put, in the queue, or in the hands of a worker, or its
-- sending has returned or was broken off: for any weights of the items, the sum of what was put is that of these four.
pub Reach-conserved :
    {p : Pool} (w : PublishItem → ℕ)
    → Reach new_pool p
    → total (of_entry w) p.all_put
      ≡ total (of_entry w) p.queue
        + total w (held p.workers)
        + total (answer_weight w) p.answered
        + total w p.dropped
Reach-conserved {p} w r =
    let v = Reach-IsFifo r in
    omega (
      arith,
      ap (total (of_entry w)) v.in_order,
      total-append (of_entry w) p.taken p.queue,
      total-held w p.workers,
      Reach-IsKept w r,
    )

task_done-none : (n : ℕ) → task_done n ≡ none → n ≡ 0
unfolding task_done
task_done-none zero e = refl
task_done-none (suc n) e = ground arith

length-pos {ℓ} : {A : Type ℓ} (xs : List A) → xs ≢ [] → 1 ≤ length xs
length-pos [] h = absurd (h refl)
length-pos (x ∷ xs) h = omega arith

total-one : (xs : List PublishItem) → xs ≢ [] → 1 ≤ total one xs
unfolding total
total-one [] h = absurd (h refl)
total-one (x ∷ xs) h = omega arith

-- In such a pool `task_done` raises no exception, neither for a worker that has sent an item nor for one that takes the
-- signal.
pub Reach-task_done :
    {p : Pool}
    → Reach new_pool p
    → (held p.workers ≢ []) ⊎ (p.queue ≢ [])
    → task_done p.unfinished ≢ none
unfolding task_done
Reach-task_done {p} r busy e =
    let v = Reach-IsCounted r in
    let same = total-held one p.workers in
    elim busy [
      | inl sends ↦
          absurd (omega (arith, task_done-none p.unfinished e, total-one (held p.workers) sends))
      | inr queued ↦
          absurd (omega (arith, task_done-none p.unfinished e, length-pos p.queue queued))
    ]
