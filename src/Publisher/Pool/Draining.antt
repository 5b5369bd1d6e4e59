-- ===== src/Publisher/Pool/Draining.antt =====
-- One worker that is left alone with the queue empties it.
use config_manager.Prelude.{
  ℕ, zero, suc, ◌≢◌, ◌≡◌, refl, sym, ap, ◌∙◌, inl, inr, Bool, Option, some, List, [], ◌∷◌, ◌++◌,
  map, arith, get_elem?, Option-cases,
}
use mathlib.Core.List.{append_assoc, append-nil}
use config_manager.Pipeline.{PublishItem}
use config_manager.Publisher.Pool.{
  Worker, getting, resting, ended, crashed, cancelled, sending, Pool, set_worker, held, gets,
  finishes, wakes, Reach, here, next, get_item, finish_item, wake, new_pool, task_done,
}
use config_manager.Publisher.Pool.Invariant.{Reach-task_done}

get_elem?-set_worker :
    (ws : List Worker) (i : ℕ) (old new : Worker)
    → get_elem? ws i ≡ some old
    → get_elem? (set_worker ws i new) i ≡ some new
unfolding set_worker
get_elem?-set_worker [] i old new g = ground arith
get_elem?-set_worker (w ∷ ws) zero old new g = refl
get_elem?-set_worker (w ∷ ws) (suc i) old new g = get_elem?-set_worker ws i old new g

held-ne-nil :
    (ws : List Worker) (i : ℕ) (item : PublishItem)
    → get_elem? ws i ≡ some (sending item)
    → held ws ≢ []
unfolding held
held-ne-nil [] i item g e = ground arith
held-ne-nil (sending x ∷ ws) i item g e = ground arith
held-ne-nil (getting ∷ ws) zero item g e = ground arith
held-ne-nil (getting ∷ ws) (suc i) item g e = held-ne-nil ws i item g e
held-ne-nil (resting ∷ ws) zero item g e = ground arith
held-ne-nil (resting ∷ ws) (suc i) item g e = held-ne-nil ws i item g e
held-ne-nil (ended ∷ ws) zero item g e = ground arith
held-ne-nil (ended ∷ ws) (suc i) item g e = held-ne-nil ws i item g e
held-ne-nil (crashed ∷ ws) zero item g e = ground arith
held-ne-nil (crashed ∷ ws) (suc i) item g e = held-ne-nil ws i item g e
held-ne-nil (cancelled ∷ ws) zero item g e = ground arith
held-ne-nil (cancelled ∷ ws) (suc i) item g e = held-ne-nil ws i item g e

Reach-trans : {p q r : Pool} → Reach p q → Reach q r → Reach p r
Reach-trans a here = a
Reach-trans a (next b s) = next (Reach-trans a b) s

-- Where a round leads to.
record Round (p : Pool) (i : ℕ) (item : PublishItem) (ok : Bool) (rest : List (Option PublishItem))
    : Type 0 where
  after : Pool
  reached : Reach p after
  waits : get_elem? after.workers i ≡ some getting
  left : after.queue ≡ rest
  sent : after.answered ≡ p.answered ++ (item, ok) ∷ []

round :
    {p : Pool} (i : ℕ) (item : PublishItem) (ok : Bool) (rest : List (Option PublishItem))
    → Reach new_pool p
    → get_elem? p.workers i ≡ some getting
    → p.queue ≡ some item ∷ rest
    → Round p i item ok rest
round {p} i item ok rest r g e =
    let one = get_item i item rest p in
    let to_one : Reach p one = next here (gets i item rest g e) in
    let holds : get_elem? one.workers i ≡ some (sending item) =
      unfold get_item in get_elem?-set_worker p.workers i getting (sending item) g in
    elim (Option-cases (task_done one.unfinished)) [
      | inl fails ↦ absurd (
          Reach-task_done (Reach-trans r to_one) (inl (held-ne-nil one.workers i item holds)) fails)
      | inr (u, done) ↦
          let two = finish_item i item ok u one in
          let rests : get_elem? two.workers i ≡ some resting =
            unfold finish_item in get_elem?-set_worker one.workers i (sending item) resting holds in
          record {
            after = wake i two;
            reached = next (next to_one (finishes i item ok u holds done)) (wakes i rests);
            waits = unfold wake in get_elem?-set_worker two.workers i resting getting rests;
            left = unfold wake finish_item get_item in refl;
            sent = unfold wake finish_item get_item in refl;
          }
    ]

-- From any pool that the start leads to, with a worker that waits for an item and no signal in the queue, there is a way
-- to an empty queue on which each item of the queue is sent once, in its order, whatever the sending returns.
pub drain :
    (items : List PublishItem) (ok : PublishItem → Bool) (i : ℕ) {p : Pool}
    → Reach new_pool p
    → get_elem? p.workers i ≡ some getting
    → p.queue ≡ map some items
    → (q : Pool) × (Reach p q
        × ((q.queue ≡ []) × (q.answered ≡ p.answered ++ map (λ x. (x, ok x)) items)))
drain [] ok i {p} r g e = (p, (here, (e, sym (append-nil p.answered))))
drain (item ∷ items) ok i {p} r g e =
    let first = round i item (ok item) (map some items) r g e in
    let (q, (more, (empty, sent))) =
      drain items ok i {p = first.after} (Reach-trans r first.reached) first.waits first.left in
    (
      q,
      (
        Reach-trans first.reached more,
        (
          empty,
          sent
              ∙ ap
                  (λ (l : List (PublishItem × Bool)).
                    l ++ map (λ (x : PublishItem). (x, ok x)) items)
                  first.sent
              ∙ append_assoc p.answered ((item, ok item) ∷ [])
                  (map (λ (x : PublishItem). (x, ok x)) items),
        ),
      ),
    )
