-- ===== src/Publisher/Pool/Stopping.antt =====
-- What follows `stop`: the signal that it puts is not taken any more, since the workers are cancelled at once.
use config_manager.Prelude.{
  ℕ, zero, suc, ◌≡◌, refl, true, false, some, List, [], ◌∷◌, map, arith, get_elem?,
}
use config_manager.Publisher.Pool.{
  Worker, getting, resting, ended, crashed, cancelled, sending, Pool, held, cancel, has_ended,
  all_ended, Move, puts, gets, leaves, finishes, crashes, wakes, stops, Reach, here, next, put,
  stop_pool, task_is_done,
}

all_ended-cancel : (ws : List Worker) → all_ended (map cancel ws) ≡ true
unfolding all_ended cancel
all_ended-cancel [] = refl
all_ended-cancel (getting ∷ ws) = all_ended-cancel ws
all_ended-cancel (resting ∷ ws) = all_ended-cancel ws
all_ended-cancel (ended ∷ ws) = all_ended-cancel ws
all_ended-cancel (crashed ∷ ws) = all_ended-cancel ws
all_ended-cancel (cancelled ∷ ws) = all_ended-cancel ws
all_ended-cancel (sending item ∷ ws) = all_ended-cancel ws

held-all_ended : (ws : List Worker) → all_ended ws ≡ true → held ws ≡ []
unfolding all_ended held
held-all_ended [] h = refl
held-all_ended (getting ∷ ws) h = ground arith
held-all_ended (resting ∷ ws) h = ground arith
held-all_ended (ended ∷ ws) h = held-all_ended ws h
held-all_ended (crashed ∷ ws) h = held-all_ended ws h
held-all_ended (cancelled ∷ ws) h = held-all_ended ws h
held-all_ended (sending item ∷ ws) h = ground arith

-- each of the workers has ended
has_ended-get_elem? :
    (ws : List Worker) (i : ℕ) (w : Worker)
    → all_ended ws ≡ true
    → get_elem? ws i ≡ some w
    → has_ended w ≡ true
unfolding all_ended
has_ended-get_elem? [] i w all g = ground arith
has_ended-get_elem? (x ∷ ws) zero w all g = ground arith
has_ended-get_elem? (x ∷ ws) (suc i) w all g = has_ended-get_elem? ws i w (ground arith) g

-- What a pool whose workers have ended does not change.
record IsOver (p q : Pool) : Type 0 where
  over : all_ended q.workers ≡ true
  same_taken : q.taken ≡ p.taken
  same_answered : q.answered ≡ p.answered

Move-IsOver : {p q r : Pool} → Move q r → IsOver p q → IsOver p r
unfolding put stop_pool task_is_done has_ended
Move-IsOver (puts item room) v = record {
  over = v.over;
  same_taken = v.same_taken;
  same_answered = v.same_answered;
}
Move-IsOver (gets {p = q} i item rest g e) v =
    ground (arith, has_ended-get_elem? q.workers i getting v.over g)
Move-IsOver (leaves {p = q} i rest u g e d) v =
    ground (arith, has_ended-get_elem? q.workers i getting v.over g)
Move-IsOver (finishes {p = q} i item ok u g d) v =
    ground (arith, has_ended-get_elem? q.workers i (sending item) v.over g)
Move-IsOver (crashes {p = q} i item g) v =
    ground (arith, has_ended-get_elem? q.workers i (sending item) v.over g)
Move-IsOver (wakes {p = q} i g) v = ground (arith, has_ended-get_elem? q.workers i resting v.over g)
Move-IsOver (stops {p = q} room) v = ground (arith, v.over)

Reach-IsOver : {p q r : Pool} → IsOver p q → Reach q r → IsOver p r
Reach-IsOver v here = v
Reach-IsOver v (next r s) = Move-IsOver s (Reach-IsOver v r)

stop_pool-IsOver : (p : Pool) → task_is_done p.workers ≡ false → IsOver p (stop_pool p)
unfolding stop_pool put
stop_pool-IsOver p live = record {
  over = rw live (all_ended-cancel p.workers);
  same_taken = rw live refl;
  same_answered = rw live refl;
}

-- If `stop` is called while the pool runs, then whatever happens after it, nothing is taken from the queue any more, not
-- even the signal that `stop` put, no message is answered, and nothing is being sent.
pub stop_pool-final :
    (p : Pool) {q : Pool}
    → task_is_done p.workers ≡ false
    → Reach (stop_pool p) q
    → (q.taken ≡ p.taken) × ((q.answered ≡ p.answered) × (held q.workers ≡ []))
stop_pool-final p {q} live r =
    let v = Reach-IsOver (stop_pool-IsOver p live) r in
    (v.same_taken, (v.same_answered, held-all_ended q.workers v.over))
