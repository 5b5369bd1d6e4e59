-- ===== src/Publisher/Sending.antt =====
-- How often a message is sent, and when the result is true; what a worker takes from the queue.
use config_manager.Prelude.{
  ap, ◌∙◌, ◌≢◌, filter_where, ℕ, zero, suc, ◌+◌, ◌-◌, ◌≤◌, ◌≡◌, refl, Bool, true, false, Option,
  none, some, List, [], ◌∷◌, arith,
}
use config_manager.Pipeline.{PublishItem}
use config_manager.Publisher.{
  readable, broken, odd, Reply, answered, failed, crashed, Verdict, again, return, raise,
  on_failure, on_body, verdict, conclude, send_from, send_message, publish_max_retries, End,
  stopped, waiting, worker,
}

-- the reply has status 200
abbrev pub IsAccepted : Reply → Type 0
IsAccepted (answered status body) = status ≡ 200
IsAccepted failed = false ≡ true
IsAccepted crashed = false ≡ true

verdict-true : (b : Bool) (r : Reply) → verdict b r ≡ return true → IsAccepted r
unfolding verdict on_body on_failure
verdict-true b (answered status readable) h = ground arith
verdict-true b (answered status broken) h = ground arith
verdict-true b (answered status odd) h = ground arith
verdict-true b failed h = ground arith
verdict-true b crashed h = cc

accepted-verdict : (b : Bool) (r : Reply) → IsAccepted r → verdict b r ≡ return true
unfolding verdict on_body on_failure
accepted-verdict b (answered status body) h = ground arith
accepted-verdict b failed h = cc
accepted-verdict b crashed h = cc

final-verdict : (r : Reply) → verdict false r ≢ again
unfolding verdict on_body on_failure
final-verdict (answered status readable) h = ground arith
final-verdict (answered status broken) h = ground arith
final-verdict (answered status odd) h = ground arith
final-verdict failed h = cc
final-verdict crashed h = cc

-- What is known of a result and its number of requests, from a number of retries on.
abbrev Sent : (ℕ → Reply) → ℕ → ℕ → Option Bool × ℕ → Type 0
Sent reply k left (result, requests) =
    (1 ≤ requests)
    × ((requests ≤ left + 1)
        × (result ≡ some true → (j : ℕ) → j + 1 ≡ k + requests → IsAccepted (reply j)))

conclude-Sent :
    (reply : ℕ → Reply) (k left : ℕ) (b : Bool) (next : Option Bool × ℕ) (d : Verdict)
    → verdict b (reply k) ≡ d
    → (d ≡ again → (1 ≤ left) × Sent reply (k + 1) (left - 1) next)
    → Sent reply k left (conclude next d)
unfolding conclude
conclude-Sent reply k left b (result, requests) again e more =
    let (some_left, (one, (bound, ok))) = more refl in
    (omega arith, (omega arith, λ t j jk. ok t j (omega arith)))
conclude-Sent reply k left b next (return ok) e more = (
  omega arith,
  (
    omega arith,
    λ t j jk.
        let jk' : j ≡ k = omega arith in
        rw jk' (verdict-true b (reply k) (e ∙ ap return (some_inj t))),
  ),
)
  where
    some_inj : some ok ≡ some true → ok ≡ true
    some_inj h = cc
conclude-Sent reply k left b next raise e more = (omega arith, (omega arith, λ t j jk. absurd cc))

send_from-Sent : (reply : ℕ → Reply) (k left : ℕ) → Sent reply k left (send_from reply k left)
unfolding send_from
send_from-Sent reply k zero =
    conclude-Sent reply k zero false (none, 0) (verdict false (reply k)) refl
      (λ h. absurd (final-verdict (reply k) h))
send_from-Sent reply k (suc left) =
    conclude-Sent reply k (suc left) true (send_from reply (k + 1) left) (verdict true (reply k))
      refl
      (λ h. (
        omega arith,
        let e : suc left - 1 ≡ left = omega arith in rw e (send_from-Sent reply (k + 1) left),
      ))

-- A message is sent at least once and at most six times. When the result is true, the last request
-- was answered by status 200.
pub send_message-Sent :
    (reply : ℕ → Reply)
    → let (result, requests) = send_message reply in
      (1 ≤ requests)
      × ((requests ≤ publish_max_retries + 1)
          × (result ≡ some true → (j : ℕ) → j + 1 ≡ requests → IsAccepted (reply j)))
unfolding send_message
send_message-Sent reply =
    let (one, (bound, ok)) = send_from-Sent reply 0 publish_max_retries in
    (one, (bound, λ t j jk. ok t j (omega arith)))

-- the items before the first signal to stop
abbrev pub until_stop : List (Option PublishItem) → List PublishItem
until_stop [] = []
until_stop (none ∷ rest) = []
until_stop (some item ∷ rest) = item ∷ until_stop rest

-- what stands behind the first signal to stop
abbrev pub after_stop : List (Option PublishItem) → End
after_stop [] = waiting
after_stop (none ∷ rest) = stopped rest
after_stop (some item ∷ rest) = after_stop rest

-- If sending raises no exception, a worker sends the items that stand before the first signal to
-- stop, in their order, and publishes those that are accepted. It leaves the rest of the queue, further signals
-- included, to others.
pub worker-until_stop :
    (send : PublishItem → Bool) (queue : List (Option PublishItem))
    → worker (λ item. some (send item)) queue
      ≡ (filter_where send (until_stop queue), after_stop queue)
unfolding worker filter_where
worker-until_stop send [] = refl
worker-until_stop send (none ∷ rest) = refl
worker-until_stop send (some item ∷ rest) = rw (worker-until_stop send rest)
