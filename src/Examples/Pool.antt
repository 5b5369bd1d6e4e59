-- ===== src/Examples/Pool.antt =====
-- A pool with one item, and a pool that is stopped.
use config_manager.Prelude.{
  get_elem?, ℕ, ◌+◌, ◌≡◌, ◌≢◌, refl, true, false, none, some, [], ◌∷◌, ◌++◌, map, length, arith,
}
use config_manager.Prelude.Text.{codes}
use config_manager.Pipeline.{PublishItem}
use config_manager.Publisher.Pool.{
  Pool, puts, gets, Reach, here, next, put, get_item, new_pool, new_workers, set_worker, held,
  task_is_done, any_crashed, all_ended, has_ended, stop_pool, getting,
}
use config_manager.Publisher.Pool.Weights.{total, of_entry}
use config_manager.Publisher.Pool.Invariant.{answer_weight, Reach-conserved}
use config_manager.Publisher.Pool.Stopping.{stop_pool-final}
use config_manager.Publisher.Pool.Draining.{drain}

abbrev an_item : PublishItem
an_item = record { config = codes "ss://a"; country_code = codes "DE" }

abbrev filled : Pool
filled = put (some an_item) new_pool

filled_reached : Reach new_pool filled
unfolding new_pool
filled_reached = next here (puts an_item (omega arith))

abbrev busy : Pool
busy = get_item 0 an_item [] filled

busy_reached : Reach new_pool busy
unfolding new_pool put new_workers
busy_reached = next filled_reached (gets 0 an_item [] refl refl)

abbrev letters : PublishItem → ℕ
letters item = length item.config

Reach-conserved_example :
    total (of_entry letters) busy.all_put
    ≡ total (of_entry letters) busy.queue
      + total letters (held busy.workers)
      + total (answer_weight letters) busy.answered
      + total letters busy.dropped
Reach-conserved_example = Reach-conserved letters busy_reached

queue_filled : filled.queue ≢ []
unfolding put new_pool
queue_filled h = cc

busy_runs : task_is_done busy.workers ≡ false
unfolding task_is_done any_crashed all_ended has_ended get_item set_worker put new_pool new_workers
busy_runs = refl

stop_pool-final_example :
    ((stop_pool busy).taken ≡ busy.taken)
    × (((stop_pool busy).answered ≡ busy.answered) × (held (stop_pool busy).workers ≡ []))
stop_pool-final_example = stop_pool-final busy busy_runs here

-- The item that was being sent is dropped, and the signal stays in the queue.
stopped_busy : ((stop_pool busy).dropped ≡ an_item ∷ []) × ((stop_pool busy).queue ≡ none ∷ [])
unfolding stop_pool task_is_done any_crashed all_ended has_ended get_item set_worker put new_pool
    new_workers held
stopped_busy = (refl, refl)

first_waits : get_elem? filled.workers 0 ≡ some getting
unfolding put new_pool new_workers
first_waits = refl

one_queued : filled.queue ≡ map some (an_item ∷ [])
unfolding put new_pool
one_queued = refl

drain_example :
    (q : Pool) × (Reach filled q
      × ((q.queue ≡ []) × (q.answered ≡ filled.answered ++ map (λ x. (x, true)) (an_item ∷ []))))
drain_example = drain (an_item ∷ []) (λ x. true) 0 filled_reached first_waits one_queued
