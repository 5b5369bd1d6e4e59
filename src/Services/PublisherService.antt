-- ===== src/Services/PublisherService.antt =====
-- services/publisher_service.py, `_worker`: one worker, which outlives an exception of the sending and pauses after each
-- message and after each batch. The file has a syntax error; this is what its worker says. Times are tenths of a second. `_send_message` and `_format_message` are those of
-- publisher/broadcaster.py.
use config_manager.Prelude.{
  true, refl, ℕ, suc, ◌+◌, ◌*◌, ◌/◌, ◌<◌, ◌≡◌, Bool, false, Option, none, some, List, [], ◌∷◌, ◌++◌,
  map, length, leb, filter_where, if◌then◌else◌, arith,
}
use config_manager.Pipeline.{PublishItem}

abbrev pub publish_batch_size : ℕ
publish_batch_size = 3

-- PUBLISH_DELAY_SECONDS and PUBLISH_BATCH_PAUSE_SECONDS
abbrev pub publish_delay : ℕ
publish_delay = 22

abbrev pub publish_batch_pause : ℕ
publish_batch_pause = 60

-- What a turn of the loop meets: nothing special, a cleared `self._running` at its test, or the cancel of `stop` in
-- `get_item`, in the sending, or in a pause.
pub data Turn : Type 0 where
  goes stopped cancelled_in_get cancelled_in_send cancelled_in_pause : Turn

-- The items whose message was accepted, how long the worker has paused in pauses that it ended, what is left in the queue,
-- and whether the worker has ended.
pub record Work : Type 0 where
  pub published : List PublishItem
  pub paused : ℕ
  pub left : List (Option PublishItem)
  pub ended : Bool

-- `ok`, which is not true if an exception was caught
unfoldable pub was_sent : Option Bool → Bool
was_sent none = false
was_sent (some ok) = ok

-- The pauses after an item, and the count of the batch then.
unfoldable pub pause_after : ℕ → ℕ
pause_after batch_count =
    if leb publish_batch_size (batch_count + 1)
    then publish_delay + publish_batch_pause
    else publish_delay

unfoldable pub next_count : ℕ → ℕ
next_count batch_count = if leb publish_batch_size (batch_count + 1) then 0 else batch_count + 1

-- a turn that comes to no item
unfoldable pub no_work : List (Option PublishItem) → Bool → Work
no_work queue ended = record { published = []; paused = 0; left = queue; ended = ended }

-- `_worker`, from a count of the batch on, for the turns given; `send` is `_send_message` of the formatted item. A worker
-- that waits for an item has not ended.
unfoldable pub publish_loop :
    (PublishItem → Option Bool) → ℕ → List Turn → List (Option PublishItem) → Work
unfolding was_sent pause_after next_count no_work
publish_loop send batch_count [] queue = no_work queue false
publish_loop send batch_count (stopped ∷ turns) queue = no_work queue true
publish_loop send batch_count (cancelled_in_get ∷ turns) queue = no_work queue true
publish_loop send batch_count (goes ∷ turns) [] = no_work [] false
publish_loop send batch_count (goes ∷ turns) (none ∷ queue) = no_work queue true
publish_loop send batch_count (goes ∷ turns) (some item ∷ queue) =
    let rest = publish_loop send (next_count batch_count) turns queue in
    record {
      published = if was_sent (send item) then item ∷ rest.published else rest.published;
      paused = pause_after batch_count + rest.paused;
      left = rest.left;
      ended = rest.ended;
    }
publish_loop send batch_count (cancelled_in_send ∷ turns) [] = no_work [] false
publish_loop send batch_count (cancelled_in_send ∷ turns) (none ∷ queue) = no_work queue true
publish_loop send batch_count (cancelled_in_send ∷ turns) (some item ∷ queue) = no_work queue true
publish_loop send batch_count (cancelled_in_pause ∷ turns) [] = no_work [] false
publish_loop send batch_count (cancelled_in_pause ∷ turns) (none ∷ queue) = no_work queue true
publish_loop send batch_count (cancelled_in_pause ∷ turns) (some item ∷ queue) = record {
  published = if was_sent (send item) then item ∷ [] else [];
  paused = 0;
  left = queue;
  ended = true;
}

next_count-lt : (count : ℕ) → next_count count < publish_batch_size
unfolding next_count
next_count-lt count = ground arith

-- One round adds its pauses to those of the rounds that follow.
pause_round :
    (count n : ℕ)
    → count < publish_batch_size
    → pause_after count + publish_batch_pause * ((next_count count + n) / 3)
      ≡ publish_delay + publish_batch_pause * ((count + suc n) / 3)
unfolding pause_after next_count
pause_round count n h = ground arith

-- the turns that handle these items
abbrev pub turns_for : List PublishItem → List Turn
turns_for items = map (λ (item : PublishItem). goes) items

-- the work on the items, with what is left then
abbrev pub worked :
    (PublishItem → Option Bool) → List PublishItem → ℕ → List (Option PublishItem) → Work
worked send items count left = record {
  published = filter_where (λ item. was_sent (send item)) items;
  paused = publish_delay * length items + publish_batch_pause * ((count + length items) / 3);
  left = left;
  ended = true;
}

publish_loop-worked :
    (send : PublishItem → Option Bool) (turns : List Turn) (queue left : List (Option PublishItem))
    → ((c : ℕ) → publish_loop send c turns queue ≡ no_work left true)
    → (items : List PublishItem) (count : ℕ) → count < publish_batch_size
    → publish_loop send count (turns_for items ++ turns) (map some items ++ queue)
      ≡ worked send items count left
unfolding publish_loop no_work filter_where
publish_loop-worked send turns queue left last [] count h = rw (last count) (ground arith)
publish_loop-worked send turns queue left last (item ∷ items) count h =
    let ih =
      publish_loop-worked send turns queue left last items (next_count count)
        (next_count-lt count) in
    let round = pause_round count (length items) h in rw ih (ground arith)

-- From a count below the size of a batch on, the worker handles the items that it meets before the service is stopped:
-- it publishes those whose message was accepted, whatever exceptions the others raised, and pauses 2.2 seconds for
-- each item and 6 seconds more at each full batch. If `self._running` is cleared then, it ends and leaves the queue
-- with its signal; if it is cancelled while it sends one more item, this item is taken from the queue and lost.
pub publish_loop-until_stopped :
    (send : PublishItem → Option Bool) (items : List PublishItem) (item : PublishItem) (count : ℕ)
    (turns : List Turn) (queue : List (Option PublishItem))
    → count < publish_batch_size
    → (publish_loop send count (turns_for items ++ stopped ∷ turns) (map some items ++ queue)
        ≡ worked send items count queue)
      × (publish_loop send count
            (turns_for items ++ cancelled_in_send ∷ turns)
            (map some items ++ some item ∷ queue)
          ≡ worked send items count queue)
unfolding publish_loop
publish_loop-until_stopped send items item count turns queue h = (
  publish_loop-worked send (stopped ∷ turns) queue queue (λ c. refl) items count h,
  publish_loop-worked send (cancelled_in_send ∷ turns) (some item ∷ queue) queue (λ c. refl) items
      count h,
)
