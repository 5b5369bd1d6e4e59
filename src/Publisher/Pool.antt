-- ===== src/Publisher/Pool.antt =====
-- publisher/broadcaster.py and publisher/queue.py: the workers that share the queue, and what stops them. A step is what
-- happens between two awaits of one task; any task may move next.
pub mod Weights
pub mod Invariant
pub mod Stopping
pub mod Draining
use config_manager.Prelude.{
  ℕ, zero, suc, ◌+◌, ◌<◌, ◌≡◌, Bool, true, false, ◌||◌, ◌&&◌, Option, none, some, List, [], ◌∷◌,
  ◌++◌, map, length, get_elem?, if◌then◌else◌,
}
use config_manager.Pipeline.{PublishItem}

-- Where a task of `worker` stands: at `get_item`, at `send_message`, at the pause, or at its end, by the signal, by an
-- exception, or by being cancelled.
pub data Worker : Type 0 where
  getting resting ended crashed cancelled : Worker
  sending : PublishItem → Worker

-- The queue with the count of `task_done`, and the workers. The other fields record what has happened: what was put into
-- the queue and taken from it, what `send_message` returned, and the items whose sending was broken off.
pub record Pool : Type 0 where
  pub queue : List (Option PublishItem)
  pub unfinished : ℕ
  pub workers : List Worker
  pub all_put : List (Option PublishItem)
  pub taken : List (Option PublishItem)
  pub answered : List (PublishItem × Bool)
  pub dropped : List PublishItem

abbrev pub publish_concurrency : ℕ
publish_concurrency = 3

abbrev pub maxsize : ℕ
maxsize = 500

unfoldable pub set_worker : List Worker → ℕ → Worker → List Worker
set_worker [] i w = []
set_worker (v ∷ ws) zero w = w ∷ ws
set_worker (v ∷ ws) (suc i) w = v ∷ set_worker ws i w

unfoldable pub new_workers : ℕ → List Worker
new_workers zero = []
new_workers (suc n) = getting ∷ new_workers n

-- `start`, at the start of the program
unfoldable pub new_pool : Pool
unfolding new_workers
new_pool = record {
  queue = [];
  unfinished = 0;
  workers = new_workers publish_concurrency;
  all_put = [];
  taken = [];
  answered = [];
  dropped = [];
}

-- `queue.put`, once there is room
unfoldable pub put : Option PublishItem → Pool → Pool
put x p = record p {
  queue = p.queue ++ x ∷ [];
  unfinished = suc p.unfinished;
  all_put = p.all_put ++ x ∷ [];
}

-- `task_done`; `none` is the ValueError.
unfoldable pub task_done : ℕ → Option ℕ
task_done zero = none
task_done (suc n) = some n

-- A worker takes an item, and starts to send it.
unfoldable pub get_item : ℕ → PublishItem → List (Option PublishItem) → Pool → Pool
unfolding set_worker
get_item i item rest p = record p {
  queue = rest;
  workers = set_worker p.workers i (sending item);
  taken = p.taken ++ some item ∷ [];
}

-- It takes the signal, calls `task_done`, with `u` tasks left, and ends.
unfoldable pub leave : ℕ → List (Option PublishItem) → ℕ → Pool → Pool
unfolding set_worker
leave i rest u p = record p {
  queue = rest;
  unfinished = u;
  workers = set_worker p.workers i ended;
  taken = p.taken ++ none ∷ [];
}

-- `send_message` has returned.
unfoldable pub finish_item : ℕ → PublishItem → Bool → ℕ → Pool → Pool
unfolding set_worker
finish_item i item ok u p = record p {
  unfinished = u;
  workers = set_worker p.workers i resting;
  answered = p.answered ++ (item, ok) ∷ [];
}

-- `send_message` has raised an exception, which ends the worker before `task_done`.
unfoldable pub crash : ℕ → PublishItem → Pool → Pool
unfolding set_worker
crash i item p = record p {
  workers = set_worker p.workers i crashed;
  dropped = p.dropped ++ item ∷ [];
}

-- The pause is over.
unfoldable pub wake : ℕ → Pool → Pool
unfolding set_worker
wake i p = record p { workers = set_worker p.workers i getting }

unfoldable pub any_crashed : List Worker → Bool
any_crashed [] = false
any_crashed (crashed ∷ ws) = true
any_crashed (w ∷ ws) = any_crashed ws

unfoldable pub has_ended : Worker → Bool
has_ended getting = false
has_ended resting = false
has_ended ended = true
has_ended crashed = true
has_ended cancelled = true
has_ended (sending item) = false

unfoldable pub all_ended : List Worker → Bool
unfolding has_ended
all_ended [] = true
all_ended (w ∷ ws) = has_ended w && all_ended ws

-- `_task.done()`: `gather` ends with all workers, or with the first exception.
unfoldable pub task_is_done : List Worker → Bool
unfolding any_crashed all_ended
task_is_done ws = any_crashed ws || all_ended ws

unfoldable pub cancel : Worker → Worker
cancel getting = cancelled
cancel resting = cancelled
cancel ended = ended
cancel crashed = crashed
cancel cancelled = cancelled
cancel (sending item) = cancelled

-- the items that the workers are sending
unfoldable pub held : List Worker → List PublishItem
held [] = []
held (getting ∷ ws) = held ws
held (resting ∷ ws) = held ws
held (ended ∷ ws) = held ws
held (crashed ∷ ws) = held ws
held (cancelled ∷ ws) = held ws
held (sending item ∷ ws) = item ∷ held ws

-- `stop`: the signal is put, and then the workers are cancelled without another await in between.
unfoldable pub stop_pool : Pool → Pool
unfolding put task_is_done cancel held
stop_pool p =
    let signalled = put none p in
    if task_is_done p.workers
    then signalled
    else record signalled { workers = map cancel p.workers; dropped = p.dropped ++ held p.workers }

-- One step. The queue takes no more than `maxsize`: a task that puts waits until there is room.
pub data Move : Pool → Pool → Type 0 where
  puts : {p : Pool} (item : PublishItem) → length p.queue < maxsize → Move p (put (some item) p)
  gets :
      {p : Pool} (i : ℕ) (item : PublishItem) (rest : List (Option PublishItem))
      → get_elem? p.workers i ≡ some getting
      → p.queue ≡ some item ∷ rest
      → Move p (get_item i item rest p)
  leaves :
      {p : Pool} (i : ℕ) (rest : List (Option PublishItem)) (u : ℕ)
      → get_elem? p.workers i ≡ some getting
      → p.queue ≡ none ∷ rest
      → task_done p.unfinished ≡ some u
      → Move p (leave i rest u p)
  finishes :
      {p : Pool} (i : ℕ) (item : PublishItem) (ok : Bool) (u : ℕ)
      → get_elem? p.workers i ≡ some (sending item)
      → task_done p.unfinished ≡ some u
      → Move p (finish_item i item ok u p)
  crashes :
      {p : Pool} (i : ℕ) (item : PublishItem)
      → get_elem? p.workers i ≡ some (sending item)
      → Move p (crash i item p)
  wakes : {p : Pool} (i : ℕ) → get_elem? p.workers i ≡ some resting → Move p (wake i p)
  stops : {p : Pool} → length p.queue < maxsize → Move p (stop_pool p)

pub data Reach (p : Pool) : Pool → Type 0 where
  here : Reach p p
  next : {q r : Pool} → Reach p q → Move q r → Reach p r
