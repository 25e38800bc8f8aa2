-- ===== src/Pools/Workers.antt =====
-- backend/src/db/db_thread_pool.{h,cpp}. The mutex makes a step of each critical section; a task is its
-- number. That a task ends, by return or by an exception that is logged, is a step of its own. The
-- destructor sets `stopped_` and notifies without the mutex: it can do so while a worker that has tested
-- the predicate is not yet asleep, which then sleeps on.
pub mod Order
use enclave_station.Base.{
  ℕ, zero, suc, Bool, true, false, not, if◌then◌else◌, List, [], ◌∷◌, ◌++◌, ◌≡◌, Option, none, some,
  get_elem?, any_if,
}

-- A worker is about to lock the mutex and test the predicate of `cv_.wait`; has found it false and holds
-- the mutex until it is asleep; sleeps; runs a task; or has returned.
pub data Worker : Type 0 where
  waiting : Worker
  dozing : Worker
  asleep : Worker
  running : (task : ℕ) → Worker
  returned : Worker

-- `submitted` and `ended` are the tasks given to the pool and those that have ended, oldest first.
pub record Pool : Type 0 where
  pub workers : List Worker
  pub tasks : List ℕ
  pub stopped : Bool
  pub submitted : List ℕ
  pub started : List ℕ
  pub ended : List ℕ

abbrev pub idle_workers : ℕ → List Worker
idle_workers zero = []
idle_workers (suc n) = waiting ∷ idle_workers n

unfoldable pub db_thread_pool : ℕ → Pool
db_thread_pool num_threads = record {
  workers = idle_workers num_threads;
  tasks = [];
  stopped = false;
  submitted = [];
  started = [];
  ended = [];
}

unfoldable pub set_worker : ℕ → Worker → List Worker → List Worker
set_worker i w [] = []
set_worker zero w (x ∷ ws) = w ∷ ws
set_worker (suc i) w (x ∷ ws) = x ∷ set_worker i w ws

unfoldable pub submit : Pool → ℕ → Pool
submit p task = record p { tasks = p.tasks ++ task ∷ []; submitted = p.submitted ++ task ∷ [] }

-- A worker that tests the predicate: it takes the first task, returns if the pool is stopped, or is
-- about to sleep.
unfoldable pub wake : Pool → ℕ → List ℕ → Pool
unfolding set_worker
wake p i (task ∷ rest) = record p {
  workers = set_worker i (running task) p.workers;
  tasks = rest;
  started = p.started ++ task ∷ [];
}
wake p i [] = record p { workers = set_worker i (if p.stopped then returned else dozing) p.workers }

unfoldable pub end_task : Pool → ℕ → ℕ → Pool
unfolding set_worker
end_task p i task = record p {
  workers = set_worker i waiting p.workers;
  ended = p.ended ++ task ∷ [];
}

-- The worker is asleep, and the mutex is free.
unfoldable pub sleep : Pool → ℕ → Pool
unfolding set_worker
sleep p i = record p { workers = set_worker i asleep p.workers }

-- The worker wakes up, by `notify_one`, by `notify_all` or spuriously, and is about to test again.
unfoldable pub notified : Pool → ℕ → Pool
unfolding set_worker
notified p i = record p { workers = set_worker i waiting p.workers }

abbrev pub dozes : Worker → Bool
dozes waiting = false
dozes dozing = true
dozes asleep = false
dozes (running task) = false
dozes returned = false

-- Whether no worker holds the mutex.
abbrev pub is_unlocked : Pool → Bool
is_unlocked p = not (any_if dozes p.workers)

-- The store of `stopped_` in the destructor, which takes no mutex; the destructor returns once every
-- worker has.
unfoldable pub stop : Pool → Pool
stop p = record p { stopped = true }

-- The steps of the threads. Only the pool's own tasks submit to it once its destructor runs.
pub data Step (p : Pool) : Pool → Type 0 where
  submitted_outside : (task : ℕ) → p.stopped ≡ false → is_unlocked p ≡ true → Step p (submit p task)
  submitted_inside :
      (i by task : ℕ)
      → get_elem? p.workers i ≡ some (running by)
      → is_unlocked p ≡ true
      → Step p (submit p task)
  woke :
      (i : ℕ)
      → get_elem? p.workers i ≡ some waiting
      → is_unlocked p ≡ true
      → Step p (wake p i p.tasks)
  slept : (i : ℕ) → get_elem? p.workers i ≡ some dozing → Step p (sleep p i)
  was_notified : (i : ℕ) → get_elem? p.workers i ≡ some asleep → Step p (notified p i)
  task_ended :
      (i task : ℕ) → get_elem? p.workers i ≡ some (running task) → Step p (end_task p i task)
  destroyed : Step p (stop p)

pub data Reach (p : Pool) : Pool → Type 0 where
  here : Reach p p
  next : {q r : Pool} → Reach p q → Step q r → Reach p r
