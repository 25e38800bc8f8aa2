-- ===== src/Pools/Workers/Order/Counts.antt =====
-- The workers of backend/src/db/db_thread_pool.cpp, counted.
use enclave_station.Base.{
  ℕ, zero, suc, ◌≡◌, ◌≤◌, ◌+◌, refl, ap, List, [], ◌∷◌, if◌then◌else◌, ◌==◌, nat_keys, length,
  get_elem?, Option, none, some, arith,
}
use enclave_station.Pools.Workers.{
  Worker, waiting, dozing, asleep, running, returned, idle_workers, set_worker,
}

-- The task that a worker runs, as a number of tasks.
abbrev pub runs : ℕ → Worker → ℕ
runs t waiting = 0
runs t dozing = 0
runs t asleep = 0
runs t (running task) = if task == t then 1 else 0
runs t returned = 0

abbrev pub alive : Worker → ℕ
alive waiting = 1
alive dozing = 1
alive asleep = 1
alive (running task) = 1
alive returned = 0

unfoldable pub total : (Worker → ℕ) → List Worker → ℕ
total f [] = 0
total f (w ∷ ws) = f w + total f ws

-- The workers that have not returned.
abbrev pub active : List Worker → ℕ
active ws = total alive ws

abbrev pub at : (Worker → ℕ) → Option Worker → ℕ
at f none = 0
at f (some w) = f w

pub total-set_worker :
    (f : Worker → ℕ) (i : ℕ) (old new : Worker) (ws : List Worker)
    → get_elem? ws i ≡ some old
    → total f (set_worker i new ws) + f old ≡ total f ws + f new
unfolding total set_worker
total-set_worker f i old new [] h = ground arith
total-set_worker f zero old new (w ∷ ws) h = ground (arith, ap (at f) h)
total-set_worker f (suc i) old new (w ∷ ws) h = ground (arith, total-set_worker f i old new ws h)

pub length-set_worker :
    (i : ℕ) (new : Worker) (ws : List Worker) → length (set_worker i new ws) ≡ length ws
unfolding set_worker
length-set_worker i new [] = refl
length-set_worker zero new (w ∷ ws) = refl
length-set_worker (suc i) new (w ∷ ws) = ap suc (length-set_worker i new ws)

pub total-member :
    (f : Worker → ℕ) (i : ℕ) (w : Worker) (ws : List Worker)
    → get_elem? ws i ≡ some w
    → f w ≤ total f ws
unfolding total
total-member f i w [] h = ground arith
total-member f zero w (x ∷ ws) h = ground (arith, ap (at f) h)
total-member f (suc i) w (x ∷ ws) h = ground (arith, total-member f i w ws h)

pub active-length : (ws : List Worker) → active ws ≤ length ws
unfolding total
active-length [] = ground arith
active-length (waiting ∷ ws) = ground (arith, active-length ws)
active-length (dozing ∷ ws) = ground (arith, active-length ws)
active-length (asleep ∷ ws) = ground (arith, active-length ws)
active-length (running t ∷ ws) = ground (arith, active-length ws)
active-length (returned ∷ ws) = ground (arith, active-length ws)

pub runs-idle_workers : (t n : ℕ) → total (runs t) (idle_workers n) ≡ 0
unfolding total
runs-idle_workers t zero = refl
runs-idle_workers t (suc n) = ground (arith, runs-idle_workers t n)

pub active-idle_workers : (n : ℕ) → active (idle_workers n) ≡ length (idle_workers n)
unfolding total
active-idle_workers zero = refl
active-idle_workers (suc n) = ground (arith, active-idle_workers n)

pub length-idle_workers : (n : ℕ) → length (idle_workers n) ≡ n
length-idle_workers zero = refl
length-idle_workers (suc n) = ap suc (length-idle_workers n)

pub total-zero : (t : ℕ) (ws : List Worker) → active ws ≡ 0 → total (runs t) ws ≡ 0
unfolding total
total-zero t [] h = refl
total-zero t (waiting ∷ ws) h = ground (arith, h)
total-zero t (dozing ∷ ws) h = ground (arith, h)
total-zero t (asleep ∷ ws) h = ground (arith, h)
total-zero t (running task ∷ ws) h = ground (arith, h)
total-zero t (returned ∷ ws) h = ground (arith, total-zero t ws (ground (arith, h)))
