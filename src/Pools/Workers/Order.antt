-- ===== src/Pools/Workers/Order.antt =====
-- Which tasks backend/src/db/db_thread_pool.cpp runs, and in which order.
pub mod Counts
use mathlib.Core.List.{append-nil}
use enclave_station.Base.{
  ℕ, zero, suc, ◌≡◌, ◌≤◌, ◌+◌, refl, ap, sym, ◌∙◌, false, List, [], ◌∷◌, ◌++◌, if◌then◌else◌, ◌==◌,
  nat_keys, length, get_elem?, Option, none, some, arith, if_cases, times, times-append,
}
use enclave_station.Pools.Workers.{
  Worker, waiting, dozing, asleep, running, returned, Pool, idle_workers, db_thread_pool,
  set_worker, submit, wake, end_task, stop, Step, submitted_outside, submitted_inside, woke, slept,
  was_notified, sleep, notified, task_ended, destroyed, Reach, here, next,
}
use enclave_station.Pools.Workers.Order.Counts.{
  runs, alive, total, active, at, total-set_worker, length-set_worker, total-member, active-length,
  runs-idle_workers, active-idle_workers, length-idle_workers, total-zero,
}

pub record IsOrderly (p : Pool) : Type 0 where
  pub in_order : p.submitted ≡ p.started ++ p.tasks
  pub accounted : (t : ℕ) → times t p.started ≡ times t p.ended + total (runs t) p.workers
  pub open_doors : p.stopped ≡ false → active p.workers ≡ length p.workers
  pub nothing_left : active p.workers ≡ 0 → 1 ≤ length p.workers → p.tasks ≡ []

times-one : (t task : ℕ) → times t (task ∷ []) ≡ runs t (running task)
unfolding times
times-one t task = refl

append_assoc : (xs ys zs : List ℕ) → (xs ++ ys) ++ zs ≡ xs ++ (ys ++ zs)
append_assoc [] ys zs = refl
append_assoc (x ∷ xs) ys zs = ap (◌∷◌ x) (append_assoc xs ys zs)

submit-IsOrderly :
    (p : Pool) (task : ℕ)
    → IsOrderly p
    → ((active p.workers ≡ 0) → 1 ≤ length p.workers → (p.tasks ++ task ∷ []) ≡ [])
    → IsOrderly (submit p task)
unfolding submit
submit-IsOrderly p task s busy = record {
  in_order = ap (λ xs. xs ++ task ∷ []) s.in_order ∙ append_assoc p.started p.tasks (task ∷ []);
  accounted = s.accounted;
  open_doors = s.open_doors;
  nothing_left = busy;
}

-- A worker that goes from one state without a task to another changes nothing else.
rested-IsOrderly :
    (p : Pool) (i : ℕ) (old new : Worker)
    → get_elem? p.workers i ≡ some old
    → alive old ≡ 1
    → alive new ≡ 1
    → ((t : ℕ) → runs t old ≡ 0)
    → ((t : ℕ) → runs t new ≡ 0)
    → IsOrderly p
    → IsOrderly (record p { workers = set_worker i new p.workers })
rested-IsOrderly p i old new at_i old_alive new_alive old_idle new_idle s = record {
  in_order = s.in_order;
  accounted = λ t. ground (
    arith,
    s.accounted t,
    old_idle t,
    new_idle t,
    total-set_worker (runs t) i old new p.workers at_i,
  );
  open_doors = λ on. ground (
    arith,
    s.open_doors on,
    old_alive,
    new_alive,
    total-set_worker alive i old new p.workers at_i,
    length-set_worker i new p.workers,
  );
  nothing_left = λ none_active some_worker. ground (
    arith,
    none_active,
    old_alive,
    new_alive,
    total-set_worker alive i old new p.workers at_i,
    total-member alive i old p.workers at_i,
  );
}

wake-IsOrderly :
    (p : Pool) (i : ℕ) (ts : List ℕ)
    → p.tasks ≡ ts
    → get_elem? p.workers i ≡ some waiting
    → IsOrderly p
    → IsOrderly (wake p i ts)
unfolding wake
wake-IsOrderly p i (task ∷ rest) h at_i s = record {
  in_order =
      s.in_order ∙ ap (λ x. p.started ++ x) h ∙ sym (append_assoc p.started (task ∷ []) rest);
  accounted = λ t. ground (
    arith,
    s.accounted t,
    times-append t p.started (task ∷ []),
    times-one t task,
    total-set_worker (runs t) i waiting (running task) p.workers at_i,
  );
  open_doors = λ on. ground (
    arith,
    s.open_doors on,
    total-set_worker alive i waiting (running task) p.workers at_i,
    length-set_worker i (running task) p.workers,
  );
  nothing_left = λ none_active some_worker. ground (
    arith,
    total-set_worker alive i waiting (running task) p.workers at_i,
    total-member alive i waiting p.workers at_i,
  );
}
wake-IsOrderly p i [] h at_i s =
    if_cases (λ (w : Worker). IsOrderly (record p { workers = set_worker i w p.workers })) p.stopped
      returned dozing
      (λ off. record {
        in_order = s.in_order;
        accounted = λ t.
            ground
              (arith, s.accounted t, total-set_worker (runs t) i waiting returned p.workers at_i);
        open_doors = λ on. ground (arith, off, on);
        nothing_left = λ none_active some_worker. h;
      })
      (λ on. rested-IsOrderly p i waiting dozing at_i refl refl (λ t. refl) (λ t. refl) s)

end_task-IsOrderly :
    (p : Pool) (i task : ℕ)
    → get_elem? p.workers i ≡ some (running task)
    → IsOrderly p
    → IsOrderly (end_task p i task)
unfolding end_task
end_task-IsOrderly p i task at_i s = record {
  in_order = s.in_order;
  accounted = λ t. ground (
    arith,
    s.accounted t,
    times-append t p.ended (task ∷ []),
    times-one t task,
    total-set_worker (runs t) i (running task) waiting p.workers at_i,
  );
  open_doors = λ on. ground (
    arith,
    s.open_doors on,
    total-set_worker alive i (running task) waiting p.workers at_i,
    length-set_worker i waiting p.workers,
  );
  nothing_left = λ none_active some_worker. ground (
    arith,
    total-set_worker alive i (running task) waiting p.workers at_i,
    total-member alive i (running task) p.workers at_i,
  );
}

Step-IsOrderly : {p q : Pool} → Step p q → IsOrderly p → IsOrderly q
unfolding stop sleep notified
Step-IsOrderly {p} (submitted_outside task on free) s =
    submit-IsOrderly p task s λ none_active some_worker. ground (arith, s.open_doors on)
Step-IsOrderly {p} (submitted_inside i by task at_i free) s =
    submit-IsOrderly p task s
      λ none_active some_worker. ground (arith, total-member alive i (running by) p.workers at_i)
Step-IsOrderly {p} (woke i at_i free) s = wake-IsOrderly p i p.tasks refl at_i s
Step-IsOrderly {p} (slept i at_i) s =
    rested-IsOrderly p i dozing asleep at_i refl refl (λ t. refl) (λ t. refl) s
Step-IsOrderly {p} (was_notified i at_i) s =
    rested-IsOrderly p i asleep waiting at_i refl refl (λ t. refl) (λ t. refl) s
Step-IsOrderly {p} (task_ended i task at_i) s = end_task-IsOrderly p i task at_i s
Step-IsOrderly {p} destroyed s = record {
  in_order = s.in_order;
  accounted = s.accounted;
  open_doors = λ off. ground (arith, off);
  nothing_left = s.nothing_left;
}

pub Reach-IsOrderly :
    (num_threads : ℕ) {p : Pool} → Reach (db_thread_pool num_threads) p → IsOrderly p
unfolding db_thread_pool times
Reach-IsOrderly n here = record {
  in_order = refl;
  accounted = λ t. ground (arith, runs-idle_workers t n);
  open_doors = λ on. active-idle_workers n;
  nothing_left = λ none_active some_worker. refl;
}
Reach-IsOrderly n (next r step) = Step-IsOrderly step (Reach-IsOrderly n r)

Step-length : {p q : Pool} → Step p q → length q.workers ≡ length p.workers
unfolding submit wake sleep notified end_task stop
Step-length (submitted_outside task on free) = refl
Step-length (submitted_inside i by task at_i free) = refl
Step-length {p} (woke i at_i free) = wake-length p i p.tasks
  where
    wake-length : (p : Pool) (i : ℕ) (ts : List ℕ) → length (wake p i ts).workers ≡ length p.workers
    wake-length p i (task ∷ rest) = length-set_worker i (running task) p.workers
    wake-length p i [] = length-set_worker i _ p.workers
Step-length {p} (slept i at_i) = length-set_worker i asleep p.workers
Step-length {p} (was_notified i at_i) = length-set_worker i waiting p.workers
Step-length {p} (task_ended i task at_i) = length-set_worker i waiting p.workers
Step-length destroyed = refl

Reach-length : {p q : Pool} → Reach p q → length q.workers ≡ length p.workers
Reach-length here = refl
Reach-length (next r step) = Step-length step ∙ Reach-length r

-- When all workers of a pool that has any have returned, which is when the destructor returns, every
-- task that was submitted has been started, once and in the order of submission, and has ended as
-- often as it was submitted.
pub all_tasks_run :
    (n : ℕ) {p : Pool} (t : ℕ)
    → Reach (db_thread_pool (suc n)) p
    → active p.workers ≡ 0
    → (p.started ≡ p.submitted) × (times t p.ended ≡ times t p.submitted)
unfolding db_thread_pool
all_tasks_run n {p} t r done =
    let s = Reach-IsOrderly (suc n) r in
    let some_worker : 1 ≤ length p.workers =
      ground (arith, Reach-length r, length-idle_workers (suc n)) in
    let emptied : p.submitted ≡ p.started =
      s.in_order
      ∙ ap (λ x. p.started ++ x) (s.nothing_left done some_worker)
      ∙ append-nil p.started in
    (sym emptied, ground (arith, s.accounted t, total-zero t p.workers done, ap (times t) emptied))
