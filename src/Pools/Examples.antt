-- ===== src/Pools/Examples.antt =====
-- The theorems about the pools at concrete inputs.
use enclave_station.Base.{◌≡◌, ◌≤◌, refl, [], ◌∷◌, nat_keys, times, any_if}
use enclave_station.Pools.Connections
use enclave_station.Pools.Connections.{
  connection_pool, take_front, check, release, open_connection, gone, taken, checked, released,
  size_in_use, available, moved_out, fresh_from,
}
use enclave_station.Pools.Connections.Capacity.{IsSound, capacity, Reach-IsSound, Reach-capacity}
use enclave_station.Pools.Workers
use enclave_station.Pools.Workers.{
  db_thread_pool, submit, wake, end_task, stop, set_worker, submitted_outside, woke, task_ended,
  destroyed,
}
use enclave_station.Pools.Workers.Order.{all_tasks_run}
use enclave_station.Pools.Workers.Order.Counts.{total}

-- A pool of one connection, which is taken, tested, and lost on its return.
abbrev one : Connections.Pool
one = connection_pool 1

abbrev testing : Connections.Pool
testing = record { pool_size = 1; connections = []; checking = 0 ∷ []; held = []; next = 1 }

abbrev lost : Connections.Pool
lost = release (check testing 0 open_connection) 0 gone

lost-Reach : Connections.Reach one lost
unfolding connection_pool take_front fresh_from check moved_out release times
lost-Reach =
    Connections.next
      (Connections.next (Connections.next Connections.here (taken 0 testing refl))
        (checked 0 open_connection 0 refl))
      (released 0 gone 0 refl)

Reach-IsSound_example : IsSound lost
Reach-IsSound_example = Reach-IsSound 1 lost-Reach

Reach-capacity_example : (capacity lost ≤ capacity one) × (available lost ≤ capacity one)
Reach-capacity_example = Reach-capacity lost-Reach

-- The lost connection is reported as in use, though nobody holds it.
lost_in_use : (size_in_use lost ≡ 1) × (lost.held ≡ []) × (capacity lost ≡ 0)
unfolding size_in_use release check moved_out capacity
lost_in_use = (refl, refl, refl)

-- One worker runs task 7 and returns.
abbrev busy : Workers.Pool
busy = wake (submit (db_thread_pool 1) 7) 0 (7 ∷ [])

abbrev finished : Workers.Pool
finished = wake (stop (end_task busy 0 7)) 0 []

finished-Reach : Workers.Reach (db_thread_pool 1) finished
unfolding db_thread_pool submit wake end_task stop set_worker any_if
finished-Reach =
    Workers.next
      (Workers.next
        (Workers.next
          (Workers.next (Workers.next Workers.here (submitted_outside 7 refl refl))
            (woke 0 refl refl))
          (task_ended 0 7 refl))
        destroyed)
      (woke 0 refl refl)

all_tasks_run_example :
    (finished.started ≡ finished.submitted) × (times 7 finished.ended ≡ times 7 finished.submitted)
unfolding db_thread_pool submit wake end_task stop set_worker total any_if
all_tasks_run_example = all_tasks_run 0 7 finished-Reach refl
