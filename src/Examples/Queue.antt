-- ===== src/Examples/Queue.antt =====
-- The properties of the cleanup goroutines at a concrete run.
use k8s_dra_driver.Common.{ℕ, ◌+◌, ◌≤◌, true, ◌≡◌, refl}
use k8s_dra_driver.Cleanup.Manager.{
  Manager, done, cleaning, selecting, capacity, started, enqueue_cleanup, first, first_done,
  producer_returns, take, cleaned, worker_returns, quiet, tick, cancel, Reaches, stays, step,
}
use k8s_dra_driver.Cleanup.Manager.Alone.{running, Reaches-Alone, Reaches-Stopped}
use k8s_dra_driver.Cleanup.Manager.Shutdown.{Run, ends, runs, Run-bounded, Reaches-Run}

-- The first cleanup is over, a tick has come, and the worker has taken its item.
abbrev working : Manager
working = record started { producer = selecting; worker = cleaning }

working-Reaches : Reaches started working
unfolding enqueue_cleanup
working-Reaches =
    step (step (step (step stays (quiet (first refl))) (quiet (first_done refl))) (tick refl))
      (quiet (take 0 refl refl))

abbrev cancelled_working : Manager
cancelled_working = record working { cancelled = true }

Reaches-Alone_example :
    (running working.producer + running working.worker ≤ 1) × (working.queue ≤ capacity)
Reaches-Alone_example = Reaches-Alone working working-Reaches

abbrev stopped : Manager
stopped = record cancelled_working { producer = done; worker = done; wait_group = 0 }

shut : Run cancelled_working 3 stopped
shut =
    runs (producer_returns refl refl) (runs (cleaned refl) (runs (worker_returns refl refl) ends))

stopped-Reaches : Reaches started stopped
stopped-Reaches =
    step
      (step (step (step working-Reaches cancel) (quiet (producer_returns refl refl)))
        (quiet (cleaned refl)))
      (quiet (worker_returns refl refl))

Reaches-Stopped_example : running stopped.producer + running stopped.worker ≡ 0
Reaches-Stopped_example = Reaches-Stopped stopped stopped stopped-Reaches refl (step stays cancel)

Run-bounded_example : 3 ≤ 5
Run-bounded_example = Run-bounded cancelled_working stopped 3 (step working-Reaches cancel) shut

Reaches-Run_example : (n : ℕ) × (m : Manager) × Run cancelled_working n m × (m.wait_group ≡ 0)
Reaches-Run_example = Reaches-Run cancelled_working (step working-Reaches cancel) refl
