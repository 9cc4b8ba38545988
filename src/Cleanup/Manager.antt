-- ===== src/Cleanup/Manager.antt =====
-- The two goroutines of the CheckpointCleanupManager, its queue and its shutdown: `Start`, `Stop`,
-- `enqueueCleanup`, `worker` and `triggerPeriodically` of cleanup.go. A step is a receive, a send, the
-- start or the end of one `cleanup`, or the return of a goroutine; the steps of the two goroutines
-- interleave, and a `select` takes any case that is ready.
pub mod Alone
pub mod Shutdown
use k8s_dra_driver.Common.{ℕ, zero, suc, ◌+◌, ◌-◌, Bool, true, false, if◌then◌else◌, ltb, ◌≡◌}

-- Where a goroutine is: it is not there yet, it is about to run its first cleanup, it runs one, it
-- waits in its `select`, or it has returned.
pub data Routine : Type 0 where
  absent starting cleaning selecting done : Routine

-- `queue` counts the items of the buffered channel; `cancelled` says whether the context is done.
pub record Manager : Type 0 where
  pub queue : ℕ
  pub cancelled : Bool
  pub wait_group : ℕ
  pub producer : Routine
  pub worker : Routine

-- make(chan struct{}, 1)
abbrev pub capacity : ℕ
capacity = 1

abbrev pub new_checkpoint_cleanup_manager : Manager
new_checkpoint_cleanup_manager = record {
  queue = 0;
  cancelled = false;
  wait_group = 0;
  producer = absent;
  worker = absent;
}

-- (m *CheckpointCleanupManager) Start
abbrev pub start : Manager → Manager
start m = record m {
  cancelled = false;
  wait_group = m.wait_group + 2;
  producer = starting;
  worker = selecting;
}

-- (m *CheckpointCleanupManager) enqueueCleanup
unfoldable pub enqueue_cleanup : Manager → Bool × Manager
enqueue_cleanup m =
    if ltb m.queue capacity then (true, record m { queue = m.queue + 1 }) else (false, m)

-- The steps of `worker` and `triggerPeriodically`. Those of `Quiet` are taken without the ticker.
pub data Quiet (m : Manager) : Manager → Type 0 where
  -- triggerPeriodically: the first cleanup
  first : m.producer ≡ starting → Quiet m (record m { producer = cleaning })
  first_done : m.producer ≡ cleaning → Quiet m (record m { producer = selecting })
  -- case <-ctx.Done() and the deferred waitGroup.Done()
  producer_returns :
      m.producer ≡ selecting
      → m.cancelled ≡ true
      → Quiet m (record m { producer = done; wait_group = m.wait_group - 1 })
  -- case <-m.queue
  take :
      (q : ℕ)
      → m.worker ≡ selecting
      → m.queue ≡ suc q
      → Quiet m (record m { queue = q; worker = cleaning })
  cleaned : m.worker ≡ cleaning → Quiet m (record m { worker = selecting })
  worker_returns :
      m.worker ≡ selecting
      → m.cancelled ≡ true
      → Quiet m (record m { worker = done; wait_group = m.wait_group - 1 })

-- `tick` is case <-ticker.C; `cancel` is the cancellation of the context, by `Stop` or from outside.
pub data Step (m : Manager) : Manager → Type 0 where
  quiet : {m' : Manager} → Quiet m m' → Step m m'
  tick : m.producer ≡ selecting → Step m (enqueue_cleanup m).1
  cancel : Step m (record m { cancelled = true })

pub data Reaches (m : Manager) : Manager → Type 0 where
  stays : Reaches m m
  step : {m' m'' : Manager} → Reaches m m' → Step m' m'' → Reaches m m''

-- The manager once `Start` has returned.
abbrev pub started : Manager
started = start new_checkpoint_cleanup_manager
