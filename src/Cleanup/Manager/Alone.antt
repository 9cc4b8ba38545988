-- ===== src/Cleanup/Manager/Alone.antt =====
-- At most one cleanup runs at a time, and at most one waits.
use k8s_dra_driver.Common.{
  ℕ, ◌+◌, ◌≤◌, Bool, true, false, if◌then◌else◌, ltb, ◌≡◌, refl, ap, sym, ◌∙◌, arith,
}
use k8s_dra_driver.Cleanup.Manager.{
  Routine, absent, starting, cleaning, selecting, done, Manager, capacity, started, enqueue_cleanup,
  Quiet, first, first_done, producer_returns, take, cleaned, worker_returns, Step, quiet, tick,
  cancel, Reaches, stays, step,
}

-- 1 while a goroutine runs a cleanup.
abbrev pub running : Routine → ℕ
running cleaning = 1
running _ = 0

-- 1 until the producer has run its first cleanup.
abbrev pub early : Routine → ℕ
early starting = 1
early cleaning = 1
early _ = 0

-- 1 while a goroutine is there.
abbrev pub alive : Routine → ℕ
alive absent = 0
alive done = 0
alive _ = 1

-- Until the producer has run its first cleanup nothing waits and the worker runs none; the wait group
-- counts the goroutines that are there, and the worker has no first cleanup.
abbrev pub IsCounted : Manager → Type 0
IsCounted m =
    (early m.producer + m.queue ≤ capacity)
    × (early m.producer + running m.worker ≤ 1)
    × (m.wait_group ≡ alive m.producer + alive m.worker)
    × (early m.worker ≤ running m.worker)

pub Quiet-IsCounted : (m m' : Manager) → Quiet m m' → IsCounted m → IsCounted m'
Quiet-IsCounted m m' (first e) (h, k, w, v) =
    (ground (arith, ap early e), ground (arith, ap early e), ground (arith, ap alive e), v)
Quiet-IsCounted m m' (first_done e) (h, k, w, v) =
    (ground (arith, ap early e), ground (arith, ap early e), ground (arith, ap alive e), v)
Quiet-IsCounted m m' (producer_returns e c) (h, k, w, v) =
    (ground (arith, ap early e), ground (arith, ap early e), ground (arith, ap alive e), v)
Quiet-IsCounted m m' (take q e f) (h, k, w, v) =
    (ground (arith, f), ground (arith, f, h), ground (arith, ap alive e), ground arith)
Quiet-IsCounted m m' (cleaned e) (h, k, w, v) =
    (h, ground (arith, ap running e), ground (arith, ap alive e), ground arith)
Quiet-IsCounted m m' (worker_returns e c) (h, k, w, v) =
    (h, ground (arith, ap running e), ground (arith, ap alive e), ground arith)

enqueued :
    (m : Manager) (b : Bool)
    → ltb m.queue capacity ≡ b
    → early m.producer ≡ 0
    → IsCounted m
    → IsCounted
        (if◌then◌else◌ {A = Bool × Manager} b (true, record m { queue = m.queue + 1 }) (false, m)).1
enqueued m true l e (h, k, w, v) = (ground (arith, l), k, w, v)
enqueued m false l e h = h

enqueue_cleanup-IsCounted :
    (m : Manager) → early m.producer ≡ 0 → IsCounted m → IsCounted (enqueue_cleanup m).1
unfolding enqueue_cleanup
enqueue_cleanup-IsCounted m e (h, k, w, v) = enqueued m (ltb m.queue capacity) refl e (h, k, w, v)

Step-IsCounted : (m m' : Manager) → Step m m' → IsCounted m → IsCounted m'
Step-IsCounted m m' (quiet q) h = Quiet-IsCounted m m' q h
Step-IsCounted m m' (tick e) h = enqueue_cleanup-IsCounted m (ap early e) h
Step-IsCounted m m' cancel h = h

pub Reaches-IsCounted : (m m' : Manager) → Reaches m m' → IsCounted m → IsCounted m'
Reaches-IsCounted m m' stays h = h
Reaches-IsCounted m m' (step r s) h = Step-IsCounted _ m' s (Reaches-IsCounted m _ r h)

pub started-IsCounted : IsCounted started
started-IsCounted = (ground arith, ground arith, refl, ground arith)

running_lem : (p w : Routine) → early p + running w ≤ 1 → running p + running w ≤ 1
running_lem absent w h = h
running_lem starting w h = ground arith
running_lem cleaning w h = h
running_lem selecting w h = h
running_lem done w h = h

-- In every state that the started manager reaches at most one of the two goroutines runs a cleanup,
-- and the queue holds at most one item; so the cleanups run one after the other.
pub Reaches-Alone :
    (m : Manager)
    → Reaches started m
    → (running m.producer + running m.worker ≤ 1) × (m.queue ≤ capacity)
Reaches-Alone m r =
    let (h, k, w, v) = Reaches-IsCounted started m r started-IsCounted in
    (running_lem m.producer m.worker k, omega arith)

Step-gone :
    (m m' : Manager)
    → Step m m'
    → alive m.producer + alive m.worker ≡ 0
    → alive m'.producer + alive m'.worker ≡ 0
Step-gone m m' (quiet (first e)) h = ground (arith, ap alive e)
Step-gone m m' (quiet (first_done e)) h = ground (arith, ap alive e)
Step-gone m m' (quiet (producer_returns e c)) h = ground (arith, ap alive e)
Step-gone m m' (quiet (take q e f)) h = ground (arith, ap alive e)
Step-gone m m' (quiet (cleaned e)) h = ground (arith, ap alive e)
Step-gone m m' (quiet (worker_returns e c)) h = ground (arith, ap alive e)
Step-gone m m' (tick e) h = ground (arith, ap alive e)
Step-gone m m' cancel h = h

Reaches-gone :
    (m m' : Manager)
    → Reaches m m'
    → alive m.producer + alive m.worker ≡ 0
    → alive m'.producer + alive m'.worker ≡ 0
Reaches-gone m m' stays h = h
Reaches-gone m m' (step r s) h = Step-gone _ m' s (Reaches-gone m _ r h)

running-alive : (r : Routine) → running r ≤ alive r
running-alive absent = ground arith
running-alive starting = ground arith
running-alive cleaning = ground arith
running-alive selecting = ground arith
running-alive done = ground arith

-- Once the wait group has counted down to zero, as `Stop` waits for, no cleanup runs in any state that
-- follows.
pub Reaches-Stopped :
    (m m' : Manager)
    → Reaches started m
    → m.wait_group ≡ 0
    → Reaches m m'
    → running m'.producer + running m'.worker ≡ 0
Reaches-Stopped m m' r e s =
    let (h, k, w, v) = Reaches-IsCounted started m r started-IsCounted in
    let none_alive = Reaches-gone m m' s (sym w ∙ e) in
    omega (arith, running-alive m'.producer, running-alive m'.worker)
