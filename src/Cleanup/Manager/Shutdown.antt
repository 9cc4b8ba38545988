-- ===== src/Cleanup/Manager/Shutdown.antt =====
-- After the cancellation the goroutines return, and `Stop` with them.
use k8s_dra_driver.Common.{ℕ, zero, suc, ◌+◌, ◌*◌, ◌≤◌, true, ◌≡◌, ◌⊎◌, inl, inr, refl, ap, arith}
use k8s_dra_driver.Cleanup.Manager.{
  Routine, absent, starting, cleaning, selecting, done, Manager, started, Quiet, first, first_done,
  producer_returns, take, cleaned, worker_returns, Reaches,
}
use k8s_dra_driver.Cleanup.Manager.Alone.{
  running, early, alive, IsCounted, Quiet-IsCounted, started-IsCounted, Reaches-IsCounted,
}

-- A run of so many steps without the ticker.
pub data Run : Manager → ℕ → Manager → Type 0 where
  ends : {m : Manager} → Run m zero m
  runs : {n : ℕ} {m m' m'' : Manager} → Quiet m m' → Run m' n m'' → Run m (suc n) m''

-- The steps that a goroutine has left once the context is done.
abbrev left : Routine → ℕ
left starting = 3
left cleaning = 2
left selecting = 1
left _ = 0

abbrev measure : Manager → ℕ
measure m = left m.producer + left m.worker + 2 * m.queue

Quiet-measure : (m m' : Manager) → Quiet m m' → measure m' + 1 ≡ measure m
Quiet-measure m m' (first e) = ground (arith, ap left e)
Quiet-measure m m' (first_done e) = ground (arith, ap left e)
Quiet-measure m m' (producer_returns e c) = ground (arith, ap left e)
Quiet-measure m m' (take q e f) = ground (arith, ap left e, f)
Quiet-measure m m' (cleaned e) = ground (arith, ap left e)
Quiet-measure m m' (worker_returns e c) = ground (arith, ap left e)

Run-measure : (m m' : Manager) (n : ℕ) → Run m n m' → measure m' + n ≡ measure m
Run-measure m m' n ends = ground arith
Run-measure m m' n (runs q r) = ground (arith, Quiet-measure m _ q, Run-measure _ m' _ r)

left_bound :
    (p w : Routine) (q : ℕ)
    → early p + q ≤ 1
    → early p + running w ≤ 1
    → early w ≤ running w
    → left p + left w + 2 * q ≤ 5
left_bound starting selecting q h k v = ground arith
left_bound starting cleaning q h k v = ground arith
left_bound starting starting q h k v = ground arith
left_bound starting absent q h k v = ground arith
left_bound starting done q h k v = ground arith
left_bound cleaning w q h k v = ground arith
left_bound selecting w q h k v = ground arith
left_bound absent w q h k v = ground arith
left_bound done w q h k v = ground arith

measure-bound : (m : Manager) → IsCounted m → measure m ≤ 5
measure-bound m (h, k, w, v) = left_bound m.producer m.worker m.queue h k v

-- A run without the ticker, from any state that the started manager reaches, has at most five steps:
-- each goroutine finishes the cleanup it is in, the worker takes the item that waits, and both return
-- or wait.
pub Run-bounded : (m m' : Manager) (n : ℕ) → Reaches started m → Run m n m' → n ≤ 5
Run-bounded m m' n r run = omega (
  arith,
  Run-measure m m' n run,
  measure-bound m (Reaches-IsCounted started m r started-IsCounted),
)

worker-moves :
    (m : Manager) (w : Routine)
    → m.worker ≡ w
    → m.cancelled ≡ true
    → alive m.producer ≡ 0
    → IsCounted m
    → (m.wait_group ≡ 0) ⊎ ((m' : Manager) × Quiet m m')
worker-moves m absent e c p (h, k, w, v) = inl (ground (arith, ap alive e))
worker-moves m done e c p (h, k, w, v) = inl (ground (arith, ap alive e))
worker-moves m starting e c p (h, k, w, v) = ground (arith, ap early e, ap running e)
worker-moves m cleaning e c p h = inr (_, cleaned e)
worker-moves m selecting e c p h = inr (_, worker_returns e c)

moves :
    (m : Manager) (p : Routine)
    → m.producer ≡ p
    → m.cancelled ≡ true
    → IsCounted m
    → (m.wait_group ≡ 0) ⊎ ((m' : Manager) × Quiet m m')
moves m absent e c h = worker-moves m m.worker refl c (ap alive e) h
moves m done e c h = worker-moves m m.worker refl c (ap alive e) h
moves m starting e c h = inr (_, first e)
moves m cleaning e c h = inr (_, first_done e)
moves m selecting e c h = inr (_, producer_returns e c)

Quiet-cancelled : (m m' : Manager) → Quiet m m' → m.cancelled ≡ true → m'.cancelled ≡ true
Quiet-cancelled m m' (first e) c = c
Quiet-cancelled m m' (first_done e) c = c
Quiet-cancelled m m' (producer_returns e d) c = c
Quiet-cancelled m m' (take q e f) c = c
Quiet-cancelled m m' (cleaned e) c = c
Quiet-cancelled m m' (worker_returns e d) c = c

shutdown :
    (fuel : ℕ) (m : Manager)
    → measure m ≤ fuel
    → m.cancelled ≡ true
    → IsCounted m
    → (n : ℕ) × (m' : Manager) × Run m n m' × (m'.wait_group ≡ 0)
shutdown zero m b c h = elim (moves m m.producer refl c h) [
  | inl e ↦ (zero, m, ends, e)
  | inr (m', q) ↦ ground (arith, Quiet-measure m m' q)
]
shutdown (suc fuel) m b c h = elim (moves m m.producer refl c h) [
  | inl e ↦ (zero, m, ends, e)
  | inr (m', q) ↦
      let (n, m'', r, e) =
        shutdown fuel m' (ground (arith, Quiet-measure m m' q)) (Quiet-cancelled m m' q c)
          (Quiet-IsCounted m m' q h) in
      (suc n, m'', runs q r, e)
]

-- From every state that the started manager reaches and in which the context is done, a run without
-- the ticker leads to a state in which the wait group is at zero, so that `Stop` returns.
pub Reaches-Run :
    (m : Manager)
    → Reaches started m
    → m.cancelled ≡ true
    → (n : ℕ) × (m' : Manager) × Run m n m' × (m'.wait_group ≡ 0)
Reaches-Run m r c =
    let counted = Reaches-IsCounted started m r started-IsCounted in
    shutdown 5 m (measure-bound m counted) c counted
