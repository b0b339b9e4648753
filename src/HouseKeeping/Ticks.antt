-- ===== src/HouseKeeping/Ticks.antt =====
-- When a worker of corecode/util/HouseKeeping.c runs.
use muti.Common.{
  ℕ, zero, suc, ◌+◌, ◌-◌, ◌%◌, ◌^◌, ◌<◌, ◌≤◌, ◌≡◌, refl, ap, ◌∙◌, true, false, if◌then◌else◌, ok,
  arith,
}
use muti.HouseKeeping.{waiting, busy, Worker, tick_worker, do_callback}

-- A worker between two of its runs has some ticks left, a busy one none.
abbrev pub IsWorker : Worker → Type 0
IsWorker w = (0 < w.interval) × (w.interval < 2 ^ 31) × (elim w.status [
  | waiting ↦ (0 < w.counter) × (w.counter ≤ w.interval)
  | busy ↦ w.counter ≡ 0
])

-- `n` ticks in a row: the worker after them, and how often its job was queued.
unfoldable pub ticks : ℕ → Worker → Worker × ℕ
unfolding tick_worker
ticks zero w = (w, 0)
ticks (suc n) w =
    let (w', queued) = tick_worker w in
    let rest = ticks n w' in (rest.0, if queued then suc rest.1 else rest.1)

tick_worker-IsWorker : (w : Worker) → IsWorker w → IsWorker (tick_worker w).0
unfolding tick_worker
tick_worker-IsWorker w h = ground arith

-- A busy worker stays as it is, and is not queued again.
ticks-busy : (n : ℕ) (w : Worker) → w.status ≡ busy → ticks n w ≡ (w, 0)
unfolding ticks
ticks-busy zero w h = refl
ticks-busy (suc n) w h = ground (arith, ticks-busy n w h)

-- One tick of a waiting worker.
tick-early :
    (w : Worker)
    → w.status ≡ waiting
    → 1 < w.counter
    → w.counter < 2 ^ 31
    → tick_worker w ≡ (record w { counter = w.counter - 1 }, false)
unfolding tick_worker
tick-early w h lt small =
    let left : (w.counter + 2 ^ 32 - 1) % 2 ^ 32 ≡ w.counter - 1 = omega arith in ground arith

tick-due :
    (w : Worker)
    → w.status ≡ waiting
    → w.counter ≡ 1
    → tick_worker w ≡ (record w { status = busy; counter = 0 }, true)
unfolding tick_worker
tick-due w h e = ground arith

ticks-before :
    (n : ℕ) (w : Worker)
    → w.status ≡ waiting
    → n < w.counter
    → w.counter < 2 ^ 31
    → ticks n w ≡ (record w { counter = w.counter - n }, 0)
unfolding ticks
ticks-before zero w h lt small = let same : w.counter - 0 ≡ w.counter = omega arith in rw same refl
ticks-before (suc n) w h lt small =
    let next : Worker = record w { counter = w.counter - 1 } in
    let rest = ticks-before n next h (omega arith) (omega arith) in
    let same : w.counter - 1 - n ≡ w.counter - suc n = omega arith in
    rw (tick-early w h (omega arith) small, rest, same) refl

ticks-after :
    (n k : ℕ) (w : Worker)
    → w.status ≡ waiting
    → w.counter ≡ suc n
    → w.counter < 2 ^ 31
    → ticks (suc (n + k)) w ≡ (record w { status = busy; counter = 0 }, 1)
unfolding ticks
ticks-after zero k w h e small =
    let all : 0 + k ≡ k = omega arith in
    rw (tick-due w h e, all, ticks-busy k (record w { status = busy; counter = 0 }) refl) refl
ticks-after (suc n) k w h e small =
    let next : Worker = record w { counter = w.counter - 1 } in
    let rest = ticks-after n k next h (omega arith) (omega arith) in
    let step : suc n + k ≡ suc (n + k) = omega arith in
    rw (tick-early w h (omega arith) small, step, rest) refl

-- A worker that waits, with a counter between 1 and its interval, and that no callback reaches in the
-- meantime: in fewer ticks than its counter it is not queued and counts down; from that tick on it
-- has been queued once and is busy, with counter 0. The callback that then comes succeeds, and the
-- worker waits for its interval.
pub worker_cycle :
    (w : Worker) (n k : ℕ)
    → IsWorker w
    → w.status ≡ waiting
    → n < w.counter
    → (ticks n w ≡ (record w { counter = w.counter - n }, 0))
      × (ticks (w.counter + k) w ≡ (record w { status = busy; counter = 0 }, 1))
      × (do_callback (record w { status = busy; counter = 0 })
          ≡ ok (record w { counter = w.interval; status = waiting }))
unfolding do_callback
worker_cycle w n k h e lt =
    let small : w.counter < 2 ^ 31 = ground arith in
    let count : w.counter + k ≡ suc (w.counter - 1 + k) = omega arith in
    (
      ticks-before n w e lt small,
      ap (λ t. ticks t w) count ∙ ticks-after (w.counter - 1) k w e (omega arith) small,
      refl,
    )
