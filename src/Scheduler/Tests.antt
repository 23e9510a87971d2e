-- ===== src/Scheduler/Tests.antt =====
-- The scheduler with events that count down and queue their successor.
use mayv.Prelude.{ℕ, ◌+◌, ◌-◌, ◌≡◌, refl, Bool, not, ◌==◌, List, [], ◌∷◌}
use mayv.Scheduler.Loop.{dispatch_loop, timer_loop}
use mayv.Scheduler.Fifo.{Dispatched, timer_loop-Dispatched}

abbrev counts : ℕ → ℕ → Bool
counts world event = not (event == 0)

abbrev count_down : ℕ → ℕ → ℕ × List ℕ
count_down world event = (world + 1, (event - 1) ∷ [])

-- 200 events are queued in turn, of which 100 are dispatched.
half_way : timer_loop counts count_down (100 ∷ 100 ∷ []) 0 ≡ (50 ∷ 50 ∷ [], 100)
unfolding timer_loop dispatch_loop
half_way = refl

timer_loop-Dispatched_example :
    Dispatched counts count_down 100 (2 ∷ 3 ∷ []) 0 (timer_loop counts count_down (2 ∷ 3 ∷ []) 0)
timer_loop-Dispatched_example = timer_loop-Dispatched counts count_down (2 ∷ 3 ∷ []) 0
