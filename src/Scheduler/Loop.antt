-- ===== src/Scheduler/Loop.antt =====
-- src/boot/scheduler.cpp: `queueEvent` and `timerLoop`. The coroutines are parameters: whether a handle
-- can be resumed, and what resuming it does to the rest of the kernel and which events it queues.
use mayv.Prelude.{ℕ, zero, suc, Bool, if◌then◌else◌, List, [], ◌∷◌, ◌++◌}

-- SCHEDULER_EVENT_DISPATCH_LIMIT
abbrev pub event_dispatch_limit : ℕ
event_dispatch_limit = 100

-- `queueEvent`
abbrev pub queue_event {ℓ} : {A : Type ℓ} → List A → A → List A
queue_event queue event = queue ++ event ∷ []

module _ {ℓ ℓ'} {Event : Type ℓ} {World : Type ℓ'} (is_resumable : World → Event → Bool)
    (resume : World → Event → World × List Event) where
  -- One event at the front: the world and the events that were queued meanwhile.
  abbrev pub dispatch : World → Event → World × List Event
  dispatch world event = if is_resumable world event then resume world event else (world, [])

  -- The loop, with `left` events before the limit.
  unfoldable pub dispatch_loop : ℕ → List Event → World → List Event × World
  dispatch_loop zero queue world = (queue, world)
  dispatch_loop (suc left) [] world = ([], world)
  dispatch_loop (suc left) (event ∷ queue) world =
      let (next, queued) = dispatch world event in dispatch_loop left (queue ++ queued) next

  -- `timerLoop`
  unfoldable pub timer_loop : List Event → World → List Event × World
  timer_loop queue world = dispatch_loop event_dispatch_limit queue world
