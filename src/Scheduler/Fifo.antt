-- ===== src/Scheduler/Fifo.antt =====
-- `timerLoop` dispatches the events in the order in which they were queued.
use mayv.Prelude.{
  ℕ, zero, suc, ◌≤◌, ◌≡◌, refl, ap, sym, ◌∙◌, Bool, arith, inl, inr, List, [], ◌∷◌, ◌++◌, length,
  ◌⊎◌,
}
use mathlib.Core.List.{append-nil, append_assoc}
use mayv.Scheduler.Loop.{dispatch, dispatch_loop, event_dispatch_limit, timer_loop}

module _ {ℓ ℓ'} {Event : Type ℓ} {World : Type ℓ'} (is_resumable : World → Event → Bool)
    (resume : World → Event → World × List Event) where
  -- Events dispatched one after another: the world before and after, and all that was queued.
  pub data Runs : World → List Event → List Event → World → Type (ℓ ⊔ ℓ') where
    idle : (world : World) → Runs world [] [] world
    next :
        (world : World) (event : Event) (events queued : List Event) (last : World)
        → Runs (dispatch is_resumable resume world event).0 events queued last
        → Runs world (event ∷ events) ((dispatch is_resumable resume world event).1 ++ queued) last

  abbrev pub Dispatched : ℕ → List Event → World → List Event × World → Type (ℓ ⊔ ℓ')
  Dispatched limit queue world (after, last) =
      (events : List Event) × (queued : List Event) × Runs world events queued last
      × (queue ++ queued ≡ events ++ after)
      × (length events ≤ limit)
      × ((after ≡ []) ⊎ (length events ≡ limit))

  dispatch_loop-Dispatched :
      (limit : ℕ) (queue : List Event) (world : World)
      → Dispatched limit queue world (dispatch_loop is_resumable resume limit queue world)
  unfolding dispatch_loop
  dispatch_loop-Dispatched zero queue world =
      ([], [], idle world, append-nil queue, omega arith, inr refl)
  dispatch_loop-Dispatched (suc left) [] world = ([], [], idle world, refl, omega arith, inl refl)
  dispatch_loop-Dispatched (suc left) (event ∷ queue) world =
      let (then_world, fresh) = dispatch is_resumable resume world event in
      let (events, queued, runs, order, small, full) =
        dispatch_loop-Dispatched left (queue ++ fresh) then_world in
      (
        event ∷ events,
        fresh ++ queued,
        next world event events queued
            (dispatch_loop is_resumable resume left (queue ++ fresh) then_world).1 runs,
        ap (λ (xs : List Event). event ∷ xs) (sym (append_assoc queue fresh queued) ∙ order),
        omega (arith, small),
        elim full [ inl none_left ↦ inl none_left | inr at_limit ↦ inr (ap suc at_limit) ],
      )

  -- One call of `timerLoop` dispatches events in the order of the queue, those that are queued meanwhile
  -- behind the others: the events of the queue and the ones queued meanwhile are, in order, the
  -- dispatched ones and the ones left in the queue. It dispatches at most 100, and fewer only if the
  -- queue is empty afterwards.
  pub timer_loop-Dispatched :
      (queue : List Event) (world : World)
      → Dispatched event_dispatch_limit queue world (timer_loop is_resumable resume queue world)
  unfolding timer_loop
  timer_loop-Dispatched queue world = dispatch_loop-Dispatched event_dispatch_limit queue world
