-- ===== src/Scheduler/Slots.antt =====
-- Every run of the scheduler: requests are queued, the worker takes slots and items, and dispatches
-- end, in any order.
use adaptive_admission_contr.Base.{
  ℕ, ◌+◌, ◌≤◌, ◌≡◌, ◌⊎◌, Bool, true, false, some, List, ◌∷◌, ◌++◌, length, if◌then◌else◌,
}
use adaptive_admission_contr.Base.Float.{Float}
use adaptive_admission_contr.Interfaces.{CapacityController}
use adaptive_admission_contr.Scheduler.{
  Entry, PriorityQueue, Service, take_slot, serve_next, enqueue, queued, type_error, goes_on,
}

module _ ⦃fl : Float⦄ {S Q : Type 0} where
  open fl use {F, of_ℕ, lt}

  -- `finishing`: a dispatch ends with the release of its slot (`dispatch_queued`); `leaking`: an
  -- exception ends it, and its slot stays in use. `adjusting`: the adjusting loop moves the limit of
  -- the controller. The number counts the slots that the step leaks.
  pub data Step (ctl : CapacityController S) (pq : PriorityQueue Q) (s : Service S Q)
      : ℕ → Service S Q → Type 0 where
    enqueuing :
        (queue_timeout : F) (x : Entry) (q : Q)
        → enqueue ctl pq queue_timeout x s.controller s.queue ≡ queued q
        → Step ctl pq s 0 (record s { queue = q })
    raising :
        (queue_timeout : F) (x : Entry) (q : Q)
        → enqueue ctl pq queue_timeout x s.controller s.queue ≡ type_error q
        → Step ctl pq s 0 (record s { queue = q })
    adjusting :
        (c : S)
        → ctl.in_flight c ≡ ctl.in_flight s.controller
        → Step ctl pq s 0 (record s { controller = c })
    leaking :
        (l r : List Entry) (x : Entry)
        → s.running ≡ l ++ x ∷ r
        → Step ctl pq s 1 (record s { running = l ++ r })
    taking : (s' : Service S Q) → s.holding ≡ false → take_slot ctl s ≡ some s' → Step ctl pq s 0 s'
    serving :
        (is_cancelled : Entry → Bool) (s' : Service S Q)
        → s.holding ≡ true
        → serve_next ctl pq is_cancelled s ≡ goes_on s'
        → Step ctl pq s 0 s'
    finishing :
        (l r : List Entry) (x : Entry) (latency_ms : F) (status_code : ℕ) (timed_out : Bool)
        → s.running ≡ l ++ x ∷ r
        → Step ctl pq s 0 (record s {
          running = l ++ r;
          controller = ctl.release 1 latency_ms status_code timed_out s.controller;
        })

  pub data Reach (ctl : CapacityController S) (pq : PriorityQueue Q) (s : Service S Q)
      : ℕ → Service S Q → Type 0 where
    here : Reach ctl pq s 0 s
    next :
        {n k : ℕ} {s' s'' : Service S Q}
        → Reach ctl pq s n s'
        → Step ctl pq s' k s''
        → Reach ctl pq s (n + k) s''

  -- Every slot in use belongs to a running dispatch, is held by the worker or is one of the n that
  -- have leaked, and a bounded queue is within its bound.
  pub record IsAccounted (ctl : CapacityController S) (pq : PriorityQueue Q) (n : ℕ)
      (s : Service S Q) : Type 0 where
    pub slots : ctl.in_flight s.controller ≡ length s.running + (if s.holding then 1 else 0) + n
    pub bounded : (pq.maxsize ≡ 0) ⊎ (length (pq.contents s.queue) ≤ pq.maxsize)
