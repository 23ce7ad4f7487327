-- ===== src/Scheduler/Enqueue.antt =====
-- When `enqueue` takes a request, and why it refuses one.
use adaptive_admission_contr.Base.{
  ◌+◌, ◌≤◌, ◌<◌, ◌≡◌, ◌≢◌, ◌⊎◌, inl, inr, true, false, none, [], ◌∷◌, ◌++◌, length, length-append,
  arith, Bool-cases, Option-cases, ◌∙◌, ap, In,
}
use adaptive_admission_contr.Base.Float.{Float}
use adaptive_admission_contr.Interfaces.{CapacityController}
use adaptive_admission_contr.Scheduler.{
  Entry, PriorityQueue, Enqueued, queued, queue_full_error, queue_wait_exceeded_error, type_error,
  put_raises, Tied, before, Put-cases, estimate_wait_seconds, projected_wait, put_entry, enqueue,
}

module _ ⦃fl : Float⦄ where
  open fl use {F, lt, of_ℕ}

  -- Every request that waits has arrived before `x`.
  abbrev pub AllEarlier : {Q : Type 0} → PriorityQueue Q → Entry → Q → Type 0
  AllEarlier pq x q = (y : Entry) → In y (pq.contents q) → lt y.arrival_time x.arrival_time ≡ true

  earlier-Tied : (x y : Entry) → lt y.arrival_time x.arrival_time ≡ true → ¬ Tied x y
  unfolding before
  earlier-Tied x y h tie = let (a, b) = tie in ground (arith, h, a, b)

  module _ {S Q : Type 0} where
    abbrev pub IsExplained :
        CapacityController S → PriorityQueue Q → F → Entry → S → Q → Enqueued Q → Type 0
    IsExplained ctl pq timeout x c q (queued q') =
        (lt timeout (projected_wait ctl pq c q) ≡ false)
        × (pq.contents q' ≡ pq.contents q ++ x ∷ [])
        × ((pq.maxsize ≡ 0) ⊎ (length (pq.contents q') ≤ pq.maxsize))
    IsExplained ctl pq timeout x c q (type_error q') =
        (lt timeout (projected_wait ctl pq c q) ≡ false)
        × (pq.contents q' ≡ pq.contents q ++ x ∷ [])
        × ((pq.maxsize ≡ 0) ⊎ (length (pq.contents q') ≤ pq.maxsize))
        × (y : Entry) × In y (pq.contents q)
        × Tied x y
    IsExplained ctl pq timeout x c q queue_full_error =
        (lt timeout (projected_wait ctl pq c q) ≡ false)
        × (0 < pq.maxsize)
        × (pq.maxsize ≤ length (pq.contents q))
    IsExplained ctl pq timeout x c q queue_wait_exceeded_error =
        (lt timeout (projected_wait ctl pq c q) ≡ true)
        × (ctl.mean_latency_ms c ≢ none)
        × (0 < ctl.current_limit c)

    put_entry-IsExplained :
        (ctl : CapacityController S) (pq : PriorityQueue Q) (timeout : F) (x : Entry) (c : S)
        (q : Q)
        → lt timeout (projected_wait ctl pq c q) ≡ false
        → IsExplained ctl pq timeout x c q (put_entry pq x q)
    unfolding put_entry
    put_entry-IsExplained ctl pq timeout x c q soon = elim (Put-cases (pq.put_nowait x q)) [
      | inl full_now ↦
          let (bounded, reached) = pq.put_full x q full_now in
          rw (full_now, put_entry) (soon, bounded, reached)
      | inr (inl (q', raised)) ↦
          let (all, room, y, there, tie) = pq.put_tied x q q' raised in
          let count : length (pq.contents q') ≡ length (pq.contents q) + 1 =
            ap length all ∙ length-append (pq.contents q) (x ∷ []) in
          rw (raised, put_entry) (soon, all, ground (arith, room, count), y, there, tie)
      | inr (inr (q', took)) ↦
          let (all, room) = pq.put_takes x q q' took in
          let count : length (pq.contents q') ≡ length (pq.contents q) + 1 =
            ap length all ∙ length-append (pq.contents q) (x ∷ []) in
          rw (took, put_entry) (soon, all, ground (arith, room, count))
    ]

    exceeded-measured :
        (ctl : CapacityController S) (pq : PriorityQueue Q) (timeout : F) (c : S) (q : Q)
        → lt timeout (of_ℕ 0) ≡ false
        → lt timeout (projected_wait ctl pq c q) ≡ true
        → (ctl.mean_latency_ms c ≢ none) × (0 < ctl.current_limit c)
    unfolding projected_wait estimate_wait_seconds
    exceeded-measured ctl pq timeout c q sane long = elim (Option-cases (ctl.mean_latency_ms c)) [
      | inl cold ↦ ground (arith, cold)
      | inr (m, warm) ↦ ground (arith, warm)
    ]

    -- With a timeout that is not negative, a request is queued behind those that wait, and the
    -- bounded queue stays within its bound; or it is refused because the queue is full; or because
    -- the projected wait is over the timeout, which happens only once latencies are known and the
    -- limit is positive; or a TypeError leaves the call, which happens only when a request that waits
    -- has the same score and the same arrival, and then the entry is in the queue all the same.
    pub enqueue-IsExplained :
        (ctl : CapacityController S) (pq : PriorityQueue Q) (timeout : F) (x : Entry) (c : S)
        (q : Q)
        → lt timeout (of_ℕ 0) ≡ false
        → IsExplained ctl pq timeout x c q (enqueue ctl pq timeout x c q)
    unfolding enqueue
    enqueue-IsExplained ctl pq timeout x c q sane =
        elim (Bool-cases (lt timeout (projected_wait ctl pq c q))) [
          | inl long ↦
              let (warm, positive) = exceeded-measured ctl pq timeout c q sane long in
              rw (long, enqueue) (long, warm, positive)
          | inr soon ↦ rw (soon, enqueue) (put_entry-IsExplained ctl pq timeout x c q soon)
        ]

    -- No TypeError when every request that waits has arrived before.
    pub enqueue-untied :
        (ctl : CapacityController S) (pq : PriorityQueue Q) (timeout : F) (x : Entry) (c : S)
        (q q' : Q)
        → AllEarlier pq x q
        → enqueue ctl pq timeout x c q ≢ type_error q'
    unfolding enqueue put_entry
    enqueue-untied ctl pq timeout x c q q' earlier e =
        let raised : pq.put_nowait x q ≡ put_raises q' = ground arith in
        let (_, _, y, there, tie) = pq.put_tied x q q' raised in
        earlier-Tied x y (earlier y there) tie

    -- The outcomes of the call when every request that waits has arrived before.
    pub enqueue-cases :
        (ctl : CapacityController S) (pq : PriorityQueue Q) (timeout : F) (x : Entry) (c : S)
        (q : Q)
        → AllEarlier pq x q
        → ((lt timeout (projected_wait ctl pq c q) ≡ true)
            × (enqueue ctl pq timeout x c q ≡ queue_wait_exceeded_error))
          ⊎ ((lt timeout (projected_wait ctl pq c q) ≡ false)
              × (0 < pq.maxsize)
              × (pq.maxsize ≤ length (pq.contents q))
              × (enqueue ctl pq timeout x c q ≡ queue_full_error))
          ⊎ ((lt timeout (projected_wait ctl pq c q) ≡ false)
              × ((pq.maxsize ≡ 0) ⊎ (length (pq.contents q) < pq.maxsize))
              × (q' : Q) × (enqueue ctl pq timeout x c q ≡ queued q'))
    unfolding enqueue put_entry
    enqueue-cases ctl pq timeout x c q earlier =
        elim (Bool-cases (lt timeout (projected_wait ctl pq c q))) [
          | inl long ↦ inl (long, ground (arith, long))
          | inr soon ↦ elim (Put-cases (pq.put_nowait x q)) [
            | inl full_now ↦
                let (bounded, reached) = pq.put_full x q full_now in
                inr (inl (soon, bounded, reached, ground (arith, soon, full_now)))
            | inr (inl (q', raised)) ↦
                let (_, _, y, there, tie) = pq.put_tied x q q' raised in
                absurd (earlier-Tied x y (earlier y there) tie)
            | inr (inr (q', took)) ↦
                let (_, room) = pq.put_takes x q q' took in
                inr (inr (soon, room, q', ground (arith, soon, took)))
          ]
        ]
