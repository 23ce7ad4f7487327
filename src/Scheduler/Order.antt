-- ===== src/Scheduler/Order.antt =====
-- Which request a round of the worker serves.
use adaptive_admission_contr.Base.{
  ◌+◌, ◌≡◌, ◌≢◌, refl, inl, inr, Bool, true, false, some, List, [], ◌∷◌, ◌++◌, arith, Bool-cases,
  if◌then◌else◌, In,
}
use adaptive_admission_contr.Base.Float.{Float}
use adaptive_admission_contr.Base.Int.{leb_ℤ}
use adaptive_admission_contr.Interfaces.{CapacityController}
use adaptive_admission_contr.Scheduler.{
  Entry, before, PriorityQueue, Service, NoTies, got, Got-cases, goes_on, take_slot, serve,
  serve_next, worker_round,
}

module _ ⦃fl : Float⦄ where
  open fl use {F, lt, of_ℕ}

  -- No entry that waits has a higher score than `x`, or the same score and an earlier arrival.
  pub record IsNext {Q : Type 0} (pq : PriorityQueue Q) (q : Q) (x : Entry) : Type 0 where
    pub highest : (y : Entry) → In y (pq.contents q) → leb_ℤ y.score x.score ≡ true
    pub earliest :
        (y : Entry)
        → In y (pq.contents q)
        → y.score ≡ x.score
        → lt y.arrival_time x.arrival_time ≡ false

  before-highest : (x y : Entry) → before y x ≡ false → leb_ℤ y.score x.score ≡ true
  unfolding before
  before-highest x y h = ground arith

  before-earliest :
      (x y : Entry)
      → before y x ≡ false
      → y.score ≡ x.score
      → lt y.arrival_time x.arrival_time ≡ false
  unfolding before
  before-earliest x y h same = ground arith

  module _ {S Q : Type 0} where
    -- The state `s'` that a round leaves, in which `x` has left the queue.
    pub record IsServed (ctl : CapacityController S) (pq : PriorityQueue Q)
        (is_cancelled : Entry → Bool) (s s' : Service S Q) : Type 0 where
      pub served : Entry
      pub is_next : IsNext pq s.queue served
      pub ahead : List Entry
      pub behind : List Entry
      pub waited : pq.contents s.queue ≡ ahead ++ served ∷ behind
      pub left : pq.contents s'.queue ≡ ahead ++ behind
      pub started :
          s'.running ≡ (if is_cancelled served then s.running else s.running ++ served ∷ [])
      pub slots :
          ctl.in_flight s'.controller
          ≡ ctl.in_flight s.controller + (if is_cancelled served then 0 else 1)
      pub released : s'.holding ≡ false

    serve-IsServed :
        (ctl : CapacityController S) (pq : PriorityQueue Q) (is_cancelled : Entry → Bool)
        (s : Service S Q) (c : S) (x : Entry) (q : Q)
        → ctl.acquire 1 s.controller ≡ some c
        → pq.get s.queue ≡ got x q
        → IsServed ctl pq is_cancelled s
            (serve ctl is_cancelled x q (record s { controller = c; holding = true }))
    unfolding serve
    serve-IsServed ctl pq is_cancelled s c x q free found =
        let (l, r, waits, left) = pq.get_takes x s.queue q found in
        let taken = ctl.acquire_takes 1 s.controller c free in
        let given = ctl.release_gives 1 (of_ℕ 0) 0 false c in
        let next : IsNext pq s.queue x = record {
          highest = λ y i. before-highest x y (pq.get_least x y s.queue q found i);
          earliest = λ y i. before-earliest x y (pq.get_least x y s.queue q found i);
        } in
        elim (Bool-cases (is_cancelled x)) [
          | inl gone ↦
              rw (gone, serve)
                (record {
                  served = x;
                  is_next = next;
                  ahead = l;
                  behind = r;
                  waited = waits;
                  left = left;
                  started = rw gone;
                  slots = ground (arith, gone, taken, given);
                  released = refl;
                })
          | inr here ↦
              rw (here, serve)
                (record {
                  served = x;
                  is_next = next;
                  ahead = l;
                  behind = r;
                  waited = waits;
                  left = left;
                  started = rw here;
                  slots = ground (arith, here, taken, given);
                  released = refl;
                })
        ]

    -- When a slot is free, some request waits and no two that wait have both the same score and the
    -- same arrival, a round of the worker completes. It takes from the
    -- queue a request of the highest score and, among these, of the earliest arrival, and leaves
    -- the others in place. Unless its future was cancelled the request is dispatched and one more
    -- slot is in use; else nothing is dispatched and no slot more is in use.
    pub worker_round-IsServed :
        (ctl : CapacityController S) (pq : PriorityQueue Q) (is_cancelled : Entry → Bool)
        (s : Service S Q) (c : S)
        → ctl.acquire 1 s.controller ≡ some c
        → pq.contents s.queue ≢ []
        → NoTies (pq.contents s.queue)
        → (s' : Service S Q) × (worker_round ctl pq is_cancelled s ≡ goes_on s')
          × IsServed ctl pq is_cancelled s s'
    unfolding worker_round take_slot serve_next
    worker_round-IsServed ctl pq is_cancelled s c free waiting untied =
        elim (Got-cases (pq.get s.queue)) [
          | inl none_left ↦ absurd (waiting (pq.get_empty s.queue none_left))
          | inr (inl raised) ↦ absurd (pq.get_tied s.queue raised untied)
          | inr (inr (x, q, found)) ↦ (
            serve ctl is_cancelled x q (record s { controller = c; holding = true }),
            rw (worker_round, take_slot, free, serve_next, found) refl,
            serve-IsServed ctl pq is_cancelled s c x q free found,
          )
        ]
