-- ===== src/Scheduler.antt =====
-- app/scheduler.py: `PriorityScheduler`, and the two exceptions of app/errors.py. The
-- `asyncio.PriorityQueue` is a parameter with its behaviour; one worker takes from it.
mod Drain
pub mod Enqueue
mod Order
mod Slots
pub mod Listed
mod Tests
use adaptive_admission_contr.Base.{
  ℕ, suc, ◌+◌, ◌-◌, ◌≤◌, ◌<◌, ◌≡◌, ◌⊎◌, inl, inr, refl, Bool, true, false, not, ◌&&◌, ◌||◌,
  if◌then◌else◌, ltb, leb, eqb, Option, none, some, List, [], ◌∷◌, ◌++◌, length, Text, In,
}
use adaptive_admission_contr.Base.Float.{Float}
use adaptive_admission_contr.Base.Int.{ℤ, leb_ℤ}
use adaptive_admission_contr.Interfaces.{RequestContext, CapacityController}

module _ ⦃fl : Float⦄ where
  open fl use {F, lt, minus, times, over, of_ℕ}

  unfoldable pub estimate_wait_seconds :
      (queue_depth concurrency_limit : ℕ) → (mean_latency_ms : Option F) → F
  estimate_wait_seconds queue_depth concurrency_limit none = of_ℕ 0
  estimate_wait_seconds queue_depth concurrency_limit (some mean) =
      if leb concurrency_limit 0
      then of_ℕ 0
      else over (over (times (of_ℕ queue_depth) mean) (of_ℕ concurrency_limit)) (of_ℕ 1000)

  -- What is queued: the request with its context, and the number of its future.
  pub record Entry : Type 0 where
    pub ctx : RequestContext
    pub open ctx use *
    pub future : ℕ

  -- The tuple `(-score, arrival_time, …)` of `x` is below that of `y`, by its first two parts.
  pub before : Entry → Entry → Bool
  before x y =
      not (leb_ℤ x.score y.score)
      || (leb_ℤ x.score y.score && leb_ℤ y.score x.score && lt x.arrival_time y.arrival_time)

  -- Neither is below the other by the first two parts of their tuples: to compare them further is a
  -- TypeError, since contexts have no order.
  abbrev pub Tied : Entry → Entry → Type 0
  Tied x y = (before x y ≡ false) × (before y x ≡ false)

  abbrev pub NoTies : List Entry → Type 0
  NoTies [] = Unit
  NoTies (x ∷ xs) = ((y : Entry) → In y xs → ¬ Tied x y) × NoTies xs

  -- `put_nowait`: QueueFull, a TypeError (the item is in the heap all the same), or the new queue.
  pub data Put (Q : Type 0) : Type 0 where
    full : Put Q
    put_raises : Q → Put Q
    taken : Q → Put Q

  -- `get`: it waits, a TypeError leaves it, or it yields an item.
  pub data Got (Q : Type 0) : Type 0 where
    empty : Got Q
    get_raises : Got Q
    got : Entry → Q → Got Q

  -- `asyncio.PriorityQueue`, with `contents` its items in the order in which they were put: it
  -- refuses an item when it is full, where a bound of 0 is none, and it yields a least item. Of the
  -- comparisons of the heap it is known only that they raise where two items are tied.
  pub record PriorityQueue (Q : Type 0) : Type 0 where
    pub maxsize : ℕ
    pub contents : Q → List Entry
    pub put_nowait : Entry → Q → Put Q
    pub get : Q → Got Q
    pub put_full :
        (x : Entry) (q : Q)
        → put_nowait x q ≡ full
        → (0 < maxsize) × (maxsize ≤ length (contents q))
    pub put_takes :
        (x : Entry) (q q' : Q)
        → put_nowait x q ≡ taken q'
        → (contents q' ≡ contents q ++ x ∷ []) × ((maxsize ≡ 0) ⊎ (length (contents q) < maxsize))
    pub put_tied :
        (x : Entry) (q q' : Q)
        → put_nowait x q ≡ put_raises q'
        → (contents q' ≡ contents q ++ x ∷ [])
          × ((maxsize ≡ 0) ⊎ (length (contents q) < maxsize))
          × (y : Entry) × In y (contents q)
          × Tied x y
    pub get_empty : (q : Q) → get q ≡ empty → contents q ≡ []
    pub get_tied : (q : Q) → get q ≡ get_raises → ¬ NoTies (contents q)
    pub get_takes :
        (x : Entry) (q q' : Q)
        → get q ≡ got x q'
        → (l : List Entry) × (r : List Entry) × (contents q ≡ l ++ x ∷ r) × (contents q' ≡ l ++ r)
    pub get_least :
        (x y : Entry) (q q' : Q) → get q ≡ got x q' → In y (contents q) → before y x ≡ false

  -- How `enqueue` ends. The TypeError is one that it does not expect.
  pub data Enqueued (Q : Type 0) : Type 0 where
    queued : Q → Enqueued Q
    queue_full_error : Enqueued Q
    queue_wait_exceeded_error : Enqueued Q
    type_error : Q → Enqueued Q

  put_entry : {Q : Type 0} → PriorityQueue Q → Entry → Q → Enqueued Q
  put_entry pq x q = elim (pq.put_nowait x q) [
    | full ↦ queue_full_error
    | put_raises q' ↦ type_error q'
    | taken q' ↦ queued q'
  ]

  pub Put-cases :
      {Q : Type 0} (r : Put Q)
      → (r ≡ full) ⊎ ((q : Q) × (r ≡ put_raises q)) ⊎ ((q : Q) × (r ≡ taken q))
  Put-cases full = inl refl
  Put-cases (put_raises q) = inr (inl (q, refl))
  Put-cases (taken q) = inr (inr (q, refl))

  pub Got-cases :
      {Q : Type 0} (r : Got Q)
      → (r ≡ empty) ⊎ (r ≡ get_raises) ⊎ ((x : Entry) × (q : Q) × (r ≡ got x q))
  Got-cases empty = inl refl
  Got-cases get_raises = inr (inl refl)
  Got-cases (got x q) = inr (inr (x, q, refl))

  -- A round waits, or ends the worker with the TypeError, or goes on.
  pub data Round (A : Type 0) : Type 0 where
    waits : Round A
    dies : Round A
    goes_on : A → Round A

  -- The worker: it waits for a slot, or holds one and waits for an item; `running` are the
  -- dispatches that it has started, each of which owns a slot.
  pub record Service (S Q : Type 0) : Type 0 where
    pub controller : S
    pub queue : Q
    pub holding : Bool
    pub running : List Entry

  module _ {S Q : Type 0} where
    unfoldable pub projected_wait : CapacityController S → PriorityQueue Q → S → Q → F
    unfolding estimate_wait_seconds
    projected_wait ctl pq c q =
        estimate_wait_seconds (length (pq.contents q)) (ctl.current_limit c) (ctl.mean_latency_ms c)

    pub enqueue :
        CapacityController S → PriorityQueue Q → (queue_timeout : F) → Entry → S → Q → Enqueued Q
    unfolding projected_wait put_entry
    enqueue ctl pq queue_timeout x c q =
        if lt queue_timeout (projected_wait ctl pq c q)
        then queue_wait_exceeded_error
        else put_entry pq x q

    -- `await controller.acquire(1)`, once it is granted.
    pub take_slot : CapacityController S → Service S Q → Option (Service S Q)
    take_slot ctl s = elim (ctl.acquire 1 s.controller) [
      | none ↦ none
      | some c ↦ some (record s { controller = c; holding = true })
    ]

    -- The item goes to a dispatch, unless its future was cancelled: then the slot is given back.
    serve :
        CapacityController S → (is_cancelled : Entry → Bool) → Entry → Q → Service S Q → Service S Q
    serve ctl is_cancelled x q s =
        if is_cancelled x
        then record s {
          queue = q;
          holding = false;
          controller = ctl.release 1 (of_ℕ 0) 0 false s.controller;
        }
        else record s { queue = q; holding = false; running = s.running ++ x ∷ [] }

    -- The rest of a round; it waits while the queue is empty.
    pub serve_next :
        CapacityController S
        → PriorityQueue Q
        → (is_cancelled : Entry → Bool) → Service S Q
        → Round (Service S Q)
    unfolding serve
    serve_next ctl pq is_cancelled s = elim (pq.get s.queue) [
      | empty ↦ waits
      | get_raises ↦ dies
      | got x q ↦ goes_on (serve ctl is_cancelled x q s)
    ]

    -- One round of `run_worker`.
    pub worker_round :
        CapacityController S
        → PriorityQueue Q
        → (is_cancelled : Entry → Bool) → Service S Q
        → Round (Service S Q)
    unfolding take_slot serve_next
    worker_round ctl pq is_cancelled s = elim (take_slot ctl s) [
      | none ↦ waits
      | some s' ↦ serve_next ctl pq is_cancelled s'
    ]
