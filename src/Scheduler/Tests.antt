-- ===== src/Scheduler/Tests.antt =====
-- Three requests wait for one of two slots.
use adaptive_admission_contr.Base.{
  eqb, ◌+◌, ℕ, ◌≡◌, refl, Bool, true, false, arith, none, some, List, [], ◌∷◌,
}
use adaptive_admission_contr.Base.Int.{pos}
use adaptive_admission_contr.Base.Float.{Float, fixed_point}
use adaptive_admission_contr.Capacity.{FixedController, fixed, open_gate, acquire, fits}
use adaptive_admission_contr.Capacity.Interface.{fixed_interface, acquire_fixed, try_acquire}
use adaptive_admission_contr.Scheduler.{
  Entry, Service, NoTies, before, goes_on, enqueue, worker_round, estimate_wait_seconds,
}
use adaptive_admission_contr.Scheduler.Enqueue.{IsExplained, enqueue-IsExplained}
use adaptive_admission_contr.Scheduler.Order.{IsServed, worker_round-IsServed}
use adaptive_admission_contr.Scheduler.Drain.{count, rounds, live, rounds-drain}
use adaptive_admission_contr.Scheduler.Listed.{listed}

instance abbrev clock : Float
clock = fixed_point

abbrev request : (score : ℕ) → (arrival : ℕ) → (future : ℕ) → Entry
request score arrival future = record {
  ctx = record { arrival_time = arrival; source_ip = none; user_class = none; score = pos score };
  future = future;
}

abbrev waiting : List Entry
waiting = request 40 1000 0 ∷ request 90 3000 1 ∷ request 90 2000 2 ∷ []

abbrev idle : Service FixedController (List Entry)
unfolding fixed open_gate
idle = record { controller = fixed 2; queue = waiting; holding = false; running = [] }

abbrev never : Entry → Bool
never x = false

-- 50 waiting requests of 200 ms each over 10 slots: one second.
wait_of_fifty : estimate_wait_seconds 50 10 (some 200000) ≡ 1000
unfolding estimate_wait_seconds
wait_of_fifty = refl

enqueue-IsExplained_example :
    IsExplained fixed_interface
      (listed 3)
      30000
      (request 70 4000 3)
      (fixed 2)
      waiting
      (enqueue fixed_interface (listed 3) 30000 (request 70 4000 3) (fixed 2) waiting)
enqueue-IsExplained_example =
    enqueue-IsExplained fixed_interface (listed 3) 30000 (request 70 4000 3) (fixed 2) waiting refl

abbrev one_taken : FixedController
unfolding fixed open_gate
one_taken = record (fixed 2) { gate = record (open_gate 2) { in_flight = 1 } }

slot_free : fixed_interface.acquire 1 (fixed 2) ≡ some one_taken
unfolding fixed_interface acquire_fixed try_acquire fits acquire fixed open_gate one_taken
slot_free = refl

waiting-NoTies : NoTies waiting
unfolding before
waiting-NoTies =
    ((λ y i tie. ground arith), ((λ y i tie. ground arith), ((λ y i tie. absurd i), tt)))

worker_round-IsServed_example :
    (s' : Service FixedController (List Entry)) × (worker_round fixed_interface
        (listed 3)
        never
        idle
      ≡ goes_on s')
    × IsServed fixed_interface (listed 3) never idle s'
unfolding listed idle fixed
worker_round-IsServed_example =
    worker_round-IsServed fixed_interface (listed 3) never idle one_taken slot_free (λ e. cc)
      waiting-NoTies

abbrev holds : Service FixedController (List Entry)
unfolding fixed open_gate
holds = record idle { controller = one_taken; holding = true }

abbrev first_cancelled : Entry → Bool
first_cancelled x = eqb x.future 0

abbrev any_entry : Entry → Bool
any_entry x = true

rounds-drain_example :
    (s' : Service FixedController (List Entry)) × (rounds fixed_interface
        (listed 3)
        first_cancelled
        (fixed 2 ∷ fixed 2 ∷ fixed 2 ∷ [])
        idle
      ≡ goes_on s')
    × (s'.queue ≡ [])
    × (count any_entry s'.running
        ≡ count any_entry []
          + count (live fixed_interface (listed 3) first_cancelled any_entry) waiting)
unfolding listed idle
rounds-drain_example =
    rounds-drain fixed_interface (listed 3) first_cancelled (fixed 2 ∷ fixed 2 ∷ fixed 2 ∷ []) idle
      any_entry ((one_taken, slot_free), ((one_taken, slot_free), ((one_taken, slot_free), tt)))
      waiting-NoTies refl
