-- ===== src/Capacity/Interface.antt =====
-- Both controllers as what app/interfaces.py asks of a `CapacityController`.
use adaptive_admission_contr.Base.{
  ℕ, zero, suc, ◌+◌, ◌-◌, ◌≡◌, refl, Option, none, some, if◌then◌else◌, List, [], ◌∷◌, arith, inl,
  inr, Option-cases,
}
use adaptive_admission_contr.Base.Float.{Float}
use adaptive_admission_contr.Interfaces.{CapacityController}
use adaptive_admission_contr.Capacity.{
  Gate, fits, acquire, wake, notify, give_slot, FixedController, AdaptiveController, release_fixed,
  release_adaptive, mean,
}

wake-in_flight :
    (n : ℕ) (sleepers : List ℕ) (g : Gate) → (wake n sleepers g).in_flight ≡ g.in_flight
unfolding wake
wake-in_flight zero sleepers g = refl
wake-in_flight (suc n) [] g = refl
wake-in_flight (suc n) (c ∷ sleepers) g = wake-in_flight n sleepers _

pub give_slot-in_flight : (cost : ℕ) (g : Gate) → (give_slot cost g).in_flight ≡ g.in_flight - cost
unfolding give_slot notify
give_slot-in_flight cost g = wake-in_flight cost g.asleep _

-- `acquire` when it does not suspend.
unfoldable pub try_acquire : (cost : ℕ) → Gate → Option Gate
try_acquire cost g = if fits g cost then some (acquire cost g) else none

try_acquire-in_flight :
    (cost : ℕ) (g g' : Gate) → try_acquire cost g ≡ some g' → g'.in_flight ≡ g.in_flight + cost
unfolding try_acquire acquire
try_acquire-in_flight cost g g' e = ground arith

module _ ⦃fl : Float⦄ where
  open fl use {F}

  unfoldable pub acquire_fixed : (cost : ℕ) → FixedController → Option FixedController
  unfolding try_acquire
  acquire_fixed cost c = elim (try_acquire cost c.gate) [
    | none ↦ none
    | some g ↦ some (record c { gate = g })
  ]

  pub acquire_fixed-takes :
      (cost : ℕ) (c c' : FixedController)
      → acquire_fixed cost c ≡ some c'
      → c'.gate.in_flight ≡ c.gate.in_flight + cost
  unfolding acquire_fixed
  acquire_fixed-takes cost c c' e = elim (Option-cases (try_acquire cost c.gate)) [
    | inl full ↦ ground (arith, full)
    | inr (g, free) ↦ ground (arith, free, try_acquire-in_flight cost c.gate g free)
  ]

  unfoldable pub fixed_interface : CapacityController FixedController
  unfolding release_fixed
  fixed_interface = record {
    acquire = acquire_fixed;
    release = release_fixed;
    current_limit = λ c. c.gate.limit;
    mean_latency_ms = λ c. mean c.latency;
    in_flight = λ c. c.gate.in_flight;
    acquire_takes = acquire_fixed-takes;
    release_gives = λ cost l s t c. give_slot-in_flight cost c.gate;
  }

  acquire_adaptive : (cost : ℕ) → AdaptiveController → Option AdaptiveController
  unfolding try_acquire
  acquire_adaptive cost c = elim (try_acquire cost c.gate) [
    | none ↦ none
    | some g ↦ some (record c { gate = g })
  ]

  acquire_adaptive-takes :
      (cost : ℕ) (c c' : AdaptiveController)
      → acquire_adaptive cost c ≡ some c'
      → c'.gate.in_flight ≡ c.gate.in_flight + cost
  unfolding acquire_adaptive
  acquire_adaptive-takes cost c c' e = elim (Option-cases (try_acquire cost c.gate)) [
    | inl full ↦ ground (arith, full)
    | inr (g, free) ↦ ground (arith, free, try_acquire-in_flight cost c.gate g free)
  ]

  pub adaptive_interface : CapacityController AdaptiveController
  unfolding release_adaptive
  adaptive_interface = record {
    acquire = acquire_adaptive;
    release = release_adaptive;
    current_limit = λ c. c.gate.limit;
    mean_latency_ms = λ c. mean c.latency;
    in_flight = λ c. c.gate.in_flight;
    acquire_takes = acquire_adaptive-takes;
    release_gives = λ cost l s t c. give_slot-in_flight cost c.gate;
  }
