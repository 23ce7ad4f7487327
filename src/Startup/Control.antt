-- ===== src/Startup/Control.antt =====
-- The controller of a backend, whichever class it is of, as app/interfaces.py asks for.
use adaptive_admission_contr.Base.{
  ℕ, ◌+◌, ◌-◌, ◌≡◌, Bool, Option, none, some, arith, Option-cases, inl, inr,
}
use adaptive_admission_contr.Base.Float.{Float}
use adaptive_admission_contr.Interfaces.{CapacityController}
use adaptive_admission_contr.Capacity.Interface.{fixed_interface, adaptive_interface}
use adaptive_admission_contr.Startup.{Controller, fixed_controller, adaptive_controller}

module _ ⦃fl : Float⦄ where
  open fl use {F}

  acquire_either : (cost : ℕ) → Controller → Option Controller
  acquire_either cost (fixed_controller c) = elim (fixed_interface.acquire cost c) [
    | none ↦ none
    | some c' ↦ some (fixed_controller c')
  ]
  acquire_either cost (adaptive_controller c) = elim (adaptive_interface.acquire cost c) [
    | none ↦ none
    | some c' ↦ some (adaptive_controller c')
  ]

  release_either : (cost : ℕ) → F → (status_code : ℕ) → (timed_out : Bool) → Controller → Controller
  release_either cost latency status timed_out (fixed_controller c) =
      fixed_controller (fixed_interface.release cost latency status timed_out c)
  release_either cost latency status timed_out (adaptive_controller c) =
      adaptive_controller (adaptive_interface.release cost latency status timed_out c)

  pub current_limit : Controller → ℕ
  current_limit (fixed_controller c) = fixed_interface.current_limit c
  current_limit (adaptive_controller c) = adaptive_interface.current_limit c

  pub mean_latency_ms : Controller → Option F
  mean_latency_ms (fixed_controller c) = fixed_interface.mean_latency_ms c
  mean_latency_ms (adaptive_controller c) = adaptive_interface.mean_latency_ms c

  in_flight_either : Controller → ℕ
  in_flight_either (fixed_controller c) = fixed_interface.in_flight c
  in_flight_either (adaptive_controller c) = adaptive_interface.in_flight c

  acquire_either-takes :
      (cost : ℕ) (c c' : Controller)
      → acquire_either cost c ≡ some c'
      → in_flight_either c' ≡ in_flight_either c + cost
  unfolding acquire_either in_flight_either
  acquire_either-takes cost (fixed_controller c) c' e =
      elim (Option-cases (fixed_interface.acquire cost c)) [
        | inl full ↦ ground (arith, full)
        | inr (d, free) ↦ ground (arith, free, e, fixed_interface.acquire_takes cost c d free)
      ]
  acquire_either-takes cost (adaptive_controller c) c' e =
      elim (Option-cases (adaptive_interface.acquire cost c)) [
        | inl full ↦ ground (arith, full)
        | inr (d, free) ↦ ground (arith, free, e, adaptive_interface.acquire_takes cost c d free)
      ]

  release_either-gives :
      (cost : ℕ) (latency : F) (status : ℕ) (timed_out : Bool) (c : Controller)
      → in_flight_either (release_either cost latency status timed_out c)
        ≡ in_flight_either c - cost
  unfolding release_either in_flight_either
  release_either-gives cost latency status timed_out (fixed_controller c) =
      fixed_interface.release_gives cost latency status timed_out c
  release_either-gives cost latency status timed_out (adaptive_controller c) =
      adaptive_interface.release_gives cost latency status timed_out c

  pub controller_interface : CapacityController Controller
  controller_interface = record {
    acquire = acquire_either;
    release = release_either;
    current_limit = current_limit;
    mean_latency_ms = mean_latency_ms;
    in_flight = in_flight_either;
    acquire_takes = acquire_either-takes;
    release_gives = release_either-gives;
  }
