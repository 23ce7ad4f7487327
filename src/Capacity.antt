-- ===== src/Capacity.antt =====
-- app/capacity.py: the rolling windows and the fixed and adaptive concurrency controllers. A task
-- that is blocked in `acquire` stands in `asleep`, with its cost, until `notify` moves it to
-- `woken`; there it waits for its turn to test the capacity again.
mod Slots
mod Runs
mod Limit
mod Window
pub mod Interface
mod Tests
use Prim.Native.Nat.{max, min}
use mathlib.Core.List.{foldl}
use adaptive_admission_contr.Base.{
  ℕ, zero, suc, ◌+◌, ◌-◌, ◌*◌, ◌/◌, Bool, true, false, not, ◌&&◌, if◌then◌else◌, ltb, leb, eqb,
  Option, none, some, List, [], ◌∷◌, ◌++◌, length, drop, get_elem?,
}
use adaptive_admission_contr.Base.Float.{Float}

-- `deque(maxlen=size).append(x)`
pub push {ℓ} : {A : Type ℓ} → (size : ℕ) → A → List A → List A
push size x xs = drop (length (xs ++ x ∷ []) - size) (xs ++ x ∷ [])

abbrev pub min_samples : ℕ
min_samples = 10

-- What both controllers share: the limit and the condition variable.
pub record Gate : Type 0 where
  pub limit : ℕ
  pub in_flight : ℕ
  pub asleep : List ℕ
  pub woken : List ℕ

unfoldable pub open_gate : ℕ → Gate
open_gate limit = record { limit = limit; in_flight = 0; asleep = []; woken = [] }

unfoldable pub fits : Gate → (cost : ℕ) → Bool
fits g cost = leb (g.in_flight + cost) g.limit

-- `acquire` up to its first suspension: the slot is taken, or the task sleeps.
unfoldable pub acquire : (cost : ℕ) → Gate → Gate
unfolding fits
acquire cost g =
    if fits g cost
    then record g { in_flight = g.in_flight + cost }
    else record g { asleep = g.asleep ++ cost ∷ [] }

-- A notified task tests the capacity again, the first notified first.
recheck : List ℕ → Gate → Gate
unfolding fits
recheck [] g = g
recheck (cost ∷ rest) g =
    if fits g cost
    then record g { in_flight = g.in_flight + cost; woken = rest }
    else record g { asleep = g.asleep ++ cost ∷ []; woken = rest }

pub resume : Gate → Gate
unfolding recheck
resume g = recheck g.woken g

-- `Condition.notify(n)`: at most n sleeping tasks wake, the longest asleep first.
pub wake : ℕ → List ℕ → Gate → Gate
wake zero sleepers g = record g { asleep = sleepers }
wake (suc n) [] g = record g { asleep = [] }
wake (suc n) (c ∷ sleepers) g = wake n sleepers (record g { woken = g.woken ++ c ∷ [] })

pub notify : ℕ → Gate → Gate
unfolding wake
notify n g = wake n g.asleep g

pub notify_all : Gate → Gate
notify_all g = record g { asleep = []; woken = g.woken ++ g.asleep }

-- A raised limit wakes every task that sleeps.
pub set_limit : ℕ → Gate → Gate
unfolding notify_all
set_limit limit g =
    if ltb g.limit limit
    then notify_all (record g { limit = limit })
    else record g { limit = limit }

-- A task gives back what it acquired, so `in_flight` does not fall below 0.
pub give_slot : (cost : ℕ) → Gate → Gate
unfolding notify
give_slot cost g = notify cost (record g { in_flight = g.in_flight - cost })

module _ ⦃fl : Float⦄ where
  open fl use {F, lt, plus, times, over, of_ℕ, lit, trunc}

  pub record LatencyWindow : Type 0 where
    pub window_size : ℕ
    pub samples : List F

  pub record_latency : F → LatencyWindow → LatencyWindow
  unfolding push
  record_latency x w = record w { samples = push w.window_size x w.samples }

  unfoldable pub mean : LatencyWindow → Option F
  mean w =
      if ltb (length w.samples) min_samples
      then none
      else some (over (foldl plus (of_ℕ 0) w.samples) (of_ℕ (length w.samples)))

  place : F → List F → List F
  place x [] = x ∷ []
  place x (y ∷ ys) = if lt y x then y ∷ place x ys else x ∷ y ∷ ys

  pub sorted : List F → List F
  unfolding place
  sorted [] = []
  sorted (x ∷ xs) = place x (sorted xs)

  -- `int(0.95 * n)`: for the windows of 100 samples the float product has this integer part.
  pub p95_index : ℕ → ℕ
  p95_index n = 95 * n / 100

  -- The inner `none` would be an IndexError.
  pub p95 : LatencyWindow → Option F
  unfolding sorted p95_index
  p95 w =
      if ltb (length w.samples) min_samples
      then none
      else get_elem? (sorted w.samples) (p95_index (length w.samples))

  pub record RateWindow : Type 0 where
    pub window_size : ℕ
    pub outcomes : List Bool

  pub record_outcome : Bool → RateWindow → RateWindow
  unfolding push
  record_outcome x w = record w { outcomes = push w.window_size x w.outcomes }

  pub count_true : List Bool → ℕ
  count_true [] = 0
  count_true (x ∷ xs) = if x then suc (count_true xs) else count_true xs

  rate_of : List Bool → F
  unfolding count_true
  rate_of [] = of_ℕ 0
  rate_of (x ∷ xs) = over (of_ℕ (count_true (x ∷ xs))) (of_ℕ (length (x ∷ xs)))

  pub rate : RateWindow → F
  unfolding rate_of
  rate w = rate_of w.outcomes

  pub record FixedController : Type 0 where
    pub gate : Gate
    pub latency : LatencyWindow

  unfoldable pub fixed : ℕ → FixedController
  unfolding open_gate
  fixed limit = record {
    gate = open_gate limit;
    latency = record { window_size = 100; samples = [] };
  }

  record_served :
      (latency_ms : F) → (status_code : ℕ) → (timed_out : Bool) → LatencyWindow → LatencyWindow
  unfolding record_latency
  record_served latency_ms status_code timed_out w =
      if not timed_out && ltb status_code 500 then record_latency latency_ms w else w

  pub release_fixed :
      (cost : ℕ) → F → (status_code : ℕ) → (timed_out : Bool) → FixedController → FixedController
  unfolding give_slot record_served
  release_fixed cost latency_ms status_code timed_out c = record {
    gate = give_slot cost c.gate;
    latency = record_served latency_ms status_code timed_out c.latency;
  }

  pub record AdaptiveConfig : Type 0 where
    pub initial_concurrency : ℕ
    pub min_concurrency : ℕ
    pub max_concurrency : ℕ
    pub target_p95_ms : F
    pub timeout_rate_threshold : F
    pub error_rate_threshold : F

  pub record AdaptiveController : Type 0 where
    pub config : AdaptiveConfig
    pub open config use *
    pub gate : Gate
    pub latency : LatencyWindow
    pub timeouts : RateWindow
    pub errors : RateWindow
    pub cooldown_until : F

  unfoldable pub adaptive : AdaptiveConfig → AdaptiveController
  unfolding open_gate
  adaptive config = record {
    config = config;
    gate = open_gate config.initial_concurrency;
    latency = record { window_size = 100; samples = [] };
    timeouts = record { window_size = 100; outcomes = [] };
    errors = record { window_size = 100; outcomes = [] };
    cooldown_until = of_ℕ 0;
  }

  pub release_adaptive :
      (cost : ℕ)
      → F
      → (status_code : ℕ) → (timed_out : Bool) → AdaptiveController
      → AdaptiveController
  unfolding give_slot record_served record_outcome
  release_adaptive cost latency_ms status_code timed_out c = record c {
    gate = give_slot cost c.gate;
    timeouts = record_outcome timed_out c.timeouts;
    errors = record_outcome (leb 500 status_code && not timed_out) c.errors;
    latency = record_served latency_ms status_code timed_out c.latency;
  }

  -- `int(limit * p/q)`
  pub scale : (p q limit : ℕ) → ℕ
  scale p q limit = trunc (times (of_ℕ limit) (lit p q))

  -- The ladder of `_adjust`: the new limit, and the seconds of cooldown that it sets.
  pub decide_limit :
      AdaptiveController → (limit : ℕ) → (p95_ms timeout_rate error_rate : F) → ℕ × Option ℕ
  unfolding scale
  decide_limit c limit p95_ms timeout_rate error_rate =
      if lt c.timeout_rate_threshold timeout_rate
      then (max c.min_concurrency (scale 60 100 limit), some 60)
      else if lt c.error_rate_threshold error_rate
      then (max c.min_concurrency (scale 75 100 limit), some 30)
      else if lt (times (of_ℕ 2) c.target_p95_ms) p95_ms
      then (max c.min_concurrency (scale 70 100 limit), some 30)
      else if lt c.target_p95_ms p95_ms
      then (max c.min_concurrency (scale 85 100 limit), none)
      else if lt p95_ms (times (lit 1 2) c.target_p95_ms)
      then (min c.max_concurrency (scale 105 100 limit), none)
      else (limit, none)

  pub cool : F → Option ℕ → F → F
  cool now none until = until
  cool now (some seconds) until = plus now (of_ℕ seconds)

  pub apply_decision : F → ℕ × Option ℕ → AdaptiveController → AdaptiveController
  unfolding set_limit cool
  apply_decision now (limit, cooldown) c = record c {
    gate = set_limit limit c.gate;
    cooldown_until = cool now cooldown c.cooldown_until;
  }

  -- `_adjust`, at the clock's reading `now`.
  pub adjust : (now : F) → AdaptiveController → AdaptiveController
  unfolding p95 rate decide_limit apply_decision
  adjust now c = elim (p95 c.latency) [
    | none ↦ c
    | some p ↦
        apply_decision now (decide_limit c c.gate.limit p (rate c.timeouts) (rate c.errors)) c
  ]

  -- One round of `adjust_loop`.
  pub adjust_round : (now : F) → AdaptiveController → AdaptiveController
  unfolding adjust
  adjust_round now c = if lt now c.cooldown_until then c else adjust now c
