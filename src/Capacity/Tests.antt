-- ===== src/Capacity/Tests.antt =====
-- Controllers at work: a fixed one with two slots, and an adaptive one.
use adaptive_admission_contr.Base.{ℕ, ◌≤◌, ◌<◌, ◌≡◌, refl, false, arith, some, List, [], ◌∷◌}
use adaptive_admission_contr.Base.Float.{Float, fixed_point, fixed_point-IsRounded}
use adaptive_admission_contr.Capacity.{
  LatencyWindow, FixedController, fixed, release_fixed, AdaptiveConfig, AdaptiveController,
  adaptive, adjust, adjust_round, acquire, p95, mean,
}
use adaptive_admission_contr.Capacity.Limit.{adjust_lem, adjust-small, IsCalm, IsStrained}
use adaptive_admission_contr.Capacity.Runs.{
  FixedReach, FixedIsSafe, fixed-IsSafe, AdaptiveReach, AdaptiveIsSafe, adaptive-IsSafe,
}
use adaptive_admission_contr.Capacity.Runs

instance abbrev clock : Float
clock = fixed_point

abbrev config : AdaptiveConfig
config = record {
  initial_concurrency = 40;
  min_concurrency = 10;
  max_concurrency = 50;
  target_p95_ms = 100000;
  timeout_rate_threshold = 50;
  error_rate_threshold = 100;
}

abbrev ten : List ℕ
ten = 30000 ∷ 10000 ∷ 20000 ∷ 20000 ∷ 20000 ∷ 20000 ∷ 20000 ∷ 20000 ∷ 20000 ∷ 20000 ∷ []

abbrev quick : LatencyWindow
quick = record { window_size = 100; samples = ten }

-- A controller with ten fast samples, at a given limit.
abbrev at_limit : ℕ → AdaptiveController
unfolding adaptive
at_limit n = record (adaptive config) {
  latency = quick;
  gate = record { limit = n; in_flight = 0; asleep = 1 ∷ []; woken = [] };
}

p95-quick : p95 quick ≡ some 30000
unfolding p95
p95-quick = refl

mean-quick : mean quick ≡ some 20000
unfolding mean
mean-quick = refl

grown :
    (adjust 0 (at_limit 40)).gate
    ≡ record { limit = 42; in_flight = 0; asleep = []; woken = 1 ∷ [] }
unfolding adjust adaptive
grown = refl

stuck_at_19 : (adjust 0 (at_limit 19)).gate.limit ≡ 19
unfolding adjust adaptive
stuck_at_19 = refl

adjust_lem_example :
    let n = (adjust 0 (at_limit 40)).gate.limit in
    (10 ≤ n)
    × (n ≤ 50)
    × (40 < n → (p : ℕ) × (p95 quick ≡ some p) × IsCalm fixed_point-IsRounded (at_limit 40) p)
    × (n < 40 → (p : ℕ) × (p95 quick ≡ some p) × IsStrained fixed_point-IsRounded (at_limit 40) p)
unfolding adaptive
adjust_lem_example =
    adjust_lem fixed_point-IsRounded 0 (at_limit 40) (omega arith) (omega arith) (omega arith)

adjust-small_example : (adjust 0 (at_limit 19)).gate.limit ≤ 19
unfolding adaptive
adjust-small_example =
    adjust-small fixed_point-IsRounded 0 (at_limit 19) (omega arith) (omega arith) (omega arith)
      (omega arith)

abbrev two : FixedController
two = fixed 2

abbrev busy : FixedController
busy = record two { gate = acquire 1 two.gate }

busy_holds : 0 < busy.gate.in_flight
unfolding fixed acquire
busy_holds = omega arith

fixed-IsSafe_example : FixedIsSafe 2 (release_fixed 1 5000 200 false busy)
fixed-IsSafe_example = fixed-IsSafe 2 (
    FixedReach.next (FixedReach.next FixedReach.here Runs.FixedStep.acquires)
      (Runs.FixedStep.releases 5000 200 false busy_holds))

adaptive-IsSafe_example : AdaptiveIsSafe config (adjust_round 31000 (adaptive config))
adaptive-IsSafe_example =
    adaptive-IsSafe fixed_point-IsRounded config (omega arith) (omega arith) (omega arith)
      (AdaptiveReach.next AdaptiveReach.here (Runs.AdaptiveStep.adjusts 31000))
