-- ===== src/Capacity/Runs.antt =====
-- Every run of a controller: tasks acquire, resume and release, and the limit is adjusted, in any
-- order. A task releases only a slot that it holds.
use adaptive_admission_contr.Base.{
  ℕ, ◌≤◌, ◌<◌, ◌≡◌, refl, ap, ◌∙◌, inl, inr, Bool, arith, Bool-cases, Option-cases,
}
use adaptive_admission_contr.Base.Float.{Float, IsRounded}
use adaptive_admission_contr.Capacity.{
  open_gate, acquire, resume, FixedController, fixed, release_fixed, AdaptiveConfig,
  AdaptiveController, adaptive, release_adaptive, adjust, adjust_round, apply_decision,
  decide_limit, p95, rate,
}
use adaptive_admission_contr.Capacity.Slots.{
  IsAwake, Use, acquiring, resuming, giving, Use-IsAwake, Use-slots, set_limit-IsAwake,
  set_limit-slots,
}
use adaptive_admission_contr.Capacity.Limit.{adjust_lem}

open_gate-IsAwake : (n : ℕ) → IsAwake (open_gate n)
unfolding open_gate
open_gate-IsAwake n = record { units_asleep = tt; units_woken = tt; spoken_for = inl refl }

module _ ⦃fl : Float⦄ where
  open fl use {F, lt}

  pub data FixedStep (c : FixedController) : FixedController → Type 0 where
    acquires : FixedStep c (record c { gate = acquire 1 c.gate })
    resumes : FixedStep c (record c { gate = resume c.gate })
    releases :
        (latency_ms : F) (status_code : ℕ) (timed_out : Bool)
        → 0 < c.gate.in_flight
        → FixedStep c (release_fixed 1 latency_ms status_code timed_out c)

  pub data FixedReach (c : FixedController) : FixedController → Type 0 where
    here : FixedReach c c
    next : {d e : FixedController} → FixedReach c d → FixedStep d e → FixedReach c e

  pub record FixedIsSafe (limit : ℕ) (c : FixedController) : Type 0 where
    pub fixed_limit : c.gate.limit ≡ limit
    pub within : c.gate.in_flight ≤ limit
    pub awake : IsAwake c.gate

  fixed-Use :
      {limit : ℕ} {c d : FixedController}
      → Use c.gate d.gate
      → FixedIsSafe limit c
      → FixedIsSafe limit d
  fixed-Use {limit} {c} {d} u s =
      let (same, slots) = Use-slots u in
      record {
        fixed_limit = same ∙ s.fixed_limit;
        within = omega (arith, s.fixed_limit, s.within);
        awake = Use-IsAwake u s.awake;
      }

  FixedStep-IsSafe :
      {limit : ℕ} {c d : FixedController}
      → FixedStep c d
      → FixedIsSafe limit c
      → FixedIsSafe limit d
  FixedStep-IsSafe acquires s = fixed-Use acquiring s
  FixedStep-IsSafe resumes s = fixed-Use resuming s
  FixedStep-IsSafe {limit} {c} (releases latency_ms status_code timed_out held) s =
      unfold release_fixed in fixed-Use {c = c} (giving held) s

  FixedReach-IsSafe :
      {limit : ℕ} {c d : FixedController}
      → FixedIsSafe limit c
      → FixedReach c d
      → FixedIsSafe limit d
  FixedReach-IsSafe s here = s
  FixedReach-IsSafe s (next r st) = FixedStep-IsSafe st (FixedReach-IsSafe s r)

  -- In every run of a fixed controller, no more requests are in flight than its limit, which never
  -- changes; and whenever a task sleeps, every free slot is spoken for by a task already woken.
  pub fixed-IsSafe :
      (limit : ℕ) {c : FixedController} → FixedReach (fixed limit) c → FixedIsSafe limit c
  unfolding fixed
  fixed-IsSafe limit r =
      FixedReach-IsSafe
        (record { fixed_limit = refl; within = omega arith; awake = open_gate-IsAwake limit }) r

  pub data AdaptiveStep (c : AdaptiveController) : AdaptiveController → Type 0 where
    acquires : AdaptiveStep c (record c { gate = acquire 1 c.gate })
    resumes : AdaptiveStep c (record c { gate = resume c.gate })
    releases :
        (latency_ms : F) (status_code : ℕ) (timed_out : Bool)
        → 0 < c.gate.in_flight
        → AdaptiveStep c (release_adaptive 1 latency_ms status_code timed_out c)
    adjusts : (now : F) → AdaptiveStep c (adjust_round now c)

  pub data AdaptiveReach (c : AdaptiveController) : AdaptiveController → Type 0 where
    here : AdaptiveReach c c
    next : {d e : AdaptiveController} → AdaptiveReach c d → AdaptiveStep d e → AdaptiveReach c e

  pub record AdaptiveIsSafe (config : AdaptiveConfig) (c : AdaptiveController) : Type 0 where
    pub same_min : c.min_concurrency ≡ config.min_concurrency
    pub same_max : c.max_concurrency ≡ config.max_concurrency
    pub low : config.min_concurrency ≤ c.gate.limit
    pub high : c.gate.limit ≤ config.max_concurrency
    pub within : c.gate.in_flight ≤ config.max_concurrency
    pub awake : IsAwake c.gate

  adaptive-Use :
      {config : AdaptiveConfig} {c d : AdaptiveController}
      → Use c.gate d.gate
      → d.config ≡ c.config
      → AdaptiveIsSafe config c
      → AdaptiveIsSafe config d
  adaptive-Use {config} {c} {d} u e s =
      let (same, slots) = Use-slots u in
      record {
        same_min = ap (λ k. k.min_concurrency) e ∙ s.same_min;
        same_max = ap (λ k. k.max_concurrency) e ∙ s.same_max;
        low = omega (arith, s.low);
        high = omega (arith, s.high);
        within = omega (arith, s.within, s.high);
        awake = Use-IsAwake u s.awake;
      }

  -- An adjustment leaves the configuration and the requests in flight, and wakes the sleepers if
  -- it raises the limit.
  adjust-rest :
      (now : F) (c : AdaptiveController)
      → IsAwake c.gate
      → ((adjust now c).config ≡ c.config)
        × ((adjust now c).gate.in_flight ≡ c.gate.in_flight)
        × IsAwake (adjust now c).gate
  unfolding adjust apply_decision
  adjust-rest now c a = elim (Option-cases (p95 c.latency)) [
    | inl few ↦ rw (few, adjust) (refl, refl, a)
    | inr (p, enough) ↦
        let d = decide_limit c c.gate.limit p (rate c.timeouts) (rate c.errors) in
        rw (enough, adjust) (refl, (set_limit-slots d.0 c.gate).1, set_limit-IsAwake d.0 c.gate a)
  ]

  module _ (rounded : IsRounded fl) where
    adjust-IsSafe :
        (config : AdaptiveConfig) (now : F) (c : AdaptiveController)
        → config.max_concurrency < 4294967296
        → AdaptiveIsSafe config c
        → AdaptiveIsSafe config (adjust now c)
    adjust-IsSafe config now c small s =
        let moved =
          adjust_lem rounded now c (omega (arith, s.same_min, s.low))
            (omega (arith, s.same_max, s.high)) (omega (arith, s.same_max)) in
        let (same, slots, awake) = adjust-rest now c s.awake in
        record {
          same_min = ap (λ k. k.min_concurrency) same ∙ s.same_min;
          same_max = ap (λ k. k.max_concurrency) same ∙ s.same_max;
          low = omega (arith, s.same_min, moved.0);
          high = omega (arith, s.same_max, moved.1);
          within = omega (arith, slots, s.within);
          awake = awake;
        }

    AdaptiveStep-IsSafe :
        {config : AdaptiveConfig} {c d : AdaptiveController}
        → config.max_concurrency < 4294967296
        → AdaptiveStep c d
        → AdaptiveIsSafe config c
        → AdaptiveIsSafe config d
    unfolding adjust_round
    AdaptiveStep-IsSafe small acquires s = adaptive-Use acquiring refl s
    AdaptiveStep-IsSafe small resumes s = adaptive-Use resuming refl s
    AdaptiveStep-IsSafe {config} {c} small (releases latency_ms status_code timed_out held) s =
        unfold release_adaptive in adaptive-Use {c = c} (giving held) refl s
    AdaptiveStep-IsSafe {config} {c} small (adjusts now) s =
        elim (Bool-cases (lt now c.cooldown_until)) [
          | inl cooling ↦ rw (cooling, adjust_round) s
          | inr due ↦ rw (due, adjust_round) (adjust-IsSafe config now c small s)
        ]

    AdaptiveReach-IsSafe :
        {config : AdaptiveConfig} {c d : AdaptiveController}
        → config.max_concurrency < 4294967296
        → AdaptiveIsSafe config c
        → AdaptiveReach c d
        → AdaptiveIsSafe config d
    AdaptiveReach-IsSafe small s here = s
    AdaptiveReach-IsSafe small s (next r st) =
        AdaptiveStep-IsSafe small st (AdaptiveReach-IsSafe small s r)

    -- In every run of an adaptive controller whose initial limit lies between its bounds, the limit
    -- stays between them and the requests in flight stay within the upper bound; and whenever a
    -- task sleeps, every slot free under the current limit is spoken for by a task already woken,
    -- also after the limit has moved.
    pub adaptive-IsSafe :
        (config : AdaptiveConfig) {c : AdaptiveController}
        → config.min_concurrency ≤ config.initial_concurrency
        → config.initial_concurrency ≤ config.max_concurrency
        → config.max_concurrency < 4294967296
        → AdaptiveReach (adaptive config) c
        → AdaptiveIsSafe config c
    unfolding adaptive open_gate
    adaptive-IsSafe config low high small r =
        AdaptiveReach-IsSafe small
          (record {
            same_min = refl;
            same_max = refl;
            low = low;
            high = high;
            within = omega arith;
            awake = open_gate-IsAwake config.initial_concurrency;
          })
          r
