-- ===== src/Capacity/Limit.antt =====
-- How `_adjust` moves the limit.
use adaptive_admission_contr.Base.{
  ℕ, ◌≤◌, ◌<◌, ◌≡◌, ◌⊎◌, inl, inr, true, false, arith, some, Option-cases,
}
use adaptive_admission_contr.Base.Float.{Float, IsRounded}
use adaptive_admission_contr.Capacity.{
  AdaptiveController, p95, rate, scale, decide_limit, apply_decision, adjust,
}
use adaptive_admission_contr.Capacity.Slots.{set_limit-slots}

module _ ⦃fl : Float⦄ (rounded : IsRounded fl) where
  open fl use {F, lt, times, of_ℕ, lit}

  -- The factors of the ladder: those below 1 do not grow a limit, 1.05 does not shrink it.
  scale_down : (p limit : ℕ) → p ≤ 100 → limit < 4294967296 → scale p 100 limit ≤ limit
  unfolding scale
  scale_down p limit h small = grind (arith, rounded.scale_le limit p 100)

  scale_up : (limit : ℕ) → limit < 4294967296 → limit ≤ scale 105 100 limit
  unfolding scale
  scale_up limit small =
      rounded.scale_ge limit 105 100 small (omega arith) (omega arith) (omega arith)

  scale_up_small : (limit : ℕ) → limit < 20 → scale 105 100 limit ≤ limit
  unfolding scale
  scale_up_small limit small = omega (
    arith,
    rounded.scale_le limit 105 100 (omega arith) (omega arith) (omega arith) (omega arith),
  )

  -- The rates and the latency under which the limit may grow, and those under which it may fall.
  pub record IsCalm (c : AdaptiveController) (p : F) : Type 0 where
    pub few_timeouts : lt c.timeout_rate_threshold (rate c.timeouts) ≡ false
    pub few_errors : lt c.error_rate_threshold (rate c.errors) ≡ false
    pub fast : lt p (times (lit 1 2) c.target_p95_ms) ≡ true

  abbrev pub IsStrained : AdaptiveController → F → Type 0
  IsStrained c p =
      (lt c.timeout_rate_threshold (rate c.timeouts) ≡ true)
      ⊎ (lt c.error_rate_threshold (rate c.errors) ≡ true)
      ⊎ (lt (times (of_ℕ 2) c.target_p95_ms) p ≡ true)
      ⊎ (lt c.target_p95_ms p ≡ true)

  decide_limit-lem :
      (c : AdaptiveController) (limit : ℕ) (p : F)
      → c.min_concurrency ≤ limit
      → limit ≤ c.max_concurrency
      → c.max_concurrency < 4294967296
      → let n = (decide_limit c limit p (rate c.timeouts) (rate c.errors)).0 in
        (c.min_concurrency ≤ n)
        × (n ≤ c.max_concurrency)
        × (limit < n → IsCalm c p)
        × (n < limit → IsStrained c p)
        × (limit < 20 → n ≤ limit)
  unfolding decide_limit
  decide_limit-lem c limit p low high small = ground (
    arith,
    scale_down 60 limit,
    scale_down 75 limit,
    scale_down 70 limit,
    scale_down 85 limit,
    scale_up limit,
    scale_up_small limit,
  )

  adjust-cases :
      (now : F) (c : AdaptiveController)
      → (adjust now c ≡ c)
        ⊎ ((p : F) × (p95 c.latency ≡ some p)
            × ((adjust now c).gate.limit
                ≡ (decide_limit c c.gate.limit p (rate c.timeouts) (rate c.errors)).0))
  unfolding adjust apply_decision
  adjust-cases now c = elim (Option-cases (p95 c.latency)) [
    | inl few ↦ inl (rw (few, adjust))
    | inr (p, enough) ↦
        let d = decide_limit c c.gate.limit p (rate c.timeouts) (rate c.errors) in
        inr (p, enough, rw (enough, adjust) (set_limit-slots d.0 c.gate).0)
  ]

  -- An adjustment keeps the limit between the configured bounds. It raises the limit only if there
  -- are enough samples, their p95 is below half of the target and neither rate is over its
  -- threshold; it lowers the limit only if there are enough samples and a rate is over its
  -- threshold or the p95 is over the target or over twice the target.
  pub adjust_lem :
      (now : F) (c : AdaptiveController)
      → c.min_concurrency ≤ c.gate.limit
      → c.gate.limit ≤ c.max_concurrency
      → c.max_concurrency < 4294967296
      → let n = (adjust now c).gate.limit in
        (c.min_concurrency ≤ n)
        × (n ≤ c.max_concurrency)
        × (c.gate.limit < n → (p : F) × (p95 c.latency ≡ some p) × IsCalm c p)
        × (n < c.gate.limit → (p : F) × (p95 c.latency ≡ some p) × IsStrained c p)
  adjust_lem now c low high small = elim (adjust-cases now c) [
    | inl same ↦ rw same (low, high, (λ h. absurd (omega arith)), λ h. absurd (omega arith))
    | inr (p, enough, moved) ↦
        let (low', high', raised, lowered, _) = decide_limit-lem c c.gate.limit p low high small in
        rw moved (low', high', (λ h. (p, enough, raised h)), λ h. (p, enough, lowered h))
  ]

  -- A limit below 20 never grows, whatever the latency: 5% of it is less than one slot, and
  -- `int` drops it.
  pub adjust-small :
      (now : F) (c : AdaptiveController)
      → c.min_concurrency ≤ c.gate.limit
      → c.gate.limit ≤ c.max_concurrency
      → c.max_concurrency < 4294967296
      → c.gate.limit < 20
      → (adjust now c).gate.limit ≤ c.gate.limit
  adjust-small now c low high small h = elim (adjust-cases now c) [
    | inl same ↦ rw same (omega arith)
    | inr (p, enough, moved) ↦ rw moved ((decide_limit-lem c c.gate.limit p low high small).4 h)
  ]
