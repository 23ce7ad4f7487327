-- ===== src/Scoring/Effects.antt =====
-- The score engine as a whole: when it returns, what it returns, and what it does to Redis.
use adaptive_admission_contr.Base.{
  ℕ, ◌+◌, if◌then◌else◌, ◌≡◌, refl, sym, ap, ◌∙◌, Bool, true, false, arith, Option, none, some,
  lookup,
}
use adaptive_admission_contr.Base.Int.{ℤ, pos, ◌≤ℤ◌, ◌-ℤ◌, -ℤ_parts, eq_of_parts}
use adaptive_admission_contr.Scoring.{
  Redis, Scored, ResolvedScoringConfig, ScoreBreakdown, Penalties, exempt, breakdown, clamp,
  no_penalties, total_penalty, and_then, all_penalties, score_from, calculate_score, fail_open_from,
  fail_open_score, or_fail_open, score,
}
use adaptive_admission_contr.Scoring.Clamp.{clamp_bounds, breakdown_bounds}

no_penalty : (base : ℤ) (e : Bool) → base -ℤ pos (total_penalty e no_penalties) ≡ base
unfolding total_penalty
no_penalty base true = omega (arith, -ℤ_parts base (pos 0), eq_of_parts)
no_penalty base false = omega (arith, -ℤ_parts base (pos 0), eq_of_parts)

-- The penalties that count: of the client always, of its networks and country unless it is exempt.
pub counted : Bool → Penalties → ℕ
counted is_exempt p =
    p.penalty_ip
    + p.penalty_user
    + (if is_exempt
        then 0
        else p.penalty_net24 + p.penalty_net6 + p.penalty_asn + p.penalty_country)

total_penalty_lem : (e : Bool) (p : Penalties) → total_penalty e p ≡ counted e p
unfolding total_penalty counted
total_penalty_lem e p = ground arith

module _ (redis : Redis) where
  open redis use {Store}

  -- The outcome of the engine for a class with a base score, from that of the six dimensions.
  outcome : Scored → ResolvedScoringConfig → ℤ → Option Penalties × Store → ScoreBreakdown × Store
  outcome ctx config base (some p, s) =
      (breakdown base (exempt ctx.country config.exempt_countries) config.score_clamp p, s)
  outcome ctx config base (none, s) = (
    record {
      base = base;
      penalties = no_penalties;
      is_exempt = exempt ctx.country config.exempt_countries;
      final = clamp base config.score_clamp.min_score config.score_clamp.max_score;
    },
    s,
  )

  finish :
      (ctx : Scored) (config : ResolvedScoringConfig) (base : ℤ) (r : Option Penalties × Store)
      → lookup ctx.user_class config.base_scores ≡ some base
      → or_fail_open redis ctx config (
          and_then redis r (λ p s. (
            some (breakdown base (exempt ctx.country config.exempt_countries) config.score_clamp p),
            s,
          )))
        ≡ (some (outcome ctx config base r).0, (outcome ctx config base r).1)
  unfolding or_fail_open fail_open_score fail_open_from outcome
  finish ctx config base (some p, s) e = refl
  finish ctx config base (none, s) e = rw e

  score-outcome :
      (ctx : Scored) (config : ResolvedScoringConfig) (base : ℤ) (s : Store)
      → lookup ctx.user_class config.base_scores ≡ some base
      → let r = outcome ctx config base (all_penalties redis ctx config.penalties s) in
        score redis ctx config s ≡ (some r.0, r.1)
  unfolding score calculate_score score_from
  score-outcome ctx config base s e =
      rw e (finish ctx config base (all_penalties redis ctx config.penalties s) e)

  -- What a returned score satisfies, on both paths.
  pub record IsExplained (ctx : Scored) (config : ResolvedScoringConfig) (base : ℤ)
      (b : ScoreBreakdown) : Type 0 where
    pub same_base : b.base ≡ base
    pub same_exempt : b.is_exempt ≡ exempt ctx.country config.exempt_countries
    pub same_final :
        b.final
        ≡ clamp
            (b.base -ℤ pos (counted b.is_exempt b.penalties))
            config.score_clamp.min_score
            config.score_clamp.max_score
    pub low : config.score_clamp.min_score ≤ℤ b.final
    pub high : b.final ≤ℤ config.score_clamp.max_score

  outcome-IsExplained :
      (ctx : Scored) (config : ResolvedScoringConfig) (base : ℤ) (r : Option Penalties × Store)
      → config.score_clamp.min_score ≤ℤ config.score_clamp.max_score
      → IsExplained ctx config base (outcome ctx config base r).0
  unfolding outcome
  outcome-IsExplained ctx config base (some p, s) h =
      let (low, high) =
        breakdown_bounds base (exempt ctx.country config.exempt_countries) config.score_clamp p h in
      record {
        same_base = unfold breakdown in refl;
        same_exempt = unfold breakdown in refl;
        same_final =
            unfold breakdown in
            ap
              (λ n. clamp (base -ℤ pos n) config.score_clamp.min_score config.score_clamp.max_score)
              (total_penalty_lem (exempt ctx.country config.exempt_countries) p);
        low = low;
        high = high;
      }
  outcome-IsExplained ctx config base (none, s) h =
      let (low, high) =
        clamp_bounds base config.score_clamp.min_score config.score_clamp.max_score h in
      record {
        same_base = refl;
        same_exempt = refl;
        same_final =
            ap (λ v. clamp v config.score_clamp.min_score config.score_clamp.max_score)
              (sym (no_penalty base (exempt ctx.country config.exempt_countries))
                ∙ ap (λ n. base -ℤ pos n)
                    (total_penalty_lem (exempt ctx.country config.exempt_countries) no_penalties));
        low = low;
        high = high;
      }

  -- The score of a request whose class has a base score is always returned, also when Redis fails.
  -- It lies between the bounds, and it is the base score less the penalties of its breakdown,
  -- clamped, where those of the subnets, the network and the country count only if the country is
  -- not exempt.
  pub score-IsExplained :
      (ctx : Scored) (config : ResolvedScoringConfig) (base : ℤ) (s : Store)
      → lookup ctx.user_class config.base_scores ≡ some base
      → config.score_clamp.min_score ≤ℤ config.score_clamp.max_score
      → (b : ScoreBreakdown) × ((score redis ctx config s).0 ≡ some b)
        × IsExplained ctx config base b
  score-IsExplained ctx config base s e h =
      let r = all_penalties redis ctx config.penalties s in
      (
        (outcome ctx config base r).0,
        ap (λ x. x.0) (score-outcome ctx config base s e),
        outcome-IsExplained ctx config base r h,
      )

  outcome-state :
      (ctx : Scored) (config : ResolvedScoringConfig) (base : ℤ) (r : Option Penalties × Store)
      → (outcome ctx config base r).1 ≡ r.1
  unfolding outcome
  outcome-state ctx config base (some p, s) = refl
  outcome-state ctx config base (none, s) = refl

  -- Scoring leaves Redis in the same state whatever the base scores, the bounds and the exempt
  -- countries are: an exempt client is counted like any other.
  pub score-same_counters :
      (ctx : Scored) (config config' : ResolvedScoringConfig) (base base' : ℤ) (s : Store)
      → lookup ctx.user_class config.base_scores ≡ some base
      → lookup ctx.user_class config'.base_scores ≡ some base'
      → config'.penalties ≡ config.penalties
      → (score redis ctx config' s).1 ≡ (score redis ctx config s).1
  score-same_counters ctx config config' base base' s e e' same =
      ap (λ x. x.1) (score-outcome ctx config' base' s e')
      ∙ outcome-state ctx config' base' (all_penalties redis ctx config'.penalties s)
      ∙ ap (λ p. (all_penalties redis ctx p s).1) same
      ∙ sym (outcome-state ctx config base (all_penalties redis ctx config.penalties s))
      ∙ sym (ap (λ x. x.1) (score-outcome ctx config base s e))

  -- A class with no base score makes the engine raise, on the fail-open path too: it returns
  -- nothing, and Redis is not asked.
  pub score-unknown_class :
      (ctx : Scored) (config : ResolvedScoringConfig) (s : Store)
      → lookup ctx.user_class config.base_scores ≡ none
      → score redis ctx config s ≡ (none, s)
  unfolding score calculate_score score_from or_fail_open fail_open_score fail_open_from
  score-unknown_class ctx config s e =
      rw (e, score_from, or_fail_open, fail_open_from)
        (ap (λ x. (fail_open_from redis ctx config x, s)) e)
