-- ===== src/Scoring.antt =====
-- app/scoring.py and app/penalty_store.py: the reputation score of a request, from counters that
-- Redis holds. Redis is a parameter, any call of which may fail; an action returns its value, or
-- `none` for an exception, and the state of Redis that it leaves either way.
mod Clamp
pub mod Effects
mod Tests
use adaptive_admission_contr.Base.{
  ℕ, zero, suc, ◌+◌, ◌*◌, ◌/◌, ◌%◌, Bool, true, false, if◌then◌else◌, ltb, leb, eqb, Option, none,
  some, List, [], ◌∷◌, ◌++◌, any, Text, ◌==◌, codes, Dict, lookup, decimal,
}
use adaptive_admission_contr.Base.Int.{ℤ, pos, negsuc, ◌-ℤ◌, max_ℤ, min_ℤ}

-- `incr` and `expire` of the client; `none` and `false` are its exceptions.
pub record Redis : Type 1 where
  pub Store : Type 0
  pub incr : Text → Store → Option ℕ × Store
  pub expire : Text → ℕ → Store → Bool × Store

pub record PenaltyConfig : Type 0 where
  pub window_seconds : ℕ
  pub soft_threshold : ℕ
  pub hard_threshold : ℕ
  pub soft_penalty : ℕ
  pub hard_penalty : ℕ

pub record DefaultPenalties : Type 0 where
  pub ip : List PenaltyConfig
  pub net24 : List PenaltyConfig
  pub net6 : List PenaltyConfig
  pub asn : List PenaltyConfig
  pub country : List PenaltyConfig
  pub user : List PenaltyConfig

pub record ScoreClamp : Type 0 where
  pub min_score : ℤ
  pub max_score : ℤ

pub record ResolvedScoringConfig : Type 0 where
  pub base_scores : Dict ℤ
  pub exempt_countries : List Text
  pub ipv6_prefix_length : ℕ
  pub score_clamp : ScoreClamp
  pub penalties : DefaultPenalties

-- The fields of `RequestContext` that scoring reads.
pub record Scored : Type 0 where
  pub backend : Text
  pub source_ip : Option Text
  pub user_class : Text
  pub subnet_24 : Option Text
  pub subnet_6 : Option Text
  pub asn : Option Text
  pub country : Option Text
  pub user_id : Option Text

pub record Penalties : Type 0 where
  pub penalty_ip : ℕ
  pub penalty_net24 : ℕ
  pub penalty_net6 : ℕ
  pub penalty_asn : ℕ
  pub penalty_country : ℕ
  pub penalty_user : ℕ

pub record ScoreBreakdown : Type 0 where
  pub base : ℤ
  pub penalties : Penalties
  pub open penalties use *
  pub is_exempt : Bool
  pub final : ℤ

pub step_penalty : ℕ → PenaltyConfig → ℕ
step_penalty count w =
    if leb w.hard_threshold count
    then w.hard_penalty
    else if leb w.soft_threshold count
    then w.soft_penalty
    else 0

pub clamp : ℤ → (min_score max_score : ℤ) → ℤ
unfolding max_ℤ min_ℤ
clamp value min_score max_score = max_ℤ min_score (min_ℤ max_score value)

pub exempt : Option Text → List Text → Bool
exempt none countries = false
exempt (some c) countries = any (λ x. x == c) countries

-- What `calculate_score` takes off the base score.
pub total_penalty : Bool → Penalties → ℕ
total_penalty is_exempt p =
    if is_exempt
    then p.penalty_ip + p.penalty_user
    else p.penalty_ip
      + p.penalty_user
      + (p.penalty_net24 + p.penalty_net6 + p.penalty_asn + p.penalty_country)

pub breakdown : ℤ → Bool → ScoreClamp → Penalties → ScoreBreakdown
unfolding clamp total_penalty ◌-ℤ◌
breakdown base is_exempt bounds p = record {
  base = base;
  penalties = p;
  is_exempt = is_exempt;
  final = clamp (base -ℤ pos (total_penalty is_exempt p)) bounds.min_score bounds.max_score;
}

abbrev pub no_penalties : Penalties
no_penalties = record {
  penalty_ip = 0;
  penalty_net24 = 0;
  penalty_net6 = 0;
  penalty_asn = 0;
  penalty_country = 0;
  penalty_user = 0;
}

-- `f"rl:{dim}:{value}:{backend}:{window_seconds}"`
pub penalty_key : (dim value backend : Text) → (window_seconds : ℕ) → Text
unfolding decimal
penalty_key dim value backend window_seconds =
    codes "rl:"
    ++ (dim
        ++ (codes ":"
            ++ (value ++ (codes ":" ++ (backend ++ (codes ":" ++ decimal window_seconds))))))

module _ (redis : Redis) where
  open redis use {Store, incr, expire}

  abbrev pub Action : Type 0 → Type 0
  Action A = Store → Option A × Store

  abbrev pub and_then : {A B : Type 0} → Option A × Store → (A → Action B) → Option B × Store
  and_then (none, s) f = (none, s)
  and_then (some a, s) f = f a s

  infixl 5 ◌>>=◌
  abbrev ◌>>=◌ : {A B : Type 0} → Action A → (A → Action B) → Action B
  ◌>>=◌ m f s = and_then (m s) f

  abbrev pure : {A : Type 0} → A → Action A
  pure a s = (some a, s)

  expired_set : ℕ → Bool × Store → Option ℕ × Store
  expired_set count (true, s) = (some count, s)
  expired_set count (false, s) = (none, s)

  -- `RedisPenaltyStore.increment_and_get`: the time to live is set on the first hit only.
  pub increment_and_get : Text → (ttl_seconds : ℕ) → Action ℕ
  unfolding expired_set
  increment_and_get key ttl_seconds = do
    count ← incr key
    λ s. if eqb count 1 then expired_set count (expire key ttl_seconds s) else (some count, s)

  penalty_loop : (dim value backend : Text) → (total : ℕ) → List PenaltyConfig → Action ℕ
  unfolding increment_and_get penalty_key step_penalty
  penalty_loop dim value backend total [] = pure total
  penalty_loop dim value backend total (w ∷ ws) = do
    count ← increment_and_get (penalty_key dim value backend w.window_seconds) w.window_seconds
    penalty_loop dim value backend (total + step_penalty count w) ws

  pub dimension_penalty :
      (dim : Text) → (value : Option Text) → (backend : Text) → List PenaltyConfig → Action ℕ
  unfolding penalty_loop
  dimension_penalty dim none backend windows = pure 0
  dimension_penalty dim (some value) backend windows = penalty_loop dim value backend 0 windows

  -- The six dimensions, in the order in which `calculate_score` asks for them.
  pub all_penalties : Scored → DefaultPenalties → Action Penalties
  unfolding dimension_penalty
  all_penalties ctx p = do
    by_ip ← dimension_penalty (codes "ip") ctx.source_ip ctx.backend p.ip
    by_net24 ← dimension_penalty (codes "net24") ctx.subnet_24 ctx.backend p.net24
    by_net6 ← dimension_penalty (codes "net6") ctx.subnet_6 ctx.backend p.net6
    by_asn ← dimension_penalty (codes "asn") ctx.asn ctx.backend p.asn
    by_country ← dimension_penalty (codes "country") ctx.country ctx.backend p.country
    by_user ← dimension_penalty (codes "user") ctx.user_id ctx.backend p.user
    pure (record {
      penalty_ip = by_ip;
      penalty_net24 = by_net24;
      penalty_net6 = by_net6;
      penalty_asn = by_asn;
      penalty_country = by_country;
      penalty_user = by_user;
    })

  score_from : Scored → ResolvedScoringConfig → Option ℤ → Action ScoreBreakdown
  unfolding all_penalties breakdown exempt
  score_from ctx config none s = (none, s)
  score_from ctx config (some base) s =
      and_then (all_penalties ctx config.penalties s) (λ p.
        pure (breakdown base (exempt ctx.country config.exempt_countries) config.score_clamp p))

  -- `calculate_score`; a class with no base score is a KeyError.
  pub calculate_score : Scored → ResolvedScoringConfig → Action ScoreBreakdown
  unfolding score_from lookup
  calculate_score ctx config = score_from ctx config (lookup ctx.user_class config.base_scores)

  fail_open_from : Scored → ResolvedScoringConfig → Option ℤ → Option ScoreBreakdown
  unfolding clamp exempt
  fail_open_from ctx config none = none
  fail_open_from ctx config (some base) = some (record {
    base = base;
    penalties = no_penalties;
    is_exempt = exempt ctx.country config.exempt_countries;
    final = clamp base config.score_clamp.min_score config.score_clamp.max_score;
  })

  -- `_fail_open_score`
  pub fail_open_score : Scored → ResolvedScoringConfig → Option ScoreBreakdown
  unfolding fail_open_from lookup
  fail_open_score ctx config = fail_open_from ctx config (lookup ctx.user_class config.base_scores)

  or_fail_open :
      Scored → ResolvedScoringConfig → Option ScoreBreakdown × Store → Option ScoreBreakdown × Store
  unfolding fail_open_score
  or_fail_open ctx config (some b, s) = (some b, s)
  or_fail_open ctx config (none, s) = (fail_open_score ctx config, s)

  -- `ScoreEngine.score`, at the configuration of the request's backend.
  pub score : Scored → ResolvedScoringConfig → Action ScoreBreakdown
  unfolding calculate_score or_fail_open
  score ctx config s = or_fail_open ctx config (calculate_score ctx config s)
