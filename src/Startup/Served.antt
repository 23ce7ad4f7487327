-- ===== src/Startup/Served.antt =====
-- What a program that has just started does with a request.
use adaptive_admission_contr.Base.{
  ℕ, ◌≡◌, ◌≢◌, refl, sym, subst, ap, ◌∙◌, inl, inr, ◌⊎◌, Bool, true, false, Option, some, List, [],
  ◌∷◌, map, In, Text, Dict, Distinct, lookup, unique, arith, Option-cases,
}
use adaptive_admission_contr.Base.Int.{ℤ, ◌≤ℤ◌}
use adaptive_admission_contr.Base.Float.{Float}
use adaptive_admission_contr.Registry.{Backend, registry}
use adaptive_admission_contr.Config.{
  check_backends, BackendOverride, ScoringConfig, base_scores_of, resolve_scoring_config,
}
use adaptive_admission_contr.Config.Merged.{AreWindows, resolve_scoring_config-merges}
use adaptive_admission_contr.Auth.{UserClass, class_value, Jwt, Fetched, Verifier, initial_fetch}
use adaptive_admission_contr.Scoring.{Redis, ResolvedScoringConfig}
use adaptive_admission_contr.Classifier.{Policy, Context}
use adaptive_admission_contr.Balancer.{SplitUrl}
use adaptive_admission_contr.Handler.{Awaited, interrupted, is_latin1, proxy_handler}
use adaptive_admission_contr.Handler.Total.{Replies, IsServing, proxy_handler-Replies}
use adaptive_admission_contr.Startup.{
  Queues, BackendConfig, name_of, App, lifespan, backlog_of, backlogs,
}
use adaptive_admission_contr.Startup.Control.{controller_interface}
use adaptive_admission_contr.Startup.Built.{HasParts, start-IsStarted, lookup-backlogs_of}

module _ ⦃fl : Float⦄ where
  abbrev pub backends_of : List BackendConfig → List Backend
  backends_of bs = map (λ b. b.backend) bs

  pub names-backends :
      (bs : List BackendConfig) → map (λ b. b.name) (backends_of bs) ≡ map name_of bs
  names-backends [] = refl
  names-backends (b ∷ bs) = ap (λ l. name_of b ∷ l) (names-backends bs)

  In-backends :
      (bs : List BackendConfig) (b : Backend)
      → In b (backends_of bs)
      → (c : BackendConfig) × In c bs × (c.backend ≡ b)
  In-backends [] b i = absurd i
  In-backends (x ∷ bs) b (inl e) = (x, inl refl, sym e)
  In-backends (x ∷ bs) b (inr i) = let (c, j, e) = In-backends bs b i in (c, inr j, e)

  -- A class has a base score.
  abbrev pub HasBase : Dict ℤ → UserClass → Type 0
  HasBase scores c = (base : ℤ) × (lookup (class_value c) scores ≡ some base)

  -- The policy of a backend: its scoring is the configured one with the backend's overrides merged
  -- in, the request is classified for it, and its name is Latin-1 if the debug headers are on.
  pub record IsConfigured (d : Bool) (s : ScoringConfig) (classify : Policy → Option Context)
      (b : Backend) (p : Policy) : Type 0 where
    pub named : p.name ≡ b.name
    pub override : Option BackendOverride
    pub distinct : Distinct (base_scores_of override)
    pub resolved : resolve_scoring_config s override ≡ some p.scoring
    pub context : (ctx : Context) × (classify p ≡ some ctx)
    pub class : (c : UserClass) × (context.0.scored.user_class ≡ class_value c)
    pub encodable : (d ≡ false) ⊎ (is_latin1 p.name ≡ true)

  merged-HasBase :
      (s : ScoringConfig) (o : Option BackendOverride) (r : ResolvedScoringConfig) (c : UserClass)
      → AreWindows s.default_penalties
      → Distinct (base_scores_of o)
      → resolve_scoring_config s o ≡ some r
      → HasBase s.base_scores c
      → HasBase r.base_scores c
  merged-HasBase s o r c windows distinct resolved (base, known) =
      let (_, same, _, _, _) =
        resolve_scoring_config-merges s o r (class_value c) windows distinct resolved in
      elim (Option-cases (lookup (class_value c) (base_scores_of o))) [
        | inl kept ↦ (base, ground (arith, same, kept, known))
        | inr (v, given) ↦ (v, ground (arith, same, given))
      ]

  merged-order :
      (s : ScoringConfig) (o : Option BackendOverride) (r : ResolvedScoringConfig)
      → AreWindows s.default_penalties
      → Distinct (base_scores_of o)
      → resolve_scoring_config s o ≡ some r
      → s.score_clamp.min_score ≤ℤ s.score_clamp.max_score
      → r.score_clamp.min_score ≤ℤ r.score_clamp.max_score
  merged-order s o r windows distinct resolved order =
      let (_, _, _, clamp, _) = resolve_scoring_config-merges s o r [] windows distinct resolved in
      subst (λ k. k.min_score ≤ℤ k.max_score) (sym clamp) order

  module _ {Q : Type 0} (redis : Redis) where
    -- A backend that has just been given its parts can serve the request.
    configured-IsServing :
        {urlsplit : Text → SplitUrl} {qs : Queues Q} {a : App Q} {config : BackendConfig}
        (s : ScoringConfig) (d : Bool) (classify : Policy → Option Context) (b : Backend)
        (p : Policy)
        → HasParts urlsplit qs a config
        → name_of config ≡ b.name
        → AreWindows s.default_penalties
        → ((c : UserClass) → HasBase s.base_scores c)
        → s.score_clamp.min_score ≤ℤ s.score_clamp.max_score
        → IsConfigured d s classify b p
        → IsServing redis controller_interface d (backlogs a) classify p
    unfolding backlogs
    configured-IsServing {a = a} {config} s d classify b p built name windows bases order c =
        let key : name_of config ≡ p.name = name ∙ sym c.named in
        record {
          scores =
              λ k. merged-HasBase s c.override p.scoring k windows c.distinct c.resolved (bases k);
          order = merged-order s c.override p.scoring windows c.distinct c.resolved order;
          context = c.context;
          class = c.class;
          scheduler = (
            backlog_of built.controller built.scheduling,
            subst (λ k. lookup k (backlogs a) ≡ some (backlog_of built.controller built.scheduling))
                key
                (lookup-backlogs_of a.controllers a.schedulers (name_of config) built.controller
                  built.scheduling built.controls built.schedules),
          );
          earlier = λ y there. absurd (subst (In y) built.nothing_waits there);
          encodable = c.encodable;
        }

    -- When the first fetch of the key set raises nothing, `lifespan` builds the parts of the backends
    -- of a list that passes the validation without a KeyError, and the next thing, a request, is
    -- replied to, whatever its path, its score and the state of Redis, unless the wait for the
    -- response is interrupted. The scoring configuration is to have valid windows, a base score for
    -- every class and bounds in order; the scoring of each backend is what its overrides make of
    -- it, none of which gives a class twice; and the request is to be classified for it, and its
    -- name to be Latin-1 if the debug headers are on.
    pub lifespan-Replies :
        (jwt : Jwt) (urlsplit : Text → SplitUrl) (qs : Queues Q) (bs : List BackendConfig)
        (fetched : Fetched jwt.Jwk) (v auth : Verifier jwt) (s : ScoringConfig) (d : Bool)
        (policy : Backend → Policy) (path : Text) (classify : Policy → Option Context)
        (cost future : ℕ) (w : Awaited) (store : redis.Store)
        → initial_fetch jwt fetched v ≡ some auth
        → check_backends (backends_of bs) ≡ true
        → AreWindows s.default_penalties
        → ((c : UserClass) → HasBase s.base_scores c)
        → s.score_clamp.min_score ≤ℤ s.score_clamp.max_score
        → ((b : Backend) → In b (backends_of bs) → IsConfigured d s classify b (policy b))
        → w ≢ interrupted
        → (a : App Q) × (lifespan jwt urlsplit qs bs fetched v ≡ some (a, auth))
          × Replies (
              proxy_handler redis controller_interface d
                (registry policy (backends_of bs))
                path
                classify
                cost
                future
                w
                (backlogs a)
                store)
    unfolding check_backends lifespan
    lifespan-Replies jwt urlsplit qs bs fetched v auth s d policy path classify cost future w store
          keys valid windows bases order configured waits =
        let names : unique (map name_of bs) ≡ true =
          subst (λ l. unique l ≡ true) (names-backends bs) (ground arith) in
        let (a, started, built) = start-IsStarted urlsplit qs bs names in
        (
          a,
          rw (keys, started) refl,
          proxy_handler-Replies redis controller_interface d policy (backends_of bs) path classify
              cost future w (backlogs a) store valid
              (λ b member.
                let (config, listed, e) = In-backends bs b member in
                configured-IsServing s d classify b (policy b) (built.parts config listed)
                  (ap (λ x. x.name) e) windows bases order (configured b member))
              waits,
        )
