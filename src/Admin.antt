-- ===== src/Admin.antt =====
-- app/admin.py: the bearer token, and the four routes over what the start has built (Startup).
pub mod Token
pub mod Routes
mod Tests
use adaptive_admission_contr.Base.{
  ℕ, Bool, true, false, not, ◌&&◌, ◌||◌, if◌then◌else◌, ltb, Option, none, some, List, [], ◌∷◌, map,
  length, filter, Text, ◌==◌, codes, Dict, lookup, lower, partition, get_or,
}
use adaptive_admission_contr.Base.Float.{Float}
use adaptive_admission_contr.Config.{◌>>=◌}
use adaptive_admission_contr.Scoring.{ResolvedScoringConfig}
use adaptive_admission_contr.Registry.{Registry}
use adaptive_admission_contr.Balancer.{InstanceStatus, snapshot}
use adaptive_admission_contr.Startup.{
  BackendConfig, fixed_limit, adaptive_limit, Controller, Scheduling, App,
}
use adaptive_admission_contr.Startup.Control.{current_limit, mean_latency_ms}

-- `secrets.compare_digest(a, b)` of two texts: TypeError unless both are ASCII.
pub is_ascii : Text → Bool
is_ascii [] = true
is_ascii (c ∷ s) = ltb c 128 && is_ascii s

pub compare_digest : Text → Text → Option Bool
unfolding is_ascii
compare_digest a b = if is_ascii a && is_ascii b then some (a == b) else none

-- `_check_auth`: it lets the request through, or answers with an error; or an exception leaves it.
pub data Access : Type 0 where
  allowed : Access
  denied : (status_code : ℕ) (detail : Text) → Access
  type_error : Access

unauthorized : Access
unauthorized = denied 401 (codes "unauthorized")

by_digest : Option Bool → Access
unfolding unauthorized
by_digest none = type_error
by_digest (some false) = unauthorized
by_digest (some true) = allowed

-- The second operand of `or` is not reached for another scheme.
check_credential : (token : Text) → Text × Text → Access
unfolding by_digest unauthorized lower compare_digest
check_credential token (scheme, credential) =
    if lower scheme == codes "bearer"
    then by_digest (compare_digest credential token)
    else unauthorized

-- `admin_api_token` and the header `authorization`, each of which may be missing.
pub check_auth : (admin_api_token authorization : Option Text) → Access
unfolding check_credential partition
check_auth none header = denied 403 (codes "admin API disabled")
check_auth (some []) header = denied 403 (codes "admin API disabled")
check_auth (some (c ∷ token)) header =
    check_credential (c ∷ token) (partition 32 (get_or [] header))

module _ ⦃fl : Float⦄ where
  open fl use {F}

  -- What the registry keeps of a backend: `policy.config` and `policy.resolved_scoring`.
  pub record BackendPolicy : Type 0 where
    pub config : BackendConfig
    pub resolved_scoring : ResolvedScoringConfig

  pub record BackendSummary : Type 0 where
    pub name : Text
    pub path_prefix : Text
    pub controller_type : Text
    pub current_limit : ℕ
    pub mean_latency_ms : Option F
    pub queue_size : ℕ
    pub upstream_count : ℕ
    pub healthy_upstream_count : ℕ

  pub data AdminReply : Type 0 where
    error_detail : (status_code : ℕ) (detail : Text) → AdminReply
    backends : List BackendSummary → AdminReply
    policy : BackendPolicy → AdminReply
    limit : (backend : Text) (current_limit : ℕ) → AdminReply
    upstreams : (backend : Text) (sticky_sessions : Bool) → List InstanceStatus → AdminReply

  -- `none` is an exception: a KeyError, or the TypeError of the token check.
  abbrev pub Answer : Type 0
  Answer = Option AdminReply

  -- `_require_admin_auth`
  unfoldable pub require_admin_auth :
      (admin_api_token authorization : Option Text) → Answer → Answer
  unfolding check_auth
  require_admin_auth token header handled = elim (check_auth token header) [
    | allowed ↦ handled
    | denied status_code detail ↦ some (error_detail status_code detail)
    | type_error ↦ none
  ]

  controller_type : BackendConfig → Text
  controller_type b = elim b.limits [
    | fixed_limit n ↦ codes "fixed"
    | adaptive_limit config ↦ codes "adaptive"
  ]

  module _ {Q : Type 0} (a : App Q) (r : Registry BackendPolicy) where
    summary_of :
        Text → BackendPolicy → Controller → Scheduling Q → List InstanceStatus → BackendSummary
    unfolding controller_type
    summary_of name p c s instances = record {
      name = name;
      path_prefix = p.config.backend.path_prefix;
      controller_type = controller_type p.config;
      current_limit = current_limit c;
      mean_latency_ms = mean_latency_ms c;
      queue_size = length (s.bounds.contents s.queue);
      upstream_count = length instances;
      healthy_upstream_count = length (filter (λ u. u.is_healthy) instances);
    }

    -- `_backend_summary`; `none` is a KeyError.
    pub backend_summary : Text → Option BackendSummary
    unfolding lookup summary_of
    backend_summary name = do
      p ← lookup name r.policies
      c ← lookup name a.controllers
      s ← lookup name a.schedulers
      b ← lookup name a.load_balancers
      some (summary_of name p c s (snapshot b))

    summaries : List Text → Option (List BackendSummary)
    unfolding backend_summary
    summaries [] = some []
    summaries (name ∷ names) = do
      first ← backend_summary name
      rest ← summaries names
      some (first ∷ rest)

    pub list_backends : Answer
    unfolding summaries
    list_backends = elim (summaries (map (λ e. e.0) r.policies)) [
      | none ↦ none
      | some all ↦ some (backends all)
    ]

    unknown_backend : Answer
    unknown_backend = some (error_detail 404 (codes "unknown backend"))

    pub backend_policy : Text → Answer
    unfolding lookup unknown_backend
    backend_policy name = elim (lookup name r.policies) [
      | none ↦ unknown_backend
      | some p ↦ some (policy p)
    ]

    pub backend_limit : Text → Answer
    unfolding lookup unknown_backend
    backend_limit name = elim (lookup name a.controllers) [
      | none ↦ unknown_backend
      | some c ↦ some (limit name (current_limit c))
    ]

    upstreams_of : Text → BackendPolicy → Answer
    unfolding lookup
    upstreams_of name p = elim (lookup name a.load_balancers) [
      | none ↦ none
      | some b ↦ some (upstreams name p.config.sticky_sessions (snapshot b))
    ]

    pub backend_upstreams : Text → Answer
    unfolding lookup unknown_backend upstreams_of
    backend_upstreams name = elim (lookup name r.policies) [
      | none ↦ unknown_backend
      | some p ↦ upstreams_of name p
    ]
