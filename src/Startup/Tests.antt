-- ===== src/Startup/Tests.antt =====
-- Two backends, one with a fixed limit and one with an adaptive one.
use adaptive_admission_contr.Base.{
  All, insert, Option, ℕ, ◌≡◌, refl, inl, false, true, false, arith, none, some, List, [], ◌∷◌,
  Text, ◌==◌, codes, unique, lookup,
}
use adaptive_admission_contr.Base.Int.{pos, negsuc}
use adaptive_admission_contr.Base.Float.{Float, fixed_point}
use adaptive_admission_contr.Registry.{Backend, registry}
use adaptive_admission_contr.Config.{
  check_backends, BackendOverride, ScoringConfig, base_scores_of, resolve_scoring_config,
}
use adaptive_admission_contr.Config.Resolve.{IsWindow}
use adaptive_admission_contr.Config.Merged.{AreWindows}
use adaptive_admission_contr.Auth.{
  UserClass, anonymous, researcher, service_account, internal, unknown, class_value, Jwt, Verifier,
  key_set, initial_fetch,
}
use adaptive_admission_contr.Scoring.{Redis, PenaltyConfig}
use adaptive_admission_contr.Scheduler.{Entry}
use adaptive_admission_contr.Scheduler.Listed.{listed}
use adaptive_admission_contr.Balancer.{SplitUrl}
use adaptive_admission_contr.Classifier.{Policy, Context}
use adaptive_admission_contr.Handler.{timed_out, proxy_handler}
use adaptive_admission_contr.Handler.Total.{Replies}
use adaptive_admission_contr.Startup.{
  Queues, BackendConfig, fixed_limit, adaptive_limit, App, lifespan, backlogs,
}
use adaptive_admission_contr.Startup.Control.{controller_interface}
use adaptive_admission_contr.Startup.Served.{backends_of, HasBase, IsConfigured, lifespan-Replies}

instance abbrev clock : Float
clock = fixed_point

abbrev urlsplit : Text → SplitUrl
urlsplit url = record { scheme = codes "http"; hostname = url; port = some 8080 }

listed-nothing : (n : ℕ) → (listed n).contents [] ≡ []
unfolding listed
listed-nothing n = refl

abbrev queues : Queues (List Entry)
queues = record { bounds = listed; empty = []; none_waits = listed-nothing }

abbrev search : BackendConfig
search = record {
  backend = record { name = codes "s"; path_prefix = codes "/s" };
  limits = fixed_limit 2;
  upstreams = codes "u" ∷ codes "v" ∷ [];
  backup_upstreams = codes "w" ∷ [];
  queue_max_size = 5;
  queue_timeout_seconds = 30000;
  sticky_sessions = true;
  sticky_session_ttl_seconds = 300000;
}

abbrev images : BackendConfig
images = record search {
  backend = record { name = codes "i"; path_prefix = codes "/i" };
  limits = adaptive_limit (record {
    initial_concurrency = 40;
    min_concurrency = 10;
    max_concurrency = 80;
    target_p95_ms = 500000;
    timeout_rate_threshold = 50;
    error_rate_threshold = 50;
  });
}

abbrev configured : List BackendConfig
configured = search ∷ images ∷ []

-- Every call of Redis fails.
abbrev down : Redis
down = record { Store = ℕ; incr = λ key hits. (none, hits); expire = λ key ttl hits. (false, hits) }

abbrev window : PenaltyConfig
window = record {
  window_seconds = 60;
  soft_threshold = 3;
  hard_threshold = 5;
  soft_penalty = 10;
  hard_penalty = 40;
}

abbrev scoring : ScoringConfig
scoring = record {
  exempt_countries = codes "PT" ∷ [];
  ipv6_prefix_length = 56;
  base_scores =
      (codes "anonymous", pos 50)
      ∷ (codes "researcher", pos 80)
      ∷ (codes "service_account", pos 70)
      ∷ (codes "internal", pos 100)
      ∷ (codes "unknown", pos 40)
      ∷ [];
  score_clamp = record { min_score = negsuc 99; max_score = pos 100 };
  default_penalties = record {
    ip = window ∷ [];
    net24 = window ∷ [];
    net6 = window ∷ [];
    asn = window ∷ [];
    country = window ∷ [];
    user = window ∷ [];
  };
}

-- Each backend gives anonymous clients a lower base score.
abbrev override : Option BackendOverride
override = some (record { penalties = []; base_scores = (codes "anonymous", pos 30) ∷ [] })

abbrev policy : Backend → Policy
policy b = record {
  name = b.name;
  scoring = record {
    base_scores =
        (codes "anonymous", pos 30)
        ∷ (codes "researcher", pos 80)
        ∷ (codes "service_account", pos 70)
        ∷ (codes "internal", pos 100)
        ∷ (codes "unknown", pos 40)
        ∷ [];
    exempt_countries = codes "PT" ∷ [];
    ipv6_prefix_length = 56;
    score_clamp = scoring.score_clamp;
    penalties = scoring.default_penalties;
  };
}

abbrev visitor : Policy → Context
visitor p = record {
  scored = record {
    backend = p.name;
    source_ip = none;
    user_class = codes "unknown";
    subnet_24 = none;
    subnet_6 = none;
    asn = none;
    country = none;
    user_id = none;
  };
  request = record {
    arrival_time = 0;
    source_ip = none;
    user_class = some (codes "unknown");
    score = pos 100;
  };
}

scoring-HasBase : (c : UserClass) → HasBase scoring.base_scores c
unfolding class_value lookup ◌==◌
scoring-HasBase anonymous = (_, refl)
scoring-HasBase researcher = (_, refl)
scoring-HasBase service_account = (_, refl)
scoring-HasBase internal = (_, refl)
scoring-HasBase unknown = (_, refl)

window-IsWindow : IsWindow window
window-IsWindow = record { lasts = omega arith; thresholds = omega arith; penalties = omega arith }

scoring-AreWindows : AreWindows scoring.default_penalties
scoring-AreWindows =
    let valid : All IsWindow (window ∷ []) = (window-IsWindow, tt) in
    (valid, valid, valid, valid, valid, valid)

resolved : (b : Backend) → resolve_scoring_config scoring override ≡ some (policy b).scoring
unfolding resolve_scoring_config lookup insert ◌==◌
resolved b = refl

policy-IsConfigured :
    (b : Backend) → IsConfigured false scoring (λ p. some (visitor p)) b (policy b)
unfolding class_value base_scores_of lookup
policy-IsConfigured b = record {
  named = refl;
  override = override;
  distinct = (refl, tt);
  resolved = resolved b;
  context = (visitor (policy b), refl);
  class = (unknown, refl);
  encodable = inl refl;
}

passes : check_backends (backends_of configured) ≡ true
unfolding check_backends unique ◌==◌
passes = refl

-- A key that is its own text.
abbrev library : Jwt
library = record {
  Key = Text;
  Jwk = Text;
  kid_of = some;
  from_jwk = some;
  unverified_kid = λ token. none;
  decode = λ token key issuer audience. none;
}

abbrev before_fetch : Verifier library
before_fetch = record {
  config = record { enabled = true; issuer = none; audience = none };
  keys = [];
}

abbrev after_fetch : Verifier library
after_fetch = record before_fetch { keys = (codes "k1", codes "k1") ∷ [] }

fetches : initial_fetch library (key_set (codes "k1" ∷ [])) before_fetch ≡ some after_fetch
unfolding initial_fetch insert
fetches = refl

lifespan-Replies_example :
    (a : App (List Entry)) × (lifespan library urlsplit queues configured
        (key_set (codes "k1" ∷ []))
        before_fetch
      ≡ some (a, after_fetch))
    × Replies (
        proxy_handler down controller_interface false
          (registry policy (backends_of configured))
          (codes "/i/x")
          (λ p. some (visitor p))
          1
          0
          timed_out
          (backlogs a)
          0)
lifespan-Replies_example =
    lifespan-Replies down library urlsplit queues configured (key_set (codes "k1" ∷ []))
      before_fetch after_fetch scoring false policy (codes "/i/x") (λ p. some (visitor p)) 1 0
      timed_out 0 fetches passes scoring-AreWindows scoring-HasBase (omega arith)
      (λ b member. policy-IsConfigured b) (λ e. cc)
