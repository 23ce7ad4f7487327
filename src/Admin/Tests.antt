-- ===== src/Admin/Tests.antt =====
-- One backend with two instances, and the token `key`.
use adaptive_admission_contr.Base.{
  ℕ, ◌≡◌, refl, ◌⊎◌, true, Option, none, some, List, [], ◌∷◌, map, Text, ◌==◌, codes, unique, keys,
  lower, partition,
}
use adaptive_admission_contr.Base.Int.{pos}
use adaptive_admission_contr.Base.Float.{Float, fixed_point}
use adaptive_admission_contr.Registry.{Backend, Registry, registry}
use adaptive_admission_contr.Scheduler.{Entry}
use adaptive_admission_contr.Scheduler.Listed.{listed}
use adaptive_admission_contr.Balancer.{SplitUrl}
use adaptive_admission_contr.Startup.{Queues, BackendConfig, fixed_limit, name_of, App}
use adaptive_admission_contr.Startup.Built.{start-IsStarted}
use adaptive_admission_contr.Startup.Served.{backends_of}
use adaptive_admission_contr.Admin.{
  compare_digest, is_ascii, check_auth, BackendPolicy, BackendSummary, error_detail, limit,
  backends, require_admin_auth, list_backends,
}
use adaptive_admission_contr.Admin.Token.{
  IsAuthorized, IsRefused, require_admin_auth-guards, require_admin_auth-raises,
}
use adaptive_admission_contr.Admin.Routes.{
  AreSummaries, IsUnknown, IsKnown, admin_routes-answer, started-IsConsistent,
}

instance abbrev clock : Float
clock = fixed_point

abbrev token : Option Text
token = some (codes "key")

right_token :
    require_admin_auth token (some (codes "Bearer key")) (some (limit (codes "s") 2))
    ≡ some (limit (codes "s") 2)
unfolding require_admin_auth check_auth partition lower compare_digest is_ascii ◌==◌
right_token = refl

wrong_token :
    require_admin_auth token (some (codes "Bearer kez")) (some (limit (codes "s") 2))
    ≡ some (error_detail 401 (codes "unauthorized"))
unfolding require_admin_auth check_auth partition lower compare_digest is_ascii ◌==◌
wrong_token = refl

require_admin_auth-guards_example :
    (IsAuthorized token (some (codes "Bearer key"))
      × (require_admin_auth token (some (codes "Bearer key")) (some (limit (codes "s") 2))
          ≡ some (limit (codes "s") 2)))
    ⊎ ((¬ IsAuthorized token (some (codes "Bearer key")))
        × (require_admin_auth token (some (codes "Bearer key")) (some (limit (codes "s") 2))
            ≡ require_admin_auth token (some (codes "Bearer key")) none)
        × IsRefused
            (require_admin_auth token (some (codes "Bearer key")) (some (limit (codes "s") 2))))
require_admin_auth-guards_example =
    require_admin_auth-guards token (some (codes "Bearer key")) (some (limit (codes "s") 2)) none

abbrev urlsplit : Text → SplitUrl
urlsplit url = record { scheme = codes "http"; hostname = url; port = some 8080 }

listed-nothing : (n : ℕ) → (listed n).contents [] ≡ []
unfolding listed
listed-nothing n = refl

abbrev queues : Queues (List Entry)
queues = record { bounds = listed; empty = []; none_waits = listed-nothing }

abbrev search : BackendConfig
search = record {
  backend = record { name = codes "s"; path_prefix = codes "/s" };
  limits = fixed_limit 2;
  upstreams = codes "u" ∷ codes "v" ∷ [];
  backup_upstreams = [];
  queue_max_size = 5;
  queue_timeout_seconds = 30000;
  sticky_sessions = true;
  sticky_session_ttl_seconds = 300000;
}

abbrev policies : Backend → BackendPolicy
policies b = record {
  config = search;
  resolved_scoring = record {
    base_scores = [];
    exempt_countries = [];
    ipv6_prefix_length = 56;
    score_clamp = record { min_score = pos 0; max_score = pos 100 };
    penalties = record { ip = []; net24 = []; net6 = []; asn = []; country = []; user = [] };
  };
}

abbrev routed : Registry BackendPolicy
routed = registry policies (backends_of (search ∷ []))

named : unique (map name_of (search ∷ [])) ≡ true
unfolding unique ◌==◌
named = refl

abbrev running : App (List Entry)
running = (start-IsStarted urlsplit queues (search ∷ []) named).0

admin_routes-answer_example :
    (l : List BackendSummary) × (list_backends running routed ≡ some (backends l))
    × AreSummaries running routed (keys routed.policies) l
    × (IsUnknown running routed (codes "s") ⊎ IsKnown running routed (codes "s"))
admin_routes-answer_example = admin_routes-answer running routed (codes "s") (
    started-IsConsistent urlsplit queues (search ∷ []) running policies named
      (start-IsStarted urlsplit queues (search ∷ []) named).2)

abbrev foreign : Option Text
foreign = some (codes "Bearer é")

require_admin_auth-raises_example :
    require_admin_auth token foreign (some (limit (codes "s") 2)) ≡ none
unfolding partition lower is_ascii
require_admin_auth-raises_example =
    require_admin_auth-raises (codes "key") foreign (some (limit (codes "s") 2)) (λ e. cc) refl refl
