-- ===== src/Handler/Tests.antt =====
-- A request for a backend with a free queue, classified with no database and no verification, and
-- the same request when the client goes away.
use adaptive_admission_contr.Base.{
  ℕ, In, ◌≡◌, refl, inr, ltb, true, false, arith, Option, none, some, List, [], ◌∷◌, ◌==◌, codes,
  Dict, lookup, insert,
}
use adaptive_admission_contr.Base.Int.{pos, negsuc}
use adaptive_admission_contr.Base.Float.{Float, fixed_point}
use adaptive_admission_contr.Capacity.{FixedController, fixed}
use adaptive_admission_contr.Capacity.Interface.{fixed_interface}
use adaptive_admission_contr.Registry.{Backend, Registry, registry, found, match_path}
use adaptive_admission_contr.Scoring.{Redis, ScoreBreakdown}
use adaptive_admission_contr.Scoring.Effects.{IsExplained}
use adaptive_admission_contr.Scheduler.{Entry}
use adaptive_admission_contr.Scheduler.Listed.{listed}
use adaptive_admission_contr.Auth.{class_value, Jwt, Verifier, verify}
use adaptive_admission_contr.Geoip.{locate}
use adaptive_admission_contr.Classifier.{Addresses, Policy, Context, classify}
use adaptive_admission_contr.Dispatcher.{Response, json_response}
use adaptive_admission_contr.Handler.{Backlog, is_latin1, in_time, interrupted, proxy_handler}
use adaptive_admission_contr.Handler.Counts.{IsCounted, proxy_handler-IsCounted}
use adaptive_admission_contr.Handler.Status.{IsAnswered, proxy_handler-IsAnswered}

instance abbrev clock : Float
clock = fixed_point

-- Every call of Redis fails.
abbrev down : Redis
down = record { Store = ℕ; incr = λ key hits. (none, hits); expire = λ key ttl hits. (false, hits) }

abbrev policy : Policy
policy = record {
  name = codes "w";
  scoring = record {
    base_scores =
        (codes "anonymous", pos 50)
        ∷ (codes "researcher", pos 80)
        ∷ (codes "service_account", pos 70)
        ∷ (codes "internal", pos 100)
        ∷ (codes "unknown", pos 40)
        ∷ [];
    exempt_countries = [];
    ipv6_prefix_length = 56;
    score_clamp = record { min_score = negsuc 99; max_score = pos 100 };
    penalties = record { ip = []; net24 = []; net6 = []; asn = []; country = []; user = [] };
  };
}

abbrev backend : Backend
backend = record { name = codes "w"; path_prefix = codes "/w" }

abbrev routes : Registry Policy
unfolding registry
routes = registry (λ b. policy) (backend ∷ [])

abbrev addresses : Addresses
addresses = record { is_v4 = λ ip. some true; network_text = λ ip n. ip }

abbrev library : Jwt
library = record {
  Key = ℕ;
  Jwk = ℕ;
  kid_of = λ k. none;
  from_jwk = λ k. none;
  unverified_kid = λ token. none;
  decode = λ token key issuer audience. none;
}

abbrev off : Verifier library
off = record { config = record { enabled = false; issuer = none; audience = none }; keys = [] }

abbrev classify_for : Policy → Option Context
unfolding classify locate verify
classify_for p =
    (classify addresses library (record { city = none; asn = none }) off p 0 0
      (some (codes "1.2.3.4")) none []).0

abbrev visitor : Context
visitor = record {
  scored = record {
    backend = codes "w";
    source_ip = some (codes "1.2.3.4");
    user_class = codes "anonymous";
    subnet_24 = some (codes "1.2.3.4");
    subnet_6 = none;
    asn = none;
    country = none;
    user_id = none;
  };
  request = record {
    arrival_time = 0;
    source_ip = some (codes "1.2.3.4");
    user_class = some (codes "anonymous");
    score = pos 100;
  };
}

classified : classify_for policy ≡ some visitor
unfolding classify_for class_value
classified = refl

abbrev backlog : Backlog FixedController (List Entry)
unfolding fixed
backlog = record { controller = fixed 2; bounds = listed 3; queue = []; queue_timeout = 30000 }

abbrev schedulers : Dict (Backlog FixedController (List Entry))
schedulers = (codes "w", backlog) ∷ []

scheduled : lookup (codes "w") schedulers ≡ some backlog
unfolding lookup ◌==◌
scheduled = refl

abbrev page : Response
page = json_response 200 (codes "page") none

routed : match_path routes (codes "/w/x") ≡ found policy
unfolding routes match_path registry lookup insert ◌==◌
routed = refl

known : lookup (codes "anonymous") policy.scoring.base_scores ≡ some (pos 50)
unfolding lookup ◌==◌
known = refl

nothing_earlier :
    (y : Entry)
    → In y (backlog.bounds.contents backlog.queue)
    → ltb y.arrival_time visitor.request.arrival_time ≡ true
unfolding backlog listed
nothing_earlier y there = absurd there

proxy_handler-IsAnswered_example :
    (b : ScoreBreakdown) × IsExplained down visitor.scored policy.scoring (pos 50) b
    × IsAnswered fixed_interface true (codes "w") b (in_time page) backlog (
        proxy_handler down fixed_interface true routes
          (codes "/w/x")
          classify_for
          1
          0
          (in_time page)
          schedulers
          0)
unfolding backlog is_latin1
proxy_handler-IsAnswered_example =
    proxy_handler-IsAnswered down fixed_interface true routes (codes "/w/x") classify_for 1 0
      (in_time page) schedulers 0 policy visitor (pos 50) backlog routed classified known
      (omega arith) scheduled nothing_earlier (inr refl)

proxy_handler-IsCounted_example : IsCounted (
    proxy_handler down fixed_interface true routes
      (codes "/w/x")
      classify_for
      1
      0
      interrupted
      schedulers
      0)
proxy_handler-IsCounted_example =
    proxy_handler-IsCounted down fixed_interface true routes (codes "/w/x") classify_for 1 0
      interrupted schedulers 0
