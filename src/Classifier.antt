-- ===== src/Classifier.antt =====
-- app/classifier.py, and `DefaultBackendPolicy` of app/registry.py. Address parsing is Python's
-- `ipaddress`, a parameter.
mod Known
mod Tests
use adaptive_admission_contr.Base.{ℕ, Bool, true, false, if◌then◌else◌, Option, none, some, Text}
use adaptive_admission_contr.Base.Float.{Float}
use adaptive_admission_contr.Base.Int.{ℤ, pos}
use adaptive_admission_contr.Interfaces.{RequestContext}
use adaptive_admission_contr.Scoring.{Scored, ResolvedScoringConfig}
use adaptive_admission_contr.Auth.{Jwt, UserClass, class_value, Verifier, Verified, verify}
use adaptive_admission_contr.Geoip.{Readers, Place, Cache, locate}

-- `ip_address(ip).version == 4`, where `none` is a ValueError, and the text of the network
-- `f"{ip}/{n}"`, which is asked for at an address and a prefix length of its version only.
pub record Addresses : Type 0 where
  pub is_v4 : Text → Option Bool
  pub network_text : Text → (prefix_length : ℕ) → Text

pub record Policy : Type 0 where
  pub name : Text
  pub scoring : ResolvedScoringConfig

-- `estimate_cost`
pub estimate_cost : ℕ
estimate_cost = 1

networks : Addresses → Text → ℕ → Option Bool → Option Text × Option Text
networks a ip n none = (none, none)
networks a ip n (some v4) =
    if v4 then (some (a.network_text ip 24), none) else (none, some (a.network_text ip n))

-- `_subnets`
pub subnets : Addresses → Option Text → (ipv6_prefix_length : ℕ) → Option Text × Option Text
unfolding networks
subnets a none n = (none, none)
subnets a (some ip) n = networks a ip n (a.is_v4 ip)

module _ ⦃fl : Float⦄ where
  open fl use {F}

  -- The `RequestContext`, as the two records that the scoring and the scheduling read.
  pub record Context : Type 0 where
    pub scored : Scored
    pub request : RequestContext

  -- `geoip.lookup(source_ip) if source_ip is not None else (None, None)`
  pub locate_client : Readers → (now : F) → Option Text → Cache → Option (Place × Cache)
  locate_client db now none c = some ((none, none), c)
  locate_client db now (some ip) c = locate db now ip c

  pub context :
      Policy
      → (arrival : F) → Option Text
      → Option Text × Option Text
      → Place
      → UserClass × Option Text
      → Context
  context p arrival ip (net24, net6) (country, asn) (c, user) = record {
    scored = record {
      backend = p.name;
      source_ip = ip;
      user_class = class_value c;
      subnet_24 = net24;
      subnet_6 = net6;
      asn = asn;
      country = country;
      user_id = user;
    };
    request = record {
      arrival_time = arrival;
      source_ip = ip;
      user_class = some (class_value c);
      score = pos 100;
    };
  }

  module _ (a : Addresses) (jwt : Jwt) where
    identify :
        Policy → (arrival : F) → Option Text → Place × Cache → Verified → Option Context × Cache
    unfolding context subnets
    identify p arrival ip (place, c) none = (none, c)
    identify p arrival ip (place, c) (some who) =
        (some (context p arrival ip (subnets a ip p.scoring.ipv6_prefix_length) place who), c)

    -- The context, or `none` for an exception, and the cache either way. The clock is read by the
    -- lookup and for the arrival.
    unfoldable pub classify :
        Readers
        → Verifier jwt
        → Policy
        → (looked_at arrival : F) → (client_ip authorization : Option Text) → Cache
        → Option Context × Cache
    unfolding locate_client identify
    classify db v p looked_at arrival client_ip authorization c =
        elim (locate_client db looked_at client_ip c) [
          | none ↦ (none, c)
          | some found ↦ identify p arrival client_ip found (verify jwt v authorization)
        ]
