-- ===== src/Classifier/Tests.antt =====
-- A client whose address is the word `unknown`, with and without a database.
use adaptive_admission_contr.Base.{
  ℕ, ◌≡◌, refl, true, false, if◌then◌else◌, none, some, [], Text, ◌==◌, codes, lookup, arith,
}
use adaptive_admission_contr.Base.Int.{pos}
use adaptive_admission_contr.Base.Float.{Float, fixed_point, fixed_point-IsOrdered}
use adaptive_admission_contr.Auth.{class_value, Jwt, Verifier, verify, anonymous}
use adaptive_admission_contr.Geoip.{Readers, Found, value_error, not_dict, CityRecord, locate}
use adaptive_admission_contr.Geoip.Cache.{IsCache}
use adaptive_admission_contr.Classifier.{Addresses, Policy, Context, subnets, classify, context}
use adaptive_admission_contr.Classifier.Known.{IsContext, classify-IsContext, classify-raises}

instance abbrev clock : Float
clock = fixed_point

abbrev bad : Text
bad = codes "unknown"

abbrev addresses : Addresses
addresses = record {
  is_v4 = λ ip. if ip == bad then none else some true;
  network_text = λ ip n. ip;
}

abbrev library : Jwt
library = record {
  Key = ℕ;
  Jwk = ℕ;
  kid_of = λ k. none;
  from_jwk = λ k. none;
  unverified_kid = λ token. none;
  decode = λ token key issuer audience. none;
}

abbrev off : Verifier library
off = record { config = record { enabled = false; issuer = none; audience = none }; keys = [] }

abbrev policy : Policy
policy = record {
  name = codes "w";
  scoring = record {
    base_scores = [];
    exempt_countries = [];
    ipv6_prefix_length = 56;
    score_clamp = record { min_score = pos 0; max_score = pos 100 };
    penalties = record { ip = []; net24 = []; net6 = []; asn = []; country = []; user = [] };
  };
}

abbrev city : Text → Found CityRecord
city ip = if ip == bad then value_error else not_dict

abbrev opened : Readers
opened = record { city = some city; asn = none }

abbrev made : Context
unfolding context class_value
made =
    context policy 7 (some (codes "1.2.3.4")) (some (codes "1.2.3.4"), none) (none, none)
      (anonymous, none)

good_address :
    (classify addresses library opened off policy 5 7 (some (codes "1.2.3.4")) none []).0
    ≡ some made
unfolding classify locate verify context lookup ◌==◌ made
good_address = refl

classify-IsContext_example :
    IsContext addresses library opened off policy 5 7 (some (codes "1.2.3.4")) none [] made
classify-IsContext_example =
    classify-IsContext addresses library opened off policy 5 7 (some (codes "1.2.3.4")) none [] made
      good_address

empty-IsCache : IsCache opened []
unfolding lookup
empty-IsCache = record { distinct = tt; bounded = omega arith; faithful = λ ip p t e. cc }

is_bad : addresses.is_v4 bad ≡ none
unfolding ◌==◌
is_bad = refl

is_refused : city bad ≡ value_error
unfolding ◌==◌
is_refused = refl

classify-raises_example :
    (subnets addresses (some bad) 56 ≡ (none, none))
    × ((classify addresses library opened off policy 5 7 (some bad) none []).0 ≡ none)
classify-raises_example =
    classify-raises addresses library fixed_point-IsOrdered opened city off policy 5 7 bad none []
      empty-IsCache is_bad refl is_refused
