-- ===== src/Scoring/Tests.antt =====
-- A Redis that counts all keys together, and one that is down.
use adaptive_admission_contr.Base.{
  ℕ, ◌+◌, ◌≡◌, refl, true, false, arith, none, some, [], ◌∷◌, Text, ◌==◌, codes, lookup,
}
use adaptive_admission_contr.Base.Int.{pos, negsuc}
use adaptive_admission_contr.Scoring.{
  Redis, PenaltyConfig, DefaultPenalties, ScoreClamp, ResolvedScoringConfig, Scored, ScoreBreakdown,
  step_penalty, score, penalty_key,
}
use adaptive_admission_contr.Scoring.Effects.{IsExplained, score-IsExplained, score-unknown_class}

abbrev counting : Redis
counting = record {
  Store = ℕ;
  incr = λ key hits. (some (hits + 1), hits + 1);
  expire = λ key ttl hits. (true, hits);
}

abbrev down : Redis
down = record { Store = ℕ; incr = λ key hits. (none, hits); expire = λ key ttl hits. (false, hits) }

abbrev window : PenaltyConfig
window = record {
  window_seconds = 60;
  soft_threshold = 3;
  hard_threshold = 5;
  soft_penalty = 10;
  hard_penalty = 40;
}

abbrev windows : DefaultPenalties
windows = record {
  ip = window ∷ [];
  net24 = window ∷ [];
  net6 = window ∷ [];
  asn = window ∷ [];
  country = window ∷ [];
  user = window ∷ [];
}

abbrev bounds : ScoreClamp
bounds = record { min_score = negsuc 99; max_score = pos 100 }

abbrev config : ResolvedScoringConfig
config = record {
  base_scores = (codes "anonymous", pos 50) ∷ [];
  exempt_countries = codes "PT" ∷ [];
  ipv6_prefix_length = 56;
  score_clamp = bounds;
  penalties = windows;
}

abbrev strict : ResolvedScoringConfig
strict = record config { exempt_countries = [] }

abbrev visitor : Text → Scored
visitor user_class = record {
  backend = codes "b";
  source_ip = some (codes "1.2.3.4");
  user_class = user_class;
  subnet_24 = some (codes "1.2.3.0/24");
  subnet_6 = none;
  asn = some (codes "7");
  country = some (codes "PT");
  user_id = none;
}

abbrev anonymous : Scored
anonymous = visitor (codes "anonymous")

program : Unit {0}
unfolding score penalty_key step_penalty lookup ◌==◌
program = tt

key_text : penalty_key (codes "ip") (codes "a") (codes "b") 60 ≡ codes "rl:ip:a:b:60"
unfolding program
key_text = refl

-- The third and the fourth hit cost 10 each, but the country is exempt.
counted : (score counting anonymous config 0).1 ≡ 4
unfolding program
counted = refl

known : lookup (codes "anonymous") config.base_scores ≡ some (pos 50)
unfolding program
known = refl

unknown : lookup (codes "robot") config.base_scores ≡ none
unfolding program
unknown = refl

score-IsExplained_example :
    (b : ScoreBreakdown) × ((score down anonymous config 0).0 ≡ some b)
    × IsExplained down anonymous config (pos 50) b
score-IsExplained_example = score-IsExplained down anonymous config (pos 50) 0 known (omega arith)

score-unknown_class_example : score counting (visitor (codes "robot")) config 0 ≡ (none, 0)
score-unknown_class_example =
    score-unknown_class counting (visitor (codes "robot")) config 0 unknown
