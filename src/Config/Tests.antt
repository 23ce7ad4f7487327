-- ===== src/Config/Tests.antt =====
-- An override of one field, and two instances whose urls differ.
use adaptive_admission_contr.Base.{
  false, All, Option, ◌≡◌, refl, true, none, some, List, [], ◌∷◌, Text, ◌==◌, codes, lookup, insert,
  arith,
}
use adaptive_admission_contr.Base.Int.{ℤ, pos}
use adaptive_admission_contr.Scoring.{PenaltyConfig, DefaultPenalties, ResolvedScoringConfig}
use adaptive_admission_contr.Config.{
  BackendOverride, ScoringConfig, penalties_of, base_scores_of, resolve_scoring_config,
  check_unique_upstreams, parse_window, dump, merge, resolve_dimension,
}
use adaptive_admission_contr.Config.Merged.{AreDimensions, resolve_scoring_config-merges}
use adaptive_admission_contr.Config.Resolve.{IsWindow, IsOverridden, resolve_dimension-IsOverridden}

abbrev window : PenaltyConfig
window = record {
  window_seconds = 60;
  soft_threshold = 3;
  hard_threshold = 5;
  soft_penalty = 10;
  hard_penalty = 40;
}

window-IsWindow : IsWindow window
window-IsWindow = record { lasts = omega arith; thresholds = omega arith; penalties = omega arith }

abbrev harder : PenaltyConfig
harder = record window { hard_penalty = 70 }

abbrev entry : Text × ℤ
entry = (codes "hard_penalty", pos 70)

resolves :
    resolve_dimension (window ∷ window ∷ []) (some (entry ∷ [])) ≡ some (harder ∷ window ∷ [])
unfolding resolve_dimension dump merge parse_window lookup insert ◌==◌
resolves = refl

resolve_dimension-IsOverridden_example :
    (resolve_dimension (window ∷ window ∷ []) none ≡ some (window ∷ window ∷ []))
    × (w' : PenaltyConfig) × (◌≡◌ {A = List PenaltyConfig}
        (harder ∷ window ∷ [])
        (w' ∷ window ∷ []))
    × IsOverridden (entry ∷ []) window w'
unfolding lookup
resolve_dimension-IsOverridden_example =
    resolve_dimension-IsOverridden window (window ∷ []) entry [] (harder ∷ window ∷ [])
      (window-IsWindow, (window-IsWindow, tt)) (refl, tt) resolves

abbrev defaults : DefaultPenalties
defaults = record {
  ip = window ∷ [];
  net24 = window ∷ [];
  net6 = window ∷ [];
  asn = window ∷ [];
  country = window ∷ [];
  user = window ∷ [];
}

abbrev scoring : ScoringConfig
scoring = record {
  exempt_countries = codes "PT" ∷ [];
  ipv6_prefix_length = 56;
  base_scores = (codes "anonymous", pos 50) ∷ (codes "internal", pos 100) ∷ [];
  score_clamp = record { min_score = pos 0; max_score = pos 100 };
  default_penalties = defaults;
}

abbrev override : Option BackendOverride
override = some (record {
  penalties = (codes "asn", entry ∷ []) ∷ [];
  base_scores = (codes "anonymous", pos 30) ∷ [];
})

abbrev merged : ResolvedScoringConfig
merged = record {
  base_scores = (codes "anonymous", pos 30) ∷ (codes "internal", pos 100) ∷ [];
  exempt_countries = codes "PT" ∷ [];
  ipv6_prefix_length = 56;
  score_clamp = record { min_score = pos 0; max_score = pos 100 };
  penalties = record defaults { asn = harder ∷ [] };
}

merges : resolve_scoring_config scoring override ≡ some merged
unfolding resolve_scoring_config resolve_dimension dump merge parse_window lookup insert ◌==◌
merges = refl

resolve_scoring_config-merges_example :
    AreDimensions (penalties_of override) defaults merged.penalties
    × (lookup (codes "anonymous") merged.base_scores
        ≡ elim (lookup (codes "anonymous") (base_scores_of override)) [
          | none ↦ lookup (codes "anonymous") scoring.base_scores
          | some v ↦ some v
        ])
    × (merged.exempt_countries ≡ scoring.exempt_countries)
    × (merged.score_clamp ≡ scoring.score_clamp)
    × (merged.ipv6_prefix_length ≡ scoring.ipv6_prefix_length)
unfolding base_scores_of lookup
resolve_scoring_config-merges_example =
    let valid : All IsWindow (window ∷ []) = (window-IsWindow, tt) in
    resolve_scoring_config-merges scoring override merged (codes "anonymous")
      (valid, valid, valid, valid, valid, valid) (refl, tt) merges

differ : check_unique_upstreams (codes "http://a/" ∷ []) (codes "http://b" ∷ []) ≡ true
unfolding check_unique_upstreams ◌==◌
differ = refl

slash_only : check_unique_upstreams (codes "http://a/" ∷ []) (codes "http://a" ∷ []) ≡ false
unfolding check_unique_upstreams ◌==◌
slash_only = refl
