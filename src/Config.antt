-- ===== src/Config.antt =====
-- app/config.py: the validators across fields, and `resolve_scoring_config`. The parsing of YAML
-- and the checks of single fields that pydantic makes are not modelled, except for those of
-- `PenaltyConfig`, which the merge of overrides runs again.
pub mod Backends
pub mod Resolve
pub mod Merged
mod Upstreams
mod Tests
use adaptive_admission_contr.Base.{
  unique, in_list, eqb, ℕ, Bool, true, false, not, ◌&&◌, ◌||◌, if◌then◌else◌, ltb, leb, Option,
  none, some, List, [], ◌∷◌, ◌++◌, map, any, Text, ◌==◌, Dict, lookup, insert, codes,
}
use adaptive_admission_contr.Base.Int.{ℤ, pos, negsuc}
use adaptive_admission_contr.Registry.{Backend}
use adaptive_admission_contr.Scoring.{
  PenaltyConfig, DefaultPenalties, ScoreClamp, ResolvedScoringConfig,
}

-- `AACConfig._check_backends`
unfoldable pub check_backends : List Backend → Bool
unfolding unique
check_backends backends =
    unique (map (λ b. b.name) backends) && unique (map (λ b. b.path_prefix) backends)

-- `PenaltyConfig._check_ordering`
pub check_ordering : PenaltyConfig → Bool
check_ordering w = leb w.soft_threshold w.hard_threshold && leb w.soft_penalty w.hard_penalty

-- `Field(ge=0)`, and `Field(gt=0)`; a missing field is an error.
pub natural : Option ℤ → Option ℕ
natural none = none
natural (some (pos n)) = some n
natural (some (negsuc n)) = none

pub positive : Option ℕ → Option ℕ
positive none = none
positive (some n) = if ltb 0 n then some n else none

pub field : Text → Dict ℤ → Option ℕ
unfolding natural lookup
field k d = natural (lookup k d)

pub ordered : PenaltyConfig → Option PenaltyConfig
unfolding check_ordering
ordered w = if check_ordering w then some w else none

infixl 5 ◌>>=◌
abbrev pub ◌>>=◌ {ℓ κ} : {A : Type ℓ} {B : Type κ} → Option A → (A → Option B) → Option B
none >>= f = none
some a >>= f = f a

-- `PenaltyConfig(**d)`
pub parse_window : Dict ℤ → Option PenaltyConfig
unfolding positive field ordered
parse_window d = do
  window_seconds ← positive (field (codes "window_seconds") d)
  soft_threshold ← field (codes "soft_threshold") d
  hard_threshold ← field (codes "hard_threshold") d
  soft_penalty ← field (codes "soft_penalty") d
  hard_penalty ← field (codes "hard_penalty") d
  ordered (record {
    window_seconds = window_seconds;
    soft_threshold = soft_threshold;
    hard_threshold = hard_threshold;
    soft_penalty = soft_penalty;
    hard_penalty = hard_penalty;
  })

-- `model_dump()` of a window
pub dump : PenaltyConfig → Dict ℤ
dump w =
    (codes "window_seconds", pos w.window_seconds)
    ∷ (codes "soft_threshold", pos w.soft_threshold)
    ∷ (codes "hard_threshold", pos w.hard_threshold)
    ∷ (codes "soft_penalty", pos w.soft_penalty)
    ∷ (codes "hard_penalty", pos w.hard_penalty)
    ∷ []

-- `{**d, **o}`
pub merge {ℓ} : {V : Type ℓ} → Dict V → Dict V → Dict V
unfolding insert
merge d [] = d
merge d ((k, v) ∷ o) = merge (insert k v d) o

-- `[PenaltyConfig(**w) for w in windows]`; `none` is the first ValidationError.
pub parse_windows : List (Dict ℤ) → Option (List PenaltyConfig)
unfolding parse_window
parse_windows [] = some []
parse_windows (d ∷ ds) = do w ← parse_window d; ws ← parse_windows ds; some (w ∷ ws)

-- `windows[0] = {**windows[0], **override_window}`, if there is an override with some field.
pub override_first : Option (Dict ℤ) → List (Dict ℤ) → Option (List (Dict ℤ))
unfolding merge
override_first none windows = some windows
override_first (some []) windows = some windows
override_first (some (e ∷ o)) [] = none
override_first (some (e ∷ o)) (d ∷ ds) = some (merge d (e ∷ o) ∷ ds)

-- The body of the loop over the dimensions.
pub resolve_dimension : List PenaltyConfig → Option (Dict ℤ) → Option (List PenaltyConfig)
unfolding dump override_first parse_windows
resolve_dimension windows override = do
  merged ← override_first override (map dump windows)
  parse_windows merged

pub record BackendOverride : Type 0 where
  pub penalties : Dict (Dict ℤ)
  pub base_scores : Dict ℤ

pub record ScoringConfig : Type 0 where
  pub exempt_countries : List Text
  pub ipv6_prefix_length : ℕ
  pub base_scores : Dict ℤ
  pub score_clamp : ScoreClamp
  pub default_penalties : DefaultPenalties

-- `BackendOverride._validate_dimensions`
pub validate_dimensions : Dict (Dict ℤ) → Bool
unfolding in_list
validate_dimensions [] = true
validate_dimensions ((dim, window) ∷ o) =
    in_list dim (
      codes "ip" ∷ codes "net24" ∷ codes "net6" ∷ codes "asn" ∷ codes "country" ∷ codes "user" ∷ [])
    && validate_dimensions o

-- The loop over the dimensions.
pub resolve_penalties : DefaultPenalties → Dict (Dict ℤ) → Option DefaultPenalties
unfolding resolve_dimension lookup
resolve_penalties d o = do
  ip ← resolve_dimension d.ip (lookup (codes "ip") o)
  net24 ← resolve_dimension d.net24 (lookup (codes "net24") o)
  net6 ← resolve_dimension d.net6 (lookup (codes "net6") o)
  asn ← resolve_dimension d.asn (lookup (codes "asn") o)
  country ← resolve_dimension d.country (lookup (codes "country") o)
  user ← resolve_dimension d.user (lookup (codes "user") o)
  some (record { ip = ip; net24 = net24; net6 = net6; asn = asn; country = country; user = user })

-- `override.… if override else {}`
pub penalties_of : Option BackendOverride → Dict (Dict ℤ)
penalties_of none = []
penalties_of (some o) = o.penalties

unfoldable pub base_scores_of : Option BackendOverride → Dict ℤ
base_scores_of none = []
base_scores_of (some o) = o.base_scores

-- `resolve_scoring_config`; `none` is a ValidationError.
unfoldable pub resolve_scoring_config :
    ScoringConfig → Option BackendOverride → Option ResolvedScoringConfig
unfolding resolve_penalties merge penalties_of base_scores_of
resolve_scoring_config s override = do
  penalties ← resolve_penalties s.default_penalties (penalties_of override)
  some (record {
    base_scores = merge s.base_scores (base_scores_of override);
    exempt_countries = s.exempt_countries;
    ipv6_prefix_length = s.ipv6_prefix_length;
    score_clamp = s.score_clamp;
    penalties = penalties;
  })

-- `text.rstrip("/")`
pub rstrip : Text → Text
rstrip [] = []
rstrip (c ∷ s) = let rest = rstrip s in if eqb c 47 then kept c rest else c ∷ rest
  where
    kept : ℕ → Text → Text
    kept c [] = []
    kept c (d ∷ s) = c ∷ d ∷ s

check_seen : (seen : List Text) → List Text → Bool
unfolding in_list rstrip
check_seen seen [] = true
check_seen seen (url ∷ urls) =
    not (in_list (rstrip url) seen) && check_seen (rstrip url ∷ seen) urls

-- `_BackendCommon._check_unique_upstreams`
pub check_unique_upstreams : (upstreams backup_upstreams : List Text) → Bool
unfolding check_seen
check_unique_upstreams upstreams backup_upstreams = check_seen [] (upstreams ++ backup_upstreams)

-- `AuthConfig._check_enabled_requires_issuer`
pub check_enabled_requires_issuer : (enabled : Bool) → (issuer jwks_url : Option Text) → Bool
check_enabled_requires_issuer enabled none jwks_url = not enabled
check_enabled_requires_issuer enabled (some issuer) none = not enabled
check_enabled_requires_issuer enabled (some issuer) (some jwks_url) = true
