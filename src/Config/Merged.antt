-- ===== src/Config/Merged.antt =====
-- What a backend's overrides change in the scoring configuration, and what they leave.
use adaptive_admission_contr.Base.{
  ◌≡◌, ◌≢◌, refl, subst, ◌⊎◌, inl, inr, Option, none, some, All, List, [], ◌∷◌, Text, ◌==◌, ==_iff,
  Dict, Distinct, lookup, insert, lookup-insert, codes, arith, Option-cases, Bool-cases,
}
use adaptive_admission_contr.Base.Int.{ℤ}
use adaptive_admission_contr.Scoring.{PenaltyConfig, DefaultPenalties, ResolvedScoringConfig}
use adaptive_admission_contr.Config.{
  ◌>>=◌, merge, override_first, resolve_dimension, BackendOverride, ScoringConfig,
  resolve_penalties, penalties_of, base_scores_of, resolve_scoring_config,
}
use adaptive_admission_contr.Config.Resolve.{IsWindow, parse_windows-dump}

-- `{**d, **o}` gives the value of `o`, or else that of `d`.
lookup-merge_either :
    (k : Text) (d o : Dict ℤ)
    → Distinct o
    → lookup k (merge d o) ≡ elim (lookup k o) [ none ↦ lookup k d | some v ↦ some v ]
unfolding merge lookup
lookup-merge_either k d [] h = refl
lookup-merge_either k d ((j, x) ∷ o) h =
    let rest = lookup-merge_either k (insert j x d) o h.1 in
    elim (Bool-cases (j == k)) [
      | inl same ↦ ground (arith, rest, same, ==_iff j k, h.0, lookup-insert j k x d)
      | inr other ↦ ground (arith, rest, other, lookup-insert j k x d)
    ]

resolve_dimension-none :
    (ws : List PenaltyConfig) → All IsWindow ws → resolve_dimension ws none ≡ some ws
unfolding resolve_dimension override_first
resolve_dimension-none ws h = parse_windows-dump ws h

-- A dimension that the override does not name keeps its windows; one that it names has those of
-- `resolve_dimension`.
pub record IsDimension (dim : Text) (o : Dict (Dict ℤ)) (ws ws' : List PenaltyConfig) : Type 0 where
  pub resolved : resolve_dimension ws (lookup dim o) ≡ some ws'
  pub kept : (lookup dim o ≡ none × (ws' ≡ ws)) ⊎ (lookup dim o ≢ none)

dimension :
    (dim : Text) (o : Dict (Dict ℤ)) (ws ws' : List PenaltyConfig)
    → All IsWindow ws
    → resolve_dimension ws (lookup dim o) ≡ some ws'
    → IsDimension dim o ws ws'
dimension dim o ws ws' valid e = record {
  resolved = e;
  kept = elim (Option-cases (lookup dim o)) [
    | inl missing ↦ inl (missing, ground (arith, e, missing, resolve_dimension-none ws valid))
    | inr (w, given) ↦ inr (λ missing. ground (arith, given, missing))
  ];
}

abbrev pub AreWindows : DefaultPenalties → Type 0
AreWindows d =
    All IsWindow d.ip
    × All IsWindow d.net24
    × All IsWindow d.net6
    × All IsWindow d.asn
    × All IsWindow d.country
    × All IsWindow d.user

pub record AreDimensions (o : Dict (Dict ℤ)) (d d' : DefaultPenalties) : Type 0 where
  pub ip : IsDimension (codes "ip") o d.ip d'.ip
  pub net24 : IsDimension (codes "net24") o d.net24 d'.net24
  pub net6 : IsDimension (codes "net6") o d.net6 d'.net6
  pub asn : IsDimension (codes "asn") o d.asn d'.asn
  pub country : IsDimension (codes "country") o d.country d'.country
  pub user : IsDimension (codes "user") o d.user d'.user

-- A successful step of a chain, and what follows it.
bind-some {ℓ κ} :
    {A : Type ℓ} {B : Type κ} (x : Option A) (f : A → Option B) (b : B)
    → (x >>= f) ≡ some b
    → (a : A) × (x ≡ some a) × (f a ≡ some b)
bind-some none f b e = cc
bind-some (some a) f b e = (a, refl, e)

some_penalties_inj : (a b : DefaultPenalties) → some a ≡ some b → a ≡ b
some_penalties_inj a b e = cc

resolve_penalties-AreDimensions :
    (d : DefaultPenalties) (o : Dict (Dict ℤ)) (d' : DefaultPenalties)
    → AreWindows d
    → resolve_penalties d o ≡ some d'
    → AreDimensions o d d'
unfolding resolve_penalties
resolve_penalties-AreDimensions d o d' (v1, v2, v3, v4, v5, v6) e =
    let (ip, e1, r1) = bind-some (resolve_dimension d.ip (lookup (codes "ip") o)) _ d' e in
    let (net24, e2, r2) =
      bind-some (resolve_dimension d.net24 (lookup (codes "net24") o)) _ d' r1 in
    let (net6, e3, r3) = bind-some (resolve_dimension d.net6 (lookup (codes "net6") o)) _ d' r2 in
    let (asn, e4, r4) = bind-some (resolve_dimension d.asn (lookup (codes "asn") o)) _ d' r3 in
    let (country, e5, r5) =
      bind-some (resolve_dimension d.country (lookup (codes "country") o)) _ d' r4 in
    let (user, e6, r6) = bind-some (resolve_dimension d.user (lookup (codes "user") o)) _ d' r5 in
    let all = some_penalties_inj _ _ r6 in
    subst (AreDimensions o d) all (record {
      ip = dimension (codes "ip") o d.ip ip v1 e1;
      net24 = dimension (codes "net24") o d.net24 net24 v2 e2;
      net6 = dimension (codes "net6") o d.net6 net6 v3 e3;
      asn = dimension (codes "asn") o d.asn asn v4 e4;
      country = dimension (codes "country") o d.country country v5 e5;
      user = dimension (codes "user") o d.user user v6 e6;
    })

-- The overrides of a backend are merged into a valid scoring configuration: when that succeeds, each
-- dimension that they do not name keeps its windows and each one that they name is resolved from its
-- own windows alone; each class has the base score of the override, or else the default one; and the
-- exempt countries, the bounds and the prefix length are the default ones. The override names no class twice.
pub resolve_scoring_config-merges :
    (s : ScoringConfig) (override : Option BackendOverride) (r : ResolvedScoringConfig)
    (class : Text)
    → AreWindows s.default_penalties
    → Distinct (base_scores_of override)
    → resolve_scoring_config s override ≡ some r
    → AreDimensions (penalties_of override) s.default_penalties r.penalties
      × (lookup class r.base_scores ≡ elim (lookup class (base_scores_of override)) [
        | none ↦ lookup class s.base_scores
        | some v ↦ some v
      ])
      × (r.exempt_countries ≡ s.exempt_countries)
      × (r.score_clamp ≡ s.score_clamp)
      × (r.ipv6_prefix_length ≡ s.ipv6_prefix_length)
unfolding resolve_scoring_config
resolve_scoring_config-merges s override r class valid distinct e =
    let (p, dims, done) =
      bind-some (resolve_penalties s.default_penalties (penalties_of override)) _ r e in
    (
      subst (λ x. AreDimensions (penalties_of override) s.default_penalties x)
          (ground (arith, done))
          (resolve_penalties-AreDimensions s.default_penalties (penalties_of override) p valid
            dims),
      ground
          (arith, done, lookup-merge_either class s.base_scores (base_scores_of override) distinct),
      ground (arith, done),
      ground (arith, done),
      ground (arith, done),
    )
