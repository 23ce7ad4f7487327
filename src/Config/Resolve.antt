-- ===== src/Config/Resolve.antt =====
-- What `resolve_scoring_config` does to the windows of a dimension.
use adaptive_admission_contr.Base.{
  sym, get_or, lookup-insert, Distinct, ==_iff, ℕ, ◌≡◌, ◌<◌, ◌≤◌, refl, ◌∙◌, Option, none, some,
  All, List, [], ◌∷◌, map, Text, ◌==◌, Dict, lookup, insert, codes, arith, Option-cases, Bool-cases,
  inl, inr,
}
use adaptive_admission_contr.Base.Int.{ℤ, pos, negsuc}
use adaptive_admission_contr.Scoring.{PenaltyConfig}
use adaptive_admission_contr.Config.{
  ◌>>=◌, check_ordering, ordered, natural, positive, field, parse_window, dump, merge,
  parse_windows, override_first, resolve_dimension,
}

pub record IsWindow (w : PenaltyConfig) : Type 0 where
  pub lasts : 0 < w.window_seconds
  pub thresholds : w.soft_threshold ≤ w.hard_threshold
  pub penalties : w.soft_penalty ≤ w.hard_penalty

parse_window-dump : (w : PenaltyConfig) → IsWindow w → parse_window (dump w) ≡ some w
unfolding parse_window dump field natural positive ordered check_ordering lookup ◌==◌
parse_window-dump w h = ground (arith, h.lasts, h.thresholds, h.penalties)

pub parse_windows-dump :
    (ws : List PenaltyConfig) → All IsWindow ws → parse_windows (map dump ws) ≡ some ws
unfolding parse_windows
parse_windows-dump [] h = refl
parse_windows-dump (w ∷ ws) h = rw (parse_window-dump w h.0, parse_windows-dump ws h.1) refl

-- What the fields of a parsed window are.
record IsParsed (d : Dict ℤ) (w : PenaltyConfig) : Type 0 where
  valid : IsWindow w
  window_seconds : lookup (codes "window_seconds") d ≡ some (pos w.window_seconds)
  soft_threshold : lookup (codes "soft_threshold") d ≡ some (pos w.soft_threshold)
  hard_threshold : lookup (codes "hard_threshold") d ≡ some (pos w.hard_threshold)
  soft_penalty : lookup (codes "soft_penalty") d ≡ some (pos w.soft_penalty)
  hard_penalty : lookup (codes "hard_penalty") d ≡ some (pos w.hard_penalty)

natural-inv : (o : Option ℤ) (n : ℕ) → natural o ≡ some n → o ≡ some (pos n)
unfolding natural
natural-inv none n e = ground arith
natural-inv (some (pos m)) n e = ground arith
natural-inv (some (negsuc m)) n e = ground arith

assembled : (o₁ o₂ o₃ o₄ o₅ : Option ℕ) → Option PenaltyConfig
unfolding positive ordered
assembled o₁ o₂ o₃ o₄ o₅ = do
  a ← positive o₁
  b ← o₂
  c ← o₃
  p ← o₄
  q ← o₅
  ordered (record {
    window_seconds = a;
    soft_threshold = b;
    hard_threshold = c;
    soft_penalty = p;
    hard_penalty = q;
  })

assembled-inv :
    (o₁ o₂ o₃ o₄ o₅ : Option ℕ) (w : PenaltyConfig)
    → assembled o₁ o₂ o₃ o₄ o₅ ≡ some w
    → IsWindow w
      × (o₁ ≡ some w.window_seconds)
      × (o₂ ≡ some w.soft_threshold)
      × (o₃ ≡ some w.hard_threshold)
      × (o₄ ≡ some w.soft_penalty)
      × (o₅ ≡ some w.hard_penalty)
unfolding assembled positive ordered check_ordering
assembled-inv none o₂ o₃ o₄ o₅ w e = ground arith
assembled-inv (some a) none o₃ o₄ o₅ w e = ground arith
assembled-inv (some a) (some b) none o₄ o₅ w e = ground arith
assembled-inv (some a) (some b) (some c) none o₅ w e = ground arith
assembled-inv (some a) (some b) (some c) (some p) none w e = ground arith
assembled-inv (some a) (some b) (some c) (some p) (some q) w e = (
  record { lasts = ground arith; thresholds = ground arith; penalties = ground arith },
  ground arith,
  ground arith,
  ground arith,
  ground arith,
  ground arith,
)

parse_window-IsParsed : (d : Dict ℤ) (w : PenaltyConfig) → parse_window d ≡ some w → IsParsed d w
unfolding parse_window assembled field
parse_window-IsParsed d w e =
    let (valid, a, b, c, p, q) =
      assembled-inv (field (codes "window_seconds") d) (field (codes "soft_threshold") d)
        (field (codes "hard_threshold") d) (field (codes "soft_penalty") d)
        (field (codes "hard_penalty") d) w e in
    record {
      valid = valid;
      window_seconds = natural-inv _ _ a;
      soft_threshold = natural-inv _ _ b;
      hard_threshold = natural-inv _ _ c;
      soft_penalty = natural-inv _ _ p;
      hard_penalty = natural-inv _ _ q;
    }

pub lookup-merge :
    (k : Text) (v : ℤ) (d o : Dict ℤ)
    → Distinct o
    → lookup k d ≡ some v
    → lookup k (merge d o) ≡ some (get_or v (lookup k o))
unfolding merge lookup
lookup-merge k v d [] h e = e
lookup-merge k v d ((j, x) ∷ o) h e = elim (Bool-cases (j == k)) [
  | inl same ↦
      let here = lookup-merge k x (insert j x d) o h.1 (rw (lookup-insert j k x d, same) refl) in
      ground (arith, here, same, ==_iff j k, h.0)
  | inr other ↦
      let there = lookup-merge k v (insert j x d) o h.1 (rw (lookup-insert j k x d, other) e) in
      ground (arith, there, other)
]

-- `w'` is `w` with the values that the override gives, and it passes the validation.
pub record IsOverridden (o : Dict ℤ) (w w' : PenaltyConfig) : Type 0 where
  pub valid : IsWindow w'
  pub window_seconds :
      pos w'.window_seconds ≡ get_or (pos w.window_seconds) (lookup (codes "window_seconds") o)
  pub soft_threshold :
      pos w'.soft_threshold ≡ get_or (pos w.soft_threshold) (lookup (codes "soft_threshold") o)
  pub hard_threshold :
      pos w'.hard_threshold ≡ get_or (pos w.hard_threshold) (lookup (codes "hard_threshold") o)
  pub soft_penalty :
      pos w'.soft_penalty ≡ get_or (pos w.soft_penalty) (lookup (codes "soft_penalty") o)
  pub hard_penalty :
      pos w'.hard_penalty ≡ get_or (pos w.hard_penalty) (lookup (codes "hard_penalty") o)

some_inj : (a b : ℤ) → some a ≡ some b → a ≡ b
some_inj a b e = cc

parse_window-merge :
    (o : Dict ℤ) (w w' : PenaltyConfig)
    → Distinct o
    → parse_window (merge (dump w) o) ≡ some w'
    → IsOverridden o w w'
unfolding dump lookup ◌==◌
parse_window-merge o w w' h e =
    let p = parse_window-IsParsed (merge (dump w) o) w' e in
    record {
      valid = p.valid;
      window_seconds = some_inj _ _ (sym p.window_seconds ∙ lookup-merge _ _ (dump w) o h refl);
      soft_threshold = some_inj _ _ (sym p.soft_threshold ∙ lookup-merge _ _ (dump w) o h refl);
      hard_threshold = some_inj _ _ (sym p.hard_threshold ∙ lookup-merge _ _ (dump w) o h refl);
      soft_penalty = some_inj _ _ (sym p.soft_penalty ∙ lookup-merge _ _ (dump w) o h refl);
      hard_penalty = some_inj _ _ (sym p.hard_penalty ∙ lookup-merge _ _ (dump w) o h refl);
    }

-- Given valid windows and an override that names no field twice: without the override a dimension
-- keeps its windows; and when the merge with it succeeds, only the first window changes. There each
-- field that the override names has its value, every other field keeps its own, and the window is
-- valid: it lasts, and its hard threshold and hard penalty are not below the soft ones.
pub resolve_dimension-IsOverridden :
    (w : PenaltyConfig) (ws : List PenaltyConfig) (e : Text × ℤ) (o : Dict ℤ)
    (result : List PenaltyConfig)
    → All IsWindow (w ∷ ws)
    → Distinct (e ∷ o)
    → resolve_dimension (w ∷ ws) (some (e ∷ o)) ≡ some result
    → (resolve_dimension (w ∷ ws) none ≡ some (w ∷ ws))
      × (w' : PenaltyConfig) × (result ≡ w' ∷ ws)
      × IsOverridden (e ∷ o) w w'
unfolding resolve_dimension override_first parse_windows
resolve_dimension-IsOverridden w ws e o result valid distinct done =
    elim (Option-cases (parse_window (merge (dump w) (e ∷ o)))) [
      | inl failed ↦ absurd (ground (arith, failed))
      | inr (w', parsed) ↦ (
        parse_windows-dump (w ∷ ws) valid,
        w',
        ground (arith, parsed, parse_windows-dump ws valid.1),
        parse_window-merge (e ∷ o) w w' distinct parsed,
      )
    ]
