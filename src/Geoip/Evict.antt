-- ===== src/Geoip/Evict.antt =====
-- Which entry leaves a full cache.
use adaptive_admission_contr.Base.{
  ◌≡◌, ◌≢◌, refl, sym, subst, ◌∙◌, ◌⊎◌, inl, inr, false, some, [], ◌∷◌, Text, ◌==◌, ==_iff,
  Distinct, arith, Bool-cases, lookup, delete,
}
use adaptive_admission_contr.Base.Float.{Float, IsOrdered}
use adaptive_admission_contr.Geoip.{Place, Cache, older, oldest_from, evict_oldest}

module _ ⦃fl : Float⦄ where
  open fl use {F, lt}

  older-cases : (x y : Text × F) → (older x y ≡ x) ⊎ (older x y ≡ y)
  unfolding older
  older-cases x y = elim (Bool-cases (lt y.1 x.1)) [
    | inl yes_older ↦ inr (rw (yes_older, older) refl)
    | inr not_older ↦ inl (rw (not_older, older) refl)
  ]

  older-least :
      (o : IsOrdered fl) (x y : Text × F)
      → (lt x.1 (older x y).1 ≡ false) × (lt y.1 (older x y).1 ≡ false)
  unfolding older
  older-least o x y = elim (Bool-cases (lt y.1 x.1)) [
    | inl yes_older ↦
        rw (yes_older, older)
          (
            elim (Bool-cases (lt x.1 y.1)) [
              | inl both ↦
                  absurd (ground (arith, o.lt_trans x.1 y.1 x.1 both yes_older, o.lt_irrefl x.1))
              | inr fine ↦ fine
            ],
            o.lt_irrefl y.1,
          )
    | inr not_older ↦ rw (not_older, older) (o.lt_irrefl x.1, not_older)
  ]

  lookup-head :
      (ip : Text) (p : Place) (t : F) (c : Cache) (m : Text × F)
      → m ≡ (ip, t)
      → lookup m.0 ((ip, (p, t)) ∷ c) ≡ some (p, m.1)
  unfolding lookup
  lookup-head ip p t c m e =
      let here : lookup ip ((ip, (p, t)) ∷ c) ≡ some (p, t) = ground (arith, ==_iff ip ip) in
      subst (λ n. lookup n.0 ((ip, (p, t)) ∷ c) ≡ some (p, n.1)) (sym e) here

  -- `oldest_from x c` is `x` or an entry of `c`.
  oldest_from-known :
      (x : Text × F) (c : Cache)
      → Distinct c
      → (oldest_from x c ≡ x)
        ⊎ ((p : Place) × (lookup (oldest_from x c).0 c ≡ some (p, (oldest_from x c).1)))
  unfolding oldest_from lookup
  oldest_from-known x [] d = inl refl
  oldest_from-known x ((ip, (p, t)) ∷ c) d =
      let z = older x (ip, t) in
      elim (oldest_from-known z c d.1) [
        | inl same ↦ elim (older-cases x (ip, t)) [
          | inl x_older ↦ inl (same ∙ x_older)
          | inr y_older ↦ inr (p, lookup-head ip p t c _ (same ∙ y_older))
        ]
        | inr (q, found) ↦ inr (q, ground (arith, found, d.0, ==_iff ip (oldest_from z c).0))
      ]

  pub oldest_from-least :
      (o : IsOrdered fl) (x : Text × F) (c : Cache)
      → Distinct c
      → (lt x.1 (oldest_from x c).1 ≡ false)
        × ((ip : Text) (p : Place) (t : F)
            → lookup ip c ≡ some (p, t)
            → lt t (oldest_from x c).1 ≡ false)
  unfolding oldest_from lookup
  oldest_from-least o x [] d = (o.lt_irrefl x.1, λ ip p t h. cc)
  oldest_from-least o x ((i, (q, s)) ∷ c) d =
      let z = older x (i, s) in
      let (first, rest) = oldest_from-least o z c d.1 in
      let (below, below') = older-least o x (i, s) in
      (
        o.le_trans _ z.1 x.1 first below,
        λ ip p t h. elim (Bool-cases (i == ip)) [
          | inl head ↦ ground (arith, o.le_trans (oldest_from z c).1 z.1 s first below', head, h)
          | inr tail ↦ rest ip p t (ground (arith, tail, h))
        ],
      )

  -- What leaves the cache is an entry that no other one is older than.
  pub evict_oldest-lem :
      (o : IsOrdered fl) (c : Cache)
      → Distinct c
      → c ≢ []
      → (ip : Text) × (p : Place) × (t : F) × (evict_oldest c ≡ delete ip c)
        × (lookup ip c ≡ some (p, t))
        × ((k : Text) (q : Place) (s : F) → lookup k c ≡ some (q, s) → lt s t ≡ false)
  unfolding evict_oldest lookup
  evict_oldest-lem o [] d full = absurd (full refl)
  evict_oldest-lem o ((i, (p, t)) ∷ c) d full =
      let m = oldest_from (i, t) c in
      let (first, rest) = oldest_from-least o (i, t) c d.1 in
      let least : (k : Text) (q : Place) (s : F)
          → lookup k ((i, (p, t)) ∷ c) ≡ some (q, s)
          → lt s m.1 ≡ false =
        λ k q s h. elim (Bool-cases (i == k)) [
          | inl head ↦ ground (arith, first, head, h)
          | inr tail ↦ rest k q s (ground (arith, tail, h))
        ] in
      elim (oldest_from-known (i, t) c d.1) [
        | inl same ↦ (m.0, p, m.1, refl, lookup-head i p t c m same, least)
        | inr (q, found) ↦ (m.0, q, m.1, refl, ground (arith, found, d.0, ==_iff i m.0), least)
      ]
