-- ===== src/Balancer/Pool.antt =====
-- Which instances `_active_pool` offers, and which of them `min` picks.
use adaptive_admission_contr.Base.{
  ℕ, ◌≤◌, ◌≡◌, refl, subst, ◌⊎◌, inl, inr, ◌≢◌, Bool, true, false, not, ◌&&◌, arith, some, List, [],
  ◌∷◌, filter, or_else, Text, ==_iff, Dict, lookup, Distinct, lookup-filter, filter-Distinct,
}
use adaptive_admission_contr.Base.Float.{Float}
use adaptive_admission_contr.Balancer.{
  Balancer, contains, is_healthy, is_primary_up, is_backup_up, active_pool, min_from, least_loaded,
}

or_else-cases {ℓ} :
    {A : Type ℓ} (xs ys zs : List A)
    → (or_else xs (or_else ys zs) ≡ xs)
      ⊎ ((xs ≡ []) × (or_else xs (or_else ys zs) ≡ ys))
      ⊎ ((xs ≡ []) × (ys ≡ []) × (or_else xs (or_else ys zs) ≡ zs))
or_else-cases [] [] zs = inr (inr (refl, refl, refl))
or_else-cases [] (y ∷ ys) zs = inr (inl (refl, refl))
or_else-cases (x ∷ xs) ys zs = inl refl

or_else-nonempty {ℓ} : {A : Type ℓ} (xs ys zs : List A) → zs ≢ [] → or_else xs (or_else ys zs) ≢ []
or_else-nonempty [] [] zs h = h
or_else-nonempty [] (y ∷ ys) zs h = λ e. cc
or_else-nonempty (x ∷ xs) ys zs h = λ e. cc

-- A filter on keys that keeps nothing fails every key.
filter_empty {ℓ} :
    {V : Type ℓ} (p : Text × V → Bool) (q : Text → Bool) (d : Dict V)
    → ((k : Text) (v : V) → p (k, v) ≡ q k)
    → filter p d ≡ []
    → (k : Text) (v : V) → lookup k d ≡ some v
    → q k ≡ false
unfolding lookup
filter_empty p q d h e k v found = ground (arith, lookup-filter p q k d h, e)

min_from-le :
    (best : Text × ℕ) (d : Dict ℕ) (v : Text) (m : ℕ)
    → lookup v (best ∷ d) ≡ some m
    → (min_from best d).1 ≤ m
unfolding min_from lookup
min_from-le best [] v m h = ground arith
min_from-le best (e ∷ d) v m h = ground (
  arith,
  min_from-le best d v m,
  min_from-le e d v m,
  min_from-le best d best.0 best.1,
  min_from-le e d e.0 e.1,
  ==_iff best.0 best.0,
  ==_iff e.0 e.0,
  ==_iff best.0 v,
  ==_iff e.0 v,
)

min_from-entry :
    (best : Text × ℕ) (d : Dict ℕ)
    → Distinct (best ∷ d)
    → lookup (min_from best d).0 (best ∷ d) ≡ some (min_from best d).1
unfolding min_from lookup
min_from-entry best [] h = ground (arith, ==_iff best.0 best.0)
min_from-entry best (e ∷ d) h = ground (
  arith,
  min_from-entry best d,
  min_from-entry e d,
  ==_iff best.0 e.0,
  ==_iff e.0 best.0,
  ==_iff best.0 (min_from best d).0,
  ==_iff best.0 (min_from e d).0,
  ==_iff e.0 (min_from best d).0,
  ==_iff e.0 (min_from e d).0,
)

-- `u` is an entry of least load.
abbrev pub Least : Text → Dict ℕ → Type 0
Least u d = (n : ℕ) × (lookup u d ≡ some n) × ((v : Text) (m : ℕ) → lookup v d ≡ some m → n ≤ m)

pub least_loaded-Least : (d : Dict ℕ) (u : Text) → Distinct d → least_loaded d ≡ some u → Least u d
unfolding least_loaded
least_loaded-Least [] u h e = cc
least_loaded-Least (x ∷ d) u h e =
    let r = min_from x d in
    let named : r.0 ≡ u = ground arith in
    (r.1, subst (λ w. lookup w (x ∷ d) ≡ some r.1) named (min_from-entry x d h), min_from-le x d)

module _ ⦃fl : Float⦄ (b : Balancer) where
  -- The reason why `u` may serve: an instance that is down only when all are down, and a backup
  -- only when all primaries are down.
  pub record IsPreferred (u : Text) : Type 0 where
    pub all_down :
        is_healthy b u ≡ false
        → (v : Text) (m : ℕ) → lookup v b.in_flight ≡ some m
        → is_healthy b v ≡ false
    pub primaries_down :
        contains u b.backup_urls ≡ true
        → (v : Text) (m : ℕ) → lookup v b.in_flight ≡ some m
        → contains v b.backup_urls ≡ false
        → is_healthy b v ≡ false

  abbrev up_primary : Text → Bool
  up_primary u = not (contains u b.backup_urls) && is_healthy b u

  abbrev up_backup : Text → Bool
  up_backup u = contains u b.backup_urls && is_healthy b u

  primary-eq : (k : Text) (v : ℕ) → is_primary_up b (k, v) ≡ up_primary k
  unfolding is_primary_up
  primary-eq k v = refl

  backup-eq : (k : Text) (v : ℕ) → is_backup_up b (k, v) ≡ up_backup k
  unfolding is_backup_up
  backup-eq k v = refl

  abbrev primaries : Dict ℕ
  primaries = filter (is_primary_up b) b.in_flight

  abbrev backups : Dict ℕ
  backups = filter (is_backup_up b) b.in_flight

  -- No healthy instance of a tier, by the keys.
  primaries_empty :
      primaries ≡ [] → (v : Text) (m : ℕ) → lookup v b.in_flight ≡ some m → up_primary v ≡ false
  primaries_empty = filter_empty (is_primary_up b) up_primary b.in_flight primary-eq

  backups_empty :
      backups ≡ [] → (v : Text) (m : ℕ) → lookup v b.in_flight ≡ some m → up_backup v ≡ false
  backups_empty = filter_empty (is_backup_up b) up_backup b.in_flight backup-eq

  in_primaries :
      (u : Text) (n : ℕ)
      → lookup u primaries ≡ some n
      → (up_primary u ≡ true) × (lookup u b.in_flight ≡ some n)
  in_primaries u n h =
      ground (arith, lookup-filter (is_primary_up b) up_primary u b.in_flight primary-eq)

  in_backups :
      (u : Text) (n : ℕ)
      → lookup u backups ≡ some n
      → (up_backup u ≡ true) × (lookup u b.in_flight ≡ some n)
  in_backups u n h =
      ground (arith, lookup-filter (is_backup_up b) up_backup u b.in_flight backup-eq)

  -- Whatever the pool offers is an instance with its own load, and is preferred.
  pub active_pool-IsPreferred :
      (u : Text) (n : ℕ)
      → lookup u (active_pool b) ≡ some n
      → (lookup u b.in_flight ≡ some n) × IsPreferred u
  unfolding active_pool
  active_pool-IsPreferred u n h = elim (or_else-cases primaries backups b.in_flight) [
    | inl e ↦
        let (up, found) = in_primaries u n (rw e at h) in
        (
          found,
          record {
            all_down = λ down v m known. ground arith;
            primaries_down = λ back v m known primary. ground arith;
          },
        )
    | inr (inl (none_up, e)) ↦
        let (up, found) = in_backups u n (rw e at h) in
        (
          found,
          record {
            all_down = λ down v m known. ground arith;
            primaries_down =
                λ back v m known primary. ground (arith, primaries_empty none_up v m known);
          },
        )
    | inr (inr (none_up, no_backup, e)) ↦ (
      rw e at h,
      record {
        all_down = λ down v m known.
            ground (arith, primaries_empty none_up v m known, backups_empty no_backup v m known);
        primaries_down =
            λ back v m known primary. ground (arith, primaries_empty none_up v m known);
      },
    )
  ]

  pub active_pool-Distinct : Distinct b.in_flight → Distinct (active_pool b)
  unfolding active_pool
  active_pool-Distinct h = elim (or_else-cases primaries backups b.in_flight) [
    | inl e ↦ rw e (filter-Distinct (is_primary_up b) b.in_flight h)
    | inr (inl (_, e)) ↦ rw e (filter-Distinct (is_backup_up b) b.in_flight h)
    | inr (inr (_, _, e)) ↦ rw e h
  ]

  -- The pool offers something as long as there is an instance.
  pub active_pool-nonempty : b.in_flight ≢ [] → active_pool b ≢ []
  unfolding active_pool
  active_pool-nonempty = or_else-nonempty primaries backups b.in_flight

pub least_loaded-some : (d : Dict ℕ) → d ≢ [] → (u : Text) × (least_loaded d ≡ some u)
unfolding least_loaded
least_loaded-some [] h = absurd (h refl)
least_loaded-some (x ∷ d) h = ((min_from x d).0, refl)
