-- ===== src/Balancer/Health.antt =====
-- The periodic health check: it recovers the reachable instances and sweeps expired pins.
use adaptive_admission_contr.Base.{
  ℕ, ◌≡◌, refl, sym, ap, ◌∙◌, ◌≢◌, Bool, true, false, not, ◌&&◌, ◌||◌, if◌then◌else◌, arith, Option,
  none, some, Bool-cases, Option-cases, inl, inr, List, [], ◌∷◌, filter, Text, ◌==◌, ==_iff, Dict,
  lookup, Distinct, keys, get_or, lookup-insert, lookup-filter_entry, keys-eq-Distinct,
  keys-eq-none,
}
use adaptive_admission_contr.Base.Float.{Float}
use adaptive_admission_contr.Balancer.{
  Balancer, contains, active_pool, is_healthy, recover, recover_each, down_urls,
  check_down_instances, is_expired, sweep_expired, pinned_instance, check_pin, choose, least_loaded,
}
use adaptive_admission_contr.Balancer.State.{IsValid}

module _ ⦃fl : Float⦄ where
  open fl use {F, lt, minus}

  recover-health :
      (u v : Text) (b : Balancer)
      → lookup v (recover u b).healthy ≡ (
          if (u == v) && not (get_or true (lookup v b.healthy))
          then some true
          else lookup v b.healthy)
  unfolding recover
  recover-health u v b = ground (arith, lookup-insert u v true b.healthy, ==_iff u v)

  recover_each-health :
      (probe : Text → Bool) (us : List Text) (v : Text) (b : Balancer)
      → lookup v (recover_each probe us b).healthy ≡ (
          if contains v us && probe v && not (get_or true (lookup v b.healthy))
          then some true
          else lookup v b.healthy)
  unfolding recover_each contains
  recover_each-health probe [] v b = refl
  recover_each-health probe (u ∷ us) v b = ground (
    arith,
    recover_each-health probe us v (if probe u then recover u b else b),
    recover-health u v b,
    ==_iff u v,
  )

  contains_absent :
      (p : Text × Bool → Bool) (d : Dict Bool) (v : Text)
      → lookup v d ≡ none
      → contains v (keys (filter p d)) ≡ false
  unfolding contains lookup
  contains_absent p [] v e = refl
  contains_absent p ((k, w) ∷ d) v e = elim (Bool-cases (p (k, w))) [
    | inl kept ↦ rw kept (ground (arith, contains_absent p d v))
    | inr dropped ↦ rw dropped (ground (arith, contains_absent p d v))
  ]

  contains-down :
      (d : Dict Bool) (v : Text) (up : Bool)
      → Distinct d
      → lookup v d ≡ some up
      → contains v (keys (filter (λ e. not e.1) d)) ≡ not up
  unfolding contains lookup
  contains-down [] v up h e = cc
  contains-down ((k, true) ∷ d) v up h e =
      ground (arith, ==_iff k v, contains_absent (λ x. not x.1) d v, contains-down d v up h.1)
  contains-down ((k, false) ∷ d) v up h e =
      ground (arith, ==_iff k v, contains_absent (λ x. not x.1) d v, contains-down d v up h.1)

  -- After a check an instance is up exactly if it was up before or accepted the connection.
  pub check_down_instances-healthy :
      (probe : Text → Bool) (b : Balancer) (v : Text) (n : ℕ)
      → IsValid b
      → lookup v b.in_flight ≡ some n
      → is_healthy (check_down_instances probe b) v ≡ is_healthy b v || probe v
  unfolding check_down_instances down_urls is_healthy
  check_down_instances-healthy probe b v n valid known = elim (Option-cases (lookup v b.healthy)) [
    | inl missing ↦
        absurd (known_none (keys-eq-none b.healthy b.in_flight v (sym valid.same_keys) missing))
    | inr (up, e) ↦ ground (
      arith,
      recover_each-health probe (down_urls b) v b,
      contains-down b.healthy v up
          (keys-eq-Distinct b.in_flight b.healthy valid.same_keys valid.distinct) e,
    )
  ]
    where
      known_none : lookup v b.in_flight ≢ none
      known_none e = cc

  active_pool-sweep : (now : F) (b : Balancer) → active_pool (sweep_expired now b) ≡ active_pool b
  unfolding active_pool sweep_expired
  active_pool-sweep now b = refl

  check_pin-sweep :
      (hint : Option ℕ) (now : F) (key : Text) (b : Balancer) (candidates : Dict ℕ)
      (p : Option (Text × F))
      → check_pin b hint now candidates (elim p [
        | none ↦ none
        | some v ↦ if not (is_expired now b (key, v)) then some v else none
      ])
        ≡ check_pin b hint now candidates p
  unfolding check_pin is_expired
  check_pin-sweep hint now key b candidates none = refl
  check_pin-sweep hint now key b candidates (some (pinned, last_used)) = ground arith

  pinned-sweep :
      (hint : Option ℕ) (now : F) (key : Text) (b : Balancer) (candidates : Dict ℕ)
      → Distinct b.sticky
      → pinned_instance (sweep_expired now b) hint now key candidates
        ≡ pinned_instance b hint now key candidates
  unfolding pinned_instance sweep_expired
  pinned-sweep hint now key b candidates d =
      ap (check_pin b hint now candidates)
        (lookup-filter_entry (λ e. not (is_expired now b e)) key b.sticky d)
      ∙ check_pin-sweep hint now key b candidates (lookup key b.sticky)

  -- Sweeping never changes which instance a request gets: the pins that it drops are the ones that
  -- the selection ignores.
  pub choose-sweep_expired :
      (hint : Option ℕ) (now : F) (key : Option Text) (b : Balancer)
      → Distinct b.sticky
      → choose hint now key (sweep_expired now b) ≡ choose hint now key b
  unfolding choose
  choose-sweep_expired hint now none b d = ap least_loaded (active_pool-sweep now b)
  choose-sweep_expired hint now (some key) b d =
      ground (arith, active_pool-sweep now b, pinned-sweep hint now key b (active_pool b) d)
