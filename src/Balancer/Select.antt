-- ===== src/Balancer/Select.antt =====
-- What `select` returns and what it changes.
use adaptive_admission_contr.Base.{
  ℕ, ◌+◌, ◌≡◌, refl, sym, subst, inl, inr, ◌≢◌, if◌then◌else◌, arith, Option, none, some,
  Option-cases, [], Text, ◌==◌, Dict, lookup, insert, Distinct, get_or, lookup-insert,
  insert-Distinct,
}
use adaptive_admission_contr.Base.Float.{Float}
use adaptive_admission_contr.Balancer.{
  Balancer, active_pool, is_candidate, check_pin, pinned_instance, choose, admit, sticky_key,
  select,
}
use adaptive_admission_contr.Balancer.Pool.{
  IsPreferred, active_pool-IsPreferred, active_pool-Distinct, active_pool-nonempty, Least,
  least_loaded-Least, least_loaded-some,
}

module _ ⦃fl : Float⦄ where
  open fl use {F, lt, minus}

  -- `b'` is `b` with one more request on `u`, an instance that the pool offers.
  pub record Reserves (b : Balancer) (u : Text) (b' : Balancer) : Type 0 where
    pub load : ℕ
    pub offered : lookup u (active_pool b) ≡ some load
    pub counted : b'.in_flight ≡ insert u (load + 1) b.in_flight
    pub same_health : b'.healthy ≡ b.healthy
    pub same_marks : b'.marked_down_since ≡ b.marked_down_since
    pub same_backups : b'.backup_urls ≡ b.backup_urls
    pub kept_distinct : Distinct b.sticky → Distinct b'.sticky

  admit-Reserves :
      (b : Balancer) (key : Option Text) (now : F) (u : Text) (n : ℕ)
      → lookup u (active_pool b) ≡ some n
      → Reserves b u (admit key now u b)
  unfolding admit
  admit-Reserves b none now u n h =
      let found = (active_pool-IsPreferred b u n h).0 in
      record {
        load = n;
        offered = h;
        counted = rw found;
        same_health = refl;
        same_marks = refl;
        same_backups = refl;
        kept_distinct = λ d. d;
      }
  admit-Reserves b (some key) now u n h =
      let found = (active_pool-IsPreferred b u n h).0 in
      record {
        load = n;
        offered = h;
        counted = rw found;
        same_health = refl;
        same_marks = refl;
        same_backups = refl;
        kept_distinct = insert-Distinct key (u, now) b.sticky;
      }

  -- A live pin is an instance of the pool, not yet expired.
  check_pin-lem :
      (b : Balancer) (hint : Option ℕ) (now : F) (candidates : Dict ℕ) (p : Option (Text × F))
      (u : Text)
      → check_pin b hint now candidates p ≡ some u
      → (n : ℕ) × (lookup u candidates ≡ some n)
  unfolding check_pin is_candidate
  check_pin-lem b hint now candidates none u e = cc
  check_pin-lem b hint now candidates (some (pinned, last_used)) u e =
      elim (Option-cases (lookup u candidates)) [ inl missing ↦ ground arith | inr found ↦ found ]

  choose-offered :
      (hint : Option ℕ) (now : F) (key : Option Text) (b : Balancer) (u : Text)
      → Distinct b.in_flight
      → choose hint now key b ≡ some u
      → (n : ℕ) × (lookup u (active_pool b) ≡ some n)
  unfolding choose
  choose-offered hint now none b u d e =
      let l = least_loaded-Least (active_pool b) u (active_pool-Distinct b d) e in (l.0, l.1)
  choose-offered hint now (some key) b u d e =
      elim (Option-cases (pinned_instance b hint now key (active_pool b))) [
        | inl fresh ↦
            let l =
              least_loaded-Least (active_pool b) u (active_pool-Distinct b d) (ground arith) in
            (l.0, l.1)
        | inr (p, pinned) ↦
            unfold pinned_instance in
            check_pin-lem b hint now (active_pool b) (lookup key b.sticky) u (ground arith)
      ]

  pub select-inv :
      (hint : Option ℕ) (checked_at stored_at : F) (ip : Option Text) (b : Balancer) {u : Text}
      {b' : Balancer}
      → select hint checked_at stored_at ip b ≡ some (u, b')
      → (choose hint checked_at (sticky_key b ip) b ≡ some u)
        × (b' ≡ admit (sticky_key b ip) stored_at u b)
  unfolding select
  select-inv hint checked_at stored_at ip b e = ground arith

  pub select-Reserves :
      (hint : Option ℕ) (checked_at stored_at : F) (ip : Option Text) (b : Balancer) {u : Text}
      {b' : Balancer}
      → Distinct b.in_flight
      → select hint checked_at stored_at ip b ≡ some (u, b')
      → Reserves b u b'
  select-Reserves hint checked_at stored_at ip b {u} {b'} d e =
      let (chosen, state) = select-inv hint checked_at stored_at ip b e in
      let (n, offered) = choose-offered hint checked_at (sticky_key b ip) b u d chosen in
      subst (Reserves b u) (sym state) (admit-Reserves b (sticky_key b ip) stored_at u n offered)

  -- With a pin that is no longer live, or with none, an instance of least load is taken.
  choose-Least :
      (hint : Option ℕ) (now : F) (ip : Text) (b : Balancer) (u : Text)
      → Distinct b.in_flight
      → pinned_instance b hint now ip (active_pool b) ≡ none
      → choose hint now (some ip) b ≡ some u
      → Least u (active_pool b)
  unfolding choose
  choose-Least hint now ip b u d fresh e =
      least_loaded-Least (active_pool b) u (active_pool-Distinct b d) (ground arith)

  choose-some :
      (hint : Option ℕ) (now : F) (key : Option Text) (b : Balancer)
      → b.in_flight ≢ []
      → (u : Text) × (choose hint now key b ≡ some u)
  unfolding choose
  choose-some hint now none b h = least_loaded-some (active_pool b) (active_pool-nonempty b h)
  choose-some hint now (some key) b h =
      elim (Option-cases (pinned_instance b hint now key (active_pool b))) [
        | inl fresh ↦
            let (u, e) = least_loaded-some (active_pool b) (active_pool-nonempty b h) in
            (u, rw (fresh, choose) e)
        | inr (p, pinned) ↦ (p, rw (pinned, choose))
      ]

  select-some :
      (hint : Option ℕ) (checked_at stored_at : F) (ip : Option Text) (b : Balancer)
      → b.in_flight ≢ []
      → (u : Text) × (b' : Balancer) × (select hint checked_at stored_at ip b ≡ some (u, b'))
  unfolding select
  select-some hint checked_at stored_at ip b h =
      let (u, e) = choose-some hint checked_at (sticky_key b ip) b h in
      (u, admit (sticky_key b ip) stored_at u b, rw (e, select))

  -- With at least one instance configured, `select` returns one. It is the only one whose count of
  -- requests changes, by one more; it is down only if all instances are down, and a backup only if
  -- all primaries are down.
  pub select-reserves-IsPreferred :
      (hint : Option ℕ) (checked_at stored_at : F) (ip : Option Text) (b : Balancer)
      → Distinct b.in_flight
      → b.in_flight ≢ []
      → (u : Text) × (b' : Balancer) × (select hint checked_at stored_at ip b ≡ some (u, b'))
        × IsPreferred b u
        × ((v : Text)
            → lookup v b'.in_flight ≡ (
                if u == v
                then some (get_or 0 (lookup u b.in_flight) + 1)
                else lookup v b.in_flight))
  select-reserves-IsPreferred hint checked_at stored_at ip b d h =
      let (u, b', e) = select-some hint checked_at stored_at ip b h in
      let r = select-Reserves hint checked_at stored_at ip b {u = u} {b' = b'} d e in
      let (found, best) = active_pool-IsPreferred b u r.load r.offered in
      (u, b', e, best, λ v. rw (r.counted, found) (lookup-insert u v (r.load + 1) b.in_flight))
