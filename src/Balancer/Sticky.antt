-- ===== src/Balancer/Sticky.antt =====
-- Sticky sessions: a client stays with its instance, and leaves it for a less loaded one.
use adaptive_admission_contr.Base.{
  ℕ, ◌+◌, ◌≤◌, ◌<◌, ◌≡◌, refl, sym, ap, ap₂, ◌∙◌, Bool, true, false, not, ◌&&◌, ltb, arith, Option,
  some, Bool-cases, Option-cases, inl, inr, List, [], ◌∷◌, filter, or_else, any, length, Text, ◌==◌,
  ==_iff, ==_refl, Dict, lookup, Distinct, keys, lookup-insert, keys-insert, keys-eq-none,
}
use adaptive_admission_contr.Base.Float.{Float}
use adaptive_admission_contr.Balancer.{
  Balancer, contains, active_pool, is_healthy, is_primary_up, is_backup_up, pinned_instance,
  check_pin, choose, is_candidate, select, sticky_key, should_evict_pin, evict_at, fair_share,
  least_loaded, admit,
}
use adaptive_admission_contr.Balancer.Pool.{active_pool-IsPreferred, least_loaded-Least}
use adaptive_admission_contr.Balancer.Select.{Reserves, select-Reserves, select-inv}

any-load :
    (share : ℕ) (pinned : Text) (d : Dict ℕ)
    → Distinct d
    → any (λ e. not (e.0 == pinned) && ltb e.1 share) d ≡ true
    → (v : Text) × (m : ℕ) × (lookup v d ≡ some m) × (m < share)
unfolding lookup
any-load share pinned [] h e = cc
any-load share pinned ((k, n) ∷ d) h e = elim (Bool-cases (not (k == pinned) && ltb n share)) [
  | inl here ↦ (k, n, ground (arith, ==_iff k k), ground arith)
  | inr there ↦
      let (v, m, found, below) = any-load share pinned d h.1 (rw there at e) in
      (v, m, ground (arith, ==_iff k v), below)
]

keys-or_else : (xs ys : Dict ℕ) → keys (or_else xs ys) ≡ or_else (keys xs) (keys ys)
keys-or_else [] ys = refl
keys-or_else (x ∷ xs) ys = refl

keys-filter : (q : Text → Bool) (d : Dict ℕ) → keys (filter (λ e. q e.0) d) ≡ filter q (keys d)
keys-filter q [] = refl
keys-filter q ((k, n) ∷ d) = elim (Bool-cases (q k)) [
  | inl kept ↦ rw kept (ap (◌∷◌ k) (keys-filter q d))
  | inr dropped ↦ rw dropped (keys-filter q d)
]

module _ ⦃fl : Float⦄ where
  open fl use {F, lt, minus}

  -- A client that loses a live pin because its instance has reached its fair share of the capacity
  -- moves to an instance with strictly fewer requests, below that share.
  pub should_evict_pin-moves :
      (hint n : ℕ) (pinned u : Text) (d : Dict ℕ)
      → Distinct d
      → lookup pinned d ≡ some n
      → should_evict_pin (some hint) pinned d ≡ true
      → least_loaded d ≡ some u
      → (m : ℕ) × (lookup u d ≡ some m)
        × (m < fair_share hint (length d))
        × (fair_share hint (length d) ≤ n)
  unfolding should_evict_pin evict_at
  should_evict_pin-moves hint n pinned u d h known evict least =
      let share = fair_share hint (length d) in
      let (v, m, found, below) = any-load share pinned d h (ground arith) in
      let (load, at_u, lowest) = least_loaded-Least d u h least in
      (load, at_u, omega (arith, lowest v m found), ground arith)

  -- The keys of the pool are determined by the keys, the health and the tiers alone.
  pool_keys : Balancer → List Text → List Text
  pool_keys b ks =
      or_else (filter (λ u. not (contains u b.backup_urls) && is_healthy b u) ks)
        (or_else (filter (λ u. contains u b.backup_urls && is_healthy b u) ks) ks)

  keys-active_pool : (b : Balancer) → keys (active_pool b) ≡ pool_keys b (keys b.in_flight)
  unfolding active_pool pool_keys is_primary_up is_backup_up
  keys-active_pool b =
      keys-or_else _ _
      ∙ ap₂ or_else (keys-filter _ b.in_flight)
          (keys-or_else _ _ ∙ ap (λ ks. or_else ks (keys b.in_flight)) (keys-filter _ b.in_flight))

  pool_keys-same :
      (b b' : Balancer) (ks : List Text)
      → b'.healthy ≡ b.healthy
      → b'.backup_urls ≡ b.backup_urls
      → pool_keys b' ks ≡ pool_keys b ks
  unfolding pool_keys is_healthy
  pool_keys-same b b' ks health backups = simp (health, backups)

  -- The pool offers the same instances after a selection.
  keys-active_pool_reserved :
      (b b' : Balancer) (u : Text) → Reserves b u b' → keys (active_pool b') ≡ keys (active_pool b)
  keys-active_pool_reserved b b' u r =
      let found = (active_pool-IsPreferred b u r.load r.offered).0 in
      let same : keys b'.in_flight ≡ keys b.in_flight =
        rw r.counted (keys-insert u (r.load + 1) b.in_flight found) in
      keys-active_pool b'
      ∙ ap (pool_keys b') same
      ∙ pool_keys-same b b' (keys b.in_flight) r.same_health r.same_backups
      ∙ sym (keys-active_pool b)

  is_candidate_reserved :
      (b b' : Balancer) (u : Text) → Reserves b u b' → is_candidate u (active_pool b') ≡ true
  unfolding is_candidate
  is_candidate_reserved b b' u r = elim (Option-cases (lookup u (active_pool b'))) [
    | inl missing ↦
        let gone =
          keys-eq-none (active_pool b') (active_pool b) u (keys-active_pool_reserved b b' u r)
            missing in
        cc (gone, r.offered)
    | inr (n, found) ↦ rw (found, is_candidate)
  ]

  pinned-live :
      (hint : Option ℕ) (now stored_at : F) (ip u : Text) (b : Balancer)
      → lookup ip b.sticky ≡ some (u, stored_at)
      → lt b.sticky_ttl_seconds (minus now stored_at) ≡ false
      → is_candidate u (active_pool b) ≡ true
      → should_evict_pin hint u (active_pool b) ≡ false
      → pinned_instance b hint now ip (active_pool b) ≡ some u
  unfolding pinned_instance check_pin
  pinned-live hint now stored_at ip u b pinned fresh offered stays = ground arith

  choose-pinned :
      (hint : Option ℕ) (now : F) (ip u : Text) (b : Balancer)
      → pinned_instance b hint now ip (active_pool b) ≡ some u
      → choose hint now (some ip) b ≡ some u
  unfolding choose
  choose-pinned hint now ip u b e = ground arith

  select-chosen :
      (hint : Option ℕ) (checked_at stored_at : F) (ip u : Text) (b : Balancer)
      → b.sticky_enabled ≡ true
      → choose hint checked_at (some ip) b ≡ some u
      → select hint checked_at stored_at (some ip) b ≡ some (u, admit (some ip) stored_at u b)
  unfolding select sticky_key
  select-chosen hint checked_at stored_at ip u b on e = ground arith

  sticky_key-on :
      (b : Balancer) (ip : Text) → b.sticky_enabled ≡ true → sticky_key b (some ip) ≡ some ip
  unfolding sticky_key
  sticky_key-on b ip on = ground arith

  lookup-admit :
      (ip u : Text) (now : F) (b : Balancer)
      → lookup ip (admit (some ip) now u b).sticky ≡ some (u, now)
  unfolding admit
  lookup-admit ip u now b = rw (lookup-insert ip ip (u, now) b.sticky, ==_refl ip)

  admit-settings :
      (ip u : Text) (now : F) (b : Balancer)
      → ((admit (some ip) now u b).sticky_enabled ≡ b.sticky_enabled)
        × ((admit (some ip) now u b).sticky_ttl_seconds ≡ b.sticky_ttl_seconds)
  unfolding admit
  admit-settings ip u now b = (refl, refl)

  -- With sticky sessions on, of two selections for one client with nothing in between, the second
  -- chooses the instance that the first did, if the pin has not expired and is not to be evicted for
  -- the load of that instance.
  pub select-sticky :
      (hint hint' : Option ℕ) (checked_at stored_at checked_at' stored_at' : F) (ip u : Text)
      (b b' : Balancer)
      → Distinct b.in_flight
      → b.sticky_enabled ≡ true
      → select hint checked_at stored_at (some ip) b ≡ some (u, b')
      → lt b.sticky_ttl_seconds (minus checked_at' stored_at) ≡ false
      → should_evict_pin hint' u (active_pool b') ≡ false
      → (b'' : Balancer) × (select hint' checked_at' stored_at' (some ip) b' ≡ some (u, b''))
  select-sticky hint hint' checked_at stored_at checked_at' stored_at' ip u b b' d on e fresh
        stays =
      let r = select-Reserves hint checked_at stored_at (some ip) b {u = u} {b' = b'} d e in
      let state : b' ≡ admit (some ip) stored_at u b =
        (select-inv hint checked_at stored_at (some ip) b {u = u} {b' = b'} e).1
        ∙ ap (λ k. admit k stored_at u b) (sticky_key-on b ip on) in
      let (same_on, same_ttl) = admit-settings ip u stored_at b in
      let pinned =
        pinned-live hint' checked_at' stored_at ip u b' (rw state (lookup-admit ip u stored_at b))
          (ap (λ s. lt s.sticky_ttl_seconds (minus checked_at' stored_at)) state
            ∙ ap (λ t. lt t (minus checked_at' stored_at)) same_ttl
            ∙ fresh)
          (is_candidate_reserved b b' u r) stays in
      let on' : b'.sticky_enabled ≡ true = ap (λ s. s.sticky_enabled) state ∙ same_on ∙ on in
      (
        admit (some ip) stored_at' u b',
        select-chosen hint' checked_at' stored_at' ip u b' on'
            (choose-pinned hint' checked_at' ip u b' pinned),
      )
