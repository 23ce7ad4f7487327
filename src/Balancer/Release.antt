-- ===== src/Balancer/Release.antt =====
-- `release` gives back what `select` reserved, and takes an unreachable instance out of rotation.
use adaptive_admission_contr.Base.{
  ℕ, ◌+◌, ◌-◌, ◌≡◌, ◌∙◌, ◌≢◌, Bool, true, false, not, ◌&&◌, arith, Option, some, Text, ◌==◌, ==_iff,
  ==_refl, lookup, Distinct, get_or, lookup-insert, insert-insert, insert-Distinct,
}
use adaptive_admission_contr.Base.Float.{Float}
use adaptive_admission_contr.Balancer.{Balancer, select, release, give_back, mark_down, is_healthy}
use adaptive_admission_contr.Balancer.Pool.{active_pool-IsPreferred}
use adaptive_admission_contr.Balancer.Select.{Reserves, select-Reserves}

module _ ⦃fl : Float⦄ where
  open fl use {F, lt, minus}

  give_back-Reserves :
      (b : Balancer) (u : Text) (b' : Balancer)
      → Reserves b u b'
      → (give_back u b').in_flight ≡ b.in_flight
  unfolding give_back
  give_back-Reserves b u b' r =
      let found = (active_pool-IsPreferred b u r.load r.offered).0 in
      let now : lookup u b'.in_flight ≡ some (r.load + 1) =
        rw (r.counted, lookup-insert u u (r.load + 1) b.in_flight, ==_refl u) in
      let back = insert-insert u (r.load + 1) r.load b.in_flight found in
      ground (arith, r.counted, back)

  pub release-counts :
      (u : Text) (failed : Bool) (now : F) (b : Balancer)
      → (release u failed now b).in_flight ≡ (give_back u b).in_flight
  unfolding release mark_down
  release-counts u failed now b = ground arith

  -- Once the request that `select` counted is released, whatever its outcome, every instance has
  -- the count of requests that it had before; and if the connection did not fail, every instance
  -- has the health that it had.
  pub release-select :
      (hint : Option ℕ) (checked_at stored_at now : F) (ip : Option Text) (failed : Bool)
      (b : Balancer) (u : Text) (b' : Balancer)
      → Distinct b.in_flight
      → select hint checked_at stored_at ip b ≡ some (u, b')
      → ((release u failed now b').in_flight ≡ b.in_flight)
        × (failed ≡ false → (release u failed now b').healthy ≡ b.healthy)
  unfolding release give_back
  release-select hint checked_at stored_at now ip failed b u b' d e =
      let r = select-Reserves hint checked_at stored_at ip b {u = u} {b' = b'} d e in
      (
        release-counts u failed now b' ∙ give_back-Reserves b u b' r,
        λ ok. ground (arith, r.same_health),
      )

  -- An unreachable instance is marked down, and no other instance is.
  pub release-failed :
      (u v : Text) (now : F) (b : Balancer)
      → is_healthy (release u true now b) v ≡ not (u == v) && is_healthy b v
  unfolding release give_back mark_down is_healthy
  release-failed u v now b = ground (arith, lookup-insert u v false b.healthy, ==_iff u v)

  pub give_back-Distinct :
      (u : Text) (b : Balancer) → Distinct b.in_flight → Distinct (give_back u b).in_flight
  unfolding give_back
  give_back-Distinct u b d =
      ground (arith, insert-Distinct u (get_or 0 (lookup u b.in_flight) - 1) b.in_flight d)

  give_back-others :
      (u v : Text) (b : Balancer)
      → u ≢ v
      → lookup v (give_back u b).in_flight ≡ lookup v b.in_flight
  unfolding give_back
  give_back-others u v b other =
      ground
        (arith, ==_iff u v, lookup-insert u v (get_or 0 (lookup u b.in_flight) - 1) b.in_flight)

  -- The selection that follows right upon the release of a failed connection to an instance `u` does
  -- not choose `u`, if another instance `v` was up.
  pub select-release_failed :
      (hint : Option ℕ) (checked_at stored_at now : F) (ip : Option Text) (b : Balancer)
      (u v w : Text) (m : ℕ) (b' : Balancer)
      → Distinct b.in_flight
      → lookup v b.in_flight ≡ some m
      → is_healthy b v ≡ true
      → u ≢ v
      → select hint checked_at stored_at ip (release u true now b) ≡ some (w, b')
      → w ≢ u
  select-release_failed hint checked_at stored_at now ip b u v w m b' d known up other e same =
      let down = release u true now b in
      let distinct : Distinct down.in_flight =
        rw (release-counts u true now b) (give_back-Distinct u b d) in
      let still : lookup v down.in_flight ≡ some m =
        rw (release-counts u true now b, give_back-others u v b other) known in
      let r = select-Reserves hint checked_at stored_at ip down {u = w} {b' = b'} distinct e in
      let best = (active_pool-IsPreferred down w r.load r.offered).1 in
      ground (
        arith,
        release-failed u v now b,
        release-failed u w now b,
        λ (p : is_healthy down w ≡ false). best.all_down p v m still,
        ==_iff u v,
        ==_iff u w,
      )
