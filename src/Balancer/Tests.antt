-- ===== src/Balancer/Tests.antt =====
-- A fleet of two primaries and a backup, on which the methods run.
use adaptive_admission_contr.Base.{
  ℕ, ◌+◌, ◌≡◌, refl, ◌≢◌, Bool, true, false, if◌then◌else◌, arith, none, some, [], ◌∷◌, Text, codes,
  ◌==◌, lookup, insert, delete, from_keys, Dict, get_or,
}
use adaptive_admission_contr.Base.Float.{Float, fixed_point}
use adaptive_admission_contr.Balancer.{
  SplitUrl, Balancer, init, select, release, admit, is_healthy, should_evict_pin,
  check_down_instances, recover, sweep_expired, snapshot, parse_hostport,
}
use adaptive_admission_contr.Balancer.Pool.{IsPreferred}
use adaptive_admission_contr.Balancer.Select.{select-reserves-IsPreferred}
use adaptive_admission_contr.Balancer.Release.{release-select, select-release_failed}
use adaptive_admission_contr.Balancer.State.{
  IsValid, here, next, recovering, releasing, Reach-init-IsValid,
}
use adaptive_admission_contr.Balancer.Sticky.{select-sticky}

instance abbrev clock : Float
clock = fixed_point

abbrev host_a : Text
host_a = codes "a"

abbrev host_b : Text
host_b = codes "b"

abbrev host_c : Text
host_c = codes "c"

abbrev client : Text
client = codes "ip"

abbrev split : Text → SplitUrl
split u = record { scheme = codes "http"; hostname = u; port = none }

abbrev fleet : Balancer
unfolding init
fleet = init split (host_a ∷ host_b ∷ []) (host_c ∷ []) true 300000

-- The client is served by the first primary.
abbrev served : Balancer
served = admit (some client) 1000 host_a fleet

fleet-IsValid : IsValid fleet
unfolding fleet
fleet-IsValid =
    Reach-init-IsValid split (host_a ∷ host_b ∷ []) (host_c ∷ []) true 300000 (λ e. cc) here

program : Unit {0}
unfolding select release check_down_instances sweep_expired snapshot should_evict_pin lookup insert
    delete ◌==◌ from_keys init
program = tt

select_first : select none 0 1000 (some client) fleet ≡ some (host_a, served)
unfolding program
select_first = refl

port_default : parse_hostport (split host_a) ≡ (host_a, 80)
unfolding parse_hostport ◌==◌
port_default = refl

Reach-init-IsValid_example : IsValid (recover host_a (release host_a true 5 fleet))
unfolding fleet
Reach-init-IsValid_example =
    Reach-init-IsValid split (host_a ∷ host_b ∷ []) (host_c ∷ []) true 300000 (λ e. cc)
      (next (next here (releasing host_a true 5)) (recovering host_a))

select-reserves-IsPreferred_example :
    (u : Text) × (b' : Balancer) × (select none 0 1000 (some client) fleet ≡ some (u, b'))
    × IsPreferred fleet u
    × ((v : Text)
        → lookup v b'.in_flight ≡ (
            if u == v
            then some (get_or 0 (lookup u fleet.in_flight) + 1)
            else lookup v fleet.in_flight))
select-reserves-IsPreferred_example =
    select-reserves-IsPreferred none 0 1000 (some client) fleet fleet-IsValid.distinct
      fleet-IsValid.nonempty

release-select_example :
    ((release host_a true 5 served).in_flight ≡ fleet.in_flight)
    × (◌≡◌ {A = Bool} true false → (release host_a true 5 served).healthy ≡ fleet.healthy)
release-select_example =
    release-select none 0 1000 5 (some client) true fleet host_a served fleet-IsValid.distinct
      select_first

-- The first primary has refused a connection, so the second one serves.
abbrev after_failure : Balancer
after_failure = admit (some client) 1000 host_b (release host_a true 5 fleet)

select_other :
    select none 0 1000 (some client) (release host_a true 5 fleet) ≡ some (host_b, after_failure)
unfolding program
select_other = refl

b_known : lookup host_b fleet.in_flight ≡ some 0
unfolding program
b_known = refl

b_up : is_healthy fleet host_b ≡ true
unfolding program
b_up = refl

select-release_failed_example : host_b ≢ host_a
select-release_failed_example =
    select-release_failed none 0 1000 5 (some client) fleet host_a host_b host_b 0 after_failure
      fleet-IsValid.distinct b_known b_up (λ e. ground arith) select_other

abbrev uneven : Dict ℕ
uneven = (host_a, 3) ∷ (host_b, 1) ∷ []

served_fresh : clock.lt served.sticky_ttl_seconds (clock.minus 2000 1000) ≡ false
unfolding program
served_fresh = refl

select-sticky_example :
    (b'' : Balancer) × (select none 2000 2000 (some client) served ≡ some (host_a, b''))
unfolding program
select-sticky_example =
    select-sticky none none 0 1000 2000 2000 client host_a fleet served fleet-IsValid.distinct refl
      select_first refl refl
