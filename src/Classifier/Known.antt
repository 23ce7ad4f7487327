-- ===== src/Classifier/Known.antt =====
-- What a classified request carries, and when classification raises.
use adaptive_admission_contr.Base.{
  ℕ, ◌≡◌, refl, subst, ◌⊎◌, inl, inr, Option, none, some, Text, Bool, true, false, arith,
  Option-cases,
}
use adaptive_admission_contr.Base.Float.{Float, IsOrdered}
use adaptive_admission_contr.Auth.{Jwt, UserClass, class_value, Verifier, Verified, verify}
use adaptive_admission_contr.Geoip.{
  Readers, Found, value_error, CityRecord, Place, Cache, read, locate,
}
use adaptive_admission_contr.Geoip.Cache.{IsCache, locate-Answers, read_raises}
use adaptive_admission_contr.Classifier.{
  Addresses, Policy, Context, subnets, networks, locate_client, context, identify, classify,
}

module _ ⦃fl : Float⦄ (a : Addresses) (jwt : Jwt) where
  open fl use {F}

  -- The subnets of a client, the first for the 24-bit network and the second for the IPv6 one: none
  -- of an unknown or malformed address, the network of 24 bits of an IPv4 address, and the network
  -- of the configured length of an IPv6 address.
  abbrev pub AreSubnets : Option Text → ℕ → Option Text → Option Text → Type 0
  AreSubnets none n net24 net6 = (net24 ≡ none) × (net6 ≡ none)
  AreSubnets (some ip) n net24 net6 =
      ((a.is_v4 ip ≡ none) × (net24 ≡ none) × (net6 ≡ none))
      ⊎ ((a.is_v4 ip ≡ some true) × (net24 ≡ some (a.network_text ip 24)) × (net6 ≡ none))
      ⊎ ((a.is_v4 ip ≡ some false) × (net24 ≡ none) × (net6 ≡ some (a.network_text ip n)))

  -- The country and the ASN that the lookup gives a client's address, and none of an unknown one.
  abbrev pub IsLocated : Readers → F → Option Text → Cache → (country asn : Option Text) → Type 0
  IsLocated db now none c country asn = (country ≡ none) × (asn ≡ none)
  IsLocated db now (some ip) c country asn =
      (c' : Cache) × (locate db now ip c ≡ some ((country, asn), c'))

  -- What the context of a request for the policy `p` from `ip` holds.
  pub record IsContext (db : Readers) (v : Verifier jwt) (p : Policy) (now arrival : F)
      (ip header : Option Text) (c : Cache) (ctx : Context) : Type 0 where
    pub class : UserClass
    pub verified : verify jwt v header ≡ some (class, ctx.scored.user_id)
    pub known : ctx.scored.user_class ≡ class_value class
    pub same_class : ctx.request.user_class ≡ some (class_value class)
    pub for_backend : ctx.scored.backend ≡ p.name
    pub from_client : (ctx.scored.source_ip ≡ ip) × (ctx.request.source_ip ≡ ip)
    pub stamped : ctx.request.arrival_time ≡ arrival
    pub in_subnets :
        AreSubnets ip p.scoring.ipv6_prefix_length ctx.scored.subnet_24 ctx.scored.subnet_6
    pub located : IsLocated db now ip c ctx.scored.country ctx.scored.asn

  networks-AreSubnets :
      (ip : Text) (n : ℕ) (v4 : Option Bool)
      → a.is_v4 ip ≡ v4
      → AreSubnets (some ip) n (networks a ip n v4).0 (networks a ip n v4).1
  unfolding networks
  networks-AreSubnets ip n none e = inl (e, refl, refl)
  networks-AreSubnets ip n (some true) e = inr (inl (e, refl, refl))
  networks-AreSubnets ip n (some false) e = inr (inr (e, refl, refl))

  subnets-AreSubnets :
      (ip : Option Text) (n : ℕ) → AreSubnets ip n (subnets a ip n).0 (subnets a ip n).1
  unfolding subnets
  subnets-AreSubnets none n = (refl, refl)
  subnets-AreSubnets (some ip) n = networks-AreSubnets ip n (a.is_v4 ip) refl

  locate_client-IsLocated :
      (db : Readers) (now : F) (ip : Option Text) (c c' : Cache) (place : Place)
      → locate_client db now ip c ≡ some (place, c')
      → IsLocated db now ip c place.0 place.1
  unfolding locate_client
  locate_client-IsLocated db now none c c' place e = (cc, cc)
  locate_client-IsLocated db now (some ip) c c' place e = (c', e)

  identify-IsContext :
      (db : Readers) (v : Verifier jwt) (p : Policy) (now arrival : F) (ip header : Option Text)
      (c : Cache) (place : Place) (c' : Cache) (w : Verified) (ctx : Context)
      → verify jwt v header ≡ w
      → IsLocated db now ip c place.0 place.1
      → (identify a jwt p arrival ip (place, c') w).0 ≡ some ctx
      → IsContext db v p now arrival ip header c ctx
  unfolding identify context
  identify-IsContext db v p now arrival ip header c place c' none ctx w located e = ground arith
  identify-IsContext db v p now arrival ip header c place c' (some (class, user)) ctx w located e =
      let made : context p arrival ip (subnets a ip p.scoring.ipv6_prefix_length) place
            (class, user)
          ≡ ctx =
        cc in
      subst (IsContext db v p now arrival ip header c) made (record {
        class = class;
        verified = w;
        known = refl;
        same_class = refl;
        for_backend = refl;
        from_client = (refl, refl);
        stamped = refl;
        in_subnets = subnets-AreSubnets ip p.scoring.ipv6_prefix_length;
        located = located;
      })

  -- A classified request has the class and the user that the verification of its header gives, is
  -- for the backend of its policy, and carries the client's address and its arrival; the country and
  -- the ASN are those that the lookup of the address gives; and the subnet of an IPv4 address is its
  -- network of 24 bits, that of an IPv6 address its network of the configured length, each in its
  -- own place, and there is none for a malformed or unknown address.
  pub classify-IsContext :
      (db : Readers) (v : Verifier jwt) (p : Policy) (now arrival : F) (ip header : Option Text)
      (c : Cache) (ctx : Context)
      → (classify a jwt db v p now arrival ip header c).0 ≡ some ctx
      → IsContext db v p now arrival ip header c ctx
  unfolding classify
  classify-IsContext db v p now arrival ip header c ctx e =
      elim (Option-cases (locate_client db now ip c)) [
        | inl raised ↦ ground (arith, raised, e)
        | inr ((place, c'), found) ↦
            identify-IsContext db v p now arrival ip header c place c' (verify jwt v header) ctx
              refl (locate_client-IsLocated db now ip c c' place found) (ground (arith, found, e))
      ]

  -- For a client address that is no address, the subnets are left out; but when a city database
  -- is open that raises for it, the whole classification raises, whatever the cache holds.
  pub classify-raises :
      (o : IsOrdered fl) (db : Readers) (get : Text → Found CityRecord) (v : Verifier jwt)
      (p : Policy) (now arrival : F) (ip : Text) (header : Option Text) (c : Cache)
      → IsCache db c
      → a.is_v4 ip ≡ none
      → db.city ≡ some get
      → get ip ≡ value_error
      → (subnets a (some ip) p.scoring.ipv6_prefix_length ≡ (none, none))
        × ((classify a jwt db v p now arrival (some ip) header c).0 ≡ none)
  unfolding classify subnets networks locate_client
  classify-raises o db get v p now arrival ip header c valid bad opened raises =
      let said : read db ip ≡ none = read_raises db get ip opened raises in
      let answers = locate-Answers o db now ip c valid in
      (
        rw (bad, networks) refl,
        elim (Option-cases (locate db now ip c)) [
          | inl raised ↦ ground (arith, raised)
          | inr ((place, c'), found) ↦ absurd (ground (arith, answers.answer, found, said))
        ],
      )
