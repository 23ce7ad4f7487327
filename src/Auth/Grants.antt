-- ===== src/Auth/Grants.antt =====
-- On what grounds `verify` gives a class.
use adaptive_admission_contr.Base.{
  ◌≡◌, refl, sym, ap, ◌∙◌, ◌⊎◌, inl, inr, Bool, true, false, Option, none, some, Text, codes,
  lookup, partition, arith, Bool-cases, Option-cases,
}
use adaptive_admission_contr.Auth.{
  UserClass, anonymous, researcher, service_account, internal, unknown, Roles, RealmAccess,
  no_roles, roles, not_object, Claims, Jwt, has_role, choose_class, class_from, class_of, no_user,
  with_user, Verifier, verify_claims, verify_with, key_at, verify_token, is_bearer, verify_header,
  verify,
}

-- The class that the roles of a token stand for: `internal` before `service_account`, and any other
-- verified token is a researcher's.
abbrev pub FitsRoles : Option RealmAccess → UserClass → Type 0
FitsRoles access c =
    ((c ≡ internal)
      × (r : Roles) × (access ≡ some (roles r))
      × (has_role (codes "internal") r ≡ some true))
    ⊎ ((c ≡ service_account)
        × (r : Roles) × (access ≡ some (roles r))
        × (has_role (codes "internal") r ≡ some false)
        × (has_role (codes "service_account") r ≡ some true))
    ⊎ ((c ≡ researcher)
        × (r : Roles) × (access ≡ some (roles r))
        × (has_role (codes "internal") r ≡ some false)
        × (has_role (codes "service_account") r ≡ some false))
    ⊎ ((c ≡ researcher) × ((access ≡ none) ⊎ (access ≡ some no_roles)))

class_from-FitsRoles :
    (r : Roles) (i s : Option Bool) (c : UserClass)
    → has_role (codes "internal") r ≡ i
    → has_role (codes "service_account") r ≡ s
    → class_from i s ≡ some c
    → FitsRoles (some (roles r)) c
unfolding class_from choose_class
class_from-FitsRoles r none s c hi hs e = ground arith
class_from-FitsRoles r (some true) none c hi hs e = ground arith
class_from-FitsRoles r (some false) none c hi hs e = ground arith
class_from-FitsRoles r (some true) (some b) c hi hs e = inl (cc, r, refl, hi)
class_from-FitsRoles r (some false) (some true) c hi hs e = inr (inl (cc, r, refl, hi, hs))
class_from-FitsRoles r (some false) (some false) c hi hs e = inr (inr (inl (cc, r, refl, hi, hs)))

class_of-FitsRoles :
    (access : Option RealmAccess) (c : UserClass) → class_of access ≡ some c → FitsRoles access c
unfolding class_of
class_of-FitsRoles none c e = inr (inr (inr (cc, inl refl)))
class_of-FitsRoles (some no_roles) c e = inr (inr (inr (cc, inr refl)))
class_of-FitsRoles (some (roles r)) c e = class_from-FitsRoles r _ _ c refl refl e
class_of-FitsRoles (some not_object) c e = ground arith

module _ (jwt : Jwt) where
  open jwt use {Key, unverified_kid, decode}

  -- The header carries a bearer token that a key of the verifier, under the token's own `kid`,
  -- proves genuine.
  abbrev pub IsGenuine : Verifier jwt → (header : Text) → Claims → Type 0
  IsGenuine v header claims =
      (kid : Text) × (key : Key) × (is_bearer jwt (partition b' ' header).0
          (partition b' ' header).1
        ≡ true)
      × (unverified_kid (partition b' ' header).1 ≡ some (some kid))
      × (lookup kid v.keys ≡ some key)
      × (decode (partition b' ' header).1 key v.config.issuer v.config.audience ≡ some claims)

  -- No user of the unknown class, just when the token is not genuine; else the class is that of the
  -- token's roles, and the user is its `sub`.
  abbrev pub IsGranted : Verifier jwt → (header : Text) → UserClass → Option Text → Type 0
  IsGranted v header c user =
      ((c ≡ unknown) × (user ≡ none) × ¬ ((claims : Claims) × IsGenuine v header claims))
      ⊎ ((claims : Claims) × IsGenuine v header claims
          × FitsRoles claims.realm_access c
          × (user ≡ claims.sub))

  no_user-inv :
      (c d : UserClass) (user : Option Text) → no_user d ≡ some (c, user) → (c ≡ d) × (user ≡ none)
  unfolding no_user
  no_user-inv c d user e = (cc, cc)

  with_user-inv :
      (sub user : Option Text) (o : Option UserClass) (c : UserClass)
      → with_user sub o ≡ some (c, user)
      → (o ≡ some c) × (user ≡ sub)
  unfolding with_user
  with_user-inv sub user none c e = ground arith
  with_user-inv sub user (some d) c e = (cc, cc)

  key_at-inv :
      (v : Verifier jwt) (kid : Option Text) (key : Key)
      → key_at jwt v kid ≡ some key
      → (k : Text) × (kid ≡ some k) × (lookup k v.keys ≡ some key)
  unfolding key_at
  key_at-inv v none key e = ground arith
  key_at-inv v (some k) key e = (k, refl, e)

  no_user-IsGranted :
      (v : Verifier jwt) (header : Text) (c : UserClass) (user : Option Text)
      → no_user unknown ≡ some (c, user)
      → ¬ ((claims : Claims) × IsGenuine v header claims)
      → IsGranted v header c user
  no_user-IsGranted v header c user e forged =
      let (same, nobody) = no_user-inv c unknown user e in inl (same, nobody, forged)

  verify_token-IsGranted :
      (v : Verifier jwt) (header : Text) (c : UserClass) (user : Option Text)
      → is_bearer jwt (partition b' ' header).0 (partition b' ' header).1 ≡ true
      → verify_token jwt v (partition b' ' header).1 ≡ some (c, user)
      → IsGranted v header c user
  unfolding verify_token verify_with verify_claims key_at
  verify_token-IsGranted v header c user bearer e =
      let token = (partition b' ' header).1 in
      elim (Option-cases (unverified_kid token)) [
        | inl bad ↦
            no_user-IsGranted v header c user (ground (arith, bad))
              (λ g. let (_, (_, _, _, named', _, _)) = g in ground (arith, bad, named'))
        | inr (kid, named) ↦ elim (Option-cases (key_at jwt v kid)) [
          | inl strange ↦ no_user-IsGranted v header c user (ground (arith, named, strange)) (λ g.
              let (_, (k, _, _, named', held, _)) = g in
              let same : kid ≡ some k = ground (arith, named, named') in
              let gone : key_at jwt v (some k) ≡ none = ap (key_at jwt v) (sym same) ∙ strange in
              ground (arith, gone, held))
          | inr (key, held) ↦
              let (k, is_k, in_keys) = key_at-inv v kid key held in
              elim (Option-cases (decode token key v.config.issuer v.config.audience)) [
                | inl forged ↦
                    no_user-IsGranted v header c user (ground (arith, named, held, forged)) (λ g.
                      let (_, (i, other, _, named', held', genuine)) = g in
                      let same : i ≡ k = ground (arith, named, named', is_k) in
                      let one : other ≡ key = ground (arith, same, in_keys, held') in
                      ground (arith, one, forged, genuine))
                | inr (claims, genuine) ↦
                    let (class, same) =
                      with_user-inv claims.sub user (class_of claims.realm_access) c
                        (ground (arith, named, held, genuine)) in
                    inr (
                      claims,
                      (k, key, bearer, named ∙ ap some is_k, in_keys, genuine),
                      class_of-FitsRoles claims.realm_access c class,
                      same,
                    )
              ]
        ]
      ]

  -- Where `verify` returns, a request is anonymous just when it has no header or verification is
  -- off. Any other has the class that the roles of its token stand for and the token's user, when
  -- its header carries a bearer token that a key of the verifier proves genuine; and it is of the
  -- unknown class, with no user, when there is no such token.
  pub verify-IsGranted :
      (v : Verifier jwt) (header : Option Text) (c : UserClass) (user : Option Text)
      → verify jwt v header ≡ some (c, user)
      → ((c ≡ anonymous) × (user ≡ none) × ((header ≡ none) ⊎ (v.config.enabled ≡ false)))
        ⊎ ((h : Text) × (header ≡ some h) × (v.config.enabled ≡ true) × IsGranted v h c user)
  unfolding verify verify_header
  verify-IsGranted v none c user e =
      let (same, nobody) = no_user-inv c anonymous user e in inl (same, nobody, inl refl)
  verify-IsGranted v (some h) c user e = elim (Bool-cases v.config.enabled) [
    | inr off ↦
        let (same, nobody) = no_user-inv c anonymous user (ground (arith, off)) in
        inl (same, nobody, inr off)
    | inl on ↦ inr (
      h,
      refl,
      on,
      elim (Bool-cases (is_bearer jwt (partition b' ' h).0 (partition b' ' h).1)) [
        | inr other ↦
            no_user-IsGranted v h c user (ground (arith, on, other))
              (λ g. let (_, (_, _, bearer, _, _, _)) = g in ground (arith, other, bearer))
        | inl bearer ↦ verify_token-IsGranted v h c user bearer (ground (arith, on, bearer))
      ],
    )
  ]
