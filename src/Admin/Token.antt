-- ===== src/Admin/Token.antt =====
-- Who passes the token check.
use adaptive_admission_contr.Base.{
  ◌≡◌, ◌≢◌, refl, ◌∙◌, ◌⊎◌, inl, inr, true, false, ◌&&◌, Option, none, some, [], ◌∷◌, Text, ◌==◌,
  ==_iff, codes, lower, partition, get_or, arith, Bool-cases,
}
use adaptive_admission_contr.Base.Float.{Float}
use adaptive_admission_contr.Admin.{
  is_ascii, compare_digest, Access, allowed, denied, type_error, unauthorized, by_digest,
  check_credential, check_auth, error_detail, Answer, require_admin_auth,
}

-- The two parts of the header around its first space.
abbrev pub header_parts : Option Text → Text × Text
unfolding partition
header_parts header = partition 32 (get_or [] header)

-- A token is configured, it is not empty, and the header gives the scheme and the token itself.
pub record IsAuthorized (token header : Option Text) : Type 0 where
  pub secret : Text
  pub configured : token ≡ some secret
  pub nonempty : secret ≢ []
  pub ascii : is_ascii secret ≡ true
  pub scheme : lower (header_parts header).0 ≡ codes "bearer"
  pub credential : (header_parts header).1 ≡ secret

check_credential-allowed :
    (token : Text) (parts : Text × Text)
    → check_credential token parts ≡ allowed
    → (lower parts.0 ≡ codes "bearer") × (parts.1 ≡ token) × (is_ascii token ≡ true)
unfolding check_credential by_digest compare_digest unauthorized
check_credential-allowed token (scheme, credential) h =
    ground (arith, h, ==_iff (lower scheme) (codes "bearer"), ==_iff credential token)

allowed-IsAuthorized :
    (token header : Option Text) → check_auth token header ≡ allowed → IsAuthorized token header
unfolding check_auth
allowed-IsAuthorized none header h = cc
allowed-IsAuthorized (some []) header h = cc
allowed-IsAuthorized (some (c ∷ t)) header h =
    let (bearer, same, plain) = check_credential-allowed (c ∷ t) (header_parts header) h in
    record {
      secret = c ∷ t;
      configured = refl;
      nonempty = λ e. cc;
      ascii = plain;
      scheme = bearer;
      credential = same;
    }

check_credential-allows :
    (token : Text) (parts : Text × Text)
    → lower parts.0 ≡ codes "bearer"
    → parts.1 ≡ token
    → is_ascii token ≡ true
    → check_credential token parts ≡ allowed
unfolding check_credential by_digest compare_digest unauthorized
check_credential-allows token (scheme, credential) bearer same plain =
    ground
      (arith, bearer, same, plain, ==_iff (lower scheme) (codes "bearer"), ==_iff credential token)

IsAuthorized-allowed :
    (token header : Option Text) → IsAuthorized token header → check_auth token header ≡ allowed
unfolding check_auth
IsAuthorized-allowed none header v = absurd cc
IsAuthorized-allowed (some []) header v = absurd (v.nonempty cc)
IsAuthorized-allowed (some (c ∷ t)) header v =
    check_credential-allows (c ∷ t) (header_parts header) v.scheme (v.credential ∙ cc)
      (ground (arith, v.ascii, v.configured))

check_credential-refuses :
    (token : Text) (parts : Text × Text)
    → check_credential token parts ≢ allowed
    → (check_credential token parts ≡ type_error)
      ⊎ (check_credential token parts ≡ denied 401 (codes "unauthorized"))
unfolding check_credential unauthorized by_digest compare_digest
check_credential-refuses token (scheme, credential) h =
    elim (Bool-cases (lower scheme == codes "bearer")) [
      | inr other ↦ inr (rw other refl)
      | inl bearer ↦ elim (Bool-cases (is_ascii credential && is_ascii token)) [
        | inr odd ↦ inl (rw (bearer, odd) refl)
        | inl plain ↦ elim (Bool-cases (credential == token)) [
          | inl same ↦ absurd (h (rw (bearer, plain, same) refl))
          | inr differs ↦ inr (rw (bearer, plain, differs) refl)
        ]
      ]
    ]

is_allowed : (a : Access) → (a ≡ allowed) ⊎ (a ≢ allowed)
is_allowed allowed = inl refl
is_allowed (denied s d) = inr (λ e. cc)
is_allowed type_error = inr (λ e. cc)

module _ ⦃fl : Float⦄ where
  -- A 401, a 403 or an exception.
  abbrev pub IsRefused : Answer → Type 0
  IsRefused x =
      (x ≡ none)
      ⊎ (x ≡ some (error_detail 401 (codes "unauthorized")))
      ⊎ (x ≡ some (error_detail 403 (codes "admin API disabled")))

  -- Whoever is not let through learns this alone.
  refused :
      (token header : Option Text) (handled other : Answer)
      → check_auth token header ≢ allowed
      → (require_admin_auth token header handled ≡ require_admin_auth token header other)
        × IsRefused (require_admin_auth token header handled)
  unfolding require_admin_auth check_auth
  refused none header handled other h = (refl, inr (inr refl))
  refused (some []) header handled other h = (refl, inr (inr refl))
  refused (some (c ∷ t)) header handled other h =
      elim (check_credential-refuses (c ∷ t) (header_parts header) h) [
        | inl e ↦ rw (e, require_admin_auth) (refl, inl refl)
        | inr e ↦ rw (e, require_admin_auth) (refl, inr (inl refl))
      ]

  -- With the token, a route answers as its handler does. Without it, whatever the handler would
  -- have answered, the answer is the same: 403 when no token is configured, 401, or an exception.
  pub require_admin_auth-guards :
      (token header : Option Text) (handled other : Answer)
      → (IsAuthorized token header × (require_admin_auth token header handled ≡ handled))
        ⊎ ((¬ IsAuthorized token header)
            × (require_admin_auth token header handled ≡ require_admin_auth token header other)
            × IsRefused (require_admin_auth token header handled))
  unfolding require_admin_auth
  require_admin_auth-guards token header handled other =
      elim (is_allowed (check_auth token header)) [
        | inl yes_in ↦
            inl (allowed-IsAuthorized token header yes_in, rw (yes_in, require_admin_auth) refl)
        | inr out ↦
            let (same, none_told) = refused token header handled other out in
            inr (λ v. out (IsAuthorized-allowed token header v), same, none_told)
      ]

  -- With a token configured, a credential of the scheme `bearer` that is not ASCII ends in an
  -- exception instead of a 401.
  pub require_admin_auth-raises :
      (secret : Text) (header : Option Text) (handled : Answer)
      → secret ≢ []
      → lower (header_parts header).0 ≡ codes "bearer"
      → is_ascii (header_parts header).1 ≡ false
      → require_admin_auth (some secret) header handled ≡ none
  unfolding require_admin_auth check_auth check_credential by_digest compare_digest
  require_admin_auth-raises [] header handled h bearer odd = absurd (h refl)
  require_admin_auth-raises (c ∷ t) header handled h bearer odd =
      ground (arith, bearer, odd, ==_iff (lower (header_parts header).0) (codes "bearer"))
