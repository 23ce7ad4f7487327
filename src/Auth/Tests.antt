-- ===== src/Auth/Tests.antt =====
-- A library in which the token is the kid of its key, and a key that is no RSA key.
use adaptive_admission_contr.Base.{
  ◌≡◌, ◌⊎◌, inl, inr, refl, Bool, true, false, if◌then◌else◌, none, some, [], ◌∷◌, ◌++◌, Text, ◌==◌,
  codes, lookup, insert, partition, lower, in_list,
}
use adaptive_admission_contr.Auth.{
  anonymous, internal, unknown, role_list, roles, Jwt, unreachable, key_set, Verifier, verify,
  initial_fetch, refresh_loop,
}
use adaptive_admission_contr.Auth.Grants.{IsGranted, verify-IsGranted}
use adaptive_admission_contr.Auth.Refresh.{refresh_loop-bad}

abbrev library : Jwt
library = record {
  Key = Text;
  Jwk = Text × Bool;
  kid_of = λ k. some k.0;
  from_jwk = λ k. if k.1 then some k.0 else none;
  unverified_kid = λ token. some (some token);
  decode = λ token key issuer audience.
      if token == key
      then some (record {
        sub = some (codes "ana");
        realm_access = some (roles (role_list (codes "service_account" ∷ codes "internal" ∷ [])));
      })
      else none;
}

abbrev rsa_key : Text × Bool
rsa_key = (codes "k1", true)

abbrev curve_key : Text × Bool
curve_key = (codes "k2", false)

abbrev started : Verifier library
started = record { config = record { enabled = true; issuer = none; audience = none }; keys = [] }

abbrev holding : Verifier library
holding = record started { keys = (codes "k1", codes "k1") ∷ [] }

accepted : verify library holding (some (codes "Bearer k1")) ≡ some (internal, some (codes "ana"))
unfolding verify partition lower lookup ◌==◌ in_list
accepted = refl

unknown_key : verify library holding (some (codes "Bearer k3")) ≡ some (unknown, none)
unfolding verify partition lower lookup ◌==◌
unknown_key = refl

verify-IsGranted_example :
    ((internal ≡ anonymous)
      × (some (codes "ana") ≡ none)
      × ((some (codes "Bearer k1") ≡ none) ⊎ (true ≡ false)))
    ⊎ ((h : Text) × (some (codes "Bearer k1") ≡ some h)
        × (◌≡◌ {A = Bool} true true)
        × IsGranted library holding h internal (some (codes "ana")))
verify-IsGranted_example =
    verify-IsGranted library holding (some (codes "Bearer k1")) internal (some (codes "ana"))
      accepted

one_round :
    refresh_loop library (unreachable ∷ key_set (rsa_key ∷ []) ∷ []) started ≡ (holding, true)
unfolding refresh_loop insert
one_round = refl

refresh_loop-bad_example :
    (started.config.enabled ≡ true
      → initial_fetch library (key_set (rsa_key ∷ curve_key ∷ [])) started ≡ none)
    × (refresh_loop library
          ((unreachable ∷ key_set (rsa_key ∷ []) ∷ [])
            ++ key_set (rsa_key ∷ curve_key ∷ []) ∷ key_set [] ∷ [])
          started
        ≡ (holding, false))
refresh_loop-bad_example =
    refresh_loop-bad library started holding (unreachable ∷ key_set (rsa_key ∷ []) ∷ [])
      (key_set [] ∷ []) (rsa_key ∷ curve_key ∷ []) curve_key (codes "k2") (inr (inl refl)) refl refl
      one_round
