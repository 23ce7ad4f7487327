-- ===== src/Auth.antt =====
-- app/auth.py: `JWTVerifier`. The JWT library is a parameter: reading a token's header, checking
-- a token against a key, and reading a key of a key set. What the fetch of a key set ends in is an
-- argument.
mod Grants
mod Refresh
mod Tests
use adaptive_admission_contr.Base.{
  ℕ, Bool, true, false, not, ◌&&◌, ◌||◌, if◌then◌else◌, Option, none, some, List, [], ◌∷◌, Text,
  ◌==◌, codes, Dict, lookup, insert, lower, partition, in_text, in_list,
}

-- `UserClass` of app/interfaces.py, and its values.
pub data UserClass : Type 0 where
  anonymous researcher service_account internal unknown : UserClass

unfoldable pub class_value : UserClass → Text
class_value anonymous = codes "anonymous"
class_value researcher = codes "researcher"
class_value service_account = codes "service_account"
class_value internal = codes "internal"
class_value unknown = codes "unknown"

-- `claims["realm_access"]["roles"]`: a list, whose items that are no texts are left out, or an
-- object, of which `in` tests the keys; a text, of which `in` tests the parts; or a value of
-- another type, for which `in` raises TypeError.
pub data Roles : Type 0 where
  role_list : List Text → Roles
  role_text : Text → Roles
  not_container : Roles

-- `claims["realm_access"]`: an object without or with `roles`, or a value that has no `get`.
pub data RealmAccess : Type 0 where
  no_roles : RealmAccess
  roles : Roles → RealmAccess
  not_object : RealmAccess

pub record Claims : Type 0 where
  pub sub : Option Text
  pub realm_access : Option RealmAccess

-- The library `jwt`. `none` is a PyJWTError.
pub record Jwt : Type 1 where
  pub Key : Type 0
  pub Jwk : Type 0
  -- `key["kid"]`, if the key has one
  pub kid_of : Jwk → Option Text
  -- `RSAAlgorithm.from_jwk`, which raises InvalidKeyError for a key that is no RSA key
  pub from_jwk : Jwk → Option Key
  -- `get_unverified_header(token).get("kid")`
  pub unverified_kid : (token : Text) → Option (Option Text)
  -- `decode`, with the algorithm and the options that the code passes
  pub decode : (token : Text) → Key → (issuer audience : Option Text) → Option Claims

-- How the request for the key set ends: an httpx error or a text that is no JSON, which is a
-- ValueError; a JSON object without `keys`; JSON of another shape, which is a TypeError; or keys.
pub data Fetched (Jwk : Type 0) : Type 0 where
  unreachable : Fetched Jwk
  not_json : Fetched Jwk
  no_keys : Fetched Jwk
  wrong_shape : Fetched Jwk
  key_set : List Jwk → Fetched Jwk

pub record AuthConfig : Type 0 where
  pub enabled : Bool
  pub issuer : Option Text
  pub audience : Option Text

-- `x in roles`; `none` is a TypeError.
pub has_role : Text → Roles → Option Bool
has_role x (role_list xs) = some (in_list x xs)
has_role x (role_text t) = some (in_text x t)
has_role x not_container = none

choose_class : (is_internal is_service : Bool) → UserClass
choose_class is_internal is_service =
    if is_internal then internal else if is_service then service_account else researcher

class_from : Option Bool → Option Bool → Option UserClass
unfolding choose_class
class_from none is_service = none
class_from (some is_internal) none = none
class_from (some is_internal) (some is_service) = some (choose_class is_internal is_service)

-- The class of a verified token; `none` is an AttributeError or a TypeError.
pub class_of : Option RealmAccess → Option UserClass
unfolding class_from has_role
class_of none = some researcher
class_of (some no_roles) = some researcher
class_of (some (roles r)) =
    class_from (has_role (codes "internal") r) (has_role (codes "service_account") r)
class_of (some not_object) = none

-- `verify` returns a class and a user, or an exception leaves it.
abbrev pub Verified : Type 0
Verified = Option (UserClass × Option Text)

pub no_user : UserClass → Verified
no_user c = some (c, none)

with_user : Option Text → Option UserClass → Verified
with_user user none = none
with_user user (some c) = some (c, user)

module _ (jwt : Jwt) where
  open jwt use {Key, Jwk, kid_of, from_jwk, unverified_kid, decode}

  pub record Verifier : Type 0 where
    pub config : AuthConfig
    pub keys : Dict Key

  -- The comprehension over `jwks["keys"]`; `none` is an InvalidKeyError.
  pub keys_from : List Jwk → Dict Key → Option (Dict Key)
  unfolding insert
  keys_from [] d = some d
  keys_from (k ∷ ks) d = elim (kid_of k) [
    | none ↦ keys_from ks d
    | some kid ↦ elim (from_jwk k) [ none ↦ none | some key ↦ keys_from ks (insert kid key d) ]
  ]

  replace_keys : Verifier → Option (Dict Key) → Option Verifier
  replace_keys v none = none
  replace_keys v (some keys) = some (record v { keys = keys })

  -- `_safe_refresh`; `none` is an exception that its clause does not name: TypeError, or
  -- InvalidKeyError, which is a PyJWTError and neither a KeyError nor a ValueError.
  pub safe_refresh : Fetched Jwk → Verifier → Option Verifier
  unfolding keys_from replace_keys
  safe_refresh unreachable v = some v
  safe_refresh not_json v = some v
  safe_refresh no_keys v = some v
  safe_refresh wrong_shape v = none
  safe_refresh (key_set ks) v = replace_keys v (keys_from ks [])

  unfoldable pub initial_fetch : Fetched Jwk → Verifier → Option Verifier
  unfolding safe_refresh
  initial_fetch f v = if v.config.enabled then safe_refresh f v else some v

  -- The rounds of `refresh_loop`: the verifier that they leave, and whether the loop still runs.
  pub refresh_loop : List (Fetched Jwk) → Verifier → Verifier × Bool
  unfolding safe_refresh
  refresh_loop [] v = (v, true)
  refresh_loop (f ∷ fs) v = elim (safe_refresh f v) [
    | none ↦ (v, false)
    | some v' ↦ refresh_loop fs v'
  ]

  verify_claims : Option Claims → Verified
  unfolding class_of with_user no_user
  verify_claims none = no_user unknown
  verify_claims (some c) = with_user c.sub (class_of c.realm_access)

  verify_with : Verifier → (token : Text) → Option Key → Verified
  unfolding verify_claims
  verify_with v token none = no_user unknown
  verify_with v token (some key) =
      verify_claims (decode token key v.config.issuer v.config.audience)

  -- `self._keys.get(kid)`, where a header without `kid` gives None, which is no key of the set.
  key_at : Verifier → Option Text → Option Key
  unfolding lookup
  key_at v none = none
  key_at v (some kid) = lookup kid v.keys

  pub verify_token : Verifier → (token : Text) → Verified
  unfolding verify_with key_at
  verify_token v token = elim (unverified_kid token) [
    | none ↦ no_user unknown
    | some kid ↦ verify_with v token (key_at v kid)
  ]

  is_empty : Text → Bool
  is_empty [] = true
  is_empty (c ∷ s) = false

  -- `scheme.lower() != "bearer" or not token`
  pub is_bearer : (scheme token : Text) → Bool
  unfolding lower is_empty
  is_bearer scheme token = lower scheme == codes "bearer" && not (is_empty token)

  verify_header : Verifier → Text × Text → Verified
  unfolding is_bearer verify_token no_user
  verify_header v (scheme, token) =
      if is_bearer scheme token then verify_token v token else no_user unknown

  unfoldable pub verify : Verifier → (authorization_header : Option Text) → Verified
  unfolding verify_header no_user partition
  verify v none = no_user anonymous
  verify v (some header) =
      if v.config.enabled then verify_header v (partition b' ' header) else no_user anonymous
