-- ===== src/Ingress.antt =====
-- app/ingress.py: the trusted-proxy middleware and the client address behind it. Address and
-- network parsing is Python's `ipaddress`, a parameter.
mod Forwarded
mod Tests
use mathlib.Core.List.{reverse}
use adaptive_admission_contr.Base.{
  ℕ, ◌-◌, Bool, true, false, not, ◌&&◌, ◌||◌, if◌then◌else◌, ltb, leb, eqb, Option, none, some,
  List, [], ◌∷◌, map, length, filter, any, get_elem?, Text, ◌==◌, codes,
}

-- `ipaddress.ip_address`, `ip_network(_, strict=False)` and `in`. Parsing fails by ValueError.
pub record AddressParser : Type 1 where
  pub Address : Type 0
  pub Network : Type 0
  pub ip_address : Text → Option Address
  pub ip_network : Text → Option Network
  pub member : Address → Network → Bool

-- The characters below 256 that `str.strip` removes: header values are latin-1.
pub is_space : ℕ → Bool
is_space c = (leb 9 c && leb c 13) || (leb 28 c && leb c 32) || eqb c 0x85 || eqb c 0xa0

pub lstrip : Text → Text
unfolding is_space
lstrip [] = []
lstrip (c ∷ s) = if is_space c then lstrip s else c ∷ s

pub strip : Text → Text
unfolding lstrip
strip s = reverse (lstrip (reverse (lstrip s)))

cons_head : ℕ → List Text → List Text
cons_head c [] = (c ∷ []) ∷ []
cons_head c (w ∷ ws) = (c ∷ w) ∷ ws

-- `s.split(",")`
pub split : Text → List Text
unfolding cons_head
split [] = [] ∷ []
split (c ∷ s) = let rest = split s in if eqb c b',' then [] ∷ rest else cons_head c rest

is_nonempty : Text → Bool
is_nonempty [] = false
is_nonempty (c ∷ s) = true

-- `[p.strip() for p in xff.split(",") if p.strip()]`
pub entries : Text → List Text
unfolding split strip is_nonempty
entries xff = filter is_nonempty (map strip (split xff))

-- `parts[-hops]`; `parts[-0]` is the first part. `none` is an IndexError.
pub from_right : List Text → ℕ → Option Text
from_right parts hops = get_elem? parts (if eqb hops 0 then 0 else length parts - hops)

pub pick : List Text → Text → ℕ → Option Text
unfolding from_right
pick parts fallback hops = if ltb (length parts) hops then some fallback else from_right parts hops

pub resolve_client_ip : Option Text → (fallback : Text) → (hops : ℕ) → Option Text
unfolding entries pick
resolve_client_ip none fallback hops = some fallback
resolve_client_ip (some []) fallback hops = some fallback
resolve_client_ip (some (c ∷ s)) fallback hops = pick (entries (c ∷ s)) fallback hops

pub exempt_path : Text → Bool
exempt_path path = path == codes "/healthz" || path == codes "/readyz" || path == codes "/metrics"

module _ (ip : AddressParser) where
  open ip use {Address, Network, ip_address, ip_network, member}

  -- The networks were parsed when the configuration was validated.
  pub in_network : Address → Text → Bool
  in_network addr proxy = elim (ip_network proxy) [ none ↦ false | some net ↦ member addr net ]

  pub ip_in_allowlist : Text → List Text → Bool
  unfolding in_network
  ip_in_allowlist peer proxies = elim (ip_address peer) [
    | none ↦ false
    | some addr ↦ any (in_network addr) proxies
  ]

  -- What the middleware does with a request: the 403, the call of the next handler with the client
  -- address that it stored, if any, or an exception.
  pub data Verdict : Type 0 where
    forbidden : Verdict
    call_next : Option Text → Verdict
    index_error : Verdict

  forward : Option Text → Verdict
  forward none = index_error
  forward (some client) = call_next (some client)

  pub dispatch : (proxies : List Text) (hops : ℕ) (path : Text) (peer xff : Option Text) → Verdict
  unfolding exempt_path ip_in_allowlist resolve_client_ip forward
  dispatch proxies hops path none xff = if exempt_path path then call_next none else forbidden
  dispatch proxies hops path (some peer) xff =
      if exempt_path path
      then call_next none
      else if not (ip_in_allowlist peer proxies)
      then forbidden
      else forward (resolve_client_ip xff peer hops)
