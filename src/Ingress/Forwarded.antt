-- ===== src/Ingress/Forwarded.antt =====
-- What a client can do to the address that the proxy is credited with.
use mathlib.Core.List.{map-append}
use adaptive_admission_contr.Base.{
  ℕ, zero, suc, ◌+◌, ◌-◌, ◌≤◌, ◌<◌, ◌≡◌, refl, ap, ◌∙◌, ◌≢◌, true, false, ltb, eqb, arith, Option,
  none, some, Bool, Bool-cases, Option-cases, any, ◌⊎◌, inl, inr, In, List, [], ◌∷◌, ◌++◌, map,
  length, length-append, filter, filter-append, get_elem?, get_elem?-append_right, get_elem?-some,
  Text,
}
use adaptive_admission_contr.Ingress.{
  AddressParser, strip, cons_head, split, is_nonempty, entries, from_right, pick, resolve_client_ip,
  exempt_path, in_network, ip_in_allowlist, forbidden, call_next, dispatch, forward,
}

cons_head-append :
    (c : ℕ) (ws vs : List Text) → ws ≢ [] → cons_head c (ws ++ vs) ≡ cons_head c ws ++ vs
unfolding cons_head
cons_head-append c [] vs h = absurd (h refl)
cons_head-append c (w ∷ ws) vs h = refl

cons_head-ne-nil : (c : ℕ) (ws : List Text) → cons_head c ws ≢ []
unfolding cons_head
cons_head-ne-nil c [] = λ e. cc
cons_head-ne-nil c (w ∷ ws) = λ e. cc

split-ne-nil : (s : Text) → split s ≢ []
unfolding split
split-ne-nil [] = λ e. cc
split-ne-nil (c ∷ s) = λ e. ground (arith, cons_head-ne-nil c (split s))

split-append : (s t : Text) → split (s ++ b',' ∷ t) ≡ split s ++ split t
unfolding split
split-append [] t = refl
split-append (c ∷ s) t = elim (Bool-cases (eqb c b',')) [
  | inl comma ↦ rw comma (ap (◌∷◌ []) (split-append s t))
  | inr other ↦ rw other (
      ap (cons_head c) (split-append s t) ∙ cons_head-append c (split s) (split t) (split-ne-nil s))
]

entries-append : (s t : Text) → entries (s ++ b',' ∷ t) ≡ entries s ++ entries t
unfolding entries
entries-append s t =
    ap (λ ws. filter is_nonempty (map strip ws)) (split-append s t)
    ∙ ap (filter is_nonempty) (map-append strip (split s) (split t))
    ∙ filter-append is_nonempty (map strip (split s)) (map strip (split t))

pick-append :
    (xs ys : List Text) (fallback : Text) (hops : ℕ)
    → 0 < hops
    → hops ≤ length ys
    → pick (xs ++ ys) fallback hops ≡ pick ys fallback hops
unfolding pick from_right
pick-append xs ys fallback hops h enough =
    let index : length (xs ++ ys) - hops ≡ length xs + (length ys - hops) =
      omega (arith, length-append xs ys) in
    ground (
      arith,
      length-append xs ys,
      get_elem?-append_right xs ys (length ys - hops),
      ap (get_elem? (xs ++ ys)) index,
    )

-- A client cannot choose its own address: whatever text it puts in front of the header, the entry
-- that counts is the same, as long as the proxies appended at least `hops` entries.
pub resolve_client_ip-append :
    (spoof t : Text) (c : ℕ) (fallback : Text) (hops : ℕ)
    → 0 < hops
    → hops ≤ length (entries (c ∷ t))
    → resolve_client_ip (some (spoof ++ b',' ∷ c ∷ t)) fallback hops
      ≡ resolve_client_ip (some (c ∷ t)) fallback hops
unfolding resolve_client_ip
resolve_client_ip-append [] t c fallback hops h enough =
    ap (λ ws. pick ws fallback hops) (entries-append [] (c ∷ t))
    ∙ pick-append (entries []) (entries (c ∷ t)) fallback hops h enough
resolve_client_ip-append (d ∷ s) t c fallback hops h enough =
    ap (λ ws. pick ws fallback hops) (entries-append (d ∷ s) (c ∷ t))
    ∙ pick-append (entries (d ∷ s)) (entries (c ∷ t)) fallback hops h enough

-- The parts of a list around its i-th element.
get_elem?-split :
    (xs : List Text) (i : ℕ) (x : Text)
    → get_elem? xs i ≡ some x
    → (l : List Text) × (r : List Text) × (xs ≡ l ++ x ∷ r) × (length l ≡ i)
get_elem?-split [] i x e = cc
get_elem?-split (y ∷ ys) zero x e = ([], ys, ap (λ z. z ∷ ys) cc, refl)
get_elem?-split (y ∷ ys) (suc i) x e =
    let (l, r, same, n) = get_elem?-split ys i x e in (y ∷ l, r, ap (◌∷◌ y) same, ap suc n)

-- The address that counts: without entries in a header, or with fewer than `hops`, the peer's; and
-- else the entry with exactly `hops - 1` entries after it.
abbrev pub Credited : Text → Option Text → (hops : ℕ) → Text → Type 0
Credited peer none hops a = a ≡ peer
Credited peer (some xff) hops a =
    ((length (entries xff) < hops) × (a ≡ peer))
    ⊎ ((l : List Text) × (r : List Text) × (entries xff ≡ l ++ a ∷ r) × (suc (length r) ≡ hops))

pick-some :
    (parts : List Text) (fallback : Text) (hops : ℕ)
    → 0 < hops
    → (a : Text) × (pick parts fallback hops ≡ some a)
      × (((length parts < hops) × (a ≡ fallback))
          ⊎ ((l : List Text) × (r : List Text) × (parts ≡ l ++ a ∷ r) × (suc (length r) ≡ hops)))
unfolding pick from_right
pick-some parts fallback hops h = elim (Bool-cases (ltb (length parts) hops)) [
  | inl few ↦ (fallback, rw (few, pick), inl (ground arith, refl))
  | inr enough ↦
      let positive : eqb hops 0 ≡ false = ground arith in
      let (a, e) = get_elem?-some parts (length parts - hops) (ground arith) in
      let (l, r, same, before) = get_elem?-split parts (length parts - hops) a e in
      let whole : length parts ≡ length l + suc (length r) =
        ap length same ∙ length-append l (a ∷ r) in
      (a, rw (enough, pick, positive) e, inr (l, r, same, ground (arith, whole, before, enough)))
]

resolve_client_ip-some :
    (xff : Option Text) (peer : Text) (hops : ℕ)
    → 0 < hops
    → (a : Text) × (resolve_client_ip xff peer hops ≡ some a) × Credited peer xff hops a
unfolding resolve_client_ip
resolve_client_ip-some none peer hops h = (peer, refl, refl)
resolve_client_ip-some (some []) peer hops h =
    let (a, e, credited) = pick-some (entries []) peer hops h in (peer, refl, inl (h, refl))
resolve_client_ip-some (some (c ∷ s)) peer hops h = pick-some (entries (c ∷ s)) peer hops h

any-In :
    {A : Type 0} (f : A → Bool) (xs : List A) → any f xs ≡ true → (x : A) × In x xs × (f x ≡ true)
any-In f [] e = ground arith
any-In f (x ∷ xs) e = elim (Bool-cases (f x)) [
  | inl here ↦ (x, inl refl, here)
  | inr other ↦
      let (y, there, holds) = any-In f xs (ground (arith, other, e)) in (y, inr there, holds)
]

In-any : {A : Type 0} (f : A → Bool) (xs : List A) (x : A) → In x xs → f x ≡ true → any f xs ≡ true
In-any f [] x i e = absurd i
In-any f (y ∷ ys) x (inl same) e =
    let here : f y ≡ true = ground (arith, ap f same, e) in ground (arith, here)
In-any f (y ∷ ys) x (inr i) e = let rest = In-any f ys x i e in ground (arith, rest)

module _ (ip : AddressParser) where
  open ip use {Address, Network, ip_address, ip_network, member}

  -- The peer is an address, and is in one of the networks.
  abbrev pub IsTrusted : Text → List Text → Type 0
  IsTrusted peer proxies =
      (addr : Address) × (ip_address peer ≡ some addr)
      × (proxy : Text) × In proxy proxies
      × (net : Network) × (ip_network proxy ≡ some net)
      × (member addr net ≡ true)

  in_network-inv :
      (addr : Address) (proxy : Text)
      → in_network ip addr proxy ≡ true
      → (net : Network) × (ip_network proxy ≡ some net) × (member addr net ≡ true)
  unfolding in_network
  in_network-inv addr proxy e = elim (Option-cases (ip_network proxy)) [
    | inl bad ↦ absurd (ground (arith, bad, e))
    | inr (net, good) ↦ (net, good, ground (arith, good, e))
  ]

  ip_in_allowlist-IsTrusted :
      (peer : Text) (proxies : List Text)
      → ip_in_allowlist ip peer proxies ≡ true
      → IsTrusted peer proxies
  unfolding ip_in_allowlist
  ip_in_allowlist-IsTrusted peer proxies e = elim (Option-cases (ip_address peer)) [
    | inl bad ↦ absurd (ground (arith, bad, e))
    | inr (addr, good) ↦
        let (proxy, there, inside) =
          any-In (in_network ip addr) proxies (ground (arith, good, e)) in
        let (net, parsed, holds) = in_network-inv addr proxy inside in
        (addr, good, proxy, there, net, parsed, holds)
  ]

  IsTrusted-ip_in_allowlist :
      (peer : Text) (proxies : List Text)
      → IsTrusted peer proxies
      → ip_in_allowlist ip peer proxies ≡ true
  unfolding ip_in_allowlist in_network
  IsTrusted-ip_in_allowlist peer proxies (addr, good, proxy, there, net, parsed, inside) =
      let inside' : in_network ip addr proxy ≡ true = ground (arith, parsed, inside) in
      let found = In-any (in_network ip addr) proxies proxy there inside' in
      ground (arith, good, found)

  -- On a path that is not exempt, with a known peer and at least one trusted hop: a peer that is no
  -- address, or is in none of the trusted networks, is refused; and for a peer in one of them the
  -- next handler is called with the entry of the header that has `hops - 1` entries to its right, or
  -- with the peer's address when the header has fewer entries than `hops`, or is missing.
  pub dispatch_lem :
      (proxies : List Text) (hops : ℕ) (path peer : Text) (xff : Option Text)
      → 0 < hops
      → exempt_path path ≡ false
      → ((¬ IsTrusted peer proxies) × (dispatch ip proxies hops path (some peer) xff ≡ forbidden))
        ⊎ (IsTrusted peer proxies
            × (a : Text) × (dispatch ip proxies hops path (some peer) xff ≡ call_next (some a))
            × Credited peer xff hops a)
  unfolding dispatch forward
  dispatch_lem proxies hops path peer xff h exempt =
      elim (Bool-cases (ip_in_allowlist ip peer proxies)) [
        | inl trusted ↦
            let (a, e, credited) = resolve_client_ip-some xff peer hops h in
            inr (ip_in_allowlist-IsTrusted peer proxies trusted, a, ground arith, credited)
        | inr untrusted ↦ inl (
          (λ t.
              let trusted = IsTrusted-ip_in_allowlist peer proxies t in
              ground (arith, trusted, untrusted)),
          ground arith,
        )
      ]
