-- ===== src/Admin/Routes.antt =====
-- What the routes answer over dictionaries with the same keys.
use adaptive_admission_contr.Base.{
  ◌≤◌, ◌≡◌, refl, sym, subst, ◌∙◌, ◌⊎◌, inl, inr, Bool, true, none, some, List, [], ◌∷◌, map, In,
  Text, ◌==◌, ==_iff, Dict, lookup, keys, keys-eq-none, unique, length, filter, arith, Option-cases,
  Bool-cases, codes,
}
use adaptive_admission_contr.Base.Float.{Float}
use adaptive_admission_contr.Registry.{Backend, Registry, registry}
use adaptive_admission_contr.Registry.Routing.{registry-keys}
use adaptive_admission_contr.Balancer.{SplitUrl, Balancer, snapshot}
use adaptive_admission_contr.Startup.{Queues, BackendConfig, name_of, Controller, App}
use adaptive_admission_contr.Startup.Built.{IsStarted}
use adaptive_admission_contr.Startup.Served.{backends_of, names-backends}
use adaptive_admission_contr.Startup.Control.{current_limit}
use adaptive_admission_contr.Admin.{
  BackendPolicy, BackendSummary, error_detail, backends, policy, limit, upstreams, summary_of,
  backend_summary, summaries, list_backends, unknown_backend, backend_policy, backend_limit,
  upstreams_of, backend_upstreams,
}

length-filter-le {ℓ} : {A : Type ℓ} (p : A → Bool) (l : List A) → length (filter p l) ≤ length l
length-filter-le p [] = omega arith
length-filter-le p (x ∷ l) = ground (arith, length-filter-le p l)

-- Some key stands in both of two dictionaries with the same keys.
same-key :
    {V W : Type 0} (k : Text) (d : Dict V) (e : Dict W) (v : V)
    → keys d ≡ keys e
    → lookup k d ≡ some v
    → (w : W) × (lookup k e ≡ some w)
same-key k d e v same known = elim (Option-cases (lookup k e)) [
  | inr (w, found) ↦ (w, found)
  | inl missing ↦ absurd (ground (arith, known, keys-eq-none e d k (sym same) missing))
]

known_each :
    {V : Type 0} (d : Dict V) (name : Text) → In name (keys d) → (p : V) × (lookup name d ≡ some p)
unfolding lookup
known_each [] name i = absurd i
known_each ((k, p) ∷ d) name (inl e) = (p, ground (arith, e, ==_iff k name))
known_each ((k, p) ∷ d) name (inr i) =
    let (q, found) = known_each d name i in
    elim (Bool-cases (k == name)) [ inl head ↦ (p, rw head refl) | inr tail ↦ (q, rw tail found) ]

module _ ⦃fl : Float⦄ {Q : Type 0} where
  pub record IsConsistent (a : App Q) (r : Registry BackendPolicy) : Type 0 where
    pub controllers : keys r.policies ≡ keys a.controllers
    pub schedulers : keys r.policies ≡ keys a.schedulers
    pub load_balancers : keys r.policies ≡ keys a.load_balancers

  -- A summary of a backend that the registry knows.
  pub record IsSummary (a : App Q) (r : Registry BackendPolicy) (name : Text) (s : BackendSummary)
      : Type 0 where
    pub named : s.name ≡ name
    pub healthy : s.healthy_upstream_count ≤ s.upstream_count
    pub controller : Controller
    pub controlled : lookup name a.controllers ≡ some controller
    pub limited : s.current_limit ≡ current_limit controller
    pub load_balancer : Balancer
    pub balanced : lookup name a.load_balancers ≡ some load_balancer
    pub counted : s.upstream_count ≡ length (snapshot load_balancer)

  -- One summary for each name, in order.
  pub data AreSummaries (a : App Q) (r : Registry BackendPolicy)
      : List Text → List BackendSummary → Type 0 where
    nil : AreSummaries a r [] []
    cons :
        {name : Text} {names : List Text} {s : BackendSummary} {l : List BackendSummary}
        → IsSummary a r name s
        → AreSummaries a r names l
        → AreSummaries a r (name ∷ names) (s ∷ l)

  backend_summary-IsSummary :
      (a : App Q) (r : Registry BackendPolicy) (name : Text) (p : BackendPolicy)
      → IsConsistent a r
      → lookup name r.policies ≡ some p
      → (s : BackendSummary) × (backend_summary a r name ≡ some s) × IsSummary a r name s
  unfolding backend_summary summary_of
  backend_summary-IsSummary a r name p v known =
      let (c, limits) = same-key name r.policies a.controllers p v.controllers known in
      let (s, queues) = same-key name r.policies a.schedulers p v.schedulers known in
      let (b, pool) = same-key name r.policies a.load_balancers p v.load_balancers known in
      (
        summary_of a r name p c s (snapshot b),
        rw (known, limits, queues, pool) refl,
        record {
          named = refl;
          healthy = length-filter-le (λ u. u.is_healthy) (snapshot b);
          controller = c;
          controlled = limits;
          limited = refl;
          load_balancer = b;
          balanced = pool;
          counted = refl;
        },
      )

  summaries-AreSummaries :
      (a : App Q) (r : Registry BackendPolicy) (names : List Text)
      → IsConsistent a r
      → ((name : Text) → In name names → In name (keys r.policies))
      → (l : List BackendSummary) × (summaries a r names ≡ some l) × AreSummaries a r names l
  unfolding summaries
  summaries-AreSummaries a r [] v known = ([], refl, nil)
  summaries-AreSummaries a r (name ∷ names) v known =
      let (p, here) = known_each r.policies name (known name (inl refl)) in
      let (s, first, good) = backend_summary-IsSummary a r name p v here in
      let (l, rest, all) = summaries-AreSummaries a r names v (λ n i. known n (inr i)) in
      (s ∷ l, rw (first, rest) refl, cons good all)

  -- What the routes below a backend's name answer: 404 for an unknown one.
  pub record IsUnknown (a : App Q) (r : Registry BackendPolicy) (name : Text) : Type 0 where
    pub missing : lookup name r.policies ≡ none
    pub for_policy : backend_policy a r name ≡ some (error_detail 404 (codes "unknown backend"))
    pub for_limit : backend_limit a r name ≡ some (error_detail 404 (codes "unknown backend"))
    pub for_upstreams :
        backend_upstreams a r name ≡ some (error_detail 404 (codes "unknown backend"))

  -- For a known one, what its own parts say.
  pub record IsKnown (a : App Q) (r : Registry BackendPolicy) (name : Text) : Type 0 where
    pub found : BackendPolicy
    pub present : lookup name r.policies ≡ some found
    pub controller : Controller
    pub controlled : lookup name a.controllers ≡ some controller
    pub load_balancer : Balancer
    pub balanced : lookup name a.load_balancers ≡ some load_balancer
    pub for_policy : backend_policy a r name ≡ some (policy found)
    pub for_limit : backend_limit a r name ≡ some (limit name (current_limit controller))
    pub for_upstreams :
        backend_upstreams a r name
        ≡ some (upstreams name found.config.sticky_sessions (snapshot load_balancer))

  routes-cases :
      (a : App Q) (r : Registry BackendPolicy) (name : Text)
      → IsConsistent a r
      → IsUnknown a r name ⊎ IsKnown a r name
  unfolding backend_policy backend_limit backend_upstreams upstreams_of unknown_backend
  routes-cases a r name v = elim (Option-cases (lookup name r.policies)) [
    | inl missing ↦
        let gone = keys-eq-none r.policies a.controllers name v.controllers missing in
        inl (record {
          missing = missing;
          for_policy = rw (missing, backend_policy) refl;
          for_limit = rw (gone, backend_limit) refl;
          for_upstreams = rw (missing, backend_upstreams) refl;
        })
    | inr (p, known) ↦
        let (c, limits) = same-key name r.policies a.controllers p v.controllers known in
        let (b, pool) = same-key name r.policies a.load_balancers p v.load_balancers known in
        inr (record {
          found = p;
          present = known;
          controller = c;
          controlled = limits;
          load_balancer = b;
          balanced = pool;
          for_policy = rw (known, backend_policy) refl;
          for_limit = rw (limits, backend_limit) refl;
          for_upstreams = rw (known, backend_upstreams, upstreams_of, pool) refl;
        })
  ]

  -- Where the dictionaries have the registry's names as keys, no route raises: the list has one
  -- summary for each policy, in order, with the limit of its controller and no more healthy
  -- instances than it has; a route below a known name answers from that backend's own controller
  -- and load balancer, and one below an unknown name answers 404.
  pub admin_routes-answer :
      (a : App Q) (r : Registry BackendPolicy) (name : Text)
      → IsConsistent a r
      → (l : List BackendSummary) × (list_backends a r ≡ some (backends l))
        × AreSummaries a r (keys r.policies) l
        × (IsUnknown a r name ⊎ IsKnown a r name)
  unfolding list_backends
  admin_routes-answer a r name v =
      let (l, listed, all) = summaries-AreSummaries a r (keys r.policies) v (λ n i. i) in
      (l, rw (listed, list_backends) refl, all, routes-cases a r name v)

  -- What the start builds is consistent with the registry of the same backends.
  pub started-IsConsistent :
      (urlsplit : Text → SplitUrl) (qs : Queues Q) (bs : List BackendConfig) (a : App Q)
      (config : Backend → BackendPolicy)
      → unique (map name_of bs) ≡ true
      → IsStarted urlsplit qs bs a
      → IsConsistent a (registry config (backends_of bs))
  started-IsConsistent urlsplit qs bs a config h v =
      let names =
        registry-keys config (backends_of bs)
          (subst (λ l. unique l ≡ true) (sym (names-backends bs)) h)
        ∙ names-backends bs in
      record {
        controllers = names ∙ sym v.keys.0;
        load_balancers = names ∙ sym v.keys.1;
        schedulers = names ∙ sym v.keys.4;
      }
