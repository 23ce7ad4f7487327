-- ===== src/Startup/Built.antt =====
-- What stands in the dictionaries after the start.
use adaptive_admission_contr.Base.{
  ◌≡◌, refl, sym, ap, ◌∙◌, inl, inr, true, false, Bool-cases, ◌==◌, some, List, [], ◌∷◌, ◌++◌, map,
  In, Text, ==_iff, append_assoc, append_nil, Dict, lookup, insert, keys, table, lookup-table,
  keys-table, unique, arith, Option-cases,
}
use adaptive_admission_contr.Base.Float.{Float}
use adaptive_admission_contr.Balancer.{SplitUrl, Balancer, init}
use adaptive_admission_contr.Capacity.{
  FixedController, AdaptiveController, fixed, adaptive, open_gate,
}
use adaptive_admission_contr.Startup.{
  Queues, Task, refresh_loop, health_check_loop, BackendConfig, name_of, Controller, controller_of,
  load_balancer_of, Scheduling, scheduler_of, tasks_of, schedulers_of, App, start, adjust_loop,
  run_worker, Limits, fixed_limit, adaptive_limit, fixed_controller, adaptive_controller,
  Dispatching, parts_of, load_balancers_of, capacity_hints_of, dispatchers_of, backlog_of,
  backlogs_of,
}

some_inj : {A : Type 0} {a b : A} → some a ≡ some b → a ≡ b
some_inj e = cc

lookup-first :
    {V : Type 0} (i k : Text) (v : V) (d : Dict V)
    → (i == k) ≡ true
    → lookup k ((i, v) ∷ d) ≡ some v
unfolding lookup
lookup-first i k v d same = ground (arith, same)

lookup-later :
    {V : Type 0} (i k : Text) (v : V) (d : Dict V)
    → (i == k) ≡ false
    → lookup k ((i, v) ∷ d) ≡ lookup k d
unfolding lookup
lookup-later i k v d other = ground (arith, other)

module _ ⦃fl : Float⦄ where
  -- The tasks of all backends, in the order of the configuration: a worker for each, and before it
  -- an adjusting loop for an adaptive one.
  pub tasks_each : List BackendConfig → List Task
  tasks_each [] = []
  tasks_each (b ∷ bs) = elim b.limits [
    | fixed_limit n ↦ run_worker (name_of b) ∷ tasks_each bs
    | adaptive_limit config ↦ adjust_loop (name_of b) ∷ run_worker (name_of b) ∷ tasks_each bs
  ]

  tasks_each-tasks_of :
      (b : BackendConfig) (bs : List BackendConfig)
      → tasks_of b ++ tasks_each bs ≡ tasks_each (b ∷ bs)
  unfolding tasks_of tasks_each
  tasks_each-tasks_of b bs =
      elim b.limits
        as (λ l.
          elim l [
            | fixed_limit n ↦ run_worker (name_of b) ∷ []
            | adaptive_limit config ↦ adjust_loop (name_of b) ∷ run_worker (name_of b) ∷ []
          ]
            ++ tasks_each bs
          ≡ elim l [
            | fixed_limit n ↦ run_worker (name_of b) ∷ tasks_each bs
            | adaptive_limit config ↦
                adjust_loop (name_of b) ∷ run_worker (name_of b) ∷ tasks_each bs
          ]) [ fixed_limit n ↦ refl | adaptive_limit config ↦ refl ]

  -- The loops of the health checks, likewise.
  pub checks_each : List BackendConfig → List Task
  checks_each [] = []
  checks_each (b ∷ bs) = health_check_loop (name_of b) ∷ checks_each bs

  checks-keys :
      {A : Type 0} (d : Dict A) (bs : List BackendConfig)
      → keys d ≡ map name_of bs
      → map (λ e. health_check_loop e.0) d ≡ checks_each bs
  unfolding checks_each
  checks-keys [] [] e = refl
  checks-keys [] (b ∷ bs) e = cc
  checks-keys (x ∷ d) [] e = cc
  checks-keys (x ∷ d) (b ∷ bs) e =
      let first : x.0 ≡ name_of b = cc in rw (first, checks-keys d bs cc) refl

  -- Where every part is found under the name of its backend, the comprehension has no KeyError.
  parts_of-table :
      {A B : Type 0} (parts : Dict A) (f : BackendConfig → A → B) (part : BackendConfig → A)
      (bs : List BackendConfig) (d : Dict B)
      → ((b : BackendConfig) → In b bs → lookup (name_of b) parts ≡ some (part b))
      → parts_of parts f bs d ≡ some (table name_of (λ b. f b (part b)) bs d)
  unfolding parts_of table
  parts_of-table parts f part [] d known = refl
  parts_of-table parts f part (b ∷ bs) d known =
      rw (known b (inl refl), parts_of)
        (parts_of-table parts f part bs (insert (name_of b) (f b (part b)) d)
          (λ x i. known x (inr i)))

  -- The controller is of the class and has the limit of the configuration, and nothing is in
  -- flight.
  abbrev pub IsFresh : Limits → Controller → Type 0
  IsFresh (fixed_limit n) k =
      (c : FixedController) × (k ≡ fixed_controller c) × (c.gate.limit ≡ n) × (c.gate.in_flight ≡ 0)
  IsFresh (adaptive_limit config) k =
      (c : AdaptiveController) × (k ≡ adaptive_controller c)
      × (c.config ≡ config)
      × (c.gate.limit ≡ config.initial_concurrency)
      × (c.gate.in_flight ≡ 0)

  controller_of-IsFresh : (l : Limits) → IsFresh l (controller_of l)
  unfolding controller_of fixed adaptive open_gate
  controller_of-IsFresh (fixed_limit n) = (fixed n, refl, refl, refl)
  controller_of-IsFresh (adaptive_limit config) = (adaptive config, refl, refl, refl, refl)

  abbrev dispatching_of : (Text → SplitUrl) → BackendConfig → Dispatching
  dispatching_of urlsplit b = record { backend = b; load_balancer = load_balancer_of urlsplit b }

  module _ {Q : Type 0} where
    -- Every backend's controller is found.
    schedulers_of-table :
        (qs : Queues Q) (cs : Dict Controller) (bs : List BackendConfig) (d : Dict (Scheduling Q))
        (ts : List Task)
        → ((b : BackendConfig) → In b bs → (c : Controller) × (lookup (name_of b) cs ≡ some c))
        → schedulers_of qs cs bs (d, ts)
          ≡ some (table name_of (scheduler_of qs) bs d, ts ++ tasks_each bs)
    unfolding schedulers_of tasks_each table
    schedulers_of-table qs cs [] d ts known = ap (λ l. some (d, l)) (sym (append_nil ts))
    schedulers_of-table qs cs (b ∷ bs) d ts known =
        let (c, here) = known b (inl refl) in
        let rest =
          schedulers_of-table qs cs bs (insert (name_of b) (scheduler_of qs b) d) (ts ++ tasks_of b)
            (λ x i. known x (inr i)) in
        rw (schedulers_of, here)
          (rest
            ∙ ap (λ l. some (table name_of (scheduler_of qs) (b ∷ bs) d, l))
                (append_assoc ts (tasks_of b) (tasks_each bs)
                  ∙ ap (◌++◌ ts) (tasks_each-tasks_of b bs)))

    pub lookup-backlogs_of :
        (cs : Dict Controller) (d : Dict (Scheduling Q)) (k : Text) (c : Controller)
        (s : Scheduling Q)
        → lookup k cs ≡ some c
        → lookup k d ≡ some s
        → lookup k (backlogs_of cs d) ≡ some (backlog_of c s)
    unfolding backlogs_of lookup
    lookup-backlogs_of cs [] k c s known there = cc
    lookup-backlogs_of cs ((i, r) ∷ d) k c s known there = elim (Bool-cases (i == k)) [
      | inl same ↦
          let mine : r ≡ s = some_inj (sym (lookup-first i k r d same) ∙ there) in
          let found : lookup i cs ≡ some c = ap (λ n. lookup n cs) ((==_iff i k).0 same) ∙ known in
          rw (found, backlogs_of)
            (lookup-first i k (backlog_of c r) (backlogs_of cs d) same
              ∙ ap (λ x. some (backlog_of c x)) mine)
      | inr other ↦
          let below = sym (lookup-later i k r d other) ∙ there in
          let rest = lookup-backlogs_of cs d k c s known below in
          elim (Option-cases (lookup i cs)) [
            | inl missing ↦ rw (missing, backlogs_of) rest
            | inr (x, found) ↦
                rw (found, backlogs_of)
                  (lookup-later i k (backlog_of x r) (backlogs_of cs d) other ∙ rest)
          ]
    ]

    -- The parts of a backend.
    pub record HasParts (urlsplit : Text → SplitUrl) (qs : Queues Q) (a : App Q) (b : BackendConfig)
        : Type 0 where
      pub controller : Controller
      pub load_balancer : Balancer
      pub scheduling : Scheduling Q
      pub controls : lookup (name_of b) a.controllers ≡ some controller
      pub fresh : IsFresh b.limits controller
      pub balances : lookup (name_of b) a.load_balancers ≡ some load_balancer
      pub configured :
          load_balancer
          ≡ init urlsplit b.upstreams b.backup_upstreams b.sticky_sessions
              b.sticky_session_ttl_seconds
      pub hint : lookup (name_of b) a.capacity_hints ≡ some controller
      pub dispatcher :
          lookup (name_of b) a.dispatchers
          ≡ some (record { backend = b; load_balancer = load_balancer })
      pub schedules : lookup (name_of b) a.schedulers ≡ some scheduling
      pub bounds : scheduling.bounds ≡ qs.bounds b.queue_max_size
      pub nothing_waits : scheduling.bounds.contents scheduling.queue ≡ []
      pub timeout : scheduling.queue_timeout ≡ b.queue_timeout_seconds

    -- Every backend has its own parts, and the tasks are the loop of the key set, one health check
    -- and one worker for each backend, and an adjusting loop for each adaptive one.
    pub record IsStarted (urlsplit : Text → SplitUrl) (qs : Queues Q) (bs : List BackendConfig)
        (a : App Q) : Type 0 where
      pub parts : (b : BackendConfig) → In b bs → HasParts urlsplit qs a b
      pub tasks : a.tasks ≡ refresh_loop ∷ (checks_each bs ++ tasks_each bs)
      pub keys :
          (map (λ e. e.0) a.controllers ≡ map name_of bs)
          × (map (λ e. e.0) a.load_balancers ≡ map name_of bs)
          × (map (λ e. e.0) a.capacity_hints ≡ map name_of bs)
          × (map (λ e. e.0) a.dispatchers ≡ map name_of bs)
          × (map (λ e. e.0) a.schedulers ≡ map name_of bs)

    abbrev app_of : (Text → SplitUrl) → Queues Q → List BackendConfig → App Q
    app_of urlsplit qs bs =
        let ls = table name_of (load_balancer_of urlsplit) bs [] in
        record {
          controllers = table name_of (λ b. controller_of b.limits) bs [];
          load_balancers = ls;
          capacity_hints = table name_of (λ b. controller_of b.limits) bs [];
          dispatchers = table name_of (dispatching_of urlsplit) bs [];
          schedulers = table name_of (scheduler_of qs) bs [];
          tasks = refresh_loop ∷ (map (λ e. health_check_loop e.0) ls ++ tasks_each bs);
        }

    start-app_of :
        (urlsplit : Text → SplitUrl) (qs : Queues Q) (bs : List BackendConfig)
        → unique (map name_of bs) ≡ true
        → start urlsplit qs bs ≡ some (app_of urlsplit qs bs)
    unfolding start load_balancers_of capacity_hints_of dispatchers_of
    start-app_of urlsplit qs bs h =
        let cs = table name_of (λ b. controller_of b.limits) bs [] in
        let ls = table name_of (load_balancer_of urlsplit) bs [] in
        let known : (b : BackendConfig)
            → In b bs
            → lookup (name_of b) cs ≡ some (controller_of b.limits) =
          λ b i. lookup-table name_of (λ b. controller_of b.limits) bs b [] h i in
        let balanced : (b : BackendConfig)
            → In b bs
            → lookup (name_of b) ls ≡ some (load_balancer_of urlsplit b) =
          λ b i. lookup-table name_of (load_balancer_of urlsplit) bs b [] h i in
        let first = refresh_loop ∷ map (λ e. health_check_loop e.0) ls in
        let balancers =
          parts_of-table cs (λ b c. load_balancer_of urlsplit b) (λ b. controller_of b.limits) bs []
            known in
        let hints = parts_of-table cs (λ b c. c) (λ b. controller_of b.limits) bs [] known in
        let dispatchers =
          parts_of-table {B = Dispatching} ls (λ b l. record { backend = b; load_balancer = l })
            (load_balancer_of urlsplit) bs [] balanced in
        rw
          (
            balancers,
            hints,
            dispatchers,
            schedulers_of-table qs cs bs [] first (λ b i. (_, known b i)),
          )
          refl

    app_of-HasParts :
        (urlsplit : Text → SplitUrl) (qs : Queues Q) (bs : List BackendConfig) (b : BackendConfig)
        → unique (map name_of bs) ≡ true
        → In b bs
        → HasParts urlsplit qs (app_of urlsplit qs bs) b
    unfolding load_balancer_of scheduler_of
    app_of-HasParts urlsplit qs bs b h i = record {
      controller = controller_of b.limits;
      load_balancer = load_balancer_of urlsplit b;
      scheduling = scheduler_of qs b;
      controls = lookup-table name_of (λ b. controller_of b.limits) bs b [] h i;
      fresh = controller_of-IsFresh b.limits;
      balances = lookup-table name_of (load_balancer_of urlsplit) bs b [] h i;
      configured = refl;
      hint = lookup-table name_of (λ b. controller_of b.limits) bs b [] h i;
      dispatcher = lookup-table name_of (dispatching_of urlsplit) bs b [] h i;
      schedules = lookup-table name_of (scheduler_of qs) bs b [] h i;
      bounds = refl;
      nothing_waits = qs.none_waits b.queue_max_size;
      timeout = refl;
    }

    pub start-IsStarted :
        (urlsplit : Text → SplitUrl) (qs : Queues Q) (bs : List BackendConfig)
        → unique (map name_of bs) ≡ true
        → (a : App Q) × (start urlsplit qs bs ≡ some a) × IsStarted urlsplit qs bs a
    start-IsStarted urlsplit qs bs h =
        let ls = table name_of (load_balancer_of urlsplit) bs [] in
        let names = keys-table name_of (load_balancer_of urlsplit) bs h in
        (
          app_of urlsplit qs bs,
          start-app_of urlsplit qs bs h,
          record {
            parts = λ b i. app_of-HasParts urlsplit qs bs b h i;
            keys = (
              keys-table name_of (λ b. controller_of b.limits) bs h,
              names,
              keys-table name_of (λ b. controller_of b.limits) bs h,
              keys-table name_of (dispatching_of urlsplit) bs h,
              keys-table name_of (scheduler_of qs) bs h,
            );
            tasks = ap (λ l. refresh_loop ∷ (l ++ tasks_each bs)) (checks-keys ls bs names);
          },
        )
