-- ===== src/Startup.antt =====
-- app/main.py: what `lifespan` builds from the configured backends (app/config.py), and the tasks
-- that it starts. A scheduler shares the controller of its backend, so the one state of it stands
-- in `controllers`.
pub mod Built
pub mod Control
pub mod Served
mod Tests
use adaptive_admission_contr.Base.{
  ℕ, ◌≡◌, Bool, true, false, if◌then◌else◌, Option, none, some, List, [], ◌∷◌, ◌++◌, map, Text,
  Dict, lookup, insert, table,
}
use adaptive_admission_contr.Base.Float.{Float}
use adaptive_admission_contr.Registry.{Backend}
use adaptive_admission_contr.Config.{◌>>=◌}
use adaptive_admission_contr.Capacity.{
  FixedController, AdaptiveConfig, AdaptiveController, fixed, adaptive,
}
use adaptive_admission_contr.Balancer.{SplitUrl, Balancer, init}
use adaptive_admission_contr.Auth.{Jwt, Fetched, Verifier, initial_fetch}
use adaptive_admission_contr.Scheduler.{PriorityQueue}
use adaptive_admission_contr.Handler.{Backlog}

pub data Task : Type 0 where
  refresh_loop : Task
  health_check_loop : (backend : Text) → Task
  adjust_loop : (backend : Text) → Task
  run_worker : (backend : Text) → Task

module _ ⦃fl : Float⦄ where
  open fl use {F}

  -- `asyncio.PriorityQueue(maxsize=n)`: the operations on the queue, and the empty one.
  pub record Queues (Q : Type 0) : Type 0 where
    pub bounds : (maxsize : ℕ) → PriorityQueue Q
    pub empty : Q
    pub none_waits : (maxsize : ℕ) → (bounds maxsize).contents empty ≡ []

  -- The fields that the two classes of backends do not share.
  pub data Limits : Type 0 where
    fixed_limit : (concurrency_limit : ℕ) → Limits
    adaptive_limit : AdaptiveConfig → Limits

  pub record BackendConfig : Type 0 where
    pub backend : Backend
    pub limits : Limits
    pub upstreams : List Text
    pub backup_upstreams : List Text
    pub queue_max_size : ℕ
    pub queue_timeout_seconds : F
    pub sticky_sessions : Bool
    pub sticky_session_ttl_seconds : F

  abbrev pub name_of : BackendConfig → Text
  name_of b = b.backend.name

  pub data Controller : Type 0 where
    fixed_controller : FixedController → Controller
    adaptive_controller : AdaptiveController → Controller

  pub controller_of : Limits → Controller
  unfolding fixed adaptive
  controller_of (fixed_limit n) = fixed_controller (fixed n)
  controller_of (adaptive_limit config) = adaptive_controller (adaptive config)

  pub load_balancer_of : (Text → SplitUrl) → BackendConfig → Balancer
  unfolding init
  load_balancer_of urlsplit b =
      init urlsplit b.upstreams b.backup_upstreams b.sticky_sessions b.sticky_session_ttl_seconds

  -- A `PriorityScheduler`, but for its controller.
  pub record Scheduling (Q : Type 0) : Type 0 where
    pub bounds : PriorityQueue Q
    pub queue : Q
    pub queue_timeout : F

  -- The tasks of a backend: its worker, and the loop of an adaptive controller.
  pub tasks_of : BackendConfig → List Task
  tasks_of b = elim b.limits [
    | fixed_limit n ↦ run_worker (name_of b) ∷ []
    | adaptive_limit config ↦ adjust_loop (name_of b) ∷ run_worker (name_of b) ∷ []
  ]

  -- A dispatcher is of a backend, and shares the load balancer of that name.
  pub record Dispatching : Type 0 where
    pub backend : BackendConfig
    pub load_balancer : Balancer

  -- `app.state`, as far as the backends are concerned; `capacity_hints` holds the controller whose
  -- `current_limit` the load balancer of that name asks.
  pub record App (Q : Type 0) : Type 0 where
    pub controllers : Dict Controller
    pub load_balancers : Dict Balancer
    pub capacity_hints : Dict Controller
    pub dispatchers : Dict Dispatching
    pub schedulers : Dict (Scheduling Q)
    pub tasks : List Task

  -- `{b.name: f(b, parts[b.name]) for b in bs}`, over the entries of `d`; `none` is a KeyError.
  pub parts_of :
      {A B : Type 0}
      → Dict A
      → (BackendConfig → A → B)
      → List BackendConfig
      → Dict B
      → Option (Dict B)
  unfolding lookup insert
  parts_of parts f [] d = some d
  parts_of parts f (b ∷ bs) d = elim (lookup (name_of b) parts) [
    | none ↦ none
    | some a ↦ parts_of parts f bs (insert (name_of b) (f b a) d)
  ]

  pub load_balancers_of :
      (Text → SplitUrl) → Dict Controller → List BackendConfig → Option (Dict Balancer)
  unfolding load_balancer_of parts_of
  load_balancers_of urlsplit cs bs = parts_of cs (λ b c. load_balancer_of urlsplit b) bs []

  pub capacity_hints_of : Dict Controller → List BackendConfig → Option (Dict Controller)
  unfolding parts_of
  capacity_hints_of cs bs = parts_of cs (λ b c. c) bs []

  pub dispatchers_of : Dict Balancer → List BackendConfig → Option (Dict Dispatching)
  unfolding parts_of
  dispatchers_of ls bs = parts_of ls (λ b l. record { backend = b; load_balancer = l }) bs []

  module _ {Q : Type 0} where
    pub scheduler_of : Queues Q → BackendConfig → Scheduling Q
    scheduler_of qs b = record {
      bounds = qs.bounds b.queue_max_size;
      queue = qs.empty;
      queue_timeout = b.queue_timeout_seconds;
    }

    -- The loop that builds the schedulers and starts their tasks; `none` is the KeyError of
    -- `controllers[backend.name]`.
    pub schedulers_of :
        Queues Q
        → Dict Controller
        → List BackendConfig
        → Dict (Scheduling Q) × List Task
        → Option (Dict (Scheduling Q) × List Task)
    unfolding lookup insert scheduler_of tasks_of
    schedulers_of qs cs [] built = some built
    schedulers_of qs cs (b ∷ bs) (d, tasks) =
        let rest =
          schedulers_of qs cs bs (insert (name_of b) (scheduler_of qs b) d, tasks ++ tasks_of b) in
        elim (lookup (name_of b) cs) [ none ↦ none | some c ↦ rest ]

    -- `lifespan`, from the controllers on: the load balancers look the controllers up, the
    -- dispatchers the load balancers, and the schedulers the controllers.
    unfoldable pub start : (Text → SplitUrl) → Queues Q → List BackendConfig → Option (App Q)
    unfolding table schedulers_of load_balancers_of capacity_hints_of dispatchers_of controller_of
    start urlsplit qs bs =
        let cs = table name_of (λ b. controller_of b.limits) bs [] in
        do
          ls ← load_balancers_of urlsplit cs bs
          hints ← capacity_hints_of cs bs
          ds ← dispatchers_of ls bs
          scheduled ←
              schedulers_of qs cs bs ([], refresh_loop ∷ map (λ e. health_check_loop e.0) ls)
          some (record {
            controllers = cs;
            load_balancers = ls;
            capacity_hints = hints;
            dispatchers = ds;
            schedulers = scheduled.0;
            tasks = scheduled.1;
          })

    -- `lifespan`: the first fetch of the key set, and then the parts of the backends. The
    -- configurations of the scores are resolved between the two: `resolve_scoring_config`.
    unfoldable pub lifespan :
        (jwt : Jwt)
        → (Text → SplitUrl)
        → Queues Q
        → List BackendConfig
        → Fetched jwt.Jwk
        → Verifier jwt
        → Option (App Q × Verifier jwt)
    unfolding start
    lifespan jwt urlsplit qs bs fetched verifier = do
      auth ← initial_fetch jwt fetched verifier
      app ← start urlsplit qs bs
      some (app, auth)

    -- What a scheduler works on: itself with the controller that it shares.
    abbrev pub backlog_of : Controller → Scheduling Q → Backlog Controller Q
    backlog_of c s = record {
      controller = c;
      bounds = s.bounds;
      queue = s.queue;
      queue_timeout = s.queue_timeout;
    }

    pub backlogs_of : Dict Controller → Dict (Scheduling Q) → Dict (Backlog Controller Q)
    unfolding lookup
    backlogs_of cs [] = []
    backlogs_of cs ((k, s) ∷ d) =
        let rest = backlogs_of cs d in
        elim (lookup k cs) [ none ↦ rest | some c ↦ (k, backlog_of c s) ∷ rest ]

    pub backlogs : App Q → Dict (Backlog Controller Q)
    unfolding backlogs_of
    backlogs a = backlogs_of a.controllers a.schedulers
