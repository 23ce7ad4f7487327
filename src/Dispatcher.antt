-- ===== src/Dispatcher.antt =====
-- app/dispatcher.py: `BackendDispatcher`. The HTTP client is a parameter: `send` gives what
-- `_send_and_stream` returns or raises, and what other tasks have done to the shared state
-- meanwhile. The clock's readings are arguments.
mod Headers
mod Forward
mod Outcome
mod Counted
mod Balance
mod Tests
use adaptive_admission_contr.Base.{
  ℕ, ◌+◌, Bool, true, false, not, ◌&&◌, ◌||◌, if◌then◌else◌, ltb, leb, eqb, Option, none, some,
  List, [], ◌∷◌, ◌++◌, filter, any, Text, codes, ◌==◌, lower,
}
use adaptive_admission_contr.Base.Float.{Float}
use adaptive_admission_contr.Interfaces.{RequestContext, CapacityController}
use adaptive_admission_contr.Balancer.{Balancer, select, release}

pub hop_by_hop_headers : List Text
hop_by_hop_headers =
    codes "connection"
    ∷ codes "keep-alive"
    ∷ codes "proxy-authenticate"
    ∷ codes "proxy-authorization"
    ∷ codes "te"
    ∷ codes "trailer"
    ∷ codes "transfer-encoding"
    ∷ codes "upgrade"
    ∷ codes "host"
    ∷ []

pub is_hop_by_hop : Text → Bool
unfolding lower hop_by_hop_headers
is_hop_by_hop k = any (λ h. h == lower k) hop_by_hop_headers

pub strip_hop_by_hop : List (Text × Text) → List (Text × Text)
unfolding is_hop_by_hop
strip_hop_by_hop items = filter (λ e. not (is_hop_by_hop e.0)) items

-- What the client raises: `httpx.ConnectError`, `ConnectTimeout`, another `TimeoutException`,
-- another `HTTPError`, or an exception of another kind.
pub data SendError : Type 0 where
  connect_error : SendError
  connect_timeout : SendError
  other_timeout : SendError
  other_http_error : SendError
  not_http_error : SendError

pub data Sent : Type 0 where
  answered : (status_code : ℕ) (headers : List (Text × Text)) → Sent
  failed : SendError → Sent

pub is_connect_failure : SendError → Bool
is_connect_failure connect_error = true
is_connect_failure connect_timeout = true
is_connect_failure _ = false

pub is_timeout_exception : SendError → Bool
is_timeout_exception connect_timeout = true
is_timeout_exception other_timeout = true
is_timeout_exception _ = false

pub is_http_error : SendError → Bool
is_http_error not_http_error = false
is_http_error _ = true

pub data Response : Type 0 where
  json_response : (status_code : ℕ) (detail : Text) (reason : Option Text) → Response
  streaming_response : (status_code : ℕ) (headers : List (Text × Text)) → Response

pub data Future : Type 0 where
  pending : Future
  cancelled : Future
  resolved : Response → Future

pub is_cancelled : Future → Bool
is_cancelled cancelled = true
is_cancelled _ = false

module _ ⦃fl : Float⦄ where
  open fl use {F, minus, times, over, of_ℕ}

  -- The metrics and the log line, in the order in which they are written.
  pub data Event : Type 0 where
    backend_errors_total : (name : Text) → Event
    backend_timeouts_total : (name : Text) → Event
    instance_errors_total : (name url : Text) → Event
    instance_connect_failures_total : (name url : Text) → Event
    request_duration_seconds : (name class_label : Text) → F → Event
    log_admitted : (queue_wait_ms backend_latency_ms : F) (status_code : ℕ) → Event

  -- The state that a dispatch shares with the other tasks, and its own future and upstream response.
  pub record World (S : Type 0) : Type 0 where
    pub balancer : Balancer
    pub controller : S
    pub events : List Event
    pub future : Future
    pub upstream_closed : Bool

  -- The request's labels, the instance that serves it, and the readings of the clock: before
  -- sending, in the balancer's `release`, and for the latency.
  pub record Job : Type 0 where
    pub name : Text
    pub class_label : Text
    pub queue_wait_ms : F
    pub url : Text
    pub start : F
    pub released_at : F
    pub finished : F

  pub latency_ms : Job → F
  latency_ms j = times (minus j.finished j.start) (of_ℕ 1000)

  pub duration : Job → Event
  unfolding latency_ms
  duration j = request_duration_seconds j.name j.class_label (over (latency_ms j) (of_ℕ 1000))

  pub admitted : Job → ℕ → Event
  unfolding latency_ms
  admitted j status_code = log_admitted j.queue_wait_ms (latency_ms j) status_code

  pub server_errors : Job → ℕ → List Event
  server_errors j status_code =
      if leb 500 status_code
      then backend_errors_total j.name ∷ instance_errors_total j.name j.url ∷ []
      else []

  -- How a dispatch ends: it returns, or an exception leaves it, in a state.
  pub data Ending (S : Type 0) : Type 0 where
    returns : World S → Ending S
    raises : World S → Ending S

  module _ {S : Type 0} where
    -- The instance and the slot are released.
    pub settle :
        CapacityController S
        → Job
        → (connect_failed : Bool) → (status_code : ℕ) → (timed_out : Bool) → World S
        → World S
    unfolding latency_ms
    settle ctl j connect_failed status_code timed_out w = record w {
      balancer = release j.url connect_failed j.released_at w.balancer;
      controller = ctl.release 1 (latency_ms j) status_code timed_out w.controller;
    }

    pub report : List Event → World S → World S
    report events w = record w { events = w.events ++ events }

    -- `if not future.cancelled(): future.set_result(response)`
    pub resolve : Response → World S → World S
    unfolding is_cancelled
    resolve response w =
        if is_cancelled w.future then w else record w { future = resolved response }

    pub on_connect_failure : CapacityController S → Job → World S → World S
    unfolding settle report resolve duration admitted
    on_connect_failure ctl j w = resolve (json_response 502 (codes "bad gateway") none) (
        report
          (backend_errors_total j.name
            ∷ instance_errors_total j.name j.url
            ∷ instance_connect_failures_total j.name j.url
            ∷ duration j
            ∷ admitted j 502
            ∷ [])
          (settle ctl j true 0 false w))

    pub on_timeout : CapacityController S → Job → World S → World S
    unfolding settle report resolve duration admitted
    on_timeout ctl j w =
        resolve (json_response 503 (codes "gateway timeout") (some (codes "backend_timeout"))) (
          report (backend_timeouts_total j.name ∷ duration j ∷ admitted j 503 ∷ [])
            (settle ctl j false 0 true w))

    pub on_http_error : CapacityController S → Job → World S → World S
    unfolding settle report resolve duration admitted
    on_http_error ctl j w = resolve (json_response 502 (codes "bad gateway") none) (
        report
          (backend_errors_total j.name
            ∷ instance_errors_total j.name j.url
            ∷ duration j
            ∷ admitted j 502
            ∷ [])
          (settle ctl j false 0 false w))

    -- The client has gone, so nobody reads the body; else the response is handed over.
    pub deliver : Response → World S → World S
    unfolding is_cancelled
    deliver response w =
        if is_cancelled w.future
        then record w { upstream_closed = true }
        else record w { future = resolved response }

    pub on_answer : CapacityController S → Job → ℕ → List (Text × Text) → World S → World S
    unfolding settle report deliver duration admitted server_errors strip_hop_by_hop
    on_answer ctl j status_code headers w =
        deliver (streaming_response status_code (strip_hop_by_hop headers)) (
          report (server_errors j status_code ++ duration j ∷ admitted j status_code ∷ [])
            (settle ctl j false status_code false w))

    -- The `except` clauses in their order; `none` is an exception that no clause catches, which
    -- leaves the state as it is.
    pub finish_dispatch : CapacityController S → Job → Sent → World S → Option (World S)
    unfolding on_connect_failure on_timeout on_http_error on_answer
    finish_dispatch ctl j (answered status_code headers) w =
        some (on_answer ctl j status_code headers w)
    finish_dispatch ctl j (failed error) w =
        if is_connect_failure error
        then some (on_connect_failure ctl j w)
        else if is_timeout_exception error
        then some (on_timeout ctl j w)
        else if is_http_error error
        then some (on_http_error ctl j w)
        else none

    pub end_dispatch : CapacityController S → Job → Sent × World S → Ending S
    unfolding finish_dispatch
    end_dispatch ctl j (sent, w) = elim (finish_dispatch ctl j sent w) [
      | none ↦ raises w
      | some w' ↦ returns w'
    ]

    -- The job's `url` is set once the instance is known.
    pub dispatch_queued :
        CapacityController S
        → Option ℕ
        → (checked_at stored_at : F) → RequestContext
        → Job
        → (send : Text → World S → Sent × World S) → World S
        → Ending S
    unfolding end_dispatch
    dispatch_queued ctl hint checked_at stored_at ctx j send w =
        elim (select hint checked_at stored_at ctx.source_ip w.balancer) [
          | none ↦ raises w
          | some (url, b) ↦
              end_dispatch ctl (record j { url = url }) (send url (record w { balancer = b }))
        ]
