-- ===== src/Handler.antt =====
-- app/main.py: `proxy_handler`, over the registry, the score engine and the scheduler. `classify`
-- is the classification of this request for a policy (Classifier). How waiting for the response
-- ends is an argument.
mod Counts
mod Status
pub mod Total
mod Tests
use adaptive_admission_contr.Base.{
  ℕ, Bool, true, false, ltb, ◌&&◌, if◌then◌else◌, Option, none, some, List, [], ◌∷◌, ◌++◌, Text,
  codes, Dict, lookup,
}
use adaptive_admission_contr.Base.Float.{Float}
use adaptive_admission_contr.Base.Int.{ℤ}
use adaptive_admission_contr.Interfaces.{RequestContext, CapacityController}
use adaptive_admission_contr.Registry.{Registry, Match, not_found, found, key_error, match_path}
use adaptive_admission_contr.Scoring.{Redis, Scored, ResolvedScoringConfig, ScoreBreakdown, score}
use adaptive_admission_contr.Scheduler.{
  Entry, PriorityQueue, Enqueued, queued, queue_full_error, queue_wait_exceeded_error, type_error,
  enqueue,
}
use adaptive_admission_contr.Classifier.{Policy, Context}
use adaptive_admission_contr.Dispatcher.{Response, json_response}

-- The metrics and the log lines, in the order in which they are written.
pub data Event : Type 0 where
  requests_total : Event
  score_distribution : ℤ → Event
  rejected_total : (reason : Text) → Event
  admitted_total : Event
  queue_timeout_total : Event
  log_rejected : (reason : Text) (status_code : ℕ) → Event
  inflight_inc : Event
  inflight_dec : Event
  tokens_inc : (cost : ℕ) → Event
  tokens_dec : (cost : ℕ) → Event

-- The `X-AAC-…` headers.
pub record DebugHeaders : Type 0 where
  pub backend : Text
  pub score : ℤ
  pub exempt : Bool
  pub reject_reason : Option Text

pub record Reply : Type 0 where
  pub response : Response
  pub debug_headers : Option DebugHeaders

-- A call of the handler returns a reply, or an exception leaves it.
pub data Handled : Type 0 where
  replies : Reply → List Event → Handled
  raises : List Event → Handled

-- How `asyncio.wait_for` ends: with the future's response, with a TimeoutError, or with another
-- exception (the client has gone, and the task is cancelled).
pub data Awaited : Type 0 where
  in_time : Response → Awaited
  timed_out : Awaited
  interrupted : Awaited

-- The characters that a header may have.
unfoldable pub is_latin1 : Text → Bool
is_latin1 [] = true
is_latin1 (c ∷ s) = ltb c 256 && is_latin1 s

-- `none` is the UnicodeEncodeError of a header that is not Latin-1.
pub finalize :
    (debug_enabled : Bool) → Text → ScoreBreakdown → Option Text → Response → Option Reply
unfolding is_latin1
finalize false backend_name b reason response =
    some (record { response = response; debug_headers = none })
finalize true backend_name b reason response =
    if is_latin1 backend_name
    then some (record {
      response = response;
      debug_headers = some (record {
        backend = backend_name;
        score = b.final;
        exempt = b.is_exempt;
        reject_reason = reason;
      });
    })
    else none

pub answer : Option Reply → List Event → Handled
answer none es = raises es
answer (some reply) es = replies reply es

pub reject : (status_code : ℕ) → (detail reason : Text) → Response
reject status_code detail reason = json_response status_code detail (some reason)

-- The events up to the call of `enqueue`.
pub arrived : ScoreBreakdown → List Event
arrived b = requests_total ∷ score_distribution b.final ∷ []

-- From the call of `wait_for` on, with the `finally` clause.
pub wait_for_response :
    (debug_enabled : Bool) → Text → (cost : ℕ) → ScoreBreakdown → Awaited → List Event → Handled
unfolding finalize reject answer
wait_for_response debug_enabled name cost b (in_time response) es =
    answer (finalize debug_enabled name b none response)
      (es ++ inflight_inc ∷ tokens_inc cost ∷ admitted_total ∷ inflight_dec ∷ tokens_dec cost ∷ [])
wait_for_response debug_enabled name cost b timed_out es =
    answer
      (finalize debug_enabled name b (some (codes "queue_timeout"))
        (reject 503 (codes "service unavailable") (codes "queue_timeout")))
      (es
        ++ inflight_inc
          ∷ tokens_inc cost
          ∷ queue_timeout_total
          ∷ rejected_total (codes "queue_timeout")
          ∷ log_rejected (codes "queue_timeout") 503
          ∷ inflight_dec
          ∷ tokens_dec cost
          ∷ [])
wait_for_response debug_enabled name cost b interrupted es =
    raises (es ++ inflight_inc ∷ tokens_inc cost ∷ inflight_dec ∷ tokens_dec cost ∷ [])

pub too_many_requests :
    (debug_enabled : Bool) → Text → (reason : Text) → ScoreBreakdown → List Event → Handled
unfolding finalize reject answer
too_many_requests debug_enabled name reason b es =
    answer
      (finalize debug_enabled name b (some reason) (reject 429 (codes "too many requests") reason))
      (es ++ rejected_total reason ∷ log_rejected reason 429 ∷ [])

module _ ⦃fl : Float⦄ where
  open fl use {F}

  -- The ends of `enqueue`: an exception that is not expected leaves the handler.
  pub after_enqueue :
      {Q : Type 0}
      → (debug_enabled : Bool) → Text
      → (cost : ℕ) → ScoreBreakdown
      → Awaited
      → Enqueued Q
      → Handled
  unfolding wait_for_response too_many_requests arrived
  after_enqueue debug_enabled name cost b awaited (queued q) =
      wait_for_response debug_enabled name cost b awaited (arrived b)
  after_enqueue debug_enabled name cost b awaited queue_wait_exceeded_error =
      too_many_requests debug_enabled name (codes "queue_wait_exceeded") b (arrived b)
  after_enqueue debug_enabled name cost b awaited queue_full_error =
      too_many_requests debug_enabled name (codes "queue_full") b (arrived b)
  after_enqueue debug_enabled name cost b awaited (type_error q) = raises (arrived b)

  -- The scheduler of a backend: its controller, its queue and its timeout.
  pub record Backlog (S Q : Type 0) : Type 0 where
    pub controller : S
    pub bounds : PriorityQueue Q
    pub queue : Q
    pub queue_timeout : F

  -- The entry carries the score that was just computed.
  pub entry_of : Context → (future : ℕ) → ScoreBreakdown → Entry
  entry_of ctx future b = record { ctx = record ctx.request { score = b.final }; future = future }

  module _ {S Q : Type 0} (redis : Redis) (ctl : CapacityController S) where
    -- `schedulers[backend_name]`, and `enqueue`; `none` is a KeyError.
    pub submit :
        (debug_enabled : Bool)
        → Policy
        → (cost : ℕ) → Entry
        → Awaited
        → ScoreBreakdown
        → Option (Backlog S Q)
        → Handled
    unfolding after_enqueue arrived
    submit debug_enabled p cost entry awaited b none = raises (arrived b)
    submit debug_enabled p cost entry awaited b (some s) =
        after_enqueue debug_enabled p.name cost b awaited
          (enqueue ctl s.bounds s.queue_timeout entry s.controller s.queue)

    -- No score is the engine's KeyError.
    pub handle_scored :
        (debug_enabled : Bool)
        → Policy
        → (cost future : ℕ) → Context
        → Awaited
        → Dict (Backlog S Q)
        → Option ScoreBreakdown
        → Handled
    unfolding submit entry_of lookup
    handle_scored debug_enabled p cost future ctx awaited schedulers none = raises []
    handle_scored debug_enabled p cost future ctx awaited schedulers (some b) =
        submit debug_enabled p cost (entry_of ctx future b) awaited b (lookup p.name schedulers)

    -- No context is an exception of the classifier.
    pub handle_classified :
        (debug_enabled : Bool)
        → Policy
        → (cost future : ℕ) → Awaited
        → Dict (Backlog S Q)
        → redis.Store
        → Option Context
        → Handled
    unfolding handle_scored
    handle_classified debug_enabled p cost future awaited schedulers store none = raises []
    handle_classified debug_enabled p cost future awaited schedulers store (some ctx) =
        handle_scored debug_enabled p cost future ctx awaited schedulers
          (score redis ctx.scored p.scoring store).0

    pub handle_matched :
        (debug_enabled : Bool)
        → (Policy → Option Context)
        → (cost future : ℕ) → Awaited
        → Dict (Backlog S Q)
        → redis.Store
        → Match Policy
        → Handled
    unfolding handle_classified
    handle_matched debug_enabled classify cost future awaited schedulers store not_found =
        replies
          (record { response = json_response 404 (codes "not found") none; debug_headers = none })
          []
    handle_matched debug_enabled classify cost future awaited schedulers store (found p) =
        handle_classified debug_enabled p cost future awaited schedulers store (classify p)
    handle_matched debug_enabled classify cost future awaited schedulers store key_error = raises []

    pub proxy_handler :
        (debug_enabled : Bool)
        → Registry Policy
        → (path : Text) → (Policy → Option Context)
        → (cost future : ℕ) → Awaited
        → Dict (Backlog S Q)
        → redis.Store
        → Handled
    unfolding handle_matched
    proxy_handler debug_enabled r path classify cost future awaited schedulers store =
        handle_matched debug_enabled classify cost future awaited schedulers store
          (match_path r path)
