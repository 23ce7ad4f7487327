-- ===== src/Handler/Total.antt =====
-- The handler replies to every request, over a valid configuration.
use adaptive_admission_contr.Base.{
  ℕ, ◌≡◌, ◌≢◌, refl, ap, ◌∙◌, inl, inr, ◌⊎◌, arith, Bool, true, false, Option, none, some, List, In,
  Text, Dict, lookup,
}
use adaptive_admission_contr.Base.Int.{ℤ, ◌≤ℤ◌}
use adaptive_admission_contr.Base.Float.{Float}
use adaptive_admission_contr.Interfaces.{CapacityController}
use adaptive_admission_contr.Registry.{Backend, found, registry}
use adaptive_admission_contr.Registry.Routing.{match_path-longest}
use adaptive_admission_contr.Config.{check_backends}
use adaptive_admission_contr.Config.Backends.{check_backends-UniqueNames}
use adaptive_admission_contr.Auth.{UserClass, class_value}
use adaptive_admission_contr.Scoring.{Redis, ScoreBreakdown}
use adaptive_admission_contr.Scoring.Effects.{score-IsExplained}
use adaptive_admission_contr.Scheduler.{
  Entry, Enqueued, queued, queue_full_error, queue_wait_exceeded_error, type_error,
}
use adaptive_admission_contr.Scheduler.Enqueue.{enqueue-untied}
use adaptive_admission_contr.Dispatcher.{Response}
use adaptive_admission_contr.Classifier.{Policy, Context}
use adaptive_admission_contr.Handler.{
  Event, Reply, Handled, replies, Awaited, in_time, timed_out, interrupted, Backlog, is_latin1,
  finalize, answer, entry_of, wait_for_response, too_many_requests, after_enqueue, submit,
  handle_scored, handle_classified, handle_matched, proxy_handler,
}

abbrev pub Replies : Handled → Type 0
Replies h = (r : Reply) × (es : List Event) × (h ≡ replies r es)

answer-Replies :
    (d : Bool) (name : Text) (b : ScoreBreakdown) (reason : Option Text) (x : Response)
    (es : List Event)
    → (d ≡ false) ⊎ (is_latin1 name ≡ true)
    → Replies (answer (finalize d name b reason x) es)
unfolding finalize answer
answer-Replies false name b reason x es plain = (_, _, refl)
answer-Replies true name b reason x es (inl off) = absurd (ground (arith, off))
answer-Replies true name b reason x es (inr plain) = rw plain (_, _, refl)

module _ ⦃fl : Float⦄ where
  open fl use {lt}

  after_enqueue-Replies :
      {Q : Type 0} (d : Bool) (name : Text) (cost : ℕ) (b : ScoreBreakdown) (a : Awaited)
      (r : Enqueued Q)
      → a ≢ interrupted
      → (d ≡ false) ⊎ (is_latin1 name ≡ true)
      → ((q : Q) → r ≢ type_error q)
      → Replies (after_enqueue d name cost b a r)
  unfolding after_enqueue wait_for_response too_many_requests
  after_enqueue-Replies d name cost b (in_time x) (queued q) waits plain untied =
      answer-Replies d name b none x _ plain
  after_enqueue-Replies d name cost b timed_out (queued q) waits plain untied =
      answer-Replies d name b _ _ _ plain
  after_enqueue-Replies d name cost b interrupted (queued q) waits plain untied =
      absurd (waits refl)
  after_enqueue-Replies d name cost b a queue_full_error waits plain untied =
      answer-Replies d name b _ _ _ plain
  after_enqueue-Replies d name cost b a queue_wait_exceeded_error waits plain untied =
      answer-Replies d name b _ _ _ plain
  after_enqueue-Replies d name cost b a (type_error q) waits plain untied = absurd (untied q refl)

  module _ {S Q : Type 0} (redis : Redis) (ctl : CapacityController S) where
    -- The policy can serve the request: every class has a base score, the bounds are in order, it
    -- has a scheduler in whose queue every request has arrived before, the request is classified for
    -- it, and its name can stand in a debug header, if these are on.
    pub record IsServing (d : Bool) (schedulers : Dict (Backlog S Q))
        (classify : Policy → Option Context) (p : Policy) : Type 0 where
      pub scores :
          (c : UserClass) → (base : ℤ) × (lookup (class_value c) p.scoring.base_scores ≡ some base)
      pub order : p.scoring.score_clamp.min_score ≤ℤ p.scoring.score_clamp.max_score
      pub scheduler : (s : Backlog S Q) × (lookup p.name schedulers ≡ some s)
      pub context : (ctx : Context) × (classify p ≡ some ctx)
      pub class : (c : UserClass) × (context.0.scored.user_class ≡ class_value c)
      pub earlier :
          (y : Entry)
          → In y (scheduler.0.bounds.contents scheduler.0.queue)
          → lt y.arrival_time context.0.request.arrival_time ≡ true
      pub encodable : (d ≡ false) ⊎ (is_latin1 p.name ≡ true)

    handle_matched-Replies :
        (d : Bool) (classify : Policy → Option Context) (cost future : ℕ) (a : Awaited)
        (schedulers : Dict (Backlog S Q)) (store : redis.Store) (p : Policy)
        → IsServing d schedulers classify p
        → a ≢ interrupted
        → Replies (handle_matched redis ctl d classify cost future a schedulers store (found p))
    unfolding handle_matched handle_classified handle_scored submit entry_of
    handle_matched-Replies d classify cost future a schedulers store p v waits =
        let (ctx, classified) = v.context in
        let (c, class) = v.class in
        let (base, known) = v.scores c in
        let (s, scheduled) = v.scheduler in
        let (b, scored, _) =
          score-IsExplained redis ctx.scored p.scoring base store
            (ap (λ k. lookup k p.scoring.base_scores) class ∙ known) v.order in
        rw (classified, scored, scheduled)
          (after_enqueue-Replies d p.name cost b a _ waits v.encodable (λ q.
            enqueue-untied ctl s.bounds s.queue_timeout (entry_of ctx future b) s.controller s.queue
              q v.earlier))

    -- Over a list of backends that passes the validation, each of whose policies can serve the
    -- request, the handler replies to every path, whatever state Redis is in, unless the wait for
    -- the response is interrupted: no KeyError and no other exception.
    pub proxy_handler-Replies :
        (d : Bool) (policy : Backend → Policy) (backends : List Backend) (path : Text)
        (classify : Policy → Option Context) (cost future : ℕ) (a : Awaited)
        (schedulers : Dict (Backlog S Q)) (store : redis.Store)
        → check_backends backends ≡ true
        → ((b : Backend) → In b backends → IsServing d schedulers classify (policy b))
        → a ≢ interrupted
        → Replies (
            proxy_handler redis ctl d
              (registry policy backends)
              path
              classify
              cost
              future
              a
              schedulers
              store)
    unfolding proxy_handler
    proxy_handler-Replies d policy backends path classify cost future a schedulers store valid
          serving waits =
        elim (match_path-longest policy backends path (check_backends-UniqueNames backends valid)) [
          | inl (missing, _) ↦ rw missing (unfold handle_matched in (_, _, refl))
          | inr (b, member, routed, _, _) ↦ rw routed (
              handle_matched-Replies d classify cost future a schedulers store (policy b)
                (serving b member) waits)
        ]
