-- ===== src/Handler/Status.antt =====
-- How a request is answered.
use adaptive_admission_contr.Base.{
  ℕ, ◌<◌, ◌≡◌, refl, ◌⊎◌, Bool, true, false, if◌then◌else◌, arith, inl, inr, In, Option, none, some,
  List, Text, codes, length, ◌≤◌, Dict, lookup,
}
use adaptive_admission_contr.Base.Int.{ℤ, ◌≤ℤ◌}
use adaptive_admission_contr.Base.Float.{Float}
use adaptive_admission_contr.Interfaces.{CapacityController}
use adaptive_admission_contr.Registry.{Registry, found, match_path}
use adaptive_admission_contr.Scoring.{Redis, ScoreBreakdown}
use adaptive_admission_contr.Scoring.Effects.{IsExplained, score-IsExplained}
use adaptive_admission_contr.Scheduler.{Entry, projected_wait, enqueue}
use adaptive_admission_contr.Scheduler.Enqueue.{AllEarlier, enqueue-cases}
use adaptive_admission_contr.Classifier.{Policy, Context}
use adaptive_admission_contr.Dispatcher.{Response, json_response}
use adaptive_admission_contr.Handler.{
  Event, replies, in_time, timed_out, interrupted, Awaited, Handled, raises, reject,
  too_many_requests, finalize, answer, is_latin1, Backlog, entry_of, wait_for_response,
  after_enqueue, submit, handle_scored, handle_classified, handle_matched, proxy_handler,
}

finalize-answers :
    (d : Bool) (name : Text) (b : ScoreBreakdown) (reason : Option Text) (x : Response)
    (es : List Event)
    → (d ≡ false) ⊎ (is_latin1 name ≡ true)
    → answer (finalize d name b reason x) es
      ≡ replies
          (record {
            response = x;
            debug_headers =
                if d
                then some (record {
                  backend = name;
                  score = b.final;
                  exempt = b.is_exempt;
                  reject_reason = reason;
                })
                else none;
          })
          es
unfolding finalize answer
finalize-answers false name b reason x es plain = refl
finalize-answers true name b reason x es (inl off) = absurd (ground (arith, off))
finalize-answers true name b reason x es (inr plain) = rw plain refl

-- The reply has the response, and debug headers exactly when these are on: the name of the backend,
-- the score, whether it is exempt, and the reason.
abbrev pub Answers :
    Bool → (name : Text) → ScoreBreakdown → (reason : Option Text) → Response → Handled → Type 0
Answers d name b reason x h =
    (es : List Event) × (h
      ≡ replies
          (record {
            response = x;
            debug_headers =
                if d
                then some (record {
                  backend = name;
                  score = b.final;
                  exempt = b.is_exempt;
                  reject_reason = reason;
                })
                else none;
          })
          es)

-- A rejection names its reason in the body and in the debug headers.
abbrev pub Rejects :
    Bool → (name : Text) → ScoreBreakdown → (status : ℕ) → (detail reason : Text) → Handled → Type 0
Rejects d name b status detail reason h =
    Answers d name b (some reason) (json_response status detail (some reason)) h

-- What a request that is queued gets, by how the wait for its response ends.
abbrev pub ByResponse : Bool → (name : Text) → ScoreBreakdown → Awaited → Handled → Type 0
ByResponse d name b (in_time x) h = Answers d name b none x h
ByResponse d name b timed_out h =
    Rejects d name b 503 (codes "service unavailable") (codes "queue_timeout") h
ByResponse d name b interrupted h = (es : List Event) × (h ≡ raises es)

wait_for_response-ByResponse :
    (d : Bool) (name : Text) (cost : ℕ) (b : ScoreBreakdown) (w : Awaited) (es : List Event)
    → (d ≡ false) ⊎ (is_latin1 name ≡ true)
    → ByResponse d name b w (wait_for_response d name cost b w es)
unfolding wait_for_response reject
wait_for_response-ByResponse d name cost b (in_time x) es plain =
    (_, finalize-answers d name b none x _ plain)
wait_for_response-ByResponse d name cost b timed_out es plain =
    (_, finalize-answers d name b _ _ _ plain)
wait_for_response-ByResponse d name cost b interrupted es plain = (_, refl)

module _ ⦃fl : Float⦄ {S Q : Type 0} (ctl : CapacityController S) where
  open fl use {lt}

  abbrev pub IsAnswered :
      Bool → (name : Text) → ScoreBreakdown → Awaited → Backlog S Q → Handled → Type 0
  IsAnswered d name b w s h =
      ((lt s.queue_timeout (projected_wait ctl s.bounds s.controller s.queue) ≡ true)
        × Rejects d name b 429 (codes "too many requests") (codes "queue_wait_exceeded") h)
      ⊎ ((lt s.queue_timeout (projected_wait ctl s.bounds s.controller s.queue) ≡ false)
          × (0 < s.bounds.maxsize)
          × (s.bounds.maxsize ≤ length (s.bounds.contents s.queue))
          × Rejects d name b 429 (codes "too many requests") (codes "queue_full") h)
      ⊎ ((lt s.queue_timeout (projected_wait ctl s.bounds s.controller s.queue) ≡ false)
          × ((s.bounds.maxsize ≡ 0) ⊎ (length (s.bounds.contents s.queue) < s.bounds.maxsize))
          × ByResponse d name b w h)

  after_enqueue-IsAnswered :
      (d : Bool) (name : Text) (cost : ℕ) (b : ScoreBreakdown) (w : Awaited) (s : Backlog S Q)
      (x : Entry)
      → AllEarlier s.bounds x s.queue
      → (d ≡ false) ⊎ (is_latin1 name ≡ true)
      → IsAnswered d name b w s (
          after_enqueue d name cost b w
            (enqueue ctl s.bounds s.queue_timeout x s.controller s.queue))
  unfolding after_enqueue too_many_requests reject
  after_enqueue-IsAnswered d name cost b w s x earlier plain =
      elim (enqueue-cases ctl s.bounds s.queue_timeout x s.controller s.queue earlier) [
        | inl (long, refused) ↦
            inl (long, rw (refused, after_enqueue) (_, finalize-answers d name b _ _ _ plain))
        | inr (inl (soon, bounded, reached, refused)) ↦ inr (
            inl (
              soon,
              bounded,
              reached,
              rw (refused, after_enqueue) (_, finalize-answers d name b _ _ _ plain),
            ))
        | inr (inr (soon, room, q', took)) ↦ inr (
            inr (
              soon,
              room,
              rw (took, after_enqueue) (wait_for_response-ByResponse d name cost b w _ plain),
            ))
      ]

module _ ⦃fl : Float⦄ {S Q : Type 0} (redis : Redis) (ctl : CapacityController S) where
  open fl use {lt}

  -- A request whose path is routed to a backend is answered by the state of the backend's queue
  -- alone: 429 for the projected wait when this is over the timeout; else 429 for the full queue
  -- when a bounded queue has no room; else, as the wait for its response ends, exactly the response
  -- of the backend, 503 for the queue timeout, or an exception for a client that has gone. Exactly
  -- when these are on, the reply has debug headers, which carry the backend's name, the request's
  -- score, whether it is exempt, and the reason of the rejection. The score is explained as
  -- `score-IsExplained` says, so it is within the bounds, also when Redis fails. The request is to be
  -- classified, its class to have a base score, the bounds of scores to be in order, the backend to
  -- have a scheduler, every request in its queue to have arrived before, and the backend's name to be
  -- Latin-1 if the debug headers are on.
  pub proxy_handler-IsAnswered :
      (d : Bool) (r : Registry Policy) (path : Text) (classify : Policy → Option Context)
      (cost future : ℕ) (w : Awaited) (schedulers : Dict (Backlog S Q)) (store : redis.Store)
      (p : Policy) (ctx : Context) (base : ℤ) (s : Backlog S Q)
      → match_path r path ≡ found p
      → classify p ≡ some ctx
      → lookup ctx.scored.user_class p.scoring.base_scores ≡ some base
      → p.scoring.score_clamp.min_score ≤ℤ p.scoring.score_clamp.max_score
      → lookup p.name schedulers ≡ some s
      → ((y : Entry)
          → In y (s.bounds.contents s.queue)
          → lt y.arrival_time ctx.request.arrival_time ≡ true)
      → (d ≡ false) ⊎ (is_latin1 p.name ≡ true)
      → (b : ScoreBreakdown) × IsExplained redis ctx.scored p.scoring base b
        × IsAnswered ctl d p.name b w s
            (proxy_handler redis ctl d r path classify cost future w schedulers store)
  unfolding proxy_handler handle_matched handle_classified handle_scored submit entry_of
  proxy_handler-IsAnswered d r path classify cost future w schedulers store p ctx base s routed
        classified known order scheduled earlier plain =
      let (b, scored, explained) =
        score-IsExplained redis ctx.scored p.scoring base store known order in
      (
        b,
        explained,
        rw (routed, classified, scored, scheduled)
            (after_enqueue-IsAnswered ctl d p.name cost b w s (entry_of ctx future b) earlier
              plain),
      )
