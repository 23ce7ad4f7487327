-- ===== src/Handler/Counts.antt =====
-- The gauges and counters of the handler.
use adaptive_admission_contr.Base.{
  Dict, ℕ, ◌+◌, ◌≡◌, refl, ◌⊎◌, inl, inr, Bool, Option, none, some, List, [], ◌∷◌, Text, arith,
}
use adaptive_admission_contr.Base.Float.{Float}
use adaptive_admission_contr.Interfaces.{CapacityController}
use adaptive_admission_contr.Registry.{Registry, Match, not_found, found, key_error, match_path}
use adaptive_admission_contr.Scoring.{Redis, ScoreBreakdown}
use adaptive_admission_contr.Scheduler.{
  Entry, Enqueued, queued, queue_full_error, queue_wait_exceeded_error, type_error,
}
use adaptive_admission_contr.Classifier.{Policy, Context}
use adaptive_admission_contr.Handler.{
  submit, answer, handle_classified, Event, requests_total, rejected_total, admitted_total,
  inflight_inc, inflight_dec, tokens_inc, tokens_dec, Handled, Reply, replies, raises, Awaited,
  in_time, timed_out, interrupted, arrived, wait_for_response, too_many_requests, after_enqueue,
  Backlog, handle_scored, handle_matched, proxy_handler,
}

pub written : Handled → List Event
written (replies r es) = es
written (raises es) = es

pub started : Event → ℕ
started inflight_inc = 1
started _ = 0

pub ended : Event → ℕ
ended inflight_dec = 1
ended _ = 0

pub tokens_started : Event → ℕ
tokens_started (tokens_inc cost) = cost
tokens_started _ = 0

pub tokens_ended : Event → ℕ
tokens_ended (tokens_dec cost) = cost
tokens_ended _ = 0

pub decided : Event → ℕ
decided (rejected_total reason) = 1
decided admitted_total = 1
decided _ = 0

pub counted : Event → ℕ
counted requests_total = 1
counted _ = 0

pub sum_of : (Event → ℕ) → List Event → ℕ
sum_of f [] = 0
sum_of f (e ∷ es) = f e + sum_of f es

-- Each of the two gauges returns to where it was; a reply is counted once as arrived and once as admitted or
-- rejected, unless no backend serves the path; an interrupted call is not decided.
pub record IsCounted (h : Handled) : Type 0 where
  pub requests : sum_of started (written h) ≡ sum_of ended (written h)
  pub tokens : sum_of tokens_started (written h) ≡ sum_of tokens_ended (written h)
  pub once : (sum_of counted (written h) ≡ 0) ⊎ (sum_of counted (written h) ≡ 1)
  pub settled :
      (r : Reply) (es : List Event) → h ≡ replies r es → sum_of decided es ≡ sum_of counted es

module _ ⦃fl : Float⦄ where
  -- With the debug headers or without, and if these fail, the events are the same.
  IsCounted-answer :
      (r : Option Reply) (es : List Event)
      → sum_of started es ≡ sum_of ended es
      → sum_of tokens_started es ≡ sum_of tokens_ended es
      → sum_of counted es ≡ 1
      → sum_of decided es ≡ 1
      → IsCounted (answer r es)
  unfolding answer written
  IsCounted-answer none es h k o e = record {
    requests = h;
    tokens = k;
    once = inr o;
    settled = λ r es e. ground arith;
  }
  IsCounted-answer (some x) es h k o e = record {
    requests = h;
    tokens = k;
    once = inr o;
    settled = λ r es' same. let l : es ≡ es' = ground (arith, same) in ground (arith, l, o, e);
  }

  after_enqueue-IsCounted :
      {Q : Type 0} (d : Bool) (name : Text) (cost : ℕ) (b : ScoreBreakdown) (a : Awaited)
      (r : Enqueued Q)
      → IsCounted (after_enqueue d name cost b a r)
  unfolding after_enqueue wait_for_response too_many_requests arrived written sum_of started ended
      tokens_started tokens_ended decided counted
  after_enqueue-IsCounted d name cost b (in_time x) (queued q) =
      IsCounted-answer _ _ (omega arith) (omega arith) refl refl
  after_enqueue-IsCounted d name cost b timed_out (queued q) =
      IsCounted-answer _ _ (omega arith) (omega arith) refl refl
  after_enqueue-IsCounted d name cost b interrupted (queued q) = record {
    requests = omega arith;
    tokens = omega arith;
    once = inr refl;
    settled = λ r es e. ground arith;
  }
  after_enqueue-IsCounted d name cost b a queue_full_error =
      IsCounted-answer _ _ refl refl refl refl
  after_enqueue-IsCounted d name cost b a queue_wait_exceeded_error =
      IsCounted-answer _ _ refl refl refl refl
  after_enqueue-IsCounted d name cost b a (type_error q) = record {
    requests = refl;
    tokens = refl;
    once = inr refl;
    settled = λ r es e. ground arith;
  }

  IsCounted-nothing : IsCounted (raises [])
  unfolding written sum_of
  IsCounted-nothing = record {
    requests = refl;
    tokens = refl;
    once = inl refl;
    settled = λ r es e. ground arith;
  }

  module _ {S Q : Type 0} (redis : Redis) (ctl : CapacityController S) where
    submit-IsCounted :
        (d : Bool) (p : Policy) (cost : ℕ) (x : Entry) (a : Awaited) (b : ScoreBreakdown)
        (s : Option (Backlog S Q))
        → IsCounted (submit redis ctl d p cost x a b s)
    unfolding submit arrived written sum_of started ended tokens_started tokens_ended counted
    submit-IsCounted d p cost x a b none = record {
      requests = refl;
      tokens = refl;
      once = inr refl;
      settled = λ r es e. ground arith;
    }
    submit-IsCounted d p cost x a b (some s) = after_enqueue-IsCounted d p.name cost b a _

    handle_scored-IsCounted :
        (d : Bool) (p : Policy) (cost future : ℕ) (ctx : Context) (a : Awaited)
        (schedulers : Dict (Backlog S Q)) (b : Option ScoreBreakdown)
        → IsCounted (handle_scored redis ctl d p cost future ctx a schedulers b)
    unfolding handle_scored
    handle_scored-IsCounted d p cost future ctx a schedulers none = IsCounted-nothing
    handle_scored-IsCounted d p cost future ctx a schedulers (some b) =
        submit-IsCounted d p cost _ a b _

    handle_classified-IsCounted :
        (d : Bool) (p : Policy) (cost future : ℕ) (a : Awaited) (schedulers : Dict (Backlog S Q))
        (store : redis.Store) (ctx : Option Context)
        → IsCounted (handle_classified redis ctl d p cost future a schedulers store ctx)
    unfolding handle_classified
    handle_classified-IsCounted d p cost future a schedulers store none = IsCounted-nothing
    handle_classified-IsCounted d p cost future a schedulers store (some ctx) =
        handle_scored-IsCounted d p cost future ctx a schedulers _

    handle_matched-IsCounted :
        (d : Bool) (classify : Policy → Option Context) (cost future : ℕ) (a : Awaited)
        (schedulers : Dict (Backlog S Q)) (store : redis.Store) (m : Match Policy)
        → IsCounted (handle_matched redis ctl d classify cost future a schedulers store m)
    unfolding handle_matched written sum_of
    handle_matched-IsCounted d classify cost future a schedulers store not_found = record {
      requests = refl;
      tokens = refl;
      once = inl refl;
      settled = λ r es e. ground arith;
    }
    handle_matched-IsCounted d classify cost future a schedulers store (found p) =
        handle_classified-IsCounted d p cost future a schedulers store _
    handle_matched-IsCounted d classify cost future a schedulers store key_error = IsCounted-nothing

    -- However a call of the handler ends, the gauge of requests in flight goes up and down by the same
    -- amount, and so does the gauge of tokens in flight; a call that was counted as a request was counted once; and a call
    -- that replies is counted as admitted or rejected exactly as often as it is as a request.
    pub proxy_handler-IsCounted :
        (d : Bool) (r : Registry Policy) (path : Text) (classify : Policy → Option Context)
        (cost future : ℕ) (a : Awaited) (schedulers : Dict (Backlog S Q)) (store : redis.Store)
        → IsCounted (proxy_handler redis ctl d r path classify cost future a schedulers store)
    unfolding proxy_handler
    proxy_handler-IsCounted d r path classify cost future a schedulers store =
        handle_matched-IsCounted d classify cost future a schedulers store (match_path r path)
