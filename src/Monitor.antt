-- ===== src/Monitor.antt =====
-- app/health.py, `metrics_endpoint` of app/metrics.py, and the log lines of app/observability.py.
mod Extras
mod Lines
mod Tests
use adaptive_admission_contr.Base.{
  ℕ, ltb, Bool, true, false, ◌||◌, if◌then◌else◌, Option, none, some, List, [], ◌∷◌, ◌++◌, map,
  Text, codes, Dict, lookup, insert, in_list, keys,
}
use adaptive_admission_contr.Base.Int.{ℤ, pos}
use adaptive_admission_contr.Base.Float.{Float}
use adaptive_admission_contr.Balancer.{InstanceStatus, Balancer, snapshot}
use adaptive_admission_contr.Scoring.{ScoreBreakdown}
use adaptive_admission_contr.Classifier.{Context}

-- The answer of a health route: its status code, the text of `status`, and that of `reason`.
pub record HealthReply : Type 0 where
  pub status_code : ℕ
  pub status : Text
  pub reason : Option Text

pub healthz : HealthReply
healthz = record { status_code = 200; status = codes "alive"; reason = none }

-- How the ping ends: within its time, or with an exception (the timeout is one).
pub data Ping : Type 0 where
  pong : Ping
  ping_failed : Ping

-- `getattr(app.state, "ready", False)` is `ready`; `redis.ping()` is made only after it.
pub readyz : (ready : Option Bool) → Ping → HealthReply
readyz (some true) pong = record { status_code = 200; status = codes "ready"; reason = none }
readyz (some true) ping_failed = record {
  status_code = 503;
  status = codes "not_ready";
  reason = some (codes "redis_unreachable");
}
readyz (some false) _ = record {
  status_code = 503;
  status = codes "not_ready";
  reason = some (codes "config_invalid");
}
readyz none _ = record {
  status_code = 503;
  status = codes "not_ready";
  reason = some (codes "config_invalid");
}

-- The gauges of one instance, by the names of its backend and its url.
pub record InstanceGauges : Type 0 where
  pub backend : Text
  pub instance_url : Text
  pub inflight_requests : ℕ
  pub healthy : ℕ

module _ ⦃fl : Float⦄ where
  open fl use {F}

  -- `metrics_endpoint`: what it sets, in order.
  pub metrics_endpoint : Dict Balancer → List InstanceGauges
  metrics_endpoint [] = []
  metrics_endpoint ((name, b) ∷ balancers) =
      map
        (λ s. record {
          backend = name;
          instance_url = s.url;
          inflight_requests = s.in_flight;
          healthy = if s.is_healthy then 1 else 0;
        })
        (snapshot b)
      ++ metrics_endpoint balancers

  -- A value in a log line. A float is written as it is.
  pub data Json : Type 0 where
    null : Json
    text : Text → Json
    number : ℤ → Json
    float : F → Json
    boolean : Bool → Json
    object : Dict ℤ → Json

  pub optional_text : Option Text → Json
  optional_text none = null
  optional_text (some t) = text t

  -- `_score_payload`
  pub score_payload : (score : ℤ) → Option ScoreBreakdown → Dict ℤ
  score_payload score none = (codes "final", score) ∷ []
  score_payload score (some b) =
      (codes "base", b.base)
      ∷ (codes "penalty_ip", pos b.penalty_ip)
      ∷ (codes "penalty_net24", pos b.penalty_net24)
      ∷ (codes "penalty_net6", pos b.penalty_net6)
      ∷ (codes "penalty_asn", pos b.penalty_asn)
      ∷ (codes "penalty_country", pos b.penalty_country)
      ∷ (codes "penalty_user", pos b.penalty_user)
      ∷ (codes "final", b.final)
      ∷ []

  pub exemption : Option ScoreBreakdown → Json
  exemption none = null
  exemption (some b) = boolean b.is_exempt

  -- `if value is not None: payload[key] = value`
  when_some : {A : Type 0} → Text → (A → Json) → Option A → Dict Json → Dict Json
  unfolding insert
  when_some k f none payload = payload
  when_some k f (some a) payload = insert k (f a) payload

  -- The keyword arguments of `log_admission_event`.
  pub record Details : Type 0 where
    pub reason : Option Text
    pub queue_wait_ms : Option F
    pub backend_latency_ms : Option F
    pub status_code : Option ℕ

  pub facts : Context → (cost : ℕ) → Option ScoreBreakdown → Dict Json
  unfolding score_payload exemption optional_text
  facts ctx cost breakdown =
      (codes "backend", text ctx.scored.backend)
      ∷ (codes "user_class", text ctx.scored.user_class)
      ∷ (codes "source_ip", optional_text ctx.scored.source_ip)
      ∷ (codes "asn", optional_text ctx.scored.asn)
      ∷ (codes "country", optional_text ctx.scored.country)
      ∷ (codes "country_exempt", exemption breakdown)
      ∷ (codes "score", object (score_payload ctx.request.score breakdown))
      ∷ (codes "cost", number (pos cost))
      ∷ []

  -- The payload that `log_admission_event` logs.
  pub admission_payload : Context → (cost : ℕ) → Option ScoreBreakdown → Details → Dict Json
  unfolding facts when_some
  admission_payload ctx cost breakdown d =
      when_some (codes "status_code") (λ n. number (pos n)) d.status_code
        (when_some (codes "backend_latency_ms") float d.backend_latency_ms (
          when_some (codes "queue_wait_ms") float d.queue_wait_ms
            (when_some (codes "reason") text d.reason (facts ctx cost breakdown))))

  -- The parts of a `logging.LogRecord` that the formatter names.
  pub record LogRecord : Type 0 where
    pub time : Text
    pub level : Text
    pub logger : Text
    pub message : Text
    pub attributes : Dict Json
    pub exception : Option Text

  add_extras : (standard : List Text) → Dict Json → Dict Json → Dict Json
  unfolding insert in_list
  add_extras standard [] payload = payload
  add_extras standard ((k, v) ∷ attributes) payload =
      add_extras standard attributes (if in_list k standard then payload else insert k v payload)

  -- `JsonFormatter.format`, up to the printing: `standard` are the attributes of every record.
  pub format : (standard : List Text) → LogRecord → Dict Json
  unfolding add_extras when_some
  format standard r = when_some (codes "exc_info") text r.exception (
      add_extras standard r.attributes (
        (codes "timestamp", text r.time)
        ∷ (codes "level", text r.level)
        ∷ (codes "logger", text r.logger)
        ∷ (codes "event", text r.message)
        ∷ []))

  -- What an extra key may not be: an attribute of every record, and two more.
  abbrev pub reserved : Dict Json → List Text
  reserved standard = codes "message" ∷ codes "asctime" ∷ keys standard

  pub any_listed : (names : List Text) → Dict Json → Bool
  unfolding in_list
  any_listed names [] = false
  any_listed names ((k, v) ∷ extra) = in_list k names || any_listed names extra

  -- A call of the logger does nothing, raises the KeyError of an extra key that is reserved, or
  -- emits a record.
  pub data Logging : Type 0 where
    disabled : Logging
    key_error : Logging
    emits : LogRecord → Logging

  -- `logger.info(message, extra=extra)` where the logger's effective level is `level` and INFO is 20:
  -- the attributes of the record are the standard ones and the extra ones.
  pub info :
      (level : ℕ)
      → (standard : Dict Json) → (time logger message : Text) → (extra : Dict Json) → Logging
  unfolding any_listed
  info level standard time logger message extra =
      if ltb 20 level
      then disabled
      else if any_listed (reserved standard) extra
      then key_error
      else emits (record {
        time = time;
        level = codes "INFO";
        logger = logger;
        message = message;
        attributes = standard ++ extra;
        exception = none;
      })
