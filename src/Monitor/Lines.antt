-- ===== src/Monitor/Lines.antt =====
-- What a log line holds.
use adaptive_admission_contr.Base.{
  ℕ, ◌<◌, ◌≤◌, ltb, ◌⊎◌, inl, inr, Bool-cases, ◌≡◌, refl, ap, ◌∙◌, false, Option, none, some, Text,
  ◌==◌, ==_iff, codes, Dict, Distinct, lookup, lookup-insert, insert-Distinct, arith,
}
use adaptive_admission_contr.Base.Int.{ℤ, pos}
use adaptive_admission_contr.Base.Float.{Float}
use adaptive_admission_contr.Scoring.{ScoreBreakdown}
use adaptive_admission_contr.Classifier.{Context}
use adaptive_admission_contr.Monitor.{
  Json, text, number, float, object, score_payload, optional_text, exemption, when_some, Details,
  facts, admission_payload, LogRecord, disabled, emits, null, boolean, format, reserved, any_listed,
  info,
}
use adaptive_admission_contr.Monitor.Extras.{header, logged, lookup-format}

module _ ⦃fl : Float⦄ where
  when_some-Distinct :
      {A : Type 0} (k : Text) (f : A → Json) (o : Option A) (d : Dict Json)
      → Distinct d
      → Distinct (when_some k f o d)
  unfolding when_some
  when_some-Distinct k f none d h = h
  when_some-Distinct k f (some a) d h = insert-Distinct k (f a) d h

  admission_payload-Distinct :
      (ctx : Context) (cost : ℕ) (b : Option ScoreBreakdown) (d : Details)
      → Distinct (admission_payload ctx cost b d)
  unfolding admission_payload facts lookup ◌==◌
  admission_payload-Distinct ctx cost b d = when_some-Distinct _ _ d.status_code _ (
      when_some-Distinct _ _ d.backend_latency_ms _ (
        when_some-Distinct _ _ d.queue_wait_ms _ (
          when_some-Distinct _ _ d.reason _
            (refl, (refl, (refl, (refl, (refl, (refl, (refl, (refl, tt)))))))))))

  abbrev pub json_of {ℓ} : {A : Type ℓ} → (A → Json) → Option A → Option Json
  json_of f none = none
  json_of f (some a) = some (f a)

  -- The object under `score`: the base, the penalty of each dimension and the final score; only the
  -- final score when there is no breakdown.
  abbrev pub IsDecomposed : ℤ → Option ScoreBreakdown → Dict ℤ → Type 0
  IsDecomposed score none scores =
      (lookup (codes "final") scores ≡ some score) × (lookup (codes "base") scores ≡ none)
  IsDecomposed score (some b) scores =
      (lookup (codes "base") scores ≡ some b.base)
      × (lookup (codes "penalty_ip") scores ≡ some (pos b.penalty_ip))
      × (lookup (codes "penalty_net24") scores ≡ some (pos b.penalty_net24))
      × (lookup (codes "penalty_net6") scores ≡ some (pos b.penalty_net6))
      × (lookup (codes "penalty_asn") scores ≡ some (pos b.penalty_asn))
      × (lookup (codes "penalty_country") scores ≡ some (pos b.penalty_country))
      × (lookup (codes "penalty_user") scores ≡ some (pos b.penalty_user))
      × (lookup (codes "final") scores ≡ some b.final)

  score_payload-IsDecomposed :
      (score : ℤ) (b : Option ScoreBreakdown) → IsDecomposed score b (score_payload score b)
  unfolding score_payload lookup ◌==◌
  score_payload-IsDecomposed score none = (refl, refl)
  score_payload-IsDecomposed score (some b) = (refl, refl, refl, refl, refl, refl, refl, refl)

  -- A text, or null.
  abbrev pub text_or_null : Option Text → Json
  text_or_null none = null
  text_or_null (some t) = text t

  abbrev pub exempt_or_null : Option ScoreBreakdown → Json
  exempt_or_null none = null
  exempt_or_null (some b) = boolean b.is_exempt

  optional_text-or_null : (o : Option Text) → optional_text o ≡ text_or_null o
  unfolding optional_text
  optional_text-or_null none = refl
  optional_text-or_null (some t) = refl

  exemption-or_null : (b : Option ScoreBreakdown) → exemption b ≡ exempt_or_null b
  unfolding exemption
  exemption-or_null none = refl
  exemption-or_null (some b) = refl

  -- What a line of `log_admission_event` says.
  pub record IsLine (line : Dict Json) (message : Text) (ctx : Context) (n : ℕ)
      (b : Option ScoreBreakdown) (d : Details) : Type 0 where
    pub event : lookup (codes "event") line ≡ some (text message)
    pub level : lookup (codes "level") line ≡ some (text (codes "INFO"))
    pub backend : lookup (codes "backend") line ≡ some (text ctx.scored.backend)
    pub user_class : lookup (codes "user_class") line ≡ some (text ctx.scored.user_class)
    pub source_ip : lookup (codes "source_ip") line ≡ some (text_or_null ctx.scored.source_ip)
    pub asn : lookup (codes "asn") line ≡ some (text_or_null ctx.scored.asn)
    pub country : lookup (codes "country") line ≡ some (text_or_null ctx.scored.country)
    pub exempt : lookup (codes "country_exempt") line ≡ some (exempt_or_null b)
    pub score :
        (scores : Dict ℤ) × (lookup (codes "score") line ≡ some (object scores))
        × IsDecomposed ctx.request.score b scores
    pub cost : lookup (codes "cost") line ≡ some (number (pos n))
    pub reason : lookup (codes "reason") line ≡ json_of text d.reason
    pub status_code :
        lookup (codes "status_code") line ≡ json_of (λ k. number (pos k)) d.status_code
    pub queue_wait_ms : lookup (codes "queue_wait_ms") line ≡ json_of float d.queue_wait_ms
    pub backend_latency_ms :
        lookup (codes "backend_latency_ms") line ≡ json_of float d.backend_latency_ms

  -- A value that is given, or else what was there.
  lookup-given :
      {A : Type 0} (k : Text) (f : A → Json) (o : Option A) (d : Dict Json)
      → lookup k d ≡ none
      → lookup k (when_some k f o d) ≡ json_of f o
  unfolding when_some
  lookup-given k f none d h = h
  lookup-given k f (some a) d h = ground (arith, lookup-insert k k (f a) d, ==_iff k k)

  lookup-skip :
      {A : Type 0} (k : Text) (f : A → Json) (o : Option A) (d : Dict Json) (j : Text)
      (v : Option Json)
      → (k == j) ≡ false
      → lookup j d ≡ v
      → lookup j (when_some k f o d) ≡ v
  unfolding when_some
  lookup-skip k f none d j v other h = h
  lookup-skip k f (some a) d j v other h = ground (arith, lookup-insert k j (f a) d, other, h)

  -- A key of the first part of the payload, or of none.
  lookup-payload :
      (ctx : Context) (n : ℕ) (b : Option ScoreBreakdown) (d : Details) (k : Text) (v : Option Json)
      → (codes "status_code" == k) ≡ false
      → (codes "backend_latency_ms" == k) ≡ false
      → (codes "queue_wait_ms" == k) ≡ false
      → (codes "reason" == k) ≡ false
      → lookup k (facts ctx n b) ≡ v
      → lookup k (admission_payload ctx n b d) ≡ v
  unfolding admission_payload
  lookup-payload ctx n b d k v e1 e2 e3 e4 h = lookup-skip _ _ d.status_code _ k v e1 (
      lookup-skip _ _ d.backend_latency_ms _ k v e2
        (lookup-skip _ _ d.queue_wait_ms _ k v e3 (lookup-skip _ _ d.reason _ k v e4 h)))

  same_option : (o : Option Json) → elim o [ none ↦ none | some v ↦ some v ] ≡ o
  same_option none = refl
  same_option (some v) = refl

  format-logged :
      (standard : Dict Json) (time logger message : Text) (ctx : Context) (n : ℕ)
      (b : Option ScoreBreakdown) (d : Details)
      → any_listed (reserved standard) (admission_payload ctx n b d) ≡ false
      → IsLine
          (format
            (reserved standard)
            (logged standard (admission_payload ctx n b d) time logger message))
          message
          ctx
          n
          b
          d
  unfolding admission_payload facts lookup ◌==◌
  format-logged standard time logger message ctx n b d free =
      let payload = admission_payload ctx n b d in
      let distinct = admission_payload-Distinct ctx n b d in
      let line = format (reserved standard) (logged standard payload time logger message) in
      let at : (k : Text)
          → lookup k line ≡ elim (lookup k payload) [
            | none ↦ lookup k (header time logger message)
            | some v ↦ some v
          ] =
        λ k. lookup-format standard payload time logger message k free distinct in
      let fact : (k : Text) (v : Option Json)
          → (codes "status_code" == k) ≡ false
          → (codes "backend_latency_ms" == k) ≡ false
          → (codes "queue_wait_ms" == k) ≡ false
          → (codes "reason" == k) ≡ false
          → lookup k (facts ctx n b) ≡ v
          → lookup k line
            ≡ elim v [ none ↦ lookup k (header time logger message) | some x ↦ some x ] =
        λ k v e1 e2 e3 e4 h.
          at k
          ∙ ap (λ o. elim o [ none ↦ lookup k (header time logger message) | some x ↦ some x ])
              (lookup-payload ctx n b d k v e1 e2 e3 e4 h) in
      record {
        event = fact (codes "event") none refl refl refl refl refl;
        level = fact (codes "level") none refl refl refl refl refl;
        backend = fact (codes "backend") _ refl refl refl refl refl;
        user_class = fact (codes "user_class") _ refl refl refl refl refl;
        source_ip =
            fact (codes "source_ip") _ refl refl refl refl refl
            ∙ ap some (optional_text-or_null ctx.scored.source_ip);
        asn =
            fact (codes "asn") _ refl refl refl refl refl
            ∙ ap some (optional_text-or_null ctx.scored.asn);
        country =
            fact (codes "country") _ refl refl refl refl refl
            ∙ ap some (optional_text-or_null ctx.scored.country);
        exempt =
            fact (codes "country_exempt") _ refl refl refl refl refl
            ∙ ap some (exemption-or_null b);
        score = (
          score_payload ctx.request.score b,
          fact (codes "score") _ refl refl refl refl refl,
          score_payload-IsDecomposed ctx.request.score b,
        );
        cost = fact (codes "cost") _ refl refl refl refl refl;
        reason =
            at (codes "reason")
            ∙ same_option _
            ∙ lookup-skip _ _ d.status_code _ _ _ refl (
                lookup-skip _ _ d.backend_latency_ms _ _ _ refl (
                  lookup-skip _ _ d.queue_wait_ms _ _ _ refl
                    (lookup-given _ text d.reason _ refl)));
        status_code =
            at (codes "status_code")
            ∙ same_option _
            ∙ lookup-given _ _ d.status_code _ (
                lookup-skip _ _ d.backend_latency_ms _ _ _ refl (
                  lookup-skip _ _ d.queue_wait_ms _ _ _ refl
                    (lookup-skip _ _ d.reason _ _ _ refl refl)));
        queue_wait_ms =
            at (codes "queue_wait_ms")
            ∙ same_option _
            ∙ lookup-skip _ _ d.status_code _ _ _ refl (
                lookup-skip _ _ d.backend_latency_ms _ _ _ refl (
                  lookup-given _ float d.queue_wait_ms _
                    (lookup-skip _ _ d.reason _ _ _ refl refl)));
        backend_latency_ms =
            at (codes "backend_latency_ms")
            ∙ same_option _
            ∙ lookup-skip _ _ d.status_code _ _ _ refl (
                lookup-given _ float d.backend_latency_ms _ (
                  lookup-skip _ _ d.queue_wait_ms _ _ _ refl
                    (lookup-skip _ _ d.reason _ _ _ refl refl)));
      }

  -- With a level above INFO nothing is logged. With any other, if none of its keys is an attribute
  -- that every record of the logging library has, an admission event is logged, and the line that
  -- the formatter makes of it has each of the facts under its own key: the event, the level, the
  -- backend, the class, the client with its network and its country, the exemption, the score with
  -- its base and the penalty of each dimension, and the cost; and the reason, the status code and
  -- the two times exactly when they are given.
  pub log_admission_event-IsLine :
      (level : ℕ) (standard : Dict Json) (time logger message : Text) (ctx : Context) (n : ℕ)
      (b : Option ScoreBreakdown) (d : Details)
      → any_listed (reserved standard) (admission_payload ctx n b d) ≡ false
      → ((20 < level)
          × (info level standard time logger message (admission_payload ctx n b d) ≡ disabled))
        ⊎ ((level ≤ 20)
            × (r : LogRecord) × (info level standard time logger message
                  (admission_payload ctx n b d)
                ≡ emits r)
            × IsLine (format (reserved standard) r) message ctx n b d)
  unfolding info
  log_admission_event-IsLine level standard time logger message ctx n b d free =
      let extra = admission_payload ctx n b d in
      elim (Bool-cases (ltb 20 level)) [
        | inl above ↦ inl (ground (arith, above), rw (above, info) refl)
        | inr enabled ↦ inr (
          ground (arith, enabled),
          logged standard extra time logger message,
          rw (enabled, free, info) refl,
          format-logged standard time logger message ctx n b d free,
        )
      ]
