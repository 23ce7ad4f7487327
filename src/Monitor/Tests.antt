-- ===== src/Monitor/Tests.antt =====
-- The line of a rejected request, and the health routes.
use adaptive_admission_contr.Base.{
  ◌≡◌, ◌<◌, ◌≤◌, ◌⊎◌, refl, true, false, none, some, [], ◌∷◌, ◌==◌, codes, Dict, insert, in_list,
}
use adaptive_admission_contr.Base.Int.{pos}
use adaptive_admission_contr.Base.Float.{Float, fixed_point}
use adaptive_admission_contr.Classifier.{Context}
use adaptive_admission_contr.Monitor.{
  readyz, healthz, ping_failed, Json, null, text, Details, admission_payload, facts, LogRecord,
  disabled, key_error, emits, format, reserved, any_listed, info,
}
use adaptive_admission_contr.Monitor.Lines.{IsLine, log_admission_event-IsLine}

instance abbrev clock : Float
clock = fixed_point

redis_down : (readyz (some true) ping_failed).status_code ≡ 503
unfolding readyz
redis_down = refl

alive : healthz.status_code ≡ 200
unfolding healthz
alive = refl

-- Some of the attributes of every record.
abbrev standard : Dict Json
standard =
    (codes "name", text (codes "app"))
    ∷ (codes "msg", text (codes "rejected"))
    ∷ (codes "args", null)
    ∷ (codes "levelname", text (codes "INFO"))
    ∷ (codes "exc_info", null)
    ∷ (codes "created", null)
    ∷ []

abbrev visitor : Context
visitor = record {
  scored = record {
    backend = codes "w";
    source_ip = some (codes "1.2.3.4");
    user_class = codes "anonymous";
    subnet_24 = none;
    subnet_6 = none;
    asn = none;
    country = none;
    user_id = none;
  };
  request = record {
    arrival_time = 0;
    source_ip = some (codes "1.2.3.4");
    user_class = some (codes "anonymous");
    score = pos 50;
  };
}

abbrev details : Details
details = record {
  reason = some (codes "queue_full");
  queue_wait_ms = none;
  backend_latency_ms = none;
  status_code = some 429;
}

unreserved : any_listed (reserved standard) (admission_payload visitor 1 none details) ≡ false
unfolding any_listed admission_payload facts insert in_list ◌==◌
unreserved = refl

log_admission_event-IsLine_example :
    ((20 < 20)
      × (info 20 standard
            (codes "noon")
            (codes "app")
            (codes "rejected")
            (admission_payload visitor 1 none details)
          ≡ disabled))
    ⊎ ((20 ≤ 20)
        × (r : LogRecord) × (info 20 standard
              (codes "noon")
              (codes "app")
              (codes "rejected")
              (admission_payload visitor 1 none details)
            ≡ emits r)
        × IsLine (format (reserved standard) r) (codes "rejected") visitor 1 none details)
log_admission_event-IsLine_example =
    log_admission_event-IsLine 20 standard (codes "noon") (codes "app") (codes "rejected") visitor 1
      none details unreserved

-- An extra key that every record has is an error of the logging library.
overwriting :
    info 20 standard (codes "noon") (codes "app") (codes "rejected") ((codes "name", null) ∷ [])
    ≡ key_error
unfolding info any_listed in_list ◌==◌
overwriting = refl
