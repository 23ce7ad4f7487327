-- ===== src/Interfaces.antt =====
-- app/interfaces.py: what the scheduler and the dispatcher know of a `CapacityController`, and the
-- fields of `RequestContext` that they read.
use adaptive_admission_contr.Base.{ℕ, ◌+◌, ◌-◌, ◌≡◌, Bool, Option, some, Text}
use adaptive_admission_contr.Base.Float.{Float}
use adaptive_admission_contr.Base.Int.{ℤ}

module _ ⦃fl : Float⦄ where
  open fl use {F}

  pub record RequestContext : Type 0 where
    pub arrival_time : F
    pub source_ip : Option Text
    pub user_class : Option Text
    pub score : ℤ

  -- The state S of a controller; `in_flight` counts its slots in use. `acquire` is `none` while the
  -- call blocks: a blocked call is one that takes its slot later.
  pub record CapacityController (S : Type 0) : Type 0 where
    pub acquire : (cost : ℕ) → S → Option S
    pub release : (cost : ℕ) → F → (status_code : ℕ) → (timed_out : Bool) → S → S
    pub current_limit : S → ℕ
    pub mean_latency_ms : S → Option F
    pub in_flight : S → ℕ
    pub acquire_takes :
        (cost : ℕ) (c c' : S) → acquire cost c ≡ some c' → in_flight c' ≡ in_flight c + cost
    pub release_gives :
        (cost : ℕ) (latency_ms : F) (status_code : ℕ) (timed_out : Bool) (c : S)
        → in_flight (release cost latency_ms status_code timed_out c) ≡ in_flight c - cost
