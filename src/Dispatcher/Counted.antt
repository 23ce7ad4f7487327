-- ===== src/Dispatcher/Counted.antt =====
-- The error and timeout counters of a dispatch.
use adaptive_admission_contr.Base.{
  ℕ, ap, ◌∙◌, ◌≢◌, suc, ◌+◌, ◌≡◌, refl, not, ◌&&◌, if◌then◌else◌, leb, List, [], ◌∷◌, ◌++◌, some,
  arith, Bool-cases, inl, inr,
}
use adaptive_admission_contr.Base.Float.{Float}
use adaptive_admission_contr.Interfaces.{CapacityController}
use adaptive_admission_contr.Dispatcher.Outcome.{expected, timed_out}
use adaptive_admission_contr.Dispatcher.{
  Sent, connect_error, connect_timeout, other_timeout, other_http_error, not_http_error, answered,
  failed, is_connect_failure, is_timeout_exception, is_http_error, settle, report, resolve, deliver,
  on_answer, on_connect_failure, on_timeout, on_http_error, World, Job, Event, finish_dispatch,
  backend_errors_total, backend_timeouts_total, instance_errors_total,
  instance_connect_failures_total, request_duration_seconds, log_admitted, Response, server_errors,
  duration, admitted,
}

module _ ⦃fl : Float⦄ where
  open fl use {F}

  pub errors_in : List Event → ℕ
  errors_in [] = 0
  errors_in (backend_errors_total name ∷ es) = suc (errors_in es)
  errors_in (_ ∷ es) = errors_in es

  pub timeouts_in : List Event → ℕ
  timeouts_in [] = 0
  timeouts_in (backend_timeouts_total name ∷ es) = suc (timeouts_in es)
  timeouts_in (_ ∷ es) = timeouts_in es

  errors_in-append : (es es' : List Event) → errors_in (es ++ es') ≡ errors_in es + errors_in es'
  unfolding errors_in
  errors_in-append [] es' = omega arith
  errors_in-append (backend_errors_total n ∷ es) es' = omega (arith, errors_in-append es es')
  errors_in-append (backend_timeouts_total n ∷ es) es' = errors_in-append es es'
  errors_in-append (instance_errors_total n u ∷ es) es' = errors_in-append es es'
  errors_in-append (instance_connect_failures_total n u ∷ es) es' = errors_in-append es es'
  errors_in-append (request_duration_seconds n c d ∷ es) es' = errors_in-append es es'
  errors_in-append (log_admitted q l s ∷ es) es' = errors_in-append es es'

  timeouts_in-append :
      (es es' : List Event) → timeouts_in (es ++ es') ≡ timeouts_in es + timeouts_in es'
  unfolding timeouts_in
  timeouts_in-append [] es' = omega arith
  timeouts_in-append (backend_errors_total n ∷ es) es' = timeouts_in-append es es'
  timeouts_in-append (backend_timeouts_total n ∷ es) es' = omega (arith, timeouts_in-append es es')
  timeouts_in-append (instance_errors_total n u ∷ es) es' = timeouts_in-append es es'
  timeouts_in-append (instance_connect_failures_total n u ∷ es) es' = timeouts_in-append es es'
  timeouts_in-append (request_duration_seconds n c d ∷ es) es' = timeouts_in-append es es'
  timeouts_in-append (log_admitted q l s ∷ es) es' = timeouts_in-append es es'

  -- What each outcome writes.
  written : Job → Sent → List Event
  unfolding server_errors duration admitted
  written j (answered s h) = server_errors j s ++ duration j ∷ admitted j s ∷ []
  written j (failed other_timeout) =
      backend_timeouts_total j.name ∷ duration j ∷ admitted j 503 ∷ []
  written j (failed other_http_error) =
      backend_errors_total j.name
      ∷ instance_errors_total j.name j.url
      ∷ duration j
      ∷ admitted j 502
      ∷ []
  written j (failed not_http_error) = []
  written j (failed _) =
      backend_errors_total j.name
      ∷ instance_errors_total j.name j.url
      ∷ instance_connect_failures_total j.name j.url
      ∷ duration j
      ∷ admitted j 502
      ∷ []

  written-counts :
      (j : Job) (sent : Sent)
      → sent ≢ failed not_http_error
      → (errors_in (written j sent)
          ≡ (if leb 500 (expected sent) && not (timed_out sent) then 1 else 0))
        × (timeouts_in (written j sent) ≡ (if timed_out sent then 1 else 0))
  unfolding written errors_in timeouts_in server_errors expected timed_out duration admitted
  written-counts j (answered s h) ok = elim (Bool-cases (leb 500 s)) [
    | inl e ↦ (ground (arith, e), ground (arith, e))
    | inr e ↦ (ground (arith, e), ground (arith, e))
  ]
  written-counts j (failed connect_error) ok = (refl, refl)
  written-counts j (failed connect_timeout) ok = (refl, refl)
  written-counts j (failed other_timeout) ok = (refl, refl)
  written-counts j (failed other_http_error) ok = (refl, refl)
  written-counts j (failed not_http_error) ok = absurd (ok refl)

  module _ {S : Type 0} where
    resolve-events : (r : Response) (w : World S) → (resolve r w).events ≡ w.events
    unfolding resolve
    resolve-events r w = ground arith

    deliver-events : (r : Response) (w : World S) → (deliver r w).events ≡ w.events
    unfolding deliver
    deliver-events r w = ground arith

    finish_dispatch-events :
        (ctl : CapacityController S) (j : Job) (sent : Sent) (w w' : World S)
        → finish_dispatch ctl j sent w ≡ some w'
        → w'.events ≡ w.events ++ written j sent
    unfolding finish_dispatch written on_answer on_connect_failure on_timeout on_http_error
        is_connect_failure is_timeout_exception is_http_error report settle resolve deliver
    finish_dispatch-events ctl j (answered s h) w w' e = ground arith
    finish_dispatch-events ctl j (failed connect_error) w w' e = ground arith
    finish_dispatch-events ctl j (failed connect_timeout) w w' e = ground arith
    finish_dispatch-events ctl j (failed other_timeout) w w' e = ground arith
    finish_dispatch-events ctl j (failed other_http_error) w w' e = ground arith
    finish_dispatch-events ctl j (failed not_http_error) w w' e = ground arith

    -- A dispatch that returns adds one to the backend's timeouts when the backend was too slow, else
    -- one to its errors when the client is to see a status of 500 or more, and nothing otherwise.
    pub finish_dispatch-counts :
        (ctl : CapacityController S) (j : Job) (sent : Sent) (w w' : World S)
        → sent ≢ failed not_http_error
        → finish_dispatch ctl j sent w ≡ some w'
        → (errors_in w'.events
            ≡ errors_in w.events
              + (if leb 500 (expected sent) && not (timed_out sent) then 1 else 0))
          × (timeouts_in w'.events ≡ timeouts_in w.events + (if timed_out sent then 1 else 0))
    finish_dispatch-counts ctl j sent w w' ok e =
        let same = finish_dispatch-events ctl j sent w w' e in
        let (errors, timeouts) = written-counts j sent ok in
        (
          ap errors_in same
              ∙ errors_in-append w.events (written j sent)
              ∙ ap (λ n. errors_in w.events + n) errors,
          ap timeouts_in same
              ∙ timeouts_in-append w.events (written j sent)
              ∙ ap (λ n. timeouts_in w.events + n) timeouts,
        )
