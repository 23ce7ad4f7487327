-- ===== src/Dispatcher/Outcome.antt =====
-- What a dispatch leaves behind, for each outcome of sending the request.
use adaptive_admission_contr.Base.{
  ℕ, ◌-◌, ◌≡◌, ◌≢◌, refl, inl, inr, Bool, true, false, List, some, Text, arith, Bool-cases,
}
use adaptive_admission_contr.Base.Float.{Float}
use adaptive_admission_contr.Interfaces.{CapacityController}
use adaptive_admission_contr.Balancer.{release}
use adaptive_admission_contr.Dispatcher.{
  SendError, Sent, connect_error, connect_timeout, other_timeout, other_http_error, not_http_error,
  answered, failed, Response, json_response, streaming_response, pending, cancelled, resolved,
  World, Job, Event, is_cancelled, is_connect_failure, is_timeout_exception, is_http_error,
  latency_ms, settle, report, resolve, deliver, on_answer, on_connect_failure, on_timeout,
  on_http_error, finish_dispatch,
}

pub status_of : Response → ℕ
status_of (json_response status_code detail reason) = status_code
status_of (streaming_response status_code headers) = status_code

-- The status that the client is to see.
unfoldable pub expected : Sent → ℕ
expected (answered status_code headers) = status_code
expected (failed other_timeout) = 503
expected (failed _) = 502

unfoldable pub refused : Sent → Bool
refused (failed connect_error) = true
refused (failed connect_timeout) = true
refused _ = false

unfoldable pub timed_out : Sent → Bool
timed_out (failed other_timeout) = true
timed_out _ = false

module _ ⦃fl : Float⦄ where
  open fl use {F}

  module _ {S : Type 0} where
    -- `w'` is the state that a dispatch leaves after `sent`, from `w`.
    pub record IsSettled (ctl : CapacityController S) (j : Job) (sent : Sent) (w w' : World S)
        : Type 0 where
      pub slot : ctl.in_flight w'.controller ≡ ctl.in_flight w.controller - 1
      pub load : w'.balancer ≡ release j.url (refused sent) j.released_at w.balancer
      pub answer :
          w.future ≡ pending
          → (r : Response) × (w'.future ≡ resolved r) × (status_of r ≡ expected sent)
      pub gave_up : w.future ≡ cancelled → w'.future ≡ cancelled
      pub closed :
          (s : ℕ) (h : List (Text × Text))
          → sent ≡ answered s h
          → w.future ≡ cancelled
          → w'.upstream_closed ≡ true

    resolve-IsSettled :
        (ctl : CapacityController S) (j : Job) (error : SendError) (status_code : ℕ) (late : Bool)
        (es : List Event) (r : Response) (w : World S)
        → status_of r ≡ expected (failed error)
        → IsSettled ctl j
            (failed error)
            w
            (resolve r (report es (settle ctl j (refused (failed error)) status_code late w)))
    unfolding resolve report settle refused is_cancelled expected
    resolve-IsSettled ctl j error status_code late es r w same =
        let gives = ctl.release_gives 1 (latency_ms j) status_code late w.controller in
        elim (Bool-cases (is_cancelled w.future)) [
          | inl gone ↦
              rw (gone, resolve)
                (record {
                  slot = gives;
                  load = refl;
                  answer = λ p. ground (arith, gone, p);
                  gave_up = λ c. c;
                  closed = λ s h e c. cc;
                })
          | inr here ↦
              rw (here, resolve)
                (record {
                  slot = gives;
                  load = refl;
                  answer = λ p. (r, refl, same);
                  gave_up = λ c. ground (arith, here, c);
                  closed = λ s h e c. cc;
                })
        ]

    deliver-IsSettled :
        (ctl : CapacityController S) (j : Job) (s : ℕ) (h : List (Text × Text)) (es : List Event)
        (r : Response) (w : World S)
        → status_of r ≡ s
        → IsSettled ctl j (answered s h) w (deliver r (report es (settle ctl j false s false w)))
    unfolding deliver report settle expected refused is_cancelled
    deliver-IsSettled ctl j s h es r w same =
        let gives = ctl.release_gives 1 (latency_ms j) s false w.controller in
        elim (Bool-cases (is_cancelled w.future)) [
          | inl gone ↦
              rw (gone, deliver)
                (record {
                  slot = gives;
                  load = refl;
                  answer = λ p. ground (arith, gone, p);
                  gave_up = λ c. c;
                  closed = λ s' h' e c. refl;
                })
          | inr here ↦
              rw (here, deliver)
                (record {
                  slot = gives;
                  load = refl;
                  answer = λ p. (r, refl, same);
                  gave_up = λ c. ground (arith, here, c);
                  closed = λ s' h' e c. ground (arith, here, c);
                })
        ]

    -- However the sending ends, except in an exception that is not an httpx error, the dispatch
    -- returns: one slot is given back, the balancer's count of the instance is given back, with the
    -- instance marked down just when no connection was made; a waiting client gets the status of
    -- the backend's answer, 503 after a timeout and 502 after another error; a client that gave up
    -- stays so, and an answer that came for it is closed.
    pub finish_dispatch-cases :
        (ctl : CapacityController S) (j : Job) (sent : Sent) (w : World S)
        → sent ≢ failed not_http_error
        → (w' : World S) × (finish_dispatch ctl j sent w ≡ some w') × IsSettled ctl j sent w w'
    unfolding finish_dispatch on_answer on_connect_failure on_timeout on_http_error status_of
        expected refused is_connect_failure is_timeout_exception is_http_error
    finish_dispatch-cases ctl j (answered s h) w ok =
        (_, refl, deliver-IsSettled ctl j s h _ _ w refl)
    finish_dispatch-cases ctl j (failed connect_error) w ok =
        (_, refl, resolve-IsSettled ctl j connect_error 0 false _ _ w refl)
    finish_dispatch-cases ctl j (failed connect_timeout) w ok =
        (_, refl, resolve-IsSettled ctl j connect_timeout 0 false _ _ w refl)
    finish_dispatch-cases ctl j (failed other_timeout) w ok =
        (_, refl, resolve-IsSettled ctl j other_timeout 0 true _ _ w refl)
    finish_dispatch-cases ctl j (failed other_http_error) w ok =
        (_, refl, resolve-IsSettled ctl j other_http_error 0 false _ _ w refl)
    finish_dispatch-cases ctl j (failed not_http_error) w ok = absurd (ok refl)
