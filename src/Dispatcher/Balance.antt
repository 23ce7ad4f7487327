-- ===== src/Dispatcher/Balance.antt =====
-- A whole dispatch: what the balancer and the controller have reserved is given back, except after
-- an exception that is not an httpx error.
use adaptive_admission_contr.Base.{
  ℕ, ◌+◌, ◌-◌, ◌≡◌, ◌≢◌, refl, ap, ◌∙◌, Option, some, Text, arith, lookup, Distinct, ==_refl,
  lookup-insert,
}
use adaptive_admission_contr.Base.Float.{Float}
use adaptive_admission_contr.Interfaces.{CapacityController, RequestContext}
use adaptive_admission_contr.Balancer.{Balancer, select, release}
use adaptive_admission_contr.Balancer.Pool.{active_pool-IsPreferred}
use adaptive_admission_contr.Balancer.Select.{select-Reserves}
use adaptive_admission_contr.Balancer.Release.{release-select}
use adaptive_admission_contr.Dispatcher.{
  Sent, not_http_error, failed, World, Job, returns, raises, dispatch_queued, end_dispatch,
  finish_dispatch, is_connect_failure, is_timeout_exception, is_http_error,
}
use adaptive_admission_contr.Dispatcher.Outcome.{refused, IsSettled, finish_dispatch-cases}

module _ ⦃fl : Float⦄ {S : Type 0} where
  open fl use {F}

  dispatch_queued-IsSettled :
      (ctl : CapacityController S) (hint : Option ℕ) (t t' : F) (ctx : RequestContext) (j : Job)
      (send : Text → World S → Sent × World S) (w : World S) (u : Text) (b : Balancer) (sent : Sent)
      (w₁ : World S)
      → select hint t t' ctx.source_ip w.balancer ≡ some (u, b)
      → send u (record w { balancer = b }) ≡ (sent, w₁)
      → sent ≢ failed not_http_error
      → (w' : World S) × (dispatch_queued ctl hint t t' ctx j send w ≡ returns w')
        × IsSettled ctl (record j { url = u }) sent w₁ w'
  unfolding dispatch_queued end_dispatch
  dispatch_queued-IsSettled ctl hint t t' ctx j send w u b sent w₁ chosen answer ok =
      let (w', e, s) = finish_dispatch-cases ctl (record j { url = u }) sent w₁ ok in
      (w', ground (arith, chosen, answer, e), s)

  -- While no other task runs, a dispatch whose sending does not end in an exception of another kind
  -- than httpx's returns with every instance's count of requests as it was before, and with one
  -- slot fewer in use.
  pub dispatch_queued-balanced :
      (ctl : CapacityController S) (hint : Option ℕ) (t t' : F) (ctx : RequestContext) (j : Job)
      (send : Text → World S → Sent × World S) (w : World S) (u : Text) (b : Balancer) (sent : Sent)
      (w₁ : World S)
      → Distinct w.balancer.in_flight
      → select hint t t' ctx.source_ip w.balancer ≡ some (u, b)
      → send u (record w { balancer = b }) ≡ (sent, w₁)
      → w₁.balancer ≡ b
      → w₁.controller ≡ w.controller
      → sent ≢ failed not_http_error
      → (w' : World S) × (dispatch_queued ctl hint t t' ctx j send w ≡ returns w')
        × (w'.balancer.in_flight ≡ w.balancer.in_flight)
        × (ctl.in_flight w'.controller ≡ ctl.in_flight w.controller - 1)
  dispatch_queued-balanced ctl hint t t' ctx j send w u b sent w₁ d chosen answer alone idle ok =
      let (w', e, s) =
        dispatch_queued-IsSettled ctl hint t t' ctx j send w u b sent w₁ chosen answer ok in
      let (back, health) =
        release-select hint t t' j.released_at ctx.source_ip (refused sent) w.balancer u b d
          chosen in
      (
        w',
        e,
        ap (λ x. x.in_flight) s.load
            ∙ ap (λ x. (release u (refused sent) j.released_at x).in_flight) alone
            ∙ back,
        s.slot ∙ ap (λ c. ctl.in_flight c - 1) idle,
      )

  -- When sending raises an exception that is not an httpx error, the exception leaves the dispatch:
  -- the instance keeps the request counted, the slot stays in use and the client's future is as it
  -- was.
  pub dispatch_queued-leak :
      (ctl : CapacityController S) (hint : Option ℕ) (t t' : F) (ctx : RequestContext) (j : Job)
      (send : Text → World S → Sent × World S) (w : World S) (u : Text) (b : Balancer)
      → Distinct w.balancer.in_flight
      → select hint t t' ctx.source_ip w.balancer ≡ some (u, b)
      → send u (record w { balancer = b }) ≡ (failed not_http_error, record w { balancer = b })
      → (w' : World S) × (n : ℕ) × (dispatch_queued ctl hint t t' ctx j send w ≡ raises w')
        × (lookup u w.balancer.in_flight ≡ some n)
        × (lookup u w'.balancer.in_flight ≡ some (n + 1))
        × (ctl.in_flight w'.controller ≡ ctl.in_flight w.controller)
        × (w'.future ≡ w.future)
  unfolding dispatch_queued end_dispatch finish_dispatch is_connect_failure is_timeout_exception
      is_http_error
  dispatch_queued-leak ctl hint t t' ctx j send w u b d chosen raised =
      let r = select-Reserves hint t t' ctx.source_ip w.balancer d chosen in
      let found = (active_pool-IsPreferred w.balancer u r.load r.offered).0 in
      let counted : lookup u b.in_flight ≡ some (r.load + 1) =
        rw (r.counted, lookup-insert u u (r.load + 1) w.balancer.in_flight, ==_refl u) in
      (
        record w { balancer = b },
        r.load,
        ground (arith, chosen, raised),
        found,
        counted,
        refl,
        refl,
      )
