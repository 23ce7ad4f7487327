-- ===== src/Dispatcher/Tests.antt =====
-- A dispatch to a fleet of two instances, over a fixed controller with one slot in use.
use adaptive_admission_contr.Base.{
  ℕ, ◌+◌, ◌-◌, ◌≡◌, refl, false, none, some, [], ◌∷◌, List, Text, codes, ◌==◌, Distinct, lookup,
  insert, from_keys,
}
use adaptive_admission_contr.Base.Int.{pos}
use adaptive_admission_contr.Base.Float.{Float, fixed_point}
use adaptive_admission_contr.Interfaces.{RequestContext}
use adaptive_admission_contr.Balancer.{SplitUrl, Balancer, init, select, release, admit}
use adaptive_admission_contr.Capacity.{FixedController, fixed, open_gate, acquire}
use adaptive_admission_contr.Capacity.Interface.{fixed_interface}
use adaptive_admission_contr.Dispatcher.{
  Sent, answered, failed, connect_timeout, other_timeout, not_http_error, pending, World, Job,
  returns, raises, dispatch_queued, finish_dispatch, is_connect_failure, is_timeout_exception,
  strip_hop_by_hop, is_hop_by_hop,
}
use adaptive_admission_contr.Dispatcher.Outcome.{IsSettled, finish_dispatch-cases}
use adaptive_admission_contr.Dispatcher.Forward.{ClientRequest, Streamed}
use adaptive_admission_contr.Dispatcher.Balance.{dispatch_queued-balanced, dispatch_queued-leak}

instance abbrev clock : Float
clock = fixed_point

abbrev host_a : Text
host_a = codes "a"

abbrev split : Text → SplitUrl
split u = record { scheme = codes "http"; hostname = u; port = none }

abbrev fleet : Balancer
unfolding init
fleet = init split (host_a ∷ codes "b" ∷ []) [] false 300000

abbrev request : RequestContext
request = record { arrival_time = 0; source_ip = none; user_class = none; score = pos 100 }

abbrev job : Job
job = record {
  name = codes "web";
  class_label = codes "unknown";
  queue_wait_ms = 5000;
  url = host_a;
  start = 1000;
  released_at = 2000;
  finished = 2000;
}

abbrev busy : FixedController
unfolding fixed open_gate acquire
busy = record (fixed 4) { gate = acquire 1 (open_gate 4) }

abbrev world : World FixedController
world = record {
  balancer = fleet;
  controller = busy;
  events = [];
  future = pending;
  upstream_closed = false;
}

abbrev chosen : Balancer
chosen = admit none 1 host_a fleet

-- A client that answers 200 with two cookies and a hop-by-hop header.
abbrev headers : List (Text × Text)
headers =
    (codes "Set-Cookie", codes "a=1")
    ∷ (codes "Connection", codes "close")
    ∷ (codes "set-cookie", codes "b=2")
    ∷ []

abbrev send_ok : Text → World FixedController → Sent × World FixedController
send_ok u w = (answered 200 headers, w)

abbrev send_raises : Text → World FixedController → Sent × World FixedController
send_raises u w = (failed not_http_error, w)

program : Unit {0}
unfolding select lookup insert ◌==◌ from_keys init dispatch_queued finish_dispatch release
program = tt

select_first : select none 0 1 none fleet ≡ some (host_a, chosen)
unfolding program
select_first = refl

fleet-Distinct : Distinct fleet.in_flight
unfolding program
fleet-Distinct = (refl, (refl, tt))

strip_keeps_cookies :
    strip_hop_by_hop headers
    ≡ (codes "Set-Cookie", codes "a=1") ∷ (codes "set-cookie", codes "b=2") ∷ []
unfolding strip_hop_by_hop is_hop_by_hop ◌==◌
strip_keeps_cookies = refl

finish_dispatch-cases_example :
    (w' : World FixedController) × (finish_dispatch fixed_interface job
        (failed connect_timeout)
        world
      ≡ some w')
    × IsSettled fixed_interface job (failed connect_timeout) world w'
finish_dispatch-cases_example =
    finish_dispatch-cases fixed_interface job (failed connect_timeout) world (λ e. cc)

dispatch_queued-balanced_example :
    (w' : World FixedController) × (dispatch_queued fixed_interface none 0 1 request job send_ok
        world
      ≡ returns w')
    × (w'.balancer.in_flight ≡ fleet.in_flight)
    × (fixed_interface.in_flight w'.controller ≡ fixed_interface.in_flight busy - 1)
dispatch_queued-balanced_example =
    dispatch_queued-balanced fixed_interface none 0 1 request job send_ok world host_a chosen
      (answered 200 headers) (record world { balancer = chosen }) fleet-Distinct select_first refl
      refl refl (λ e. cc)

dispatch_queued-leak_example :
    (w' : World FixedController) × (n : ℕ) × (dispatch_queued fixed_interface none 0 1 request job
        send_raises world
      ≡ raises w')
    × (lookup host_a fleet.in_flight ≡ some n)
    × (lookup host_a w'.balancer.in_flight ≡ some (n + 1))
    × (fixed_interface.in_flight w'.controller ≡ fixed_interface.in_flight busy)
    × (w'.future ≡ pending)
dispatch_queued-leak_example =
    dispatch_queued-leak fixed_interface none 0 1 request job send_raises world host_a chosen
      fleet-Distinct select_first refl

abbrev answered_world : World FixedController
unfolding finish_dispatch
answered_world = elim (finish_dispatch fixed_interface job (failed other_timeout) world) [
  | none ↦ world
  | some w ↦ w
]

answered_world_eq :
    finish_dispatch fixed_interface job (failed other_timeout) world ≡ some answered_world
unfolding finish_dispatch is_connect_failure is_timeout_exception
answered_world_eq = refl

abbrev instance_url : Text
instance_url = codes "http://a:80/base"

abbrev cookies : ClientRequest
cookies = record {
  method = codes "GET";
  path = codes "/w/x";
  query = codes "q=1";
  headers =
      (codes "cookie", codes "a")
      ∷ (codes "TE", codes "trailers")
      ∷ (codes "cookie", codes "b")
      ∷ [];
  body = [];
}

abbrev answer : Streamed
answer = record {
  status_code = 200;
  headers = (codes "set-cookie", codes "c") ∷ [];
  body = codes "x" ∷ [];
}
