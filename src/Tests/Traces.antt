-- ===== src/Tests/Traces.antt =====
-- The traces of the server: the theorems at a platform whose peers keep sending.
use zmq_proxy.Cmd.{Returns}
use zmq_proxy.Example.Busy.{
  busy, busy-laws, busy-Reliable, busy-Memory, busy-Yields, busy-Steady, busy-Fed,
}
use zmq_proxy.Example.{quiet, worker}
use zmq_proxy.Multipart.Outcomes.{Whole, Prefix}
use zmq_proxy.Platform.{Io}
use zmq_proxy.Prelude.{◌≡◌, true, List, ◌∷◌, ◌≤◌, length, codes, false, [], none, refl}
use zmq_proxy.Server.Proxy.{Loop, continues, start, round}
use zmq_proxy.Server.Refines.Workers.{start-length}
use zmq_proxy.Server.Refines.Dispatching.{round-Dispatched}
use zmq_proxy.Server.Registry.Identities.{member}
use zmq_proxy.Server.Spec.Dispatched.{Dispatched}
use zmq_proxy.Server.Spec.{Event, Round}
use zmq_proxy.Server.Refines.{ends, Traced, view}
use zmq_proxy.Server.Refines.Runs.{Runs, start-Runs}
use zmq_proxy.Server.Refines.Traces.{
  start-Addressed, start-Attended, start-Served, start-Genuine, start-Fresh, start-Kept,
}
use zmq_proxy.Server.Registry.Table.{expiry_of}
use zmq_proxy.Server.Spec.Addressed.{Addressed}
use zmq_proxy.Server.Spec.Attended.{Attended}
use zmq_proxy.Server.Spec.Fresh.{Fresh}
use zmq_proxy.Server.Spec.Genuine.{Genuine}
use zmq_proxy.Server.Spec.Kept.{Kept}
use zmq_proxy.Server.Spec.Served.{Served}
use zmq_proxy.Server.State.{Server}

abbrev unmanned : Server busy
unmanned = record { running = false; front_sock = 0; back_sock = 1; vec_work = [] }

abbrev begin : Io busy
begin = record { world = quiet; sent = [] }

start-Runs_example :
    Returns
      (λ flow t. Runs busy (Whole busy) 5 unmanned begin flow t)
      (start busy 2 5 unmanned begin)
start-Runs_example =
    start-Runs busy 2 busy-laws busy-Reliable busy-Steady 5 unmanned begin (busy-Fed 1) (busy-Fed 0)
      tt

start-Addressed_example :
    Returns
      (λ flow t. (r : Runs busy (Prefix busy) 5 unmanned begin flow t) × Addressed [] (r.events))
      (start busy 2 5 unmanned begin)
start-Addressed_example =
    start-Addressed busy 2 busy-laws busy-Memory busy-Yields busy-Steady 5 unmanned begin
      (busy-Fed 1) (busy-Fed 0) tt

start-Served_example :
    Returns
      (λ flow t. (r : Runs busy (Prefix busy) 5 unmanned begin flow t) × Served (r.events))
      (start busy 2 5 unmanned begin)
start-Served_example =
    start-Served busy 2 busy-laws busy-Memory busy-Yields busy-Steady 5 unmanned begin (busy-Fed 1)
      (busy-Fed 0) tt

start-Genuine_example :
    Returns
      (λ flow t. (r : Runs busy (Prefix busy) 5 unmanned begin flow t) × Genuine none (r.events))
      (start busy 2 5 unmanned begin)
start-Genuine_example =
    start-Genuine busy 2 busy-laws busy-Memory busy-Yields busy-Steady 5 unmanned begin (busy-Fed 1)
      (busy-Fed 0) tt

start-Fresh_example :
    Returns
      (λ flow t.
        (r : Runs busy (Prefix busy) 5 unmanned begin flow t) × Fresh
          (r.events)
          (λ id. expiry_of busy id r.loop.server.vec_work))
      (start busy 2 5 unmanned begin)
start-Fresh_example =
    start-Fresh busy 2 busy-laws busy-Memory busy-Yields busy-Steady 4 unmanned begin (busy-Fed 1)
      (busy-Fed 0) refl

start-Kept_example :
    Returns
      (λ flow t.
        (r : Runs busy (Prefix busy) 5 unmanned begin flow t) × Kept
          (λ id. expiry_of busy id unmanned.vec_work)
          (r.events)
          (λ id. expiry_of busy id r.loop.server.vec_work))
      (start busy 2 5 unmanned begin)
start-Kept_example =
    start-Kept busy 2 busy-laws busy-Memory busy-Yields busy-Steady 5 unmanned begin (busy-Fed 1)
      (busy-Fed 0) tt

start-Attended_example :
    Returns
      (λ flow t. (r : Runs busy (Prefix busy) 5 unmanned begin flow t) × Attended false (r.events))
      (start busy 2 5 unmanned begin)
start-Attended_example =
    start-Attended busy 2 busy-laws busy-Memory busy-Yields busy-Steady 5 unmanned begin
      (busy-Fed 1) (busy-Fed 0) tt

start-length_example :
    Returns
      (λ flow t.
        (r : Runs busy (Prefix busy) 5 unmanned begin flow t) × (length r.loop.server.vec_work ≤ 5))
      (start busy 2 5 unmanned begin)
start-length_example =
    start-length busy 2 busy-laws busy-Memory busy-Yields busy-Steady 5 unmanned begin (busy-Fed 1)
      (busy-Fed 0) tt

-- A server with a worker, at the start of a round in which both sockets were readable before.
abbrev manned : Loop busy
manned = record {
  server = record {
    running = true;
    front_sock = 0;
    back_sock = 1;
    vec_work = worker (codes "w1") 20000 ∷ [];
  };
  back_in = true;
  front_in = true;
  heartbeat_at = 0;
}

round-Dispatched_example :
    Returns
      (λ flow t.
        (l : Loop busy) × (flow ≡ continues l)
        × (es : List Event) × Round (view busy manned) es (view busy l)
        × Traced busy (Prefix busy) (ends busy manned.server) begin t es
        × Dispatched es)
      (round busy 2 manned begin)
unfolding member
round-Dispatched_example =
    round-Dispatched busy 2 busy-laws busy-Memory busy-Yields busy-Steady manned
      (worker (codes "w1") 20000) [] begin refl refl (busy-Fed 1) (busy-Fed 0) (refl, tt)
