-- ===== src/Tests/Proxy.antt =====
-- The loop of the server: the theorems at concrete inputs, and runs.
use zmq_proxy.Cmd.{Ensures, Returns, returns}
use zmq_proxy.Example.{
  fixed-Memory, scripted, scripted-laws, scripted-Reliable, Script, quiet, io, worker, server_with,
  final, followed, front_socket, back_socket, fixed, fixed-laws, fixed-Reliable, fixed_io,
  fixed_server,
}
use zmq_proxy.Multipart.Content.{pushmem}
use zmq_proxy.Multipart.Transfer
use zmq_proxy.Multipart.Wire.{Delivers, last, next, frames}
use zmq_proxy.Platform.{checked, query, Platform, pos}
use zmq_proxy.Prelude.{
  ◌≡◌, refl, true, false, [], ◌∷◌, codes, arith, if◌then◌else◌, str_eq, ltb, ◌≢◌, ◌⊎◌,
}
use zmq_proxy.Server.Proxy.Forward.{Answered, frontend-Answered, backend-relays}
use zmq_proxy.Server.Proxy.Registers.{Enrolled, backend-Enrolled}
use zmq_proxy.Server.Proxy.Heartbeats.{heartbeats, heartbeat-heartbeats}
use zmq_proxy.Server.Proxy.Invariant.{Serving, start-Serving}
use zmq_proxy.Server.Proxy.Polling.{Unserved, round-front_in, start-Unserved}
use zmq_proxy.Server.Proxy.{dispatch, Loop, continues, start, round, frontend, backend, heartbeat}
use zmq_proxy.Server.Registry.Identities.{member}
use zmq_proxy.Server.Registry.{get_worker}
use zmq_proxy.Server.State.{Server, heartbeat_key}
use zmq_proxy.Zmq

-- A request of a client waits on the front socket.
abbrev requested : Script
requested = record quiet {
  front = followed (codes "client") ∷ followed [] ∷ final (codes "job") ∷ [];
}

abbrev answered : Script
answered = record requested { front = [] }

abbrev two_workers : Server scripted
two_workers = server_with (worker (codes "w1") 9000 ∷ worker (codes "w2") 13000 ∷ [])

request-Delivers :
    Delivers scripted front_socket
      (record { sndmore = false; dontwait = false })
      requested
      (followed (codes "client") ∷ followed [] ∷ final (codes "job") ∷ [])
      answered
request-Delivers = next refl refl (next refl refl (last refl refl))

frontend-Answered_example :
    Returns
      (λ _ t.
        Answered scripted two_workers
          (followed (codes "client"))
          (followed [] ∷ final (codes "job") ∷ [])
          []
          t.sent)
      (frontend scripted 9 two_workers (io requested))
frontend-Answered_example =
    frontend-Answered scripted 9 two_workers scripted-laws scripted-Reliable [] request-Delivers
      (omega arith)

-- `rand` gives 5, which chooses the second of two workers.
frontend_runs :
    frontend scripted 9 two_workers (io requested)
    ≡ returns tt (record {
      world = record answered { rands = [] };
      sent = frames back_socket (codes "w2" ∷ codes "client" ∷ [] ∷ codes "job" ∷ []);
    })
unfolding frontend dispatch Transfer.recv Transfer.recv_loop Transfer.send Transfer.send_loop
    pushmem Zmq.recv Zmq.more Zmq.send Zmq.copy Zmq.message_of get_worker checked query frames
frontend_runs = refl

-- A worker's reply, and a heartbeat, wait on the back socket.
abbrev replied : Script
replied = record quiet {
  back =
      followed (codes "w1") ∷ followed (codes "client") ∷ followed [] ∷ final (codes "done") ∷ [];
}

abbrev beating : Script
beating = record quiet { back = followed (codes "w3") ∷ final (codes "HEARTBEAT") ∷ [] }

reply-Delivers :
    Delivers scripted back_socket
      (record { sndmore = false; dontwait = false })
      replied
      (followed (codes "w1") ∷ followed (codes "client") ∷ followed [] ∷ final (codes "done") ∷ [])
      (record replied { back = [] })
reply-Delivers = next refl refl (next refl refl (next refl refl (last refl refl)))

backend-relays_example :
    Returns
      (λ server' t.
        (server' ≡ two_workers)
        × (t.sent ≡ frames front_socket (codes "client" ∷ [] ∷ codes "done" ∷ [])))
      (backend scripted 9 two_workers (io replied))
backend-relays_example =
    backend-relays scripted 9 two_workers scripted-Reliable [] reply-Delivers (omega arith)
      (omega arith)

start-Serving_example :
    Ensures
      (λ flow _. (l : Loop scripted) × (flow ≡ continues l) × Serving scripted two_workers l.server)
      (start scripted 9 3 two_workers (io quiet))
unfolding member str_eq
start-Serving_example =
    start-Serving scripted scripted-laws 9 3 two_workers (io quiet) (refl, (refl, tt))

abbrev at_ten : Server (fixed 10)
at_ten = fixed_server 10 (worker (codes "w1") 9000 ∷ worker (codes "w2") 13000 ∷ [])

backend-Enrolled_example :
    Returns
      (λ server' t.
        (t.sent ≡ [])
        × (((codes "HEARTBEAT" ≡ heartbeat_key)
              × Enrolled
                  (fixed 10)
                  9
                  at_ten
                  (codes "w3")
                  (record beating { back = [] })
                  server'
                  t.world)
            ⊎ ((codes "HEARTBEAT" ≢ heartbeat_key)
                × (server' ≡ at_ten)
                × (t.world ≡ record beating { back = [] }))))
      (backend (fixed 10) 9 at_ten (record { world = beating; sent = [] }))
backend-Enrolled_example =
    backend-Enrolled (fixed 10) 9 at_ten (fixed-laws 10) (fixed-Memory 10) (λ w. omega arith) []
      (next refl refl (last refl refl)) (omega arith)

heartbeat-heartbeats_example :
    Returns
      (λ at u.
        if ltb 8000 10000
        then (at ≡ 11000) × (u.sent ≡ heartbeats (fixed 10) back_socket at_ten.vec_work)
        else (at ≡ 8000) × (u.sent ≡ []))
      (heartbeat (fixed 10) at_ten 8000 (fixed_io 10))
heartbeat-heartbeats_example =
    heartbeat-heartbeats (fixed 10) (fixed-laws 10) (fixed-Reliable 10) 10 at_ten 8000 (fixed_io 10)
      (λ w. refl) (omega arith)

-- No worker is left, and the bit of the front socket is still set.
abbrev stale : Loop scripted
stale = record { server = server_with []; back_in = false; front_in = true; heartbeat_at = 20000 }

round-front_in_example :
    Ensures
      (λ flow _. (l' : Loop scripted) × (flow ≡ continues l') × (l'.front_in ≡ true))
      (round scripted 9 stale (io requested))
round-front_in_example = round-front_in scripted 9 stale (io requested) refl

-- A platform that only ever reports the front socket.
abbrev front_only : Platform
front_only = record scripted {
  zmq_poll = λ socks timeout w. (record { rc = pos 1; errno = 0; pollin = λ i. ltb 0 i }, w);
}

start-Unserved_example :
    Ensures
      (λ flow t.
        (l : Loop front_only) × (flow ≡ continues l) × Unserved front_only l × (t.sent ≡ []))
      (start front_only 9 4
        (record {
          running = false;
          front_sock = front_socket;
          back_sock = back_socket;
          vec_work = [];
        })
        (record { world = requested; sent = [] }))
start-Unserved_example =
    start-Unserved front_only (λ socks timeout w. refl) 9 4 _
      (record { world = requested; sent = [] }) refl
