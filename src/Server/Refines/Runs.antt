-- ===== src/Server/Refines/Runs.antt =====
-- src/zmq_server.cc: `Server::Start` refines Server/Spec.
use zmq_proxy.Multipart.Outcomes.{Outcome, Sending, Whole, Reliable-Sending}
use zmq_proxy.Cmd.{Returns, Returns-bind, Returns-mono}
use zmq_proxy.Platform.{Platform, MessageLaws, Reliable, Io}
use zmq_proxy.Prelude.{◌∷◌, subst, true, false, ℕ, ◌+◌, ◌≡◌, refl, List, arith}
use zmq_proxy.Server.Clock.{Reads, clock_after-Reads}
use zmq_proxy.Server.Proxy.Invariant.{Serving}
use zmq_proxy.Server.Proxy.Steps.{Fed, Steady}
use zmq_proxy.Server.Proxy.{Flow, Loop, continues, start}
use zmq_proxy.Server.Refines.{ends, view, Traced, reads_clock}
use zmq_proxy.Server.Registry.Identities.{Distinct, ids}
use zmq_proxy.Server.Spec.{Event, clock_says, Rounds}
use zmq_proxy.Server.State.{heartbeat_interval, Server}
use zmq_proxy.Server.Refines.Rounds.{Advanced, rounds-Advanced}

-- The variables of `Start` in front of its loop.
abbrev pub first_loop : {p : Platform} → Server p → ℕ → Loop p
first_loop server heartbeat_at = record {
  server = record server { running = true };
  back_in = false;
  front_in = false;
  heartbeat_at = heartbeat_at;
}

-- `n` rounds of `Start` from `server` and the state `s` lead to `flow` and the state `t`, by a reading
-- of the clock and a trace of Server/Spec from the map that the workers are to the map that the workers
-- of `flow` are.
pub record Runs (p : Platform) (outcome : Outcome p) (n : ℕ) (server : Server p) (s : Io p)
    (flow : Flow p) (t : Io p) : Type 0 where
  pub loop : Loop p
  pub in_loop : flow ≡ continues loop
  pub serving : Serving p server loop.server
  pub started_at : ℕ
  pub events : List Event
  pub steps :
      Rounds n (view p (first_loop server (started_at + heartbeat_interval))) events (view p loop)
  pub traced : Traced p outcome (ends p server) s t (clock_says started_at ∷ events)

module _ (p : Platform) (parts : ℕ) (laws : MessageLaws p) {outcome : Outcome p}
    (sending : Sending p outcome) (steady : Steady p parts) (server : Server p) where
  pub first-Serving :
      (at : ℕ) → Distinct (ids p server.vec_work) → Serving p server (first_loop server at).server
  first-Serving at d = record { running = refl; front_sock = refl; back_sock = refl; distinct = d }

  pub Advanced-Runs :
      (n : ℕ) {s t u : Io p} {at now : ℕ} {flow : Flow p}
      → Reads p s.world now t.world
      → at ≡ now + heartbeat_interval
      → t.sent ≡ s.sent
      → Advanced p parts laws sending steady server n (first_loop server at) t flow u
      → Runs p outcome n server s flow u
  Advanced-Runs n {t} {now} reading e kept (l, f, v, es, steps, traced) = record {
    loop = l;
    in_loop = f;
    serving = v;
    started_at = now;
    events = es;
    steps = subst (λ at. Rounds n (view p (first_loop server at)) es (view p l)) e steps;
    traced = reads_clock reading kept traced;
  }

module _ (p : Platform) (parts : ℕ) where
  -- Whatever the outcome of sends is.
  pub start-Runs-Sending :
      {outcome : Outcome p}
      → MessageLaws p
      → Sending p outcome
      → Steady p parts
      → (n : ℕ) (server : Server p) (s : Io p) → Fed p parts server.back_sock
      → Fed p parts server.front_sock
      → Distinct (ids p server.vec_work)
      → Returns (λ flow t. Runs p outcome n server s flow t) (start p parts n server s)
  unfolding start
  start-Runs-Sending laws sending steady n server s back_fed front_fed d =
      Returns-bind (clock_after-Reads p (steady.clock_fits) heartbeat_interval s (omega arith))
        λ at t (now, reading, e, kept).
          Returns-mono
            (rounds-Advanced p parts laws sending steady server back_fed front_fed n _ t
              (first-Serving p parts laws sending steady server at d))
            λ flow u a. Advanced-Runs p parts laws sending steady server n reading e kept a

  -- If both sockets deliver whole messages of at most `parts` parts whenever they are asked, zmq_poll
  -- does not fail, the clock is in range, memory does not run out, every frame is accepted, messages
  -- behave as documented, and the workers have distinct identities, then any number of rounds of
  -- `Start` return, and they are as many rounds of Server/Spec. Behind a first reading of the clock,
  -- what happens is just the trace of these rounds, in its order: the polls and what they find, the
  -- messages that are received, the readings of the clock, and the frames of the messages that are
  -- sent. The list of workers is the map that the trace ends with.
  pub start-Runs :
      MessageLaws p
      → Reliable p
      → Steady p parts
      → (n : ℕ) (server : Server p) (s : Io p) → Fed p parts server.back_sock
      → Fed p parts server.front_sock
      → Distinct (ids p server.vec_work)
      → Returns (λ flow t. Runs p (Whole p) n server s flow t) (start p parts n server s)
  start-Runs laws reliable = start-Runs-Sending laws (Reliable-Sending p reliable)
