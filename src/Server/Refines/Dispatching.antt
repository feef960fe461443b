-- ===== src/Server/Refines/Dispatching.antt =====
-- src/zmq_server.cc: when a client is refused.
use zmq_proxy.Cmd.{Returns, Returns-mono}
use zmq_proxy.Platform.{Platform, MessageLaws, Memory, Io}
use zmq_proxy.Multipart.Outcomes.{Prefix, Yields, Yields-Sending}
use zmq_proxy.Prelude.{arith, ℕ, ◌≡◌, refl, true, List, ◌∷◌}
use zmq_proxy.Server.Proxy.Steps.{Fed, Steady}
use zmq_proxy.Server.Proxy.{continues, Loop, round}
use zmq_proxy.Server.Refines.Rounds.{round-Round, fed_poll}
use zmq_proxy.Server.Refines.{view, ends, Traced}
use zmq_proxy.Server.Registry.Identities.{Distinct, ids}
use zmq_proxy.Server.Registry.Table.{expiry_of-somebody}
use zmq_proxy.Server.Spec.{Round, Event}
use zmq_proxy.Server.Spec.Dispatched.{Dispatched, Round-Dispatched}
use zmq_proxy.Server.State.{Worker}

module _ (p : Platform) (parts : ℕ) where
  -- A round of the loop that begins with `running_` set and at least one worker, with
  -- distinct identities, is a round of Server/Spec that refuses no client: behind each
  -- message of a client the next event sends it to a worker, unchanged: every frame is accepted,
  -- or those in front of one that zmq_msg_send is called with and gives up on. This is with peers
  -- that keep sending whole messages of at most `parts` parts, a poll that does not fail, a
  -- clock in range, memory that does not run out, sends that are accepted or give up with
  -- EAGAIN, and messages that behave as documented.
  pub round-Dispatched :
      MessageLaws p
      → Memory p
      → Yields p
      → Steady p parts
      → (l : Loop p) (w : Worker p.Msg) (ws : List (Worker p.Msg)) (s : Io p)
      → l.server.vec_work ≡ w ∷ ws
      → l.server.running ≡ true
      → Fed p parts l.server.back_sock
      → Fed p parts l.server.front_sock
      → Distinct (ids p l.server.vec_work)
      → Returns
          (λ flow t.
            (l' : Loop p) × (flow ≡ continues l')
            × (es : List Event) × Round (view p l) es (view p l')
            × Traced p (Prefix p) (ends p l.server) s t es
            × Dispatched es)
          (round p parts l s)
  round-Dispatched laws memory yielding steady l w ws s e on back_fed front_fed d =
      Returns-mono
        (round-Round p parts laws (Yields-Sending p memory yielding) steady l.server l s
          (record { running = on; front_sock = refl; back_sock = refl; distinct = d })
          (fed_poll p parts laws (Yields-Sending p memory yielding) steady l.server back_fed
            front_fed l s))
        λ flow t (l', f, v, es, step, traced). (
          l',
          f,
          es,
          step,
          traced,
          Round-Dispatched _ _ es (expiry_of-somebody p l.server.vec_work (rw e λ h. omega arith))
              step,
        )
