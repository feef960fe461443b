-- ===== src/Server/Refines/Workers.antt =====
-- src/zmq_server.cc: how many workers there can be.
use zmq_proxy.Cmd.{Returns, Returns-mono, Returns-Ensures}
use zmq_proxy.Multipart.Outcomes.{Prefix, Yields}
use zmq_proxy.Platform.{Platform, MessageLaws, Memory, Io}
use zmq_proxy.Prelude.{ℕ, ◌+◌, ◌≤◌, subst, length}
use zmq_proxy.Server.Proxy.Steps.{Fed, Steady}
use zmq_proxy.Server.Proxy.Workers.{MoreBy, start-MoreBy}
use zmq_proxy.Server.Proxy.{start}
use zmq_proxy.Server.Refines.Runs.{Runs}
use zmq_proxy.Server.Proxy.Total.{start-Returns}
use zmq_proxy.Server.Registry.Identities.{Distinct, ids}
use zmq_proxy.Server.State.{Server}

module _ (p : Platform) (parts : ℕ) where
  -- After `n` rounds from a server whose workers have distinct identities there are at most
  -- `n` workers more than at the start. This is with peers that keep sending whole messages
  -- of at most `parts` parts, a poll that does not fail, a clock in range, memory that does
  -- not run out, sends that are accepted or give up with EAGAIN, and messages that behave as
  -- documented.
  pub start-length :
      MessageLaws p
      → Memory p
      → Yields p
      → Steady p parts
      → (n : ℕ) (server : Server p) (s : Io p) → Fed p parts server.back_sock
      → Fed p parts server.front_sock
      → Distinct (ids p server.vec_work)
      → Returns
          (λ flow t.
            (r : Runs p (Prefix p) n server s flow t) × (length r.loop.server.vec_work
              ≤ length server.vec_work + n))
          (start p parts n server s)
  start-length laws memory yielding steady n server s back_fed front_fed d =
      Returns-mono
        (Returns-Ensures
          (start-Returns p parts laws memory yielding steady n server s back_fed front_fed d)
          (start-MoreBy p laws parts n server s))
        λ flow t (r, more). (r, subst (MoreBy p laws parts n server.vec_work) r.in_loop more)
