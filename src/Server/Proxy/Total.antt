-- ===== src/Server/Proxy/Total.antt =====
-- src/zmq_server.cc: `Server::Start` gets through every round, whichever frames are accepted.
use zmq_proxy.Cmd.{Returns}
use zmq_proxy.Multipart.Outcomes.{Prefix, Yields, Yields-Sending}
use zmq_proxy.Platform.{Platform, MessageLaws, Memory, Io}
use zmq_proxy.Prelude.{ℕ}
use zmq_proxy.Server.Proxy.Steps.{Fed, Steady}
use zmq_proxy.Server.Proxy.{start}
use zmq_proxy.Server.Refines.Runs.{Runs, start-Runs-Sending}
use zmq_proxy.Server.Registry.Identities.{Distinct, ids}
use zmq_proxy.Server.State.{Server}

module _ (p : Platform) (parts : ℕ) where
  -- Suppose each zmq_msg_send accepts its frame or gives up with EAGAIN. If both sockets deliver
  -- whole messages of at most `parts` parts whenever they are asked, zmq_poll does not fail, the
  -- clock is in range, memory does not run out, messages behave as documented, and the workers
  -- have distinct identities, then `Start` gets through any number of rounds: it returns from
  -- each, so that none throws or is undefined, and is then still in its loop, on the same
  -- sockets, with workers of distinct identities. The rounds are as many of Server/Spec, from the
  -- map that the workers are to the one that they become, with its polls, messages in and
  -- readings of the clock, in its order; and of the frames of each message that the trace sends,
  -- all are accepted, or those in front of one that zmq_msg_send is called with and gives up on, as
  -- the last call for the message.
  pub start-Returns :
      MessageLaws p
      → Memory p
      → Yields p
      → Steady p parts
      → (n : ℕ) (server : Server p) (s : Io p) → Fed p parts server.back_sock
      → Fed p parts server.front_sock
      → Distinct (ids p server.vec_work)
      → Returns (λ flow t. Runs p (Prefix p) n server s flow t) (start p parts n server s)
  start-Returns laws memory yielding =
      start-Runs-Sending p parts laws (Yields-Sending p memory yielding)
