-- ===== src/Server/Refines/Traces.antt =====
-- src/zmq_server.cc: what holds of the traces of `Server::Start`, with peers that keep sending and a
-- platform that is in order.
use zmq_proxy.Cmd.{Returns, Returns-mono}
use zmq_proxy.Multipart.Outcomes.{Prefix, Yields}
use zmq_proxy.Platform.{Platform, MessageLaws, Memory, Io}
use zmq_proxy.Prelude.{false, ℕ, suc, ◌≡◌, refl, ◌∙◌, none, []}
use zmq_proxy.Server.Proxy.Steps.{Fed, Steady}
use zmq_proxy.Server.Proxy.{start}
use zmq_proxy.Server.Refines.Runs.{Runs}
use zmq_proxy.Server.Proxy.Total.{start-Returns}
use zmq_proxy.Server.Registry.Identities.{Distinct, ids}
use zmq_proxy.Server.Registry.Table.{expiry_of-nobody, expiry_of, member-expiry_of}
use zmq_proxy.Server.Spec.Addressed.{Addressed, heard, Keeps-Invariant}
use zmq_proxy.Server.Spec.Attended.{Attended, Rounds-Attended}
use zmq_proxy.Server.Spec.Fresh.{Fresh, Rounds-Fresh}
use zmq_proxy.Server.Spec.Genuine.{Genuine, Genuine-Invariant}
use zmq_proxy.Server.Spec.Invariant.{Rounds-keeps}
use zmq_proxy.Server.Spec.Kept.{Watch, replay, Kept, Stands-Invariant}
use zmq_proxy.Server.Spec.Served.{Served, Served-Invariant}
use zmq_proxy.Server.State.{Server}

module _ (p : Platform) (parts : ℕ) (laws : MessageLaws p) (memory : Memory p) (yielding : Yields p)
    (steady : Steady p parts) (n : ℕ) (server : Server p) (s : Io p)
    (back_fed : Fed p parts server.back_sock) (front_fed : Fed p parts server.front_sock) where
  -- In any number of rounds from a server whose workers have distinct identities, no message
  -- is sent to the back socket but to the identity of one of these workers, or to one that
  -- has sent a "HEARTBEAT" before in the trace of the rounds. This is with peers that keep
  -- sending whole messages of at most `parts` parts, a poll that does not fail, a clock in
  -- range, memory that does not run out, sends that are accepted or give up with EAGAIN, and
  -- messages that behave as documented.
  pub start-Addressed :
      Distinct (ids p server.vec_work)
      → Returns
          (λ flow t.
            (r : Runs p (Prefix p) n server s flow t) × Addressed
              (ids p server.vec_work)
              (r.events))
          (start p parts n server s)
  unfolding Addressed heard
  start-Addressed d =
      Returns-mono
        (start-Returns p parts laws memory yielding steady n server s back_fed front_fed d)
        λ flow t r.
          let known = ids p server.vec_work in
          (
            r,
            (Rounds-keeps (Keeps-Invariant known) n [] _ _ (r.events)
                (tt, λ id h. member-expiry_of p id server.vec_work ∙ h) (r.steps)).0,
          )

  -- In any number of rounds from a server whose workers have distinct identities, the event
  -- behind each message of a client sends its answer: the message to a worker, unchanged,
  -- behind an identity, or the refusal "not have woker!" to the client. Every frame of the answer
  -- is accepted, or those in front of one that zmq_msg_send is called with and gives up on with
  -- EAGAIN, as its last call for the answer. This is with peers
  -- that keep sending whole messages of at most `parts` parts, a poll that does not fail, a
  -- clock in range, memory that does not run out, sends that are accepted or give up with
  -- EAGAIN, and messages that behave as documented.
  pub start-Served :
      Distinct (ids p server.vec_work)
      → Returns
          (λ flow t. (r : Runs p (Prefix p) n server s flow t) × Served (r.events))
          (start p parts n server s)
  unfolding Served
  start-Served d =
      Returns-mono
        (start-Returns p parts laws memory yielding steady n server s back_fed front_fed d)
        λ flow t r. (r, Rounds-keeps Served-Invariant n [] _ _ (r.events) tt (r.steps))

  -- In any number of rounds from a server whose workers have distinct identities, the event
  -- in front of each message to the front socket is its cause: the same message from a
  -- worker, behind an identity, or the request that is refused. This is with peers that keep
  -- sending whole messages of at most `parts` parts, a poll that does not fail, a clock in
  -- range, memory that does not run out, sends that are accepted or give up with EAGAIN, and
  -- messages that behave as documented.
  pub start-Genuine :
      Distinct (ids p server.vec_work)
      → Returns
          (λ flow t. (r : Runs p (Prefix p) n server s flow t) × Genuine none (r.events))
          (start p parts n server s)
  unfolding Genuine
  start-Genuine d =
      Returns-mono
        (start-Returns p parts laws memory yielding steady n server s back_fed front_fed d)
        λ flow t r. (r, Rounds-keeps Genuine-Invariant n [] _ _ (r.events) tt (r.steps))

  -- Behind one round or more from a server with no workers, the last event of the trace is a
  -- clock reading, and for every worker in the list the trace has a "HEARTBEAT" of its
  -- identity, of which its expiry time is, and behind which the clock read a time at most
  -- `lifetime` before that last reading. This is with peers that keep sending whole messages
  -- of at most `parts` parts, a poll that does not fail, a clock in range, memory that does
  -- not run out, sends that are accepted or give up with EAGAIN, and messages that behave as
  -- documented.
  pub start-Fresh :
      server.vec_work ≡ []
      → Returns
          (λ flow t.
            (r : Runs p (Prefix p) (suc n) server s flow t) × Fresh
              (r.events)
              (λ id. expiry_of p id r.loop.server.vec_work))
          (start p parts (suc n) server s)
  start-Fresh none_yet =
      Returns-mono
        (start-Returns p parts laws memory yielding steady (suc n) server s back_fed front_fed
          (rw none_yet tt))
        λ flow t r. (
          r,
          Rounds-Fresh n _ _ (r.events)
              (λ id. expiry_of-nobody p id server.vec_work (rw none_yet refl)) (r.steps),
        )

  -- In any number of rounds from a server whose workers have distinct identities no worker is
  -- forgotten while its heartbeats are recent: if the expiry time that it had at the start,
  -- or that its last "HEARTBEAT" in the trace and the reading of the clock behind that give
  -- it, has not passed by any later reading, then it is in the list, with just this expiry
  -- time. This is with peers that keep sending whole messages of at most `parts` parts, a
  -- poll that does not fail, a clock in range, memory that does not run out, sends that are
  -- accepted or give up with EAGAIN, and messages that behave as documented.
  pub start-Kept :
      Distinct (ids p server.vec_work)
      → Returns
          (λ flow t.
            (r : Runs p (Prefix p) n server s flow t) × Kept
              (λ id. expiry_of p id server.vec_work)
              (r.events)
              (λ id. expiry_of p id r.loop.server.vec_work))
          (start p parts n server s)
  unfolding replay
  start-Kept d =
      Returns-mono
        (start-Returns p parts laws memory yielding steady n server s back_fed front_fed d)
        λ flow t r. (
          r,
          λ id.
              let w : Watch = record {
                calling = false;
                deadline = expiry_of p id server.vec_work;
              } in
              (Rounds-keeps (Stands-Invariant id w) n [] _ _ (r.events) (refl, λ e at. at)
                (r.steps)).1,
        )

  -- In any number of rounds from a server whose workers have distinct identities the sockets are
  -- read just as the polls say: behind each poll a message of a worker is read before the next one
  -- exactly if the poll has found the back socket readable, and a message of a client exactly if the
  -- last poll that asked of the front socket has found that one readable. This is with peers that keep
  -- sending whole messages of at most `parts` parts, a poll that does not fail, a clock in range,
  -- memory that does not run out, sends that are accepted or give up with EAGAIN, and messages that
  -- behave as documented.
  pub start-Attended :
      Distinct (ids p server.vec_work)
      → Returns
          (λ flow t. (r : Runs p (Prefix p) n server s flow t) × Attended false (r.events))
          (start p parts n server s)
  start-Attended d =
      Returns-mono
        (start-Returns p parts laws memory yielding steady n server s back_fed front_fed d)
        λ flow t r. (r, (Rounds-Attended n _ _ (r.events) (r.steps)).0)
