-- ===== src/Server/Refines/Polled.antt =====
-- src/zmq_server.cc: the poll of `Server::Start` prepares the rest of the round, unless the bit of the
-- front socket is stale.
use zmq_proxy.Multipart.Outcomes.{Outcome, Sending}
use zmq_proxy.Cmd.{Ensures, Ensures-any, Ensures-both, Ensures-mono, returned, pure}
use zmq_proxy.Platform.{Platform, MessageLaws, Io}
use zmq_proxy.Prelude.{
  get_elem?, some, ℕ, ◌≡◌, ◌≢◌, refl, sym, ap, ◌∙◌, subst, Bool, true, false, ◌&&◌, length,
  if◌then◌else◌, ◌==◌, arith, Bool-cases, inl, inr,
}
use zmq_proxy.Server.Proxy.Invariant.{Serving}
use zmq_proxy.Server.Proxy.Ready.{Readiness, backend-LeavesReady}
use zmq_proxy.Server.Proxy.Steps.{FedAt, Steady}
use zmq_proxy.Server.Proxy.{Loop, items, after_poll, revents, backend}
use zmq_proxy.Server.Refines.Serve.{Prepared}
use zmq_proxy.Server.State.{heartbeat_interval, Server}
use zmq_proxy.Zmq
use zmq_proxy.Zmq.Calls.{poll-world}

module _ (p : Platform) (server : Server p) (pollin : ℕ → Bool) (old : Bool) where
  -- The back socket is always polled, as the first item.
  polled_back :
      (get_elem? (items p server) 0 ≡ some server.back_sock)
      × (revents p server pollin 0 old ≡ pollin 0)
  polled_back = elim (Bool-cases (length server.vec_work == 0)) [
    | inl alone ↦ rw alone (refl, refl)
    | inr crew ↦ rw crew (refl, refl)
  ]

  -- The front socket is the second item, if there is a worker.
  polled_front :
      (length server.vec_work == 0) ≡ false
      → (get_elem? (items p server) 1 ≡ some server.front_sock)
        × (revents p server pollin 1 old ≡ pollin 1)
  polled_front crew = rw crew (refl, refl)

  unpolled_front : (length server.vec_work == 0) ≡ true → revents p server pollin 1 old ≡ old
  unpolled_front alone = rw alone refl

module _ (p : Platform) (parts : ℕ) (laws : MessageLaws p) {outcome : Outcome p}
    (sending : Sending p outcome) (steady : Steady p parts) (readiness : Readiness p parts)
    (origin : Server p) (apart : origin.back_sock ≢ origin.front_sock) where
  open p use {World}

  -- The sockets whose bits are set behind the poll are ready.
  back_ready :
      (l : Loop p) (w : World)
      → Serving p origin l.server
      → let r = p.zmq_poll (items p l.server) heartbeat_interval w in
        (after_poll p l r.0.pollin).back_in ≡ true → readiness.Ready origin.back_sock r.1
  back_ready l w v b =
      let r = p.zmq_poll (items p l.server) heartbeat_interval w in
      let (n, e) = steady.polls (items p l.server) heartbeat_interval w in
      let (stands, bit) = polled_back p l.server r.0.pollin l.back_in in
      readiness.polled (items p l.server) heartbeat_interval w n 0 origin.back_sock e
        (stands ∙ ap some v.back_sock) (sym bit ∙ b)

  front_ready :
      (l : Loop p) (w : World)
      → Serving p origin l.server
      → ((length l.server.vec_work == 0) && l.front_in) ≡ false
      → let r = p.zmq_poll (items p l.server) heartbeat_interval w in
        (after_poll p l r.0.pollin).front_in ≡ true → readiness.Ready origin.front_sock r.1
  front_ready l w v fresh b =
      let r = p.zmq_poll (items p l.server) heartbeat_interval w in
      let (n, e) = steady.polls (items p l.server) heartbeat_interval w in
      elim (Bool-cases (length l.server.vec_work == 0)) [
        | inl alone ↦
            absurd (
              ground
                (arith, fresh, alone, unpolled_front p l.server r.0.pollin l.front_in alone, b))
        | inr crew ↦
            let (stands, bit) = polled_front p l.server r.0.pollin l.front_in crew in
            readiness.polled (items p l.server) heartbeat_interval w n 1 origin.front_sock e
              (stands ∙ ap some v.front_sock) (sym bit ∙ b)
      ]

  -- Behind the branch for the back socket the front socket delivers, if it was ready before.
  behind_back :
      (b front : Bool) (server : Server p) (t : Io p)
      → Serving p origin server
      → (front ≡ true → readiness.Ready origin.front_sock t.world)
      → Ensures
          (λ _ u. front ≡ true → FedAt p parts origin.front_sock u.world)
          ((if b then backend p parts server else pure server) t)
  behind_back b false server t v ready = Ensures-any _ λ _ u e. cc
  behind_back true true server t v ready =
      Ensures-mono
        (backend-LeavesReady p parts readiness origin.front_sock server
          (λ e. apart (sym v.back_sock ∙ e)) t (ready refl))
        λ _ u still _. readiness.delivers origin.front_sock u.world still
  behind_back false true server t v ready =
      returned λ _. readiness.delivers origin.front_sock t.world (ready refl)

  pub ready_poll :
      (l : Loop p) (s : Io p)
      → Serving p origin l.server
      → ((length l.server.vec_work == 0) && l.front_in) ≡ false
      → Ensures
          (λ (rc, pollin) t. Prepared p parts laws sending steady origin (after_poll p l pollin) t)
          (Zmq.poll p (items p l.server) heartbeat_interval s)
  ready_poll l s v fresh =
      Ensures-mono
        (Ensures-both (Zmq.poll-Ensures p (items p l.server) heartbeat_interval s)
          (poll-world p (items p l.server) heartbeat_interval s))
        λ (rc, pollin) t ((_, bits, _), at). rw bits (
          (
            λ b.
                readiness.delivers origin.back_sock t.world
                  (subst (readiness.Ready origin.back_sock) (sym at) (back_ready l s.world v b)),
            behind_back (after_poll p l (p.zmq_poll _ heartbeat_interval s.world).0.pollin).back_in
                (after_poll p l (p.zmq_poll _ heartbeat_interval s.world).0.pollin).front_in
                l.server t v
                λ b.
                  subst (readiness.Ready origin.front_sock) (sym at)
                    (front_ready l s.world v fresh b),
          ))
