-- ===== src/Server/Proxy/Invariant.antt =====
-- src/zmq_server.cc: what every round of `Server::Start` keeps, and that `Start` does not come to an
-- end by itself.
use zmq_proxy.Cmd.{pure, Ensures, returned, Ensures-bind, Ensures-then, Ensures-mono}
use zmq_proxy.Multipart.Deque.{pop, remove}
use zmq_proxy.Multipart.Transfer
use zmq_proxy.Platform.{Platform, MessageLaws, Io, no_flags}
use zmq_proxy.Prelude.{
  ◌++◌, Bytes, ◌∙◌, ℕ, zero, suc, ◌≡◌, refl, Bool, true, false, List, [], ◌∷◌, length,
  if◌then◌else◌, ltb, ◌==◌, arith, Bool-cases, inl, inr, str_eq,
}
use zmq_proxy.Server.Proxy.{
  after_poll, heartbeat_interval, heartbeat_key, items, Loop, continues, backend, frontend,
  heartbeat, serve, round, rounds, start,
}
use zmq_proxy.Server.Registry.Check.{live, check_worker-live}
use zmq_proxy.Server.Registry.Identities.{
  member, Distinct, Distinct-concat, ids, make_new_worker-Registered,
}
use zmq_proxy.Server.Registry.{make_new_worker, check_worker}
use zmq_proxy.Server.State.{Worker, Server, s_clock, clock_after}
use zmq_proxy.Zmq

module _ (p : Platform) where
  open p use {Msg}

  member-live :
      (clock : ℕ) (ws : List (Worker Msg)) (id : List ℕ)
      → member id (ids p ws) ≡ false
      → member id (ids p (live clock ws)) ≡ false
  unfolding member live
  member-live clock [] id out = refl
  member-live clock (w ∷ ws) id out = ground (arith, member-live clock ws id)

  live-Distinct :
      (clock : ℕ) (ws : List (Worker Msg)) → Distinct (ids p ws) → Distinct (ids p (live clock ws))
  unfolding live
  live-Distinct clock [] d = tt
  live-Distinct clock (w ∷ ws) d = elim (Bool-cases (ltb w.expiry clock)) [
    | inl old ↦ rw old (live-Distinct clock ws d.1)
    | inr young ↦ rw young (member-live clock ws _ d.0, live-Distinct clock ws d.1)
  ]

  -- The server serves on the sockets of `origin`, and no two workers have one identity.
  pub record Serving (origin server : Server p) : Type 0 where
    pub running : server.running ≡ true
    pub front_sock : server.front_sock ≡ origin.front_sock
    pub back_sock : server.back_sock ≡ origin.back_sock
    pub distinct : Distinct (ids p server.vec_work)

  pub check_worker-Serving :
      {origin server : Server p} (s : Io p)
      → Serving origin server
      → Ensures (λ server' _. Serving origin server') (check_worker p server s)
  check_worker-Serving {server} s v = rw (check_worker-live p server s) (
      Ensures-then (s_clock p s) λ now t. returned (record {
        running = v.running;
        front_sock = v.front_sock;
        back_sock = v.back_sock;
        distinct = live-Distinct now _ v.distinct;
      }))

  with_new :
      (id : Bytes) (old : List Bytes)
      → Distinct old
      → Distinct (if member id old then old else old ++ id ∷ [])
  with_new id old d = elim (Bool-cases (member id old)) [
    | inl known ↦ rw known d
    | inr new ↦ rw new (Distinct-concat id old new d)
  ]

  module _ (laws : MessageLaws p) {origin : Server p} where
    make_new_worker-Serving :
        {server : Server p} (identity : Msg) (s : Io p)
        → Serving origin server
        → Ensures (λ server' _. Serving origin server') (make_new_worker p identity server s)
    make_new_worker-Serving {server} identity s v =
        Ensures-mono (make_new_worker-Registered p laws identity server s) λ server' t r. record {
          running = r.running ∙ v.running;
          front_sock = r.front_sock ∙ v.front_sock;
          back_sock = r.back_sock ∙ v.back_sock;
          distinct = rw (r.identities) (with_new (p.zmq_msg_data identity) _ v.distinct);
        }

    pub backend-Serving :
        (parts : ℕ) {server : Server p} (s : Io p)
        → Serving origin server
        → Ensures (λ server' _. Serving origin server') (backend p parts server s)
    unfolding backend
    backend-Serving parts {server} s v =
        Ensures-then (Transfer.recv p parts server.back_sock no_flags s) λ (_, received) t.
          Ensures-then (pop received t) λ (identity, msg) u. elim (Bool-cases (length msg == 1)) [
            | inl one ↦ rw one (
                Ensures-then (remove msg u) λ (data_, _) w.
                  elim (Bool-cases (str_eq (p.zmq_msg_data data_) heartbeat_key)) [
                    | inl beat ↦ rw beat (make_new_worker-Serving identity w v)
                    | inr other ↦ rw other (returned v)
                  ])
            | inr more ↦
                rw more (
                  Ensures-then (Transfer.send p server.front_sock no_flags msg u) λ _ _. returned v)
          ]

    pub serve-Serving :
        (parts : ℕ) (l : Loop p) (s : Io p)
        → Serving origin l.server
        → Ensures (λ l' _. Serving origin l'.server) (serve p parts l s)
    unfolding serve
    serve-Serving parts l s v = Ensures-bind (back l.back_in) λ server t v'.
        Ensures-then ((if l.front_in then frontend p parts server else pure tt) t) λ _ u.
          Ensures-then (heartbeat p server l.heartbeat_at u)
            λ at w. Ensures-bind (check_worker-Serving w v') λ checked x v''. returned v''
      where
        back :
            (b : Bool)
            → Ensures
                (λ server _. Serving origin server)
                ((if b then backend p parts l.server else pure l.server) s)
        back true = backend-Serving parts s v
        back false = returned v

    -- A round that returns does not leave the loop.
    pub round-Serving :
        (parts : ℕ) (l : Loop p) (s : Io p)
        → Serving origin l.server
        → Ensures
            (λ flow _. (l' : Loop p) × (flow ≡ continues l') × Serving origin l'.server)
            (round p parts l s)
    unfolding round
    round-Serving parts l s v =
        Ensures-bind (Zmq.poll-Ensures p (items p l.server) heartbeat_interval s)
          λ (rc, pollin) t ((n, h), _, _). rw h (
            Ensures-bind (serve-Serving parts (after_poll p l pollin) t v)
              λ served u v'. returned (served, refl, v'))

    pub rounds-Serving :
        (parts n : ℕ) (l : Loop p) (s : Io p)
        → Serving origin l.server
        → Ensures
            (λ flow _. (l' : Loop p) × (flow ≡ continues l') × Serving origin l'.server)
            (rounds p parts n l s)
    unfolding rounds
    rounds-Serving parts zero l s v = returned (l, refl, v)
    rounds-Serving parts (suc n) l s v = simp (v.running) (
        Ensures-bind (round-Serving parts l s v)
          λ flow t (l', e, v'). rw e (rounds-Serving parts n l' t v'))

module _ (p : Platform) where
  -- `Start` does not return: however many rounds it runs from a server whose workers have distinct
  -- identities, on a platform whose messages behave as documented, if they all return then it is
  -- still in its loop with `running_` set, on the same two sockets, and the identities of its
  -- workers are distinct.
  pub start-Serving :
      MessageLaws p
      → (parts n : ℕ) (server : Server p) (s : Io p) → Distinct (ids p server.vec_work)
      → Ensures
          (λ flow _. (l : Loop p) × (flow ≡ continues l) × Serving p server l.server)
          (start p parts n server s)
  unfolding start
  start-Serving laws parts n server s d = Ensures-then (clock_after p heartbeat_interval s) λ at t.
      rounds-Serving p laws parts n _ t
        (record { running = refl; front_sock = refl; back_sock = refl; distinct = d })
