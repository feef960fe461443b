-- ===== src/Server/Proxy/Polling.antt =====
-- src/zmq_server.cc: which sockets a round serves. The front socket is polled only while there are
-- workers, and the bit of an item that is not polled stays as it was.
use zmq_proxy.Cmd.{undef, Ensures, returned, Ensures-then, Ensures-bind, Ensures-mono, pure}
use zmq_proxy.Platform.{query, int64, Platform, Io}
use zmq_proxy.Prelude.{
  zero, suc, suc, ◌^◌, ◌+◌, ◌*◌, ltb, ℕ, ◌≡◌, refl, Bool, true, false, List, [], length, ◌==◌,
  if◌then◌else◌, arith, Bool-cases, inl, inr, ap, ◌∙◌,
}
use zmq_proxy.Server.Registry.Check.{live, check_worker-live}
use zmq_proxy.Server.Registry.{check_worker}
use zmq_proxy.Server.Proxy.{
  items, heartbeat_loop, Loop, continues, rounds, start, backend, frontend, heartbeat, serve, round,
  after_poll,
}
use zmq_proxy.Server.State.{s_clock, clock_after, Server, heartbeat_interval}
use zmq_proxy.Zmq

no_workers : {n : ℕ} → n ≡ 0 → (n == 0) ≡ true
no_workers h = ground arith

module _ (p : Platform) where
  serve-front_in :
      (parts : ℕ) (l : Loop p) (s : Io p)
      → Ensures (λ l' _. l'.front_in ≡ l.front_in) (serve p parts l s)
  unfolding serve
  serve-front_in parts l s =
      Ensures-then ((if l.back_in then backend p parts l.server else pure l.server) s) λ server t.
        Ensures-then ((if l.front_in then frontend p parts server else pure tt) t) λ _ u.
          Ensures-then (heartbeat p server l.heartbeat_at u)
            λ at v. Ensures-then (check_worker p server v) λ checked w. returned refl

  after_poll-front_in :
      (l : Loop p) (pollin : ℕ → Bool)
      → length l.server.vec_work ≡ 0
      → (after_poll p l pollin).front_in ≡ l.front_in
  after_poll-front_in l pollin h = ground arith

  -- In a round that starts with no worker the front socket is not polled: if the round returns,
  -- `Start` is still in its loop and the POLLIN bit of the front socket is the one from before,
  -- whatever the socket holds and zmq_poll reports. So a bit that is set stays set.
  pub round-front_in :
      (parts : ℕ) (l : Loop p) (s : Io p)
      → length l.server.vec_work ≡ 0
      → Ensures
          (λ flow _. (l' : Loop p) × (flow ≡ continues l') × (l'.front_in ≡ l.front_in))
          (round p parts l s)
  unfolding round
  round-front_in parts l s h =
      Ensures-bind (Zmq.poll-Ensures p (items p l.server) heartbeat_interval s)
        λ (rc, pollin) t ((n, e), _, _). rw e (
          Ensures-bind (serve-front_in parts (after_poll p l pollin) t)
            λ served u kept. returned (served, refl, kept ∙ after_poll-front_in l pollin h))

  s_clock-sent : (s : Io p) → Ensures (λ _ t. t.sent ≡ s.sent) (s_clock p s)
  unfolding s_clock int64 query
  s_clock-sent s = elim (Bool-cases (ltb ((p.gettimeofday s.world).0 * 1000) (2 ^ 63))) [
    | inl fits ↦ rw fits (returned refl)
    | inr over ↦ rw over undef
  ]

  clock_after-sent :
      (delay : ℕ) (s : Io p) → Ensures (λ _ t. t.sent ≡ s.sent) (clock_after p delay s)
  unfolding clock_after int64
  clock_after-sent delay s = Ensures-bind (s_clock-sent s) λ now t kept.
      elim (Bool-cases (ltb (now + delay) (2 ^ 63))) [
        | inl fits ↦ rw fits (returned kept)
        | inr over ↦ rw over undef
      ]

  -- No worker, and no POLLIN bit for the front socket.
  pub record Unserved (l : Loop p) : Type 0 where
    pub running : l.server.running ≡ true
    pub no_worker : l.server.vec_work ≡ []
    pub front_in : l.front_in ≡ false

  heartbeat-sent :
      (server : Server p) (heartbeat_at : ℕ) (s : Io p)
      → server.vec_work ≡ []
      → Ensures (λ _ t. t.sent ≡ s.sent) (heartbeat p server heartbeat_at s)
  unfolding heartbeat heartbeat_loop
  heartbeat-sent server heartbeat_at s h = Ensures-bind (s_clock-sent s) λ now t kept.
      elim (Bool-cases (ltb heartbeat_at now)) [
        | inl due ↦
            rw (due, h)
              (Ensures-mono (clock_after-sent heartbeat_interval t) λ _ u kept'. kept' ∙ kept)
        | inr early ↦ rw early (returned kept)
      ]

  check_worker-sent :
      (server : Server p) (s : Io p)
      → server.vec_work ≡ []
      → Ensures
          (λ server' t.
            (server'.running ≡ server.running) × (server'.vec_work ≡ []) × (t.sent ≡ s.sent))
          (check_worker p server s)
  unfolding live
  check_worker-sent server s h =
      rw (check_worker-live p server s)
        (Ensures-bind (s_clock-sent s) λ now t kept. returned (refl, rw h, kept))

  serve-Unserved :
      (parts : ℕ) (l : Loop p) (s : Io p)
      → Unserved l
      → l.back_in ≡ false
      → Ensures (λ l' t. Unserved l' × (t.sent ≡ s.sent)) (serve p parts l s)
  unfolding serve
  serve-Unserved parts l s v h =
      simp (h, v.front_in)
        (Ensures-bind (heartbeat-sent l.server l.heartbeat_at s v.no_worker) λ at t kept.
          Ensures-bind (check_worker-sent l.server t v.no_worker)
            λ checked u (run, none_left, kept'). returned (
              record { running = run ∙ v.running; no_worker = none_left; front_in = refl },
              kept' ∙ kept,
            ))

  -- No message comes in on the back socket: zmq_poll never reports it, the first item, as readable.
  abbrev pub BackSilent : Type 0
  BackSilent =
      (socks : List p.Socket) (timeout : ℕ) (w : p.World)
      → (p.zmq_poll socks timeout w).0.pollin 0 ≡ false

  after_poll-back_in : (l : Loop p) (pollin : ℕ → Bool) → (after_poll p l pollin).back_in ≡ pollin 0
  after_poll-back_in l pollin = ground arith

  round-Unserved :
      BackSilent
      → (parts : ℕ) (l : Loop p) (s : Io p) → Unserved l
      → Ensures
          (λ flow t. (l' : Loop p) × (flow ≡ continues l') × Unserved l' × (t.sent ≡ s.sent))
          (round p parts l s)
  unfolding round
  round-Unserved silent parts l s v =
      Ensures-bind (Zmq.poll-Ensures p (items p l.server) heartbeat_interval s)
        λ (rc, pollin) t ((n, e), reported, kept).
          let polled : Unserved (after_poll p l pollin) = record {
            running = v.running;
            no_worker = v.no_worker;
            front_in = after_poll-front_in l pollin (ap length v.no_worker) ∙ v.front_in;
          } in
          rw e (
            Ensures-bind
              (serve-Unserved parts (after_poll p l pollin) t polled
                (after_poll-back_in l pollin ∙ rw reported (silent _ _ s.world)))
              λ served u (v', kept'). returned (served, refl, v', kept' ∙ kept))

  rounds-Unserved :
      BackSilent
      → (parts n : ℕ) (l : Loop p) (s : Io p) → Unserved l
      → Ensures
          (λ flow t. (l' : Loop p) × (flow ≡ continues l') × Unserved l' × (t.sent ≡ s.sent))
          (rounds p parts n l s)
  unfolding rounds
  rounds-Unserved silent parts zero l s v = returned (l, refl, v, refl)
  rounds-Unserved silent parts (suc n) l s v = simp (v.running) (
      Ensures-bind (round-Unserved silent parts l s v) λ flow t (l', e, v', kept). rw e (
        Ensures-mono (rounds-Unserved silent parts n l' t v')
          λ flow' u (l'', e', v'', kept'). (l'', e', v'', kept' ∙ kept)))

  -- While no worker makes itself known, no client gets an answer, not even "not have woker!": from a
  -- server with no workers, if nothing comes in on the back socket, then however many rounds `Start`
  -- runs, it sends nothing, whatever waits on the front socket and zmq_poll reports of it.
  pub start-Unserved :
      BackSilent
      → (parts n : ℕ) (server : Server p) (s : Io p) → server.vec_work ≡ []
      → Ensures
          (λ flow t. (l : Loop p) × (flow ≡ continues l) × Unserved l × (t.sent ≡ s.sent))
          (start p parts n server s)
  unfolding start
  start-Unserved silent parts n server s h =
      Ensures-bind (clock_after-sent heartbeat_interval s) λ at t kept.
        Ensures-mono
          (rounds-Unserved silent parts n _ t
            (record { running = refl; no_worker = h; front_in = refl }))
          λ flow u (l, e, v, kept'). (l, e, v, kept' ∙ kept)
