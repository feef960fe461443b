-- ===== src/Server/Refines/Rounds.antt =====
-- src/zmq_server.cc: the rounds of `Server::Start` refine those of Server/Spec.
use zmq_proxy.Multipart.Outcomes.{Outcome, Sending}
use zmq_proxy.Cmd.{
  Ensures-both, Ensures, Ensures-any, Returns, yields, Returns-bind, Returns-mono, Returns-Ensures,
}
use zmq_proxy.Platform.{Platform, MessageLaws, Io}
use zmq_proxy.Prelude.{ℕ, zero, suc, ◌≡◌, refl, List, [], ◌++◌}
use zmq_proxy.Server.Proxy.Invariant.{Serving}
use zmq_proxy.Server.Proxy.Steps.{Fed, Steady}
use zmq_proxy.Server.Proxy.{Flow, Loop, continues, items, after_poll, round, rounds}
use zmq_proxy.Server.Refines.Serve.{at_origin, stays, Prepared, serve-Turn}
use zmq_proxy.Server.Refines.Asking.{poll-StepsPoll}
use zmq_proxy.Server.Refines.{ends, view, Traced, Traced-append}
use zmq_proxy.Server.Spec.{Event, Round, polled, Rounds}
use zmq_proxy.Server.State.{heartbeat_interval, Server}
use zmq_proxy.Zmq
use zmq_proxy.Zmq.Calls.{poll-Returns}

module _ (p : Platform) (parts : ℕ) (laws : MessageLaws p) {outcome : Outcome p}
    (sending : Sending p outcome) (steady : Steady p parts) (origin : Server p) where
  -- `n` rounds of Server/Spec have been run, and the server still serves on the sockets of `origin`.
  abbrev pub Advanced : ℕ → Loop p → Io p → Flow p → Io p → Type 0
  Advanced n l s flow t =
      (l' : Loop p) × (flow ≡ continues l')
      × Serving p origin l'.server
      × (es : List Event) × Rounds n (view p l) es (view p l')
      × Traced p outcome (ends p origin) s t es

  pub Advanced-zero :
      (l : Loop p) (s : Io p) → Serving p origin l.server → Advanced zero l s (continues l) s
  Advanced-zero l s v = (l, refl, v, [], (refl, refl), stays (ends p origin) s)

  pub round-Round :
      (l : Loop p) (s : Io p)
      → Serving p origin l.server
      → Ensures
          (λ (rc, pollin) t. Prepared p parts laws sending steady origin (after_poll p l pollin) t)
          (Zmq.poll p (items p l.server) heartbeat_interval s)
      → Returns
          (λ flow t.
            (l' : Loop p) × (flow ≡ continues l')
            × Serving p origin l'.server
            × (es : List Event) × Round (view p l) es (view p l')
            × Traced p outcome (ends p origin) s t es)
          (round p parts l s)
  unfolding round
  round-Round l s v prepared =
      Returns-bind
        (Returns-Ensures
          (poll-Returns p (items p l.server) heartbeat_interval s
            (steady.polls (items p l.server) heartbeat_interval s.world))
          (Ensures-both
            (Ensures-both (Zmq.poll-Ensures p (items p l.server) heartbeat_interval s)
              (poll-StepsPoll p outcome l s))
            prepared))
        λ (rc, pollin) t (_, ((((n, e), _, _), (xs, poll, tx)), ready)). rw e (
          Returns-bind
            (serve-Turn p parts laws sending steady origin (after_poll p l pollin) t v ready)
            λ served u (v', ys, turn, ty). yields (
              served,
              refl,
              v',
              xs ++ ys,
              polled poll turn refl,
              Traced-append p (at_origin p parts laws sending steady origin v tx) ty,
            ))

  -- A round in front of `n` rounds.
  pub Advanced-suc :
      (n : ℕ) (l l' : Loop p) (s t : Io p) {xs : List Event} {flow : Flow p} {u : Io p}
      → Round (view p l) xs (view p l')
      → Traced p outcome (ends p origin) s t xs
      → Advanced n l' t flow u
      → Advanced (suc n) l s flow u
  Advanced-suc n l l' s t {xs} step tx (l'', e, v, ys, steps, ty) =
      (l'', e, v, xs ++ ys, (view p l', xs, ys, step, steps, refl), Traced-append p tx ty)

  module _ (back_fed : Fed p parts origin.back_sock)
      (front_fed : Fed p parts origin.front_sock) where
    pub fed_poll :
        (l : Loop p) (s : Io p)
        → Ensures
            (λ (rc, pollin) t.
              Prepared p parts laws sending steady origin (after_poll p l pollin) t)
            (Zmq.poll p (items p l.server) heartbeat_interval s)
    fed_poll l s =
        Ensures-any _ λ r t. (λ _. back_fed t.world, Ensures-any _ λ _ u _. front_fed u.world)

    pub rounds-Advanced :
        (n : ℕ) (l : Loop p) (s : Io p)
        → Serving p origin l.server
        → Returns (Advanced n l s) (rounds p parts n l s)
    unfolding rounds
    rounds-Advanced zero l s v = yields (Advanced-zero l s v)
    rounds-Advanced (suc n) l s v = simp (v.running) (
        Returns-bind (round-Round l s v (fed_poll l s)) λ flow t (l', e, v', xs, step, tx). rw e (
          Returns-mono (rounds-Advanced n l' t v')
            λ flow' u later. Advanced-suc n l l' s t step tx later))
