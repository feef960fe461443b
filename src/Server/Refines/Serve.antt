-- ===== src/Server/Refines/Serve.antt =====
-- src/zmq_server.cc: the body of the loop of `Server::Start`, behind the poll, refines a turn of
-- Server/Spec.
use zmq_proxy.Multipart.Outcomes.{Outcome, Sending}
use zmq_proxy.Cmd.{Ensures, Returns, yields, Returns-bind, Returns-mono, Returns-Ensures, pure}
use zmq_proxy.Platform.{Platform, MessageLaws, Io}
use zmq_proxy.Prelude.{ℕ, ◌≡◌, refl, sym, subst, Bool, true, false, List, [], ◌++◌, if◌then◌else◌}
use zmq_proxy.Server.Proxy.Invariant.{Serving, backend-Serving, check_worker-Serving}
use zmq_proxy.Server.Proxy.Steps.{FedAt, Steady}
use zmq_proxy.Server.Proxy.{Loop, backend, frontend, serve}
use zmq_proxy.Server.Refines.Branches.{backend-StepsBack, frontend-StepsFront}
use zmq_proxy.Server.Refines.Upkeep.{heartbeat-Beat, check_worker-Expire}
use zmq_proxy.Server.Refines.{Ends, ends, view, seen, Traced, Traced-append, quiet}
use zmq_proxy.Zmq.Silent.{no_calls}
use zmq_proxy.Server.Spec.{Event, BackTurn, FrontTurn, Turn, in_turn}
use zmq_proxy.Server.State.{Server}

pub stays :
    {p : Platform} {outcome : Outcome p} (k : Ends p.Socket) (s : Io p) → Traced p outcome k s s []
stays k s = quiet no_calls refl

module _ (p : Platform) (parts : ℕ) (laws : MessageLaws p) {outcome : Outcome p}
    (sending : Sending p outcome) (steady : Steady p parts) (origin : Server p) where
  same_ends : {server : Server p} → Serving p origin server → ends p server ≡ ends p origin
  same_ends v = rw (v.front_sock, v.back_sock) refl

  -- The trace, on the sockets of the server that `Start` began with.
  pub at_origin :
      {server : Server p} {s t : Io p} {es : List Event}
      → Serving p origin server
      → Traced p outcome (ends p server) s t es
      → Traced p outcome (ends p origin) s t es
  at_origin {s} {t} {es} v = subst (λ k. Traced p outcome k s t es) (same_ends v)

  received-BackTurn :
      (l : Loop p) (b : Bool) (s : Io p)
      → l.back_in ≡ b
      → Serving p origin l.server
      → (b ≡ true → FedAt p parts origin.back_sock s.world)
      → Returns
          (λ server t.
            Serving p origin server
            × (es : List Event) × BackTurn (view p l) es (seen p l server l.heartbeat_at)
            × Traced p outcome (ends p origin) s t es)
          ((if b then backend p parts l.server else pure l.server) s)
  received-BackTurn l true s bit v fed =
      Returns-mono
        (Returns-Ensures
          (backend-StepsBack p parts laws sending (steady.clock_fits) l l.server l.heartbeat_at s
            (subst (λ sock. FedAt p parts sock s.world) (sym v.back_sock) (fed refl)))
          (backend-Serving p laws parts s v))
        λ server t ((es, step, traced), v'). (v', es, BackTurn.takes bit step, at_origin v traced)
  received-BackTurn l false s bit v fed =
      yields (v, [], BackTurn.passes bit refl refl, stays (ends p origin) s)

  requested-FrontTurn :
      (l : Loop p) (b : Bool) (server : Server p) (s : Io p)
      → l.front_in ≡ b
      → Serving p origin server
      → (b ≡ true → FedAt p parts origin.front_sock s.world)
      → Returns
          (λ _ t.
            (es : List Event) × FrontTurn (seen p l server l.heartbeat_at) es
            × Traced p outcome (ends p origin) s t es)
          ((if b then frontend p parts server else pure tt) s)
  requested-FrontTurn l true server s bit v fed =
      Returns-mono
        (frontend-StepsFront p parts laws sending (steady.clock_fits) l server l.heartbeat_at s
          (subst (λ sock. FedAt p parts sock s.world) (sym v.front_sock) (fed refl)))
        λ _ t (es, step, traced). (es, FrontTurn.takes bit step, at_origin v traced)
  requested-FrontTurn l false server s bit v fed =
      yields ([], FrontTurn.passes bit refl, stays (ends p origin) s)

  -- What the branches for the two sockets rest on, where they are taken: the back socket delivers a
  -- message, and behind the branch for it the front socket does.
  abbrev pub Prepared : Loop p → Io p → Type 0
  Prepared l s =
      (l.back_in ≡ true → FedAt p parts origin.back_sock s.world)
      × Ensures (λ _ t. l.front_in ≡ true → FedAt p parts origin.front_sock t.world)
          ((if l.back_in then backend p parts l.server else pure l.server) s)

  pub serve-Turn :
      (l : Loop p) (s : Io p)
      → Serving p origin l.server
      → Prepared l s
      → Returns
          (λ l' t.
            Serving p origin l'.server
            × (es : List Event) × Turn (view p l) es (view p l')
            × Traced p outcome (ends p origin) s t es)
          (serve p parts l s)
  unfolding serve
  serve-Turn l s v (back_fed, front_fed) =
      Returns-bind (Returns-Ensures (received-BackTurn l l.back_in s refl v back_fed) front_fed)
        λ server t ((v', a, back, ta), fed).
          Returns-bind (requested-FrontTurn l l.front_in server t refl v' fed) λ _ u (b, front, tb).
            Returns-bind
              (heartbeat-Beat p laws sending (steady.clock_fits) l server l.heartbeat_at u
                (v'.distinct))
              λ at w (c, beat, tc).
                Returns-bind
                  (Returns-Ensures
                    (check_worker-Expire p laws sending (steady.clock_fits) l server at w
                      (v'.distinct))
                    (check_worker-Serving p w v'))
                  λ checked x ((d, expire, td), v''). yields (
                    v'',
                    a ++ b ++ c ++ d,
                    in_turn back front beat expire refl,
                    Traced-append p (Traced-append p (Traced-append p ta tb) (at_origin v' tc))
                        (at_origin v' td),
                  )
