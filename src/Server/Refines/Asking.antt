-- ===== src/Server/Refines/Asking.antt =====
-- src/zmq_server.cc: the poll of `Server::Start` refines the `Poll` step of Server/Spec.
use zmq_proxy.Cmd.{Ensures, Ensures-both, Ensures-mono}
use zmq_proxy.Multipart.Outcomes.{Outcome}
use zmq_proxy.Platform.{Platform, Io}
use zmq_proxy.Prelude.{
  ℕ, ◌≡◌, refl, sym, ap, ◌∙◌, subst, Bool, Option, none, some, List, [], ◌∷◌, length, ◌==◌, arith,
  Bool-cases, inl, inr,
}
use zmq_proxy.Server.Proxy.{Loop, items, after_poll}
use zmq_proxy.Server.Refines.{ends, view, asked, IsSaid, Polls, Traced, quiet, asks_poll}
use zmq_proxy.Server.Registry.Table.{expiry_of-nobody, expiry_of-somebody}
use zmq_proxy.Server.Spec.{Event, poll_says, Poll, polls_both, polls_back}
use zmq_proxy.Server.State.{heartbeat_interval}
use zmq_proxy.Zmq
use zmq_proxy.Zmq.Calls.{poll-world}
use zmq_proxy.Zmq.Silent.{Silent, no_calls}

module _ (p : Platform) (outcome : Outcome p) (l : Loop p) (s : Io p) where
  -- What zmq_poll says of these sockets.
  poll-Polls :
      (back : Bool) (front : Option Bool) {socks : List p.Socket} {pollin : ℕ → Bool} {w : p.World}
      → socks ≡ asked p (ends p l.server) front
      → pollin ≡ (p.zmq_poll socks heartbeat_interval s.world).0.pollin
      → w ≡ (p.zmq_poll socks heartbeat_interval s.world).1
      → IsSaid p pollin back front
      → Polls p (ends p l.server) s.world back front w
  poll-Polls back front {pollin} {w} same bits at said =
      let said_of : List p.Socket → ℕ → Bool =
        λ socks. (p.zmq_poll socks heartbeat_interval s.world).0.pollin in
      let world_of : List p.Socket → p.World =
        λ socks. (p.zmq_poll socks heartbeat_interval s.world).1 in
      record {
        asked_at = s.world;
        before = no_calls;
        said = subst (λ q. IsSaid p q back front) (bits ∙ ap said_of same) said;
        after =
            subst (Silent p (world_of (asked p (ends p l.server) front)))
              (sym (at ∙ ap world_of same)) no_calls;
      }

  pub poll-StepsPoll :
      Ensures
        (λ (rc, pollin) t.
          (es : List Event) × Poll (view p l) es (view p (after_poll p l pollin))
          × Traced p outcome (ends p l.server) s t es)
        (Zmq.poll p (items p l.server) heartbeat_interval s)
  poll-StepsPoll =
      Ensures-mono
        (Ensures-both (Zmq.poll-Ensures p (items p l.server) heartbeat_interval s)
          (poll-world p (items p l.server) heartbeat_interval s))
        λ (rc, pollin) t ((_, bits, kept), at). elim (Bool-cases (length l.server.vec_work == 0)) [
          | inl alone ↦ (
            poll_says (pollin 0) none ∷ [],
            polls_back (pollin 0)
                (λ id. expiry_of-nobody p id l.server.vec_work (ground (arith, alone))) refl
                (rw alone refl),
            asks_poll (poll-Polls (pollin 0) none (rw alone refl) bits at refl) kept
                (quiet no_calls refl),
          )
          | inr crew ↦
              let (id, e, here) = expiry_of-somebody p l.server.vec_work (ground (arith, crew)) in
              (
                poll_says (pollin 0) (some (pollin 1)) ∷ [],
                polls_both id e (pollin 0) (pollin 1) here refl (rw crew refl),
                asks_poll
                    (poll-Polls (pollin 0) (some (pollin 1)) (rw crew refl) bits at (refl, refl))
                    kept (quiet no_calls refl),
              )
        ]
