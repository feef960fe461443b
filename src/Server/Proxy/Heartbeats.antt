-- ===== src/Server/Proxy/Heartbeats.antt =====
-- src/zmq_server.cc: the heartbeats that the proxy sends to its workers.
use zmq_proxy.Cmd.{Returns, yields, Returns-bind, Returns-mono}
use zmq_proxy.Multipart.Building.{pushmem-Returns, addstr-Returns}
use zmq_proxy.Multipart.Wire.{frames, send-frames}
use zmq_proxy.Platform.{Platform, MessageLaws, Reliable, no_flags, Frame, Io}
use zmq_proxy.Prelude.{
  ℕ, ◌+◌, ◌*◌, ◌^◌, ◌<◌, ◌≡◌, refl, sym, ap, ◌∙◌, List, [], ◌∷◌, ◌++◌, append_assoc, append-nil,
  if◌then◌else◌, ltb, arith, Bool-cases, inl, inr,
}
use zmq_proxy.Server.Proxy.{heartbeat_loop, heartbeat}
use zmq_proxy.Server.Clock.{ClockReads, s_clock-Returns, clock_after-Returns}
use zmq_proxy.Server.State.{Worker, Server, heartbeat_key, heartbeat_interval}

module _ (p : Platform) where
  open p use {Msg, Socket}

  -- One heartbeat message for each worker, in order.
  unfoldable pub heartbeats : Socket → List (Worker Msg) → List (Frame Socket)
  heartbeats sock [] = []
  heartbeats sock (w ∷ ws) =
      frames sock (p.zmq_msg_data w.identity ∷ heartbeat_key ∷ []) ++ heartbeats sock ws

  module _ (laws : MessageLaws p) (reliable : Reliable p) where
    pub heartbeat_loop-heartbeats :
        (sock : Socket) (ws : List (Worker Msg)) (s : Io p)
        → Returns (λ _ t. t.sent ≡ s.sent ++ heartbeats sock ws) (heartbeat_loop p sock ws s)
    unfolding heartbeat_loop heartbeats
    heartbeat_loop-heartbeats sock [] s = yields (sym (append-nil s.sent))
    heartbeat_loop-heartbeats sock (w ∷ ws) s =
        Returns-bind (pushmem-Returns p laws reliable.memory (p.zmq_msg_data w.identity) [] s)
          λ a t (d, kept).
            Returns-bind (addstr-Returns p laws reliable.memory heartbeat_key a t)
              λ b u (d', kept').
                Returns-bind (send-frames p reliable sock no_flags b u) λ r v (_, _, grown).
                  Returns-mono (heartbeat_loop-heartbeats sock ws v)
                    λ _ x rest. rest ∙ rw (grown, kept', kept, d', d) (append_assoc s.sent _ _)

    -- If the clock reads `t` seconds, within the range of `int64_t`, and the platform is reliable, then
    -- the heartbeat step returns. If `heartbeat_at` is below the clock, then every worker of the list
    -- is sent one message of its identity and "HEARTBEAT", in the order of the list, and the next time
    -- is the clock plus HEARTBEAT_INTERVAL; otherwise nothing is sent and the time stays.
    pub heartbeat-heartbeats :
        (t : ℕ) (server : Server p) (heartbeat_at : ℕ) (s : Io p)
        → ClockReads p t
        → t * 1000 + heartbeat_interval < 2 ^ 63
        → Returns
            (λ at u.
              if ltb heartbeat_at (t * 1000)
              then (at ≡ t * 1000 + heartbeat_interval)
                × (u.sent ≡ s.sent ++ heartbeats server.back_sock server.vec_work)
              else (at ≡ heartbeat_at) × (u.sent ≡ s.sent))
            (heartbeat p server heartbeat_at s)
    unfolding heartbeat
    heartbeat-heartbeats t server heartbeat_at s reads fits =
        Returns-bind (s_clock-Returns p t s reads (omega arith)) λ now u (e, kept).
          rw e (elim (Bool-cases (ltb heartbeat_at (t * 1000))) [
            | inl due ↦ rw due (
                Returns-bind (heartbeat_loop-heartbeats server.back_sock server.vec_work u)
                  λ _ v beaten.
                    Returns-mono (clock_after-Returns p t heartbeat_interval v reads fits)
                      λ at x (f, kept'). (
                        f,
                        kept'
                            ∙ beaten
                            ∙ ap (λ l. l ++ heartbeats server.back_sock server.vec_work) kept,
                      ))
            | inr early ↦ rw early (yields (refl, kept))
          ])
