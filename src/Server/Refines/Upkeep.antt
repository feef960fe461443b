-- ===== src/Server/Refines/Upkeep.antt =====
-- src/zmq_server.cc: the heartbeats and `CheckWorker` refine the steps of Server/Spec.
use zmq_proxy.Multipart.Outcomes.{Outcome, Sending, Grows-at}
use zmq_proxy.Cmd.{Returns-Ensures, Returns, yields, Returns-mono, Returns-bind}
use zmq_proxy.Platform.{Platform, MessageLaws, Io, no_flags}
use zmq_proxy.Prelude.{
  ℕ, refl, ap, ◌∙◌, fun_ext, List, [], ◌∷◌, ◌++◌, map, ltb, arith, Bool-cases, inl, inr,
}
use zmq_proxy.Server.Clock.{ClockFits, s_clock-Reads, clock_after-Reads}
use zmq_proxy.Zmq.Silent.{no_calls}
use zmq_proxy.Server.Proxy.Silence.{pushmem-IsSilent, addstr-IsSilent, send-IsSilent}
use zmq_proxy.Multipart.Building.{pushmem-Returns, addstr-Returns}
use zmq_proxy.Server.Proxy.{Loop, heartbeat_loop, heartbeat}
use zmq_proxy.Server.Refines.{
  ends, seen, Traced, Traced-append, Ends, quiet, reads_clock, writes_worker,
}
use zmq_proxy.Server.Registry.Check.{check_worker-live}
use zmq_proxy.Server.Registry.Identities.{Distinct, ids}
use zmq_proxy.Server.Registry.Table.{expiry_of-live, member-expiry_of}
use zmq_proxy.Server.Registry.{check_worker}
use zmq_proxy.Server.Spec.{Event, clock_says, Beat, early, beats, beat, Expire, checks}
use zmq_proxy.Server.State.{Worker, Server, heartbeat_interval, heartbeat_key}

module _ (p : Platform) where
  open p use {Msg, Socket}

  module _ (laws : MessageLaws p) {outcome : Outcome p} (sending : Sending p outcome)
      (clock_fits : ClockFits p) (l : Loop p) (server : Server p) where
    -- The loop over the workers sends the heartbeats of the trace, one after the other.
    heartbeat_loop-Traced :
        (k : Ends Socket) (ws : List (Worker Msg)) (s : Io p)
        → Returns
            (λ _ t. Traced p outcome k s t (map beat (ids p ws)))
            (heartbeat_loop p k.back ws s)
    unfolding heartbeat_loop
    heartbeat_loop-Traced k [] s = yields (quiet no_calls refl)
    heartbeat_loop-Traced k (v ∷ ws) s =
        let id = p.zmq_msg_data v.identity in
        Returns-bind
          (Returns-Ensures (pushmem-Returns p laws sending.memory id [] s)
            (pushmem-IsSilent p s.world id [] s no_calls))
          λ a t ((d, kept), silent).
            Returns-bind
              (Returns-Ensures (addstr-Returns p laws sending.memory heartbeat_key a t)
                (addstr-IsSilent p s.world heartbeat_key a t silent))
              λ b u ((d', kept'), silent').
                Returns-bind
                  (Returns-Ensures (sending.sends k.back b u)
                    (send-IsSilent p s.world k.back no_flags b u silent'))
                  λ _ x (grown, silent''). Returns-mono (heartbeat_loop-Traced k ws x) λ _ y rest.
                    writes_worker silent''
                      (Grows-at p outcome k.back (d' ∙ ap (λ l. l ++ heartbeat_key ∷ []) d)
                        (kept' ∙ kept) grown)
                      rest

    -- The events of heartbeats to all workers, between two readings of the clock.
    all_beats : ℕ → ℕ → List Event
    all_beats t t' = clock_says t ∷ map beat (ids p server.vec_work) ++ clock_says t' ∷ []

    pub heartbeat-Beat :
        (at : ℕ) (s : Io p)
        → Distinct (ids p server.vec_work)
        → Returns
            (λ at' t.
              (es : List Event) × Beat (seen p l server at) es (seen p l server at')
              × Traced p outcome (ends p server) s t es)
            (heartbeat p server at s)
    unfolding heartbeat all_beats
    heartbeat-Beat at s d =
        Returns-bind (s_clock-Reads p clock_fits s) λ time t (reading, fits, kept).
          elim (Bool-cases (ltb at time)) [
            | inl due ↦ rw due (
                Returns-bind (heartbeat_loop-Traced (ends p server) server.vec_work t) λ _ u beaten.
                  Returns-mono (clock_after-Reads p clock_fits heartbeat_interval u (omega arith))
                    λ at' v (now, reading', e, kept'). (
                      all_beats time now,
                      beats time now (ids p server.vec_work) (ground arith)
                          (d, λ id. member-expiry_of p id server.vec_work) refl
                          (ap (seen p l server) e),
                      reads_clock reading kept (
                          Traced-append p beaten
                            (reads_clock reading' kept' (quiet no_calls refl))),
                    ))
            | inr not_due ↦ rw not_due (
                yields (
                  clock_says time ∷ [],
                  early time (ground arith) refl refl,
                  reads_clock reading kept (quiet no_calls refl),
                ))
          ]

    pub check_worker-Expire :
        (at : ℕ) (s : Io p)
        → Distinct (ids p server.vec_work)
        → Returns
            (λ server' t.
              (es : List Event) × Expire (seen p l server at) es (seen p l server' at)
              × Traced p outcome (ends p server) s t es)
            (check_worker p server s)
    check_worker-Expire at s d = rw (check_worker-live p server s) (
        Returns-bind (s_clock-Reads p clock_fits s) λ now t (reading, fits, kept). yields (
          clock_says now ∷ [],
          checks now refl (
              ap (λ table. record (seen p l server at) { table = table })
                (fun_ext λ id. expiry_of-live p now id server.vec_work d)),
          reads_clock reading kept (quiet no_calls refl),
        ))
