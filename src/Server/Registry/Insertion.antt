-- ===== src/Server/Registry/Insertion.antt =====
-- src/zmq_server.cc: `MakeNewWorker` inserts into the map from identities to expiry times, with the
-- time that the clock has just given.
use zmq_proxy.Zmq.Calls.{equal-str_eq}
use zmq_proxy.Cmd.{Returns-Ensures, Returns, yields, Returns-bind}
use zmq_proxy.Platform.{Platform, MessageLaws, Memory, Io}
use zmq_proxy.Prelude.{
  subst, ℕ, ◌+◌, ◌≡◌, refl, sym, ap, ◌∙◌, true, false, List, [], ◌∷◌, Bytes, arith, Bool-cases, inl,
  inr, str_eq, str_eq_iff,
}
use zmq_proxy.Server.Registry.Identities.{member, ids}
use zmq_proxy.Server.Registry.{update_expiry, make_new_worker}
use zmq_proxy.Server.State.{Worker, Server, lifetime}
use zmq_proxy.Zmq.Calls.{message_of-Returns}
use zmq_proxy.Zmq.Silent.{Silent, no_calls}
use zmq_proxy.Server.Registry.Table.{expiry_of, expiry_of-concat}
use zmq_proxy.Server.Clock.{ClockFits, Reads, Reads-behind, clock_after-Reads}
use zmq_proxy.Server.Proxy.Silence.{message_of-IsSilent}
use zmq_proxy.Server.Spec.{insert}

module _ (p : Platform) (clock_fits : ClockFits p) where
  open p use {Msg}

  -- The loop gives the worker its new time, if the worker is there.
  update_expiry-insert :
      (identity : Msg) (ws : List (Worker Msg)) (s : Io p)
      → Returns
          (λ (found, ws') u.
            (found ≡ member (p.zmq_msg_data identity) (ids p ws))
            × ((found ≡ false) → (ws' ≡ ws) × (u.world ≡ s.world))
            × (u.sent ≡ s.sent)
            × ((found ≡ true)
                → (t : ℕ) × Reads p s.world t u.world
                  × ((id : Bytes)
                      → expiry_of p id ws'
                        ≡ insert
                            (p.zmq_msg_data identity)
                            (t + lifetime)
                            (λ i. expiry_of p i ws)
                            id)))
          (update_expiry p identity ws s)
  unfolding update_expiry member expiry_of
  update_expiry-insert identity [] s = yields (refl, λ _. (refl, refl), refl, λ e. cc)
  update_expiry-insert identity (w ∷ ws) s =
      rw (equal-str_eq p w.identity identity)
        (elim (Bool-cases (str_eq (p.zmq_msg_data w.identity) (p.zmq_msg_data identity))) [
          | inl hit ↦ rw hit (
              Returns-bind (clock_after-Reads p clock_fits lifetime s (omega arith))
                λ at u (t, reading, e, kept). yields (
                  refl,
                  λ n. absurd cc,
                  kept,
                  λ _. (
                    t,
                    reading,
                    λ id. ground (
                      arith,
                      e,
                      str_eq_iff (p.zmq_msg_data w.identity) (p.zmq_msg_data identity),
                      str_eq_iff (p.zmq_msg_data w.identity) id,
                      str_eq_iff (p.zmq_msg_data identity) id,
                    ),
                  ),
                ))
          | inr miss ↦ rw miss (
              Returns-bind (update_expiry-insert identity ws s)
                λ (found, ws') u (f, same, kept, new). yields (
                  f,
                  λ n. (ap (◌∷◌ w) (same n).0, (same n).1),
                  kept,
                  λ y.
                      let (t, reading, at) = new y in
                      (
                        t,
                        reading,
                        λ id. ground (
                          arith,
                          at id,
                          str_eq_iff (p.zmq_msg_data w.identity) (p.zmq_msg_data identity),
                          str_eq_iff (p.zmq_msg_data w.identity) id,
                          str_eq_iff (p.zmq_msg_data identity) id,
                        ),
                      ),
                ))
        ])

  pub make_new_worker-insert :
      (identity : Msg) (server : Server p) (s : Io p)
      → MessageLaws p
      → Memory p
      → Returns
          (λ server' u.
            ((t : ℕ) × Reads p s.world t u.world
              × ((id : Bytes)
                  → expiry_of p id server'.vec_work
                    ≡ insert
                        (p.zmq_msg_data identity)
                        (t + lifetime)
                        (λ i. expiry_of p i server.vec_work)
                        id))
            × (u.sent ≡ s.sent))
          (make_new_worker p identity server s)
  unfolding make_new_worker
  make_new_worker-insert identity server s laws memory =
      Returns-bind (update_expiry-insert identity server.vec_work s)
        λ (found, ws') u (f, same, kept, new). elim (Bool-cases found) [
          | inl old ↦ rw old (yields (new old, kept))
          | inr absent ↦ rw absent (
              Returns-bind
                (Returns-Ensures (message_of-Returns p laws memory (p.zmq_msg_data identity) u)
                  (message_of-IsSilent p u.world (p.zmq_msg_data identity) u no_calls))
                λ m v ((d, kept''), silent).
                  Returns-bind (clock_after-Reads p clock_fits lifetime v (omega arith))
                    λ at x (t, reading, e, kept'). yields (
                      (
                        t,
                        Reads-behind p (subst (λ w. Silent p w v.world) (same absent).1 silent)
                            reading,
                        λ id. rw ((same absent).0) (
                            expiry_of-concat p id server.vec_work
                              (record { identity = m; expiry = at }) (rw d (sym f ∙ absent))
                            ∙ rw (d, e)),
                      ),
                      kept' ∙ kept'' ∙ kept,
                    ))
        ]
