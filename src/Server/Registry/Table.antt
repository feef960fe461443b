-- ===== src/Server/Registry/Table.antt =====
-- src/zmq_server.cc: the list of workers as a map from identities to expiry times.
use zmq_proxy.Platform.{Platform}
use zmq_proxy.Prelude.{
  zero, suc, length, ◌≢◌, str_eq_refl, is_some, get_elem?, ℕ, ◌≡◌, refl, false, Option, none, some,
  List, [], ◌∷◌, ◌++◌, Bytes, if◌then◌else◌, arith, Bool-cases, inl, inr, str_eq, str_eq_iff,
}
use zmq_proxy.Server.Registry.Check.{live}
use zmq_proxy.Server.Registry.Identities.{member, Distinct, ids}
use zmq_proxy.Server.State.{Worker}
use zmq_proxy.Server.Spec.{unexpired}

module _ (p : Platform) where
  open p use {Msg}

  -- When the worker with identity `id` expires.
  unfoldable pub expiry_of : Bytes → List (Worker Msg) → Option ℕ
  expiry_of id [] = none
  expiry_of id (w ∷ ws) =
      if str_eq (p.zmq_msg_data w.identity) id then some w.expiry else expiry_of id ws

  pub expiry_of-nobody :
      (id : Bytes) (ws : List (Worker Msg)) → length ws ≡ 0 → expiry_of id ws ≡ none
  unfolding expiry_of
  expiry_of-nobody id [] h = refl
  expiry_of-nobody id (w ∷ ws) h = absurd (omega arith)

  pub expiry_of-somebody :
      (ws : List (Worker Msg)) → length ws ≢ 0 → (id : Bytes) × (e : ℕ) × (expiry_of id ws ≡ some e)
  unfolding expiry_of
  expiry_of-somebody [] h = absurd (h refl)
  expiry_of-somebody (w ∷ ws) h =
      (p.zmq_msg_data w.identity, w.expiry, rw (str_eq_refl (p.zmq_msg_data w.identity)) refl)

  expiry_of-absent :
      (id : Bytes) (ws : List (Worker Msg)) → member id (ids p ws) ≡ false → expiry_of id ws ≡ none
  unfolding expiry_of member
  expiry_of-absent id [] out = refl
  expiry_of-absent id (w ∷ ws) out = ground (arith, expiry_of-absent id ws)

  pub expiry_of-concat :
      (id : Bytes) (ws : List (Worker Msg)) (w : Worker Msg)
      → member (p.zmq_msg_data w.identity) (ids p ws) ≡ false
      → expiry_of id (ws ++ w ∷ [])
        ≡ (if str_eq (p.zmq_msg_data w.identity) id then some w.expiry else expiry_of id ws)
  unfolding expiry_of member
  expiry_of-concat id [] w out = refl
  expiry_of-concat id (x ∷ ws) w out = ground (
    arith,
    expiry_of-concat id ws w,
    str_eq_iff (p.zmq_msg_data x.identity) id,
    str_eq_iff (p.zmq_msg_data w.identity) id,
    str_eq_iff (p.zmq_msg_data x.identity) (p.zmq_msg_data w.identity),
  )

  pub expiry_of-live :
      (now : ℕ) (id : Bytes) (ws : List (Worker Msg))
      → Distinct (ids p ws)
      → expiry_of id (live now ws) ≡ unexpired now (expiry_of id ws)
  unfolding expiry_of live
  expiry_of-live now id [] d = refl
  expiry_of-live now id (w ∷ ws) d = ground (
    arith,
    expiry_of-live now id ws d.1,
    str_eq_iff (p.zmq_msg_data w.identity) id,
    expiry_of-absent (p.zmq_msg_data w.identity) ws d.0,
  )

  -- A worker in the list has an expiry time.
  pub expiry_of-get_elem? :
      (ws : List (Worker Msg)) (i : ℕ) (w : Worker Msg)
      → get_elem? ws i ≡ some w
      → (e : ℕ) × (expiry_of (p.zmq_msg_data w.identity) ws ≡ some e)
  unfolding expiry_of
  expiry_of-get_elem? [] i w h = cc
  expiry_of-get_elem? (x ∷ ws) zero w h =
      (x.expiry, ground (arith, h, str_eq_refl (p.zmq_msg_data x.identity)))
  expiry_of-get_elem? (x ∷ ws) (suc i) w h =
      let (e, at) = expiry_of-get_elem? ws i w h in
      elim (Bool-cases (str_eq (p.zmq_msg_data x.identity) (p.zmq_msg_data w.identity))) [
        | inl same ↦ (x.expiry, rw same refl)
        | inr other ↦ (e, rw other at)
      ]

  -- An identity is in the list exactly if it has an expiry time.
  pub member-expiry_of :
      (id : Bytes) (ws : List (Worker Msg)) → member id (ids p ws) ≡ is_some (expiry_of id ws)
  unfolding member expiry_of
  member-expiry_of id [] = refl
  member-expiry_of id (w ∷ ws) = ground (arith, member-expiry_of id ws)
