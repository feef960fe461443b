-- ===== src/Server/Proxy/Registers.antt =====
-- src/zmq_server.cc: what a message of two parts on the back socket makes of the list of workers.
use zmq_proxy.Cmd.{Returns, yields, Returns-mono, Returns-Ensures}
use zmq_proxy.Multipart.Wire.{Delivers}
use zmq_proxy.Platform.{Platform, MessageLaws, Memory, no_flags, Frame}
use zmq_proxy.Prelude.{
  ℕ, ◌+◌, ◌<◌, ◌≡◌, ◌≢◌, refl, ◌⊎◌, inl, inr, List, [], ◌∷◌, Bytes, str_eq, str_eq_iff, str_eq_refl,
  Bool-cases, arith,
}
use zmq_proxy.Server.Clock.{ClockFits, Reads}
use zmq_proxy.Server.Proxy.Forward.{backend-two_parts}
use zmq_proxy.Server.Proxy.{backend}
use zmq_proxy.Server.Registry.Identities.{Registered, make_new_worker-Registered}
use zmq_proxy.Server.Registry.Insertion.{make_new_worker-insert}
use zmq_proxy.Server.Registry.Table.{expiry_of}
use zmq_proxy.Server.Spec.{insert}
use zmq_proxy.Server.State.{Server, heartbeat_key, lifetime}

module _ (p : Platform) (parts : ℕ) (server : Server p) where
  open p use {Msg, World}

  -- The identity is one of the workers, added at the end if it was none of them, and expires `lifetime`
  -- behind a reading of the clock; the others expire when they did.
  pub record Enrolled (id : Bytes) (w : World) (server' : Server p) (w' : World) : Type 0 where
    pub registered : Registered p id server server'
    pub now : ℕ
    pub reading : Reads p w now w'
    pub expiries :
        (other : Bytes)
        → expiry_of p other server'.vec_work
          ≡ insert id (now + lifetime) (λ i. expiry_of p i server.vec_work) other

  -- If a message of an identity and one part is there on the back socket, memory does not run out, the
  -- clock is in range and messages behave as documented, then the branch for the back socket returns
  -- and has sent nothing. If the part is "HEARTBEAT", the clock is read once, the identity expires
  -- `lifetime` behind that time and is added at the end of the list if it was not there, and every
  -- other identity keeps its place and its expiry time. With any other part the server is unchanged
  -- and the clock is not read.
  pub backend-Enrolled :
      MessageLaws p
      → Memory p
      → ClockFits p
      → {w w' : World} {identity data_ : Msg} (sent : List (Frame p.Socket))
      → Delivers p server.back_sock no_flags w (identity ∷ data_ ∷ []) w'
      → 1 < parts
      → Returns
          (λ server' t.
            (t.sent ≡ sent)
            × (((p.zmq_msg_data data_ ≡ heartbeat_key)
                  × Enrolled (p.zmq_msg_data identity) w' server' t.world)
                ⊎ ((p.zmq_msg_data data_ ≢ heartbeat_key) × (server' ≡ server) × (t.world ≡ w'))))
          (backend p parts server (record { world = w; sent = sent }))
  backend-Enrolled laws memory clock_fits {w'} {identity} {data_} sent d h =
      rw (backend-two_parts p parts server sent d h)
        (elim (Bool-cases (str_eq (p.zmq_msg_data data_) heartbeat_key)) [
          | inl same ↦ rw same (
              Returns-mono
                (Returns-Ensures
                  (make_new_worker-insert p clock_fits identity server
                    (record { world = w'; sent = sent }) laws memory)
                  (make_new_worker-Registered p laws identity server
                    (record { world = w'; sent = sent })))
                λ server' t (((now, reading, inserted), kept), registered). (
                  kept,
                  inl (
                    (str_eq_iff (p.zmq_msg_data data_) heartbeat_key).0 same,
                    record {
                      registered = registered;
                      now = now;
                      reading = reading;
                      expiries = inserted;
                    },
                  ),
                ))
          | inr other ↦ rw other (
              yields
                (refl, inr (λ e. ground (arith, other, e, str_eq_refl heartbeat_key), refl, refl)))
        ])
