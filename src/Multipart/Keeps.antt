-- ===== src/Multipart/Keeps.antt =====
-- src/zmq_addon.hpp: a property of the world that zmq_msg_send keeps is kept by `multipart_t::send`.
use zmq_proxy.Cmd.{returned, Ensures-bind}
use zmq_proxy.Multipart.Transfer.{send_loop, send}
use zmq_proxy.Platform.{Platform, Flags}
use zmq_proxy.Prelude.{List, [], ◌∷◌, Bool-cases, inl, inr}
use zmq_proxy.Zmq.Keeps.{Keeps, send-Keeps}

module _ (p : Platform) (I : p.World → Type 0) where
  -- Sending on the socket keeps the property.
  abbrev KeptBySend : p.Socket → Type 0
  KeptBySend sock =
      (m : p.Msg) (flags : Flags) (w : p.World) → I w → I (p.zmq_msg_send sock m flags w).1

  send_loop-Keeps :
      (sock : p.Socket) (flags : Flags) (msg : List p.Msg)
      → KeptBySend sock
      → Keeps p I (send_loop p sock flags msg)
  unfolding send_loop
  send_loop-Keeps sock flags [] keeps s i = returned i
  send_loop-Keeps sock flags (m ∷ msg) keeps s i =
      Ensures-bind (send-Keeps p I sock m _ (keeps m _) s i) λ ok t i. elim (Bool-cases ok) [
        | inl sent ↦ rw sent (send_loop-Keeps sock flags msg keeps t i)
        | inr refused ↦ rw refused (returned i)
      ]

  pub multipart_send-Keeps :
      (sock : p.Socket) (flags : Flags) (msg : List p.Msg)
      → KeptBySend sock
      → Keeps p I (send p sock flags msg)
  unfolding send
  multipart_send-Keeps sock flags msg keeps = send_loop-Keeps sock _ msg keeps
