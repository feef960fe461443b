-- ===== src/Multipart/Transfer.antt =====
-- src/zmq_addon.hpp: `multipart_t::recv` and `multipart_t::send`.
use zmq_proxy.Cmd.{Cmd, out_of_fuel, pure, ◌>>=◌}
use zmq_proxy.Multipart.Deque.{add, empty}
use zmq_proxy.Platform.{Platform, Flags, Io}
use zmq_proxy.Prelude.{
  ℕ, zero, suc, Bool, true, false, not, ◌||◌, none, some, List, [], ◌∷◌, if◌then◌else◌,
}
use zmq_proxy.Zmq

module _ (p : Platform) where
  open p use {Msg, Socket}

  -- The loop of `recv`: the sender decides how many parts there are, so it runs on fuel.
  unfoldable pub recv_loop : ℕ → Socket → Flags → List Msg → Cmd (Io p) (Bool × List Msg)
  recv_loop zero socket flags parts = λ _. out_of_fuel
  recv_loop (suc fuel) socket flags parts = do
    received ← Zmq.recv p socket flags
    elim received [
      | none ↦ pure (false, parts)
      | some message ↦
          let rest = recv_loop fuel socket flags (add message parts) in
          if Zmq.more p message then rest else pure (true, add message parts)
    ]

  unfoldable pub recv : ℕ → Socket → Flags → Cmd (Io p) (Bool × List Msg)
  unfolding recv_loop
  recv fuel socket flags = recv_loop fuel socket flags []

  -- The loop of `send`: ZMQ_SNDMORE is set while parts are left.
  unfoldable pub send_loop : Socket → Flags → List Msg → Cmd (Io p) (Bool × List Msg)
  send_loop socket flags [] = pure (true, [])
  send_loop socket flags (message ∷ parts) = do
    let more = not (empty parts)
    sent ← Zmq.send p socket message (record flags { sndmore = more || flags.sndmore })
    if sent then send_loop socket flags parts else pure (false, parts)

  unfoldable pub send : Socket → Flags → List Msg → Cmd (Io p) (Bool × List Msg)
  unfolding send_loop
  send socket flags parts = send_loop socket (record flags { sndmore = false }) parts
