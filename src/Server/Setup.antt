-- ===== src/Server/Setup.antt =====
-- src/zmq_server.h: the constructor of `Server`, and the wrappers of src/zmq.hpp that it calls.
use zmq_proxy.Cmd.{Cmd, pure, ◌>>=◌, ◌>>◌}
use zmq_proxy.Host.{Host}
use zmq_proxy.Platform.{Platform, Status, Io, checked}
use zmq_proxy.Prelude.{ℕ, false, [], ◌∷◌, ◌++◌, Bytes, codes}
use zmq_proxy.Server.State.{Server}

abbrev pub send_timeout : ℕ
send_timeout = 3000

module _ (p : Platform) (h : Host p) where
  open p use {Socket}
  open h use {Context}

  -- "tcp://" and an address and a port
  unfoldable pub endpoint : Bytes → Status → Bytes
  endpoint ip port = codes "tcp://" ++ ip ++ codes ":" ++ h.to_string port

  -- `socket_t (context_t& context_, int type_)`, which is `init`
  unfoldable pub new_socket : Context → ℕ → Cmd (Io p) Socket
  new_socket context_ type_ = checked p (h.zmq_socket context_ type_)

  unfoldable pub bind : Socket → Bytes → Cmd (Io p) (Unit {0})
  bind sock addr = checked p (h.zmq_bind sock addr)

  unfoldable pub setsockopt : Socket → ℕ → ℕ → Cmd (Io p) (Unit {0})
  setsockopt sock option_ optval = checked p (h.zmq_setsockopt sock option_ optval)

  -- The address in use: "*" for none.
  abbrev pub address : Bytes → Bytes
  address [] = codes "*"
  address (c ∷ ip) = c ∷ ip

  unfoldable pub new_server : Context → Status → Status → Bytes → Cmd (Io p) (Server p)
  new_server context frontport backport ip = do
    front_sock ← new_socket context h.zmq_router
    back_sock ← new_socket context h.zmq_router
    bind front_sock (endpoint (address ip) frontport)
    bind back_sock (endpoint (address ip) backport)
    setsockopt front_sock h.zmq_sndtimeo send_timeout
    setsockopt back_sock h.zmq_sndtimeo send_timeout
    pure (record { running = false; front_sock = front_sock; back_sock = back_sock; vec_work = [] })
