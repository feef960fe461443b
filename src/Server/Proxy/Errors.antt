-- ===== src/Server/Proxy/Errors.antt =====
-- src/zmq_server.cc: what becomes of `Server::Start` when a call of libzmq fails.
use zmq_proxy.Cmd.{Throws, Throws-bind, Throws-behind, error_t, undefined, throws}
use zmq_proxy.Multipart.Deque.{pop}
use zmq_proxy.Multipart.Transfer.{recv, recv_loop}
use zmq_proxy.Platform.{Platform, Io, no_flags, failed, negsuc}
use zmq_proxy.Prelude.{ℕ, suc, ◌≡◌, refl, List, if◌then◌else◌, ◌==◌, arith, Bool-cases, inl, inr}
use zmq_proxy.Server.Clock.{ClockFits, clock_after-Reads}
use zmq_proxy.Server.Proxy.{items, backend, round, rounds, start}
use zmq_proxy.Server.State.{heartbeat_interval, Server}
use zmq_proxy.Zmq.Calls.{poll-Throws, recv-failed}

module _ (p : Platform) (parts : ℕ) where
  open p use {World, Socket}

  -- If every call of zmq_poll returns a negative status and the errno is then `errno`, and the clock
  -- is in range, then `Start`, for one round or more, throws that errno and has sent nothing. So the
  -- branch for `rc == -1` is not taken, for the status -1 neither.
  pub start-Throws :
      (errno : ℕ)
      → ((socks : List Socket) (timeout : ℕ) (w : World)
          → (n : ℕ) × ((p.zmq_poll socks timeout w).0.rc ≡ negsuc n)
            × ((p.zmq_poll socks timeout w).0.errno ≡ errno))
      → ClockFits p
      → (n : ℕ) (server : Server p) (s : Io p)
      → Throws (λ e t. (e ≡ error_t errno) × (t.sent ≡ s.sent)) (start p parts (suc n) server s)
  unfolding start rounds round
  start-Throws errno fails clock_fits n server s =
      Throws-behind (clock_after-Reads p clock_fits heartbeat_interval s (omega arith))
        λ at t (_, _, _, kept).
          let (k, e, e') = fails (items p server) heartbeat_interval t.world in
          rw (← kept) (
            Throws-bind
              (Throws-bind (poll-Throws p (items p server) heartbeat_interval t k errno e e') _) _)

  -- If zmq_msg_recv fails at the first part of a message from the back socket, then the branch for
  -- that socket throws the errno, but for EAGAIN, where the message stays empty and `pop` of it is
  -- undefined.
  pub backend-recv_fails :
      (errno : ℕ) (server : Server p) (s : Io p) (w : World)
      → p.zmq_msg_recv server.back_sock no_flags s.world ≡ (failed errno, w)
      → backend p (suc parts) server s
        ≡ (if errno == p.eagain then undefined else throws (error_t errno) (record s { world = w }))
  unfolding backend recv recv_loop pop
  backend-recv_fails errno server s w e = elim (Bool-cases (errno == p.eagain)) [
    | inl again ↦ rw (recv-failed p server.back_sock no_flags s errno w e, again) refl
    | inr other ↦ rw (recv-failed p server.back_sock no_flags s errno w e, other) refl
  ]
