-- ===== src/Server/Proxy/Ready.antt =====
-- src/zmq_server.cc: what zmq_poll tells of the sockets, and that it holds until they are read.
use zmq_proxy.Cmd.{Cmd, pure, Ensures, returned, undef, spent, Ensures-bind}
use zmq_proxy.Multipart.Deque.{add, pop, remove}
use zmq_proxy.Multipart.Keeps.{multipart_send-Keeps}
use zmq_proxy.Multipart.Transfer
use zmq_proxy.Multipart.Transfer.{recv_loop, send_loop}
use zmq_proxy.Platform.{Platform, Flags, Io, pos, no_flags}
use zmq_proxy.Prelude.{
  ℕ, zero, suc, ◌≡◌, ◌≢◌, Bool, true, false, Option, none, some, List, [], ◌∷◌, length, get_elem?,
  if◌then◌else◌, ◌==◌, str_eq, Bool-cases, inl, inr,
}
use zmq_proxy.Server.Proxy.Steps.{FedAt}
use zmq_proxy.Server.Proxy.{backend}
use zmq_proxy.Server.Registry.{update_expiry, make_new_worker}
use zmq_proxy.Server.State.{heartbeat_key, lifetime, Worker, Server, s_clock, clock_after}
use zmq_proxy.Zmq
use zmq_proxy.Zmq.Keeps.{Keeps, query-Keeps, int64-Keeps, message_of-Keeps, recv-Keeps}

-- The documented meaning of ZMQ_POLLIN: a socket with that bit delivers a whole message, and it does
-- so until it is read itself, whatever else is called. `parts` bounds the messages of the peers.
pub record Readiness (p : Platform) (parts : ℕ) : Type 1 where
  pub Ready : p.Socket → p.World → Type 0
  pub delivers : (sock : p.Socket) (w : p.World) → Ready sock w → FedAt p parts sock w
  pub polled :
      (socks : List p.Socket) (timeout : ℕ) (w : p.World) (n i : ℕ) (sock : p.Socket)
      → (p.zmq_poll socks timeout w).0.rc ≡ pos n
      → get_elem? socks i ≡ some sock
      → (p.zmq_poll socks timeout w).0.pollin i ≡ true
      → Ready sock (p.zmq_poll socks timeout w).1
  pub keeps_recv :
      (sock other : p.Socket) (flags : Flags) (w : p.World)
      → sock ≢ other
      → Ready other w
      → Ready other (p.zmq_msg_recv sock flags w).1
  pub keeps_send :
      (sock other : p.Socket) (m : p.Msg) (flags : Flags) (w : p.World)
      → Ready other w
      → Ready other (p.zmq_msg_send sock m flags w).1
  pub keeps_clock :
      (other : p.Socket) (w : p.World) → Ready other w → Ready other (p.gettimeofday w).1
  pub keeps_init :
      (other : p.Socket) (n : ℕ) (w : p.World)
      → Ready other w
      → Ready other (p.zmq_msg_init_size n w).1

module _ (p : Platform) (parts : ℕ) (readiness : Readiness p parts) (other : p.Socket) where
  open p use {Msg, Socket, World}

  -- Where the code returns and the other socket was ready, it still is.
  abbrev LeavesReady : {A : Type 0} → Cmd (Io p) A → Type 0
  LeavesReady = Keeps p (readiness.Ready other)

  clock_after-LeavesReady : (delay : ℕ) → LeavesReady (clock_after p delay)
  unfolding clock_after s_clock
  clock_after-LeavesReady delay s ready =
      Ensures-bind
        (Ensures-bind (query-Keeps p _ p.gettimeofday (readiness.keeps_clock other) s ready)
          λ sec t ready. int64-Keeps p _ _ t ready)
        λ now u ready. int64-Keeps p _ _ u ready

  update_expiry-LeavesReady :
      (identity : Msg) (ws : List (Worker Msg)) → LeavesReady (update_expiry p identity ws)
  unfolding update_expiry
  update_expiry-LeavesReady identity [] s ready = returned ready
  update_expiry-LeavesReady identity (it ∷ rest) s ready =
      elim (Bool-cases (Zmq.equal p it.identity identity)) [
        | inl hit ↦
            rw hit
              (Ensures-bind (clock_after-LeavesReady lifetime s ready) λ e t ready. returned ready)
        | inr miss ↦ rw miss (
            Ensures-bind (update_expiry-LeavesReady identity rest s ready)
              λ r t ready. returned ready)
      ]

  make_new_worker-LeavesReady :
      (identity : Msg) (server : Server p) → LeavesReady (make_new_worker p identity server)
  unfolding make_new_worker
  make_new_worker-LeavesReady identity server s ready =
      Ensures-bind (update_expiry-LeavesReady identity server.vec_work s ready)
        λ (found, ws) t ready. elim (Bool-cases found) [
          | inl old ↦ rw old (returned ready)
          | inr new ↦ rw new (
              Ensures-bind (message_of-Keeps p _ _ (readiness.keeps_init other _) t ready)
                λ m u ready.
                  Ensures-bind (clock_after-LeavesReady lifetime u ready)
                    λ e v ready. returned ready)
        ]

  recv_loop-LeavesReady :
      (fuel : ℕ) (sock : Socket) (flags : Flags) (got : List Msg)
      → sock ≢ other
      → LeavesReady (recv_loop p fuel sock flags got)
  unfolding recv_loop
  recv_loop-LeavesReady zero sock flags got n s ready = spent
  recv_loop-LeavesReady (suc fuel) sock flags got n s ready =
      Ensures-bind
        (recv-Keeps p _ sock flags (λ w. readiness.keeps_recv sock other flags w n) s ready)
        λ received t ready.
          by_part received t ready λ got'. recv_loop-LeavesReady fuel sock flags got' n
    where
      by_part :
          (received : Option Msg) (t : Io p)
          → readiness.Ready other t.world
          → ((got' : List Msg) → LeavesReady (recv_loop p fuel sock flags got'))
          → Ensures
              (λ _ u. readiness.Ready other u.world)
              ((elim received as (λ _. Cmd (Io p) (Bool × List Msg)) [
                | none ↦ pure (false, got)
                | some message ↦
                    let rest = recv_loop p fuel sock flags (add message got) in
                    if Zmq.more p message then rest else pure (true, add message got)
              ])
                t)
      by_part none t ready rest = returned ready
      by_part (some message) t ready rest = elim (Bool-cases (Zmq.more p message)) [
        | inl more ↦ rw more (rest (add message got) t ready)
        | inr last ↦ rw last (returned ready)
      ]

  pop-LeavesReady : (msg : List Msg) → LeavesReady (pop msg)
  unfolding pop
  pop-LeavesReady [] s ready = undef
  pop-LeavesReady (m ∷ msg) s ready = returned ready

  remove-LeavesReady : (msg : List Msg) → LeavesReady (remove msg)
  unfolding remove
  remove-LeavesReady [] s ready = undef
  remove-LeavesReady (m ∷ msg) s ready = returned ready

  -- The branch for the back socket leaves the other socket ready.
  pub backend-LeavesReady :
      (server : Server p) → server.back_sock ≢ other → LeavesReady (backend p parts server)
  unfolding backend Transfer.recv
  backend-LeavesReady server n s ready =
      Ensures-bind (recv_loop-LeavesReady parts server.back_sock no_flags [] n s ready)
        λ (_, received) t ready.
          Ensures-bind (pop-LeavesReady received t ready) λ (identity, msg) u ready.
            elim (Bool-cases (length msg == 1)) [
              | inl one ↦ rw one (
                  Ensures-bind (remove-LeavesReady msg u ready) λ (data_, _) w ready.
                    elim (Bool-cases (str_eq (p.zmq_msg_data data_) heartbeat_key)) [
                      | inl beat ↦ rw beat (make_new_worker-LeavesReady identity server w ready)
                      | inr other_data ↦ rw other_data (returned ready)
                    ])
              | inr more ↦ rw more (
                  Ensures-bind
                    (multipart_send-Keeps p _ server.front_sock no_flags msg
                      (readiness.keeps_send server.front_sock other) u ready)
                    λ _ _ ready. returned ready)
            ]
