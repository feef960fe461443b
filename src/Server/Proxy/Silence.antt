-- ===== src/Server/Proxy/Silence.antt =====
-- src/zmq_server.cc: the parts of `Server::Start` between its inputs are silent.
use zmq_proxy.Cmd.{Ensures, undefined, Cmd, returned, undef, Ensures-bind, ◌>>=◌, pure}
use zmq_proxy.Multipart.Content.{pushmem, addstr}
use zmq_proxy.Multipart.Deque.{pop}
use zmq_proxy.Multipart.Transfer
use zmq_proxy.Multipart.Keeps.{multipart_send-Keeps}
use zmq_proxy.Platform.{Frame, Platform, Flags, Io, no_flags}
use zmq_proxy.Prelude.{
  ℕ, ◌≡◌, ◌<◌, false, arith, ◌%◌, Bool-cases, inl, inr, Option, none, some, List, [], ◌∷◌, Bytes,
  length, get_elem?, ◌==◌,
}
use zmq_proxy.Multipart.Wire.{Delivers, recv-Delivers}
use zmq_proxy.Server.Proxy.{backend, frontend, refuse, dispatch, no_worker_text}
use zmq_proxy.Server.Registry.{get_worker}
use zmq_proxy.Server.State.{Worker, Server}
use zmq_proxy.Zmq
use zmq_proxy.Zmq.Keeps.{Keeps, query-Keeps, checked-Keeps, message_of-Keeps}
use zmq_proxy.Zmq.Silent.{no_calls, Silent, inits, copies, sends, rands}

module _ (p : Platform) (w : p.World) where
  open p use {Msg, Socket}

  -- Where the code returns from a world that silent calls lead to from `w`, the new one is such.
  abbrev pub IsSilent : {A : Type 0} → Cmd (Io p) A → Type 0
  IsSilent = Keeps p (Silent p w)

  pub message_of-IsSilent : (b : Bytes) → IsSilent (Zmq.message_of p b)
  message_of-IsSilent b = message_of-Keeps p _ b λ v k. inits (length b) k

  pub pushmem-IsSilent : (b : Bytes) (parts : List Msg) → IsSilent (pushmem p b parts)
  unfolding pushmem
  pushmem-IsSilent b parts s k = Ensures-bind (message_of-IsSilent b s k) λ m t k. returned k

  pub addstr-IsSilent : (b : Bytes) (parts : List Msg) → IsSilent (addstr p b parts)
  unfolding addstr
  addstr-IsSilent b parts s k = Ensures-bind (message_of-IsSilent b s k) λ m t k. returned k

  pub send-IsSilent :
      (sock : Socket) (flags : Flags) (msg : List Msg) → IsSilent (Transfer.send p sock flags msg)
  send-IsSilent sock flags msg = multipart_send-Keeps p _ sock flags msg λ m f v k. sends sock m f k

  pub get_worker-IsSilent :
      (worker_id : Msg) (server : Server p) → IsSilent (get_worker p worker_id server)
  unfolding get_worker Zmq.copy
  get_worker-IsSilent worker_id server s k = elim (Bool-cases (length server.vec_work == 0)) [
    | inl none_left ↦ rw none_left (returned k)
    | inr some_left ↦ rw some_left (
        Ensures-bind (query-Keeps p _ p.rand (λ v k. rands k) s k)
          λ r t k. by_place (get_elem? server.vec_work (r % length server.vec_work)) t k)
  ]
    where
      by_place :
          (place : Option (Worker Msg))
          → IsSilent (elim place as (λ _. Cmd (Io p) (Option Msg)) [
            | none ↦ λ _. undefined
            | some found ↦ Zmq.copy p worker_id found.identity >>= λ copied. pure (some copied)
          ])
      by_place none t k = undef
      by_place (some found) t k =
          Ensures-bind
            (checked-Keeps p (Silent p w) (p.zmq_msg_copy worker_id found.identity)
              (λ v k. copies worker_id found.identity k) t k)
            λ m u k. returned k

  pub dispatch-IsSilent :
      (server : Server p) (msg : List Msg) (id : Msg) → IsSilent (dispatch p server msg id)
  unfolding dispatch
  dispatch-IsSilent server msg id s k =
      Ensures-bind (pushmem-IsSilent (p.zmq_msg_data id) msg s k) λ out t k.
        Ensures-bind (send-IsSilent server.back_sock no_flags out t k) λ _ u k. returned k

  pub refuse-IsSilent : (server : Server p) (msg : List Msg) → IsSilent (refuse p server msg)
  unfolding refuse pop
  refuse-IsSilent server [] s k = undef
  refuse-IsSilent server (client ∷ rest) s k =
      Ensures-bind (addstr-IsSilent [] (client ∷ []) s k) λ a t k.
        Ensures-bind (addstr-IsSilent no_worker_text a t k)
          λ b u k. Ensures-bind (send-IsSilent server.front_sock no_flags b u k) λ _ v k. returned k

module _ (p : Platform) (parts : ℕ) (server : Server p) where
  open p use {Msg, World}

  -- Behind the receipt of a message that is relayed, the branch for the back socket is silent.
  pub backend-IsSilent_behind :
      {w w' : World} {identity : Msg} {msg : List Msg} (sent : List (Frame p.Socket))
      → Delivers p server.back_sock no_flags w (identity ∷ msg) w'
      → length msg < parts
      → (length msg == 1) ≡ false
      → Ensures
          (λ _ t. Silent p w' t.world)
          (backend p parts server (record { world = w; sent = sent }))
  unfolding backend pop
  backend-IsSilent_behind {w'} {msg} sent d h other =
      rw (recv-Delivers p parts sent d (omega arith), other)
        (Ensures-bind (send-IsSilent p w' server.front_sock no_flags msg _ no_calls)
          λ _ t k. returned k)

  -- Behind the receipt of a message, the branch for the front socket is silent.
  pub frontend-IsSilent_behind :
      {w w' : World} {client : Msg} {rest : List Msg} (sent : List (Frame p.Socket))
      → Delivers p server.front_sock no_flags w (client ∷ rest) w'
      → length rest < parts
      → Ensures
          (λ _ t. Silent p w' t.world)
          (frontend p parts server (record { world = w; sent = sent }))
  unfolding frontend
  frontend-IsSilent_behind {w'} {client} {rest} sent d h =
      rw (recv-Delivers p parts sent d (omega arith)) (
        Ensures-bind (get_worker-IsSilent p w' p.zmq_msg_init server _ no_calls)
          λ ret t k. answer ret t k)
    where
      answer :
          (ret : Option Msg)
          → IsSilent p w' (elim ret as (λ _. Cmd (Io p) (Unit {0})) [
            | none ↦ refuse p server (client ∷ rest)
            | some worker_id ↦ dispatch p server (client ∷ rest) worker_id
          ])
      answer none = refuse-IsSilent p w' server (client ∷ rest)
      answer (some worker_id) = dispatch-IsSilent p w' server (client ∷ rest) worker_id
