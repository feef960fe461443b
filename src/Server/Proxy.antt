-- ===== src/Server/Proxy.antt =====
-- src/zmq_server.cc: `Server::Start`. A round is one run of the body of its `while`; the branches of
-- the body are functions of their own. `parts` is the fuel for the receipt of one message.
pub mod Invariant
pub mod Sends
pub mod Forward
pub mod Registers
pub mod Polling
pub mod Steps
pub mod Total
pub mod Errors
pub mod Workers
pub mod Silence
pub mod Ready
pub mod Heartbeats
use zmq_proxy.Cmd.{Cmd, pure, ◌>>=◌, ◌>>◌}
use zmq_proxy.Multipart.Content.{pushmem, addstr}
use zmq_proxy.Multipart.Deque.{add, pop, remove}
use zmq_proxy.Multipart.Transfer
use zmq_proxy.Platform.{Platform, Status, negsuc, no_flags, Io}
use zmq_proxy.Prelude.{
  ℕ, zero, suc, Bool, true, false, none, some, List, [], ◌∷◌, Bytes, length, codes, str_eq,
  if◌then◌else◌, ltb, ◌==◌,
}
use zmq_proxy.Server.Registry.{make_new_worker, get_worker, check_worker}
use zmq_proxy.Server.State.{heartbeat_interval, heartbeat_key, Worker, Server, s_clock, clock_after}
use zmq_proxy.Zmq

-- The variables of `Start`: the server, whether ZMQ_POLLIN is set in the `revents` of the two poll
-- items (the back socket first), and the time after which heartbeats are sent.
pub record Loop (p : Platform) : Type 0 where
  pub server : Server p
  pub back_in : Bool
  pub front_in : Bool
  pub heartbeat_at : ℕ

pub data Flow (p : Platform) : Type 0 where
  continues : Loop p → Flow p
  breaks : Loop p → Flow p

abbrev pub no_worker_text : Bytes
no_worker_text = codes "not have woker!"

abbrev pub is_minus_one : Status → Bool
is_minus_one (negsuc zero) = true
is_minus_one _ = false

module _ (p : Platform) where
  open p use {Msg, Socket}

  -- A message from the back socket: a heartbeat or a reply.
  unfoldable pub backend : ℕ → Server p → Cmd (Io p) (Server p)
  backend parts server = do
    (_, received) ← Transfer.recv p parts server.back_sock no_flags
    (identity, msg) ← pop received
    if length msg == 1
        then (do
          (data_, _) ← remove msg
          if str_eq (p.zmq_msg_data data_) heartbeat_key
              then make_new_worker p identity server
              else pure server)
        else (Transfer.send p server.front_sock no_flags msg >> pure server)

  -- The reply to a client when there is no worker.
  unfoldable pub refuse : Server p → List Msg → Cmd (Io p) (Unit {0})
  refuse server msg = do
    (client, _) ← pop msg
    with_empty ← addstr p [] (add client [])
    error_msg ← addstr p no_worker_text with_empty
    Transfer.send p server.front_sock no_flags error_msg
    pure tt

  -- The message goes to the worker, whose identity is put in front.
  unfoldable pub dispatch : Server p → List Msg → Msg → Cmd (Io p) (Unit {0})
  dispatch server msg worker_id = do
    addressed ← pushmem p (p.zmq_msg_data worker_id) msg
    Transfer.send p server.back_sock no_flags addressed
    pure tt

  -- A message from the front socket.
  unfoldable pub frontend : ℕ → Server p → Cmd (Io p) (Unit {0})
  frontend parts server = do
    (_, msg) ← Transfer.recv p parts server.front_sock no_flags
    ret ← get_worker p p.zmq_msg_init server
    elim ret [ none ↦ refuse server msg | some worker_id ↦ dispatch server msg worker_id ]

  -- The loop that sends a heartbeat to each worker.
  unfoldable pub heartbeat_loop : Socket → List (Worker Msg) → Cmd (Io p) (Unit {0})
  heartbeat_loop back_sock [] = pure tt
  heartbeat_loop back_sock (itor ∷ rest) = do
    addressed ← pushmem p (p.zmq_msg_data itor.identity) []
    heartbeat_msg ← addstr p heartbeat_key addressed
    Transfer.send p back_sock no_flags heartbeat_msg
    heartbeat_loop back_sock rest

  -- Heartbeats, when they are due: the new `heartbeat_at`.
  unfoldable pub heartbeat : Server p → ℕ → Cmd (Io p) ℕ
  heartbeat server heartbeat_at = do
    time ← s_clock p
    if ltb heartbeat_at time
        then (heartbeat_loop server.back_sock server.vec_work >> clock_after p heartbeat_interval)
        else pure heartbeat_at

  -- The poll items in use: the front socket is polled only while there are workers.
  abbrev pub items : Server p → List Socket
  items server =
      if length server.vec_work == 0
      then server.back_sock ∷ []
      else server.back_sock ∷ server.front_sock ∷ []

  -- zmq_poll writes the `revents` of the items that it is given, and of no other.
  abbrev pub revents : Server p → (ℕ → Bool) → ℕ → Bool → Bool
  revents server pollin i old = if ltb i (length (items server)) then pollin i else old

  -- The poll items behind a poll that set the bits `pollin`.
  abbrev pub after_poll : Loop p → (ℕ → Bool) → Loop p
  after_poll l pollin = record l {
    back_in = revents l.server pollin 0 l.back_in;
    front_in = revents l.server pollin 1 l.front_in;
  }

  -- The body behind the poll.
  unfoldable pub serve : ℕ → Loop p → Cmd (Io p) (Loop p)
  serve parts l = do
    server ← if l.back_in then backend parts l.server else pure l.server
    if l.front_in then frontend parts server else pure tt
    heartbeat_at ← heartbeat server l.heartbeat_at
    checked ← check_worker p server
    pure (record l { server = checked; heartbeat_at = heartbeat_at })

  unfoldable pub round : ℕ → Loop p → Cmd (Io p) (Flow p)
  round parts l = do
    (rc, pollin) ← Zmq.poll p (items l.server) heartbeat_interval
    if is_minus_one rc
        then pure (breaks (after_poll l pollin))
        else (do served ← serve parts (after_poll l pollin); pure (continues served))

  -- `while (running_)`, for so many rounds.
  unfoldable pub rounds : ℕ → ℕ → Loop p → Cmd (Io p) (Flow p)
  rounds parts zero l = pure (continues l)
  rounds parts (suc n) l =
      if l.server.running
      then (do
        flow ← round parts l
        elim flow [ breaks l' ↦ pure (breaks l') | continues l' ↦ rounds parts n l' ])
      else pure (breaks l)

  -- `Start`, up to so many rounds of its loop.
  unfoldable pub start : ℕ → ℕ → Server p → Cmd (Io p) (Flow p)
  start parts n server = do
    heartbeat_at ← clock_after p heartbeat_interval
    rounds parts n (record {
      server = record server { running = true };
      back_in = false;
      front_in = false;
      heartbeat_at = heartbeat_at;
    })
