-- ===== src/Platform.antt =====
-- What the sources call and do not contain: libzmq, the clock and the random numbers of the C
-- library. They are the parameter `Platform` of every definition that uses them; `World` is their
-- state. A C function that returns a status returns an `Rc` here, `failed` with the `zmq_errno` that
-- follows. zmq_msg_init and zmq_msg_close are documented to return 0 and are not modelled as calls.
use zmq_proxy.Cmd.{Run, Ensures, returned, threw, Cmd, returns, throws, undefined, error_t, pure}
use zmq_proxy.Prelude.{ℕ, ◌^◌, Bool, false, List, ◌≡◌, refl, Bytes, length, if◌then◌else◌, ltb}

pub data Rc (A : Type 0) : Type 0 where
  done : A → Rc A
  failed : ℕ → Rc A

-- The option bits of zmq_msg_send and zmq_msg_recv that the sources use.
pub record Flags : Type 0 where
  pub sndmore : Bool
  pub dontwait : Bool

-- The default argument `flags = 0`.
abbrev pub no_flags : Flags
no_flags = record { sndmore = false; dontwait = false }

-- `int`, where its sign matters: `negsuc n` is -(n + 1).
pub data Status : Type 0 where
  pos : ℕ → Status
  negsuc : ℕ → Status

-- What zmq_poll returns, the `zmq_errno` after it, and whether it sets ZMQ_POLLIN in the `revents`
-- of item `i`.
pub record Polled : Type 0 where
  pub rc : Status
  pub errno : ℕ
  pub pollin : ℕ → Bool

pub record Platform : Type 1 where
  pub World : Type 0
  -- `zmq_msg_t`, and the handle of a socket
  pub Msg : Type 0
  pub Socket : Type 0
  -- the value of EAGAIN
  pub eagain : ℕ
  -- the empty message that zmq_msg_init makes
  pub zmq_msg_init : Msg
  pub zmq_msg_init_size : ℕ → World → Rc Msg × World
  -- the `zmq_msg_size` bytes that stand at `zmq_msg_data`
  pub zmq_msg_data : Msg → Bytes
  -- `memcpy` of a block into the message's memory
  pub memcpy : Msg → Bytes → Msg
  -- the first message is overwritten with the content of the second
  pub zmq_msg_copy : Msg → Msg → World → Rc Msg × World
  pub zmq_msg_more : Msg → Bool
  pub zmq_msg_recv : Socket → Flags → World → Rc Msg × World
  pub zmq_msg_send : Socket → Msg → Flags → World → Rc (Unit {0}) × World
  -- the sockets polled, each for ZMQ_POLLIN, and the timeout in milliseconds
  pub zmq_poll : List Socket → ℕ → World → Polled × World
  -- the seconds that gettimeofday reports
  pub gettimeofday : World → ℕ × World
  pub rand : World → ℕ × World

-- The documented behaviour of messages that the code relies on.
pub record MessageLaws (p : Platform) : Type 0 where
  pub size_of_init :
      (n : ℕ) (w w' : p.World) (m : p.Msg)
      → p.zmq_msg_init_size n w ≡ (done m, w')
      → length (p.zmq_msg_data m) ≡ n
  pub data_of_memcpy :
      (m : p.Msg) (b : Bytes)
      → length (p.zmq_msg_data m) ≡ length b
      → p.zmq_msg_data (p.memcpy m b) ≡ b
  pub data_of_copy :
      (m source copied : p.Msg) (w w' : p.World)
      → p.zmq_msg_copy m source w ≡ (done copied, w')
      → p.zmq_msg_data copied ≡ p.zmq_msg_data source

-- A platform on which memory does not run out.
pub record Memory (p : Platform) : Type 0 where
  pub allocates :
      (n : ℕ) (w : p.World)
      → (m : p.Msg) × (w' : p.World) × (p.zmq_msg_init_size n w ≡ (done m, w'))
  pub copies :
      (m source : p.Msg) (w : p.World)
      → (m' : p.Msg) × (w' : p.World) × (p.zmq_msg_copy m source w ≡ (done m', w'))

-- A platform on which memory does not run out and every frame that is sent is accepted.
pub record Reliable (p : Platform) : Type 0 where
  pub memory : Memory p
  pub sends :
      (sock : p.Socket) (m : p.Msg) (flags : Flags) (w : p.World)
      → (w' : p.World) × (p.zmq_msg_send sock m flags w ≡ (done tt, w'))

-- One call of zmq_msg_send that was accepted: where, the bytes, and the ZMQ_SNDMORE bit.
pub record Frame (Socket : Type 0) : Type 0 where
  pub sock : Socket
  pub bytes : Bytes
  pub sndmore : Bool

-- The state of a run: the world, and the accepted frames, oldest first.
pub record Io (p : Platform) : Type 0 where
  pub world : p.World
  pub sent : List (Frame p.Socket)

module _ (p : Platform) where
  abbrev pub resume : {A : Type 0} → Io p → Rc A × p.World → Run (Io p) A
  resume s (done a, w) = returns a (record s { world = w })
  resume s (failed e, w) = throws (error_t e) (record s { world = w })

  -- A call whose failure the caller turns into `throw error_t ()`.
  unfoldable pub checked : {A : Type 0} → (p.World → Rc A × p.World) → Cmd (Io p) A
  checked f s = resume s (f s.world)

  -- A call that cannot fail.
  unfoldable pub query : {A : Type 0} → (p.World → A × p.World) → Cmd (Io p) A
  query f s = let (a, w) = f s.world in returns a (record s { world = w })

  -- The value of an `int64_t` expression whose mathematical value is `n`: overflow is undefined.
  unfoldable pub int64 : ℕ → Cmd (Io p) ℕ
  int64 n = if ltb n (2 ^ 63) then pure n else λ _. undefined

  -- A checked call that returns has had the result that it passes on.
  pub checked-Ensures :
      {A : Type 0} {P : A → Io p → Type 0} (f : p.World → Rc A × p.World) (s : Io p)
      → ((a : A) (w : p.World) → f s.world ≡ (done a, w) → P a (record s { world = w }))
      → Ensures P (checked f s)
  unfolding checked
  checked-Ensures {A} {P} f s keep = result (f s.world) refl
    where
      result : (r : Rc A × p.World) → f s.world ≡ r → Ensures P (checked f s)
      result (done a, w) e = rw (e, checked) (returned (keep a w e))
      result (failed n, w) e = rw (e, checked) threw
