-- ===== src/Server/State.antt =====
-- src/zmq_server.h and the head of src/zmq_server.cc: the data of the server, the constants and the
-- clock. Times are milliseconds; an `int64_t` is its value, which is never negative here.
use zmq_proxy.Cmd.{Cmd, ◌>>=◌}
use zmq_proxy.Platform.{Platform, Io, query, int64}
use zmq_proxy.Prelude.{ℕ, ◌+◌, ◌*◌, Bool, List, Bytes, codes}

abbrev pub heartbeat_liveness : ℕ
heartbeat_liveness = 3

abbrev pub heartbeat_interval : ℕ
heartbeat_interval = 1000

abbrev pub heartbeat_key : Bytes
heartbeat_key = codes "HEARTBEAT"

-- The time that a worker is kept after its last heartbeat.
abbrev pub lifetime : ℕ
lifetime = heartbeat_interval * heartbeat_liveness

pub record Worker (Msg : Type 0) : Type 0 where
  pub identity : Msg
  pub expiry : ℕ

-- The members of `Server` that `Start` uses.
pub record Server (p : Platform) : Type 0 where
  pub running : Bool
  pub front_sock : p.Socket
  pub back_sock : p.Socket
  pub vec_work : List (Worker p.Msg)

module _ (p : Platform) where
  -- `s_clock`: whole seconds, in milliseconds.
  unfoldable pub s_clock : Cmd (Io p) ℕ
  s_clock = do tv_sec ← query p (p.gettimeofday); int64 p (tv_sec * 1000)

  -- `s_clock () + delay`
  unfoldable pub clock_after : ℕ → Cmd (Io p) ℕ
  clock_after delay = do now ← s_clock; int64 p (now + delay)
