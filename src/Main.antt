-- ===== src/Main.antt =====
-- src/main.cc: `main`. Logging is left out, and so is `g_pContext`, which nothing reads.
pub mod Ports
pub mod Outcome
pub mod Bound
pub mod Configured
use zmq_proxy.Cmd.{Cmd, undefined, pure, ◌>>=◌, ◌>>◌}
use zmq_proxy.Host.{Host}
use zmq_proxy.Ini.Load.{Dst, uninitialised, number, pointer, within, ini_load, ini_sget}
use zmq_proxy.Platform.{Platform, Status, Io, checked, query}
use zmq_proxy.Prelude.{ℕ, ◌-◌, not, Option, none, some, [], Bytes, codes, length, if◌then◌else◌}
use zmq_proxy.Server.Proxy.{Flow, start}
use zmq_proxy.Server.Setup.{new_server}

-- `return -1`, or how far `Start` came.
pub data Exit (p : Platform) : Type 0 where
  minus_one : Exit p
  started : Flow p → Exit p

abbrev pub config_file : Bytes
config_file = codes "/etc/smartpark/SmartPark_PublicSetting.ini"

module _ (p : Platform) (h : Host p) where
  -- `zmq::context_t ctx`
  unfoldable pub new_context : Cmd (Io p) h.Context
  new_context = checked p h.zmq_ctx_new

  -- `ini_sget (config, "ProxyServer", key, "%d", &port)`; the `end` of the block is its last byte.
  unfoldable pub sget_port : Bytes → Bytes → Cmd (Io p) (Option Dst)
  sget_port config key = do
    ((found, port), _) ← within p config (
        ini_sget (length config - 1) (some (codes "ProxyServer")) key (some h.sscanf_d)
          uninitialised)
    pure (if found then some port else none)

  -- The value of a port variable: reading one that is not initialised is undefined.
  unfoldable pub read_port : Dst → Cmd (Io p) Status
  read_port (number n) = pure n
  read_port _ = λ _. undefined

  -- `main`, from `zmq::context_t ctx` on.
  unfoldable pub run_server : ℕ → ℕ → Dst → Dst → Cmd (Io p) (Exit p)
  run_server parts n front_port back_port = do
    ctx ← new_context
    now ← query p h.time
    query p (h.srand now)
    front ← read_port front_port
    back ← read_port back_port
    server ← new_server p h ctx front back []
    flow ← start p parts n server
    pure (started flow)

  -- `if (!...) return -1;`
  unfoldable pub or_minus_one :
      {A : Type 0} → Option A → (A → Cmd (Io p) (Exit p)) → Cmd (Io p) (Exit p)
  or_minus_one none next = pure minus_one
  or_minus_one (some a) next = next a

  -- `main`, up to so many rounds of `Start`.
  unfoldable pub main : ℕ → ℕ → Cmd (Io p) (Exit p)
  main parts n = do
    loaded ← ini_load p h config_file
    or_minus_one loaded λ config. do
      found_front ← sget_port config (codes "front_port")
      or_minus_one found_front λ front_port. do
        found_back ← sget_port config (codes "back_port")
        or_minus_one found_back λ back_port. run_server parts n front_port back_port
