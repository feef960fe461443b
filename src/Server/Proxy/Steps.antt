-- ===== src/Server/Proxy/Steps.antt =====
-- src/zmq_server.cc: the surroundings in which `Server::Start` runs without failure: peers that keep
-- sending, and a platform that is in order.
use zmq_proxy.Multipart.Wire.{Delivers}
use zmq_proxy.Platform.{Platform, no_flags, pos}
use zmq_proxy.Prelude.{ℕ, ◌<◌, ◌≡◌, List, ◌∷◌, length}
use zmq_proxy.Server.Clock.{ClockFits}

module _ (p : Platform) (parts : ℕ) where
  open p use {Msg, Socket, World}

  -- In this world the socket delivers a whole message of at most `parts` parts.
  abbrev pub FedAt : Socket → World → Type 0
  FedAt sock w =
      (first : Msg) × (rest : List Msg) × (w' : World) × Delivers p sock no_flags w (first ∷ rest)
        w'
      × (length rest < parts)

  -- Whenever it is asked, the socket delivers a whole message of at most `parts` parts.
  abbrev pub Fed : Socket → Type 0
  Fed sock = (w : World) → FedAt sock w

  -- The clock stays in the range of `int64_t`, and zmq_poll does not fail.
  pub record Steady : Type 0 where
    pub clock_fits : ClockFits p
    pub polls :
        (socks : List Socket) (timeout : ℕ) (w : World)
        → (n : ℕ) × ((p.zmq_poll socks timeout w).0.rc ≡ pos n)
