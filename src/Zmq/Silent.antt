-- ===== src/Zmq/Silent.antt =====
-- src/zmq.hpp: the calls that take no input: they receive nothing, do not poll and do
-- not read the clock.
use zmq_proxy.Platform.{Platform, Flags}
use zmq_proxy.Prelude.{ℕ}

-- From the world `w` some such calls lead to another.
pub data Silent (p : Platform) (w : p.World) : p.World → Type 0 where
  no_calls : Silent p w w
  inits : {v : p.World} (n : ℕ) → Silent p w v → Silent p w (p.zmq_msg_init_size n v).1
  copies :
      {v : p.World} (m source : p.Msg) → Silent p w v → Silent p w (p.zmq_msg_copy m source v).1
  sends :
      {v : p.World} (sock : p.Socket) (m : p.Msg) (flags : Flags)
      → Silent p w v
      → Silent p w (p.zmq_msg_send sock m flags v).1
  rands : {v : p.World} → Silent p w v → Silent p w (p.rand v).1

pub Silent-trans : {p : Platform} {u v w : p.World} → Silent p u v → Silent p v w → Silent p u w
Silent-trans a no_calls = a
Silent-trans a (inits n b) = inits n (Silent-trans a b)
Silent-trans a (copies m source b) = copies m source (Silent-trans a b)
Silent-trans a (sends sock m flags b) = sends sock m flags (Silent-trans a b)
Silent-trans a (rands b) = rands (Silent-trans a b)
