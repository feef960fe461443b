-- ===== src/Example/Busy.antt =====
-- Platforms whose peers keep sending: every message on both sockets is "w1" and "HEARTBEAT", both
-- sockets are always readable, and the clock stands at 10 seconds.
use zmq_proxy.Multipart.Outcomes.{Yields}
use zmq_proxy.Server.Proxy.Steps.{Fed, Steady}
use zmq_proxy.Multipart.Wire.{last, next}
use zmq_proxy.Prelude.{codes, Bool-cases, inl, inr, arith}
use zmq_proxy.Platform.{Platform, MessageLaws, Memory, Reliable, Rc, done, failed, Flags, pos}
use zmq_proxy.Prelude.{ℕ, refl, true, [], ◌∷◌, if◌then◌else◌, ◌==◌}
use zmq_proxy.Example.{Part, Script, fixed, scripted-laws, scripted-Memory, followed, final}

abbrev heartbeat_recv : Script → Rc Part × Script
heartbeat_recv w =
    if w.made == 0
    then (done (followed (codes "w1")), record w { made = 1 })
    else (done (final (codes "HEARTBEAT")), record w { made = 0 })

-- What zmq_msg_send does.
abbrev Sends : Type 0
Sends = ℕ → Part → Flags → Script → Rc (Unit {0}) × Script

abbrev accept : Sends
accept sock m flags w = (done tt, w)

-- 11 is EAGAIN.
abbrev refuse : Sends
refuse sock m flags w = (failed 11, w)

-- The last frame of a message is not accepted.
abbrev accept_front : Sends
accept_front sock m flags w = if flags.sndmore then (done tt, w) else (failed 11, w)

module _ (send : Sends) where
  abbrev chatty : Platform
  chatty = record (fixed 10) {
    zmq_msg_recv = λ sock flags w. heartbeat_recv w;
    zmq_msg_send = send;
    zmq_poll = λ socks timeout w. (record { rc = pos 2; errno = 0; pollin = λ _. true }, w);
  }

  chatty-laws : MessageLaws chatty
  chatty-laws = record {
    size_of_init = scripted-laws.size_of_init;
    data_of_memcpy = scripted-laws.data_of_memcpy;
    data_of_copy = scripted-laws.data_of_copy;
  }

  chatty-Memory : Memory chatty
  chatty-Memory = record { allocates = scripted-Memory.allocates; copies = scripted-Memory.copies }

  chatty-Steady : Steady chatty 2
  chatty-Steady = record { clock_fits = λ w. omega arith; polls = λ socks timeout w. (2, refl) }

  chatty-Fed : (sock : ℕ) → Fed chatty 2 sock
  chatty-Fed sock w = elim (Bool-cases (w.made == 0)) [
    | inl start_of_message ↦ (
      followed (codes "w1"),
      final (codes "HEARTBEAT") ∷ [],
      record w { made = 0 },
      next {v = record w { made = 1 }} (rw start_of_message refl) refl (last refl refl),
      omega arith,
    )
    | inr rest ↦ (
      final (codes "HEARTBEAT"),
      [],
      record w { made = 0 },
      last (rw rest refl) refl,
      omega arith,
    )
  ]

-- Every frame is accepted.
abbrev pub busy : Platform
busy = chatty accept

pub busy-laws : MessageLaws busy
busy-laws = chatty-laws accept

pub busy-Memory : Memory busy
busy-Memory = chatty-Memory accept

pub busy-Reliable : Reliable busy
busy-Reliable = record { memory = busy-Memory; sends = λ sock m flags w. (w, refl) }

pub busy-Yields : Yields busy
busy-Yields sock m flags w = (w, inl refl)

pub busy-Steady : Steady busy 2
busy-Steady = chatty-Steady accept

pub busy-Fed : (sock : ℕ) → Fed busy 2 sock
busy-Fed = chatty-Fed accept

-- No message is accepted to its end.
abbrev pub choosy : Platform
choosy = chatty accept_front

pub choosy-laws : MessageLaws choosy
choosy-laws = chatty-laws accept_front

pub choosy-Memory : Memory choosy
choosy-Memory = chatty-Memory accept_front

pub choosy-Yields : Yields choosy
choosy-Yields sock m flags w = elim (Bool-cases flags.sndmore) [
  | inl more ↦ (w, inl (rw more refl))
  | inr last_one ↦ (w, inr (rw last_one refl))
]

pub choosy-Steady : Steady choosy 2
choosy-Steady = chatty-Steady accept_front

pub choosy-Fed : (sock : ℕ) → Fed choosy 2 sock
choosy-Fed = chatty-Fed accept_front
