-- ===== src/Example.antt =====
-- A concrete platform: the frames that wait on the two sockets, the clock readings, the random
-- numbers and the answers of zmq_poll are lists in the world. It meets the laws.
pub mod Config
pub mod Disk
pub mod Busy
pub mod Mailbox
use zmq_proxy.Server.Proxy.Steps.{Fed, Steady}
use zmq_proxy.Multipart.Wire.{last, next}
use zmq_proxy.Prelude.{codes, Bool-cases, inl, inr, arith}
use zmq_proxy.Platform.{Platform, MessageLaws, Memory, Reliable, Rc, done, failed, pos, Polled, Io}
use zmq_proxy.Prelude.{
  ℕ, zero, suc, ◌≡◌, refl, sym, ap, ◌∙◌, Bool, true, false, List, [], ◌∷◌, Bytes, length,
  if◌then◌else◌, ◌==◌,
}
use zmq_proxy.Server.State.{Worker, Server}

pub record Part : Type 0 where
  pub bytes : Bytes
  pub more : Bool

pub record Script : Type 0 where
  pub front : List Part
  pub back : List Part
  pub seconds : List ℕ
  pub rands : List ℕ
  pub polls : List (Bool × Bool)
  pub bound : List (ℕ × Bytes)
  pub made : ℕ

abbrev pub front_socket : ℕ
front_socket = 0

abbrev pub back_socket : ℕ
back_socket = 1

abbrev pub zeros : ℕ → Bytes
zeros zero = []
zeros (suc n) = 0 ∷ zeros n

abbrev pub part_of : Bytes → Part
part_of b = record { bytes = b; more = false }

-- 11 is EAGAIN.
abbrev front_recv : List Part → Script → Rc Part × Script
front_recv [] w = (failed 11, w)
front_recv (m ∷ ms) w = (done m, record w { front = ms })

abbrev back_recv : List Part → Script → Rc Part × Script
back_recv [] w = (failed 11, w)
back_recv (m ∷ ms) w = (done m, record w { back = ms })

abbrev next_second : List ℕ → Script → ℕ × Script
next_second [] w = (0, w)
next_second (t ∷ ts) w = (t, record w { seconds = ts })

abbrev next_rand : List ℕ → Script → ℕ × Script
next_rand [] w = (0, w)
next_rand (r ∷ rs) w = (r, record w { rands = rs })

abbrev bits : Bool × Bool → ℕ → Bool
bits (back, front) zero = back
bits (back, front) (suc _) = front

abbrev next_poll : List (Bool × Bool) → Script → Polled × Script
next_poll [] w = (record { rc = pos 0; errno = 0; pollin = λ _. false }, w)
next_poll (b ∷ bs) w = (record { rc = pos 1; errno = 0; pollin = bits b }, record w { polls = bs })

abbrev pub scripted : Platform
scripted = record {
  World = Script;
  Msg = Part;
  Socket = ℕ;
  eagain = 11;
  zmq_msg_init = part_of [];
  zmq_msg_init_size = λ n w. (done (part_of (zeros n)), w);
  zmq_msg_data = λ m. m.bytes;
  memcpy = λ m b. record m { bytes = b };
  zmq_msg_copy = λ m source w. (done source, w);
  zmq_msg_more = λ m. m.more;
  zmq_msg_recv =
      λ sock flags w. if sock == front_socket then front_recv w.front w else back_recv w.back w;
  zmq_msg_send = λ sock m flags w. (done tt, w);
  zmq_poll = λ socks timeout w. next_poll w.polls w;
  gettimeofday = λ w. next_second w.seconds w;
  rand = λ w. next_rand w.rands w;
}

abbrev bytes_of : Rc Part × Script → Bytes
bytes_of (done m, w) = m.bytes
bytes_of (failed n, w) = []

pub length-zeros : (n : ℕ) → length (zeros n) ≡ n
length-zeros zero = refl
length-zeros (suc n) = ap suc (length-zeros n)

pub scripted-laws : MessageLaws scripted
scripted-laws = record {
  size_of_init = λ n w w' m e. sym (ap (λ r. length (bytes_of r)) e) ∙ length-zeros n;
  data_of_memcpy = λ m b e. refl;
  data_of_copy = λ m source copied w w' e. sym (ap bytes_of e);
}

pub scripted-Memory : Memory scripted
scripted-Memory = record {
  allocates = λ n w. (part_of (zeros n), w, refl);
  copies = λ m source w. (source, w, refl);
}

pub scripted-Reliable : Reliable scripted
scripted-Reliable = record { memory = scripted-Memory; sends = λ sock m flags w. (w, refl) }

abbrev pub final : Bytes → Part
final b = record { bytes = b; more = false }

abbrev pub followed : Bytes → Part
followed b = record { bytes = b; more = true }

-- Nothing waits, and the clock stands at 10 seconds.
abbrev pub quiet : Script
quiet = record {
  front = [];
  back = [];
  seconds = 10 ∷ 10 ∷ 10 ∷ 10 ∷ 10 ∷ 10 ∷ [];
  rands = 5 ∷ [];
  polls = [];
  bound = [];
  made = 0;
}

abbrev pub io : Script → Io scripted
io w = record { world = w; sent = [] }

abbrev pub worker : Bytes → ℕ → Worker Part
worker id expiry = record { identity = part_of id; expiry = expiry }

abbrev pub server_with : List (Worker Part) → Server scripted
server_with workers = record {
  running = true;
  front_sock = front_socket;
  back_sock = back_socket;
  vec_work = workers;
}

-- The same platform with a clock that stands at `t` seconds.
abbrev pub fixed : ℕ → Platform
fixed t = record scripted { gettimeofday = λ w. (t, w) }

pub fixed-laws : (t : ℕ) → MessageLaws (fixed t)
fixed-laws t = record {
  size_of_init = scripted-laws.size_of_init;
  data_of_memcpy = scripted-laws.data_of_memcpy;
  data_of_copy = scripted-laws.data_of_copy;
}

pub fixed-Memory : (t : ℕ) → Memory (fixed t)
fixed-Memory t = record { allocates = scripted-Memory.allocates; copies = scripted-Memory.copies }

pub fixed-Reliable : (t : ℕ) → Reliable (fixed t)
fixed-Reliable t = record { memory = fixed-Memory t; sends = scripted-Reliable.sends }

abbrev pub fixed_io : (t : ℕ) → Io (fixed t)
fixed_io t = record { world = quiet; sent = [] }

abbrev pub fixed_server : (t : ℕ) → List (Worker Part) → Server (fixed t)
fixed_server t workers = record {
  running = true;
  front_sock = front_socket;
  back_sock = back_socket;
  vec_work = workers;
}
