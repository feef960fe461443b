-- ===== src/Example/Mailbox.antt =====
-- A platform on which a message waits in a box until it is read, and zmq_poll looks into the boxes:
-- ZMQ_POLLIN has its documented meaning, for messages of at most three parts.
use zmq_proxy.Example.{Part, part_of, zeros, length-zeros}
use zmq_proxy.Multipart.Outcomes.{Yields}
use zmq_proxy.Multipart.Wire.{last, next}
use zmq_proxy.Platform.{Platform, MessageLaws, Memory, Rc, done, failed, pos}
use zmq_proxy.Prelude.{
  ℕ, zero, suc, ◌≡◌, ◌≢◌, refl, sym, ap, ◌∙◌, subst, Bool, true, false, Option, none, some, List,
  [], ◌∷◌, Bytes, length, get_elem?, if◌then◌else◌, arith, Bool-cases, inl, inr,
}
use zmq_proxy.Server.Proxy.Ready.{Readiness}
use zmq_proxy.Server.Proxy.Steps.{FedAt, Steady}

pub data Door : Type 0 where
  front_door back_door : Door

pub record Boxes : Type 0 where
  pub front : List Part
  pub back : List Part

abbrev box : Door → Boxes → List Part
box front_door w = w.front
box back_door w = w.back

abbrev put : Door → List Part → Boxes → Boxes
put front_door rest w = record w { front = rest }
put back_door rest w = record w { back = rest }

-- 11 is EAGAIN.
abbrev take_part : Door → List Part → Boxes → Rc Part × Boxes
take_part door [] w = (failed 11, w)
take_part door (m ∷ rest) w = (done m, put door rest w)

-- A whole message of at most so many parts is in front.
abbrev whole : ℕ → List Part → Bool
whole zero ms = false
whole (suc n) [] = false
whole (suc n) (m ∷ ms) = if m.more then whole n ms else true

abbrev sees : Option Door → Boxes → Bool
sees none w = false
sees (some door) w = whole 3 (box door w)

abbrev looks : List Door → Boxes → ℕ → Bool
looks doors w i = sees (get_elem? doors i) w

abbrev pub mailbox : Platform
mailbox = record {
  World = Boxes;
  Msg = Part;
  Socket = Door;
  eagain = 11;
  zmq_msg_init = part_of [];
  zmq_msg_init_size = λ n w. (done (part_of (zeros n)), w);
  zmq_msg_data = λ m. m.bytes;
  memcpy = λ m b. record m { bytes = b };
  zmq_msg_copy = λ m source w. (done source, w);
  zmq_msg_more = λ m. m.more;
  zmq_msg_recv = λ door flags w. take_part door (box door w) w;
  zmq_msg_send = λ door m flags w. (done tt, w);
  zmq_poll = λ doors timeout w. (record { rc = pos 0; errno = 0; pollin = looks doors w }, w);
  gettimeofday = λ w. (10, w);
  rand = λ w. (0, w);
}

abbrev bytes_of : Rc Part × Boxes → Bytes
bytes_of (done m, w) = m.bytes
bytes_of (failed n, w) = []

pub mailbox-laws : MessageLaws mailbox
mailbox-laws = record {
  size_of_init = λ n w w' m e. sym (ap (λ r. length (bytes_of r)) e) ∙ length-zeros n;
  data_of_memcpy = λ m b e. refl;
  data_of_copy = λ m source copied w w' e. sym (ap bytes_of e);
}

pub mailbox-Memory : Memory mailbox
mailbox-Memory = record {
  allocates = λ n w. (part_of (zeros n), w, refl);
  copies = λ m source w. (source, w, refl);
}

pub mailbox-Yields : Yields mailbox
mailbox-Yields door m flags w = (w, inl refl)

pub mailbox-Steady : Steady mailbox 3
mailbox-Steady = record { clock_fits = λ w. omega arith; polls = λ doors timeout w. (0, refl) }

box-put : (door : Door) (ms : List Part) (w : Boxes) → box door (put door ms w) ≡ ms
box-put front_door ms w = refl
box-put back_door ms w = refl

-- What is taken from one box is not missing in the other.
box-take_part :
    (door other : Door) (ms : List Part) (w : Boxes)
    → door ≢ other
    → box other (take_part door ms w).1 ≡ box other w
box-take_part door other [] w n = refl
box-take_part front_door front_door (m ∷ ms) w n = absurd (n refl)
box-take_part front_door back_door (m ∷ ms) w n = refl
box-take_part back_door front_door (m ∷ ms) w n = refl
box-take_part back_door back_door (m ∷ ms) w n = absurd (n refl)

whole-FedAt :
    (n : ℕ) (door : Door) (ms : List Part) (w : Boxes)
    → box door w ≡ ms
    → whole n ms ≡ true
    → FedAt mailbox n door w
whole-FedAt zero door ms w e h = cc
whole-FedAt (suc n) door [] w e h = cc
whole-FedAt (suc n) door (m ∷ ms) w e h = elim (Bool-cases m.more) [
  | inl more ↦
      let (first, rest, w', d, fewer) =
        whole-FedAt n door ms (put door ms w) (box-put door ms w) (ground (arith, h, more)) in
      (m, first ∷ rest, w', next (rw e refl) more d, omega arith)
  | inr single ↦ (m, [], put door ms w, last (rw e refl) single, omega arith)
]

pub mailbox-Readiness : Readiness mailbox 3
mailbox-Readiness = record {
  Ready = λ door w. whole 3 (box door w) ≡ true;
  delivers = λ door w h. whole-FedAt 3 door (box door w) w refl h;
  polled = λ doors timeout w n i door e stands bit. subst (λ o. sees o w ≡ true) stands bit;
  keeps_recv = λ door other flags w n h. rw (box-take_part door other (box door w) w n) h;
  keeps_send = λ door other m flags w h. h;
  keeps_clock = λ other w h. h;
  keeps_init = λ other n w h. h;
}
