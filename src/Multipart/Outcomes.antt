-- ===== src/Multipart/Outcomes.antt =====
-- src/zmq_addon.hpp: which frames of a message are accepted when `multipart_t::send` is given it.
use zmq_proxy.Cmd.{Returns, yields, Returns-mono}
use zmq_proxy.Multipart.Deque.{empty}
use zmq_proxy.Multipart.Transfer.{send, send_loop}
use zmq_proxy.Multipart.Wire.{frames, send-frames, empty-map, or-false}
use zmq_proxy.Platform.{Platform, Memory, Reliable, Frame, Flags, Io, done, failed, no_flags}
use zmq_proxy.Prelude.{
  ◌||◌, ◌≡◌, refl, sym, ap, ◌∙◌, false, not, List, [], ◌∷◌, ◌++◌, map, append_assoc, append-nil,
  Bytes, inl, inr, ◌⊎◌,
}
use zmq_proxy.Zmq.Calls.{send-accepted, send-refused}

-- The frames of a message, those of them that are accepted, and the world behind the message.
abbrev pub Outcome : Platform → Type 1
Outcome p = List (Frame p.Socket) → List (Frame p.Socket) → p.World → Type 0

module _ (p : Platform) where
  open p use {Msg, Socket, World}

  -- zmq_msg_send is called with this frame and gives up with EAGAIN, and this is the last call.
  pub record Refused (frame : Frame Socket) (w' : World) : Type 0 where
    pub msg : Msg
    pub flags : Flags
    pub world : World
    pub bytes : p.zmq_msg_data msg ≡ frame.bytes
    pub sndmore : flags.sndmore ≡ frame.sndmore
    pub gives_up : p.zmq_msg_send frame.sock msg flags world ≡ (failed p.eagain, w')

  abbrev pub Whole : Outcome p
  Whole all accepted w' = accepted ≡ all

  -- Every frame is accepted, or the frames in front of one that is sent and refused.
  pub data Prefix : List (Frame Socket) → List (Frame Socket) → World → Type 0 where
    whole : {all : List (Frame Socket)} {w' : World} → Prefix all all w'
    cut_off :
        {frame : Frame Socket} {w' : World} (accepted lost : List (Frame Socket))
        → Refused frame w'
        → Prefix (accepted ++ frame ∷ lost) accepted w'

  -- Frames of one message are accepted, as the outcome allows, and nothing else is.
  abbrev pub Grows : Outcome p → Socket → List Bytes → List (Frame Socket) → Io p → Type 0
  Grows outcome sock msg sent t =
      (accepted : List (Frame Socket)) × outcome (frames sock msg) accepted t.world
      × (t.sent ≡ sent ++ accepted)

  pub Grows-at :
      (outcome : Outcome p) (sock : Socket) {msg msg' : List Bytes}
      {sent sent' : List (Frame Socket)} {t : Io p}
      → msg' ≡ msg
      → sent' ≡ sent
      → Grows outcome sock msg' sent' t
      → Grows outcome sock msg sent t
  Grows-at outcome sock d kept (accepted, o, e) =
      (accepted, rw (← d) o, e ∙ ap (λ l. l ++ accepted) kept)

  pub Grows-Whole :
      (sock : Socket) (msg : List Bytes) (sent : List (Frame Socket)) (t : Io p)
      → Grows Whole sock msg sent t
      → t.sent ≡ sent ++ frames sock msg
  Grows-Whole sock msg sent t (accepted, o, e) = e ∙ ap (λ l. sent ++ l) o

-- Messages can be made, and `send` returns, with this outcome.
pub record Sending (p : Platform) (outcome : Outcome p) : Type 0 where
  pub memory : Memory p
  pub sends :
      (sock : p.Socket) (msg : List p.Msg) (s : Io p)
      → Returns
          (λ _ t. Grows p outcome sock (map p.zmq_msg_data msg) s.sent t)
          (send p sock no_flags msg s)

-- Every send is accepted, or gives up with EAGAIN.
abbrev pub Yields : Platform → Type 0
Yields p =
    (sock : p.Socket) (m : p.Msg) (flags : Flags) (w : p.World)
    → (w' : p.World) × ((p.zmq_msg_send sock m flags w ≡ (done tt, w'))
        ⊎ (p.zmq_msg_send sock m flags w ≡ (failed p.eagain, w')))

module _ (p : Platform) where
  open p use {Msg, Socket}

  pub Reliable-Sending : Reliable p → Sending p (Whole p)
  Reliable-Sending reliable = record {
    memory = reliable.memory;
    sends = λ sock msg s.
        Returns-mono (send-frames p reliable sock no_flags msg s)
          λ _ t (_, _, grown). (frames sock (map p.zmq_msg_data msg), refl, grown);
  }

  more_accepted :
      {frame : Frame Socket} {all accepted : List (Frame Socket)} {w' : p.World}
      → Prefix p all accepted w'
      → Prefix p (frame ∷ all) (frame ∷ accepted) w'
  more_accepted whole = whole
  more_accepted {frame} (cut_off accepted lost refused) = cut_off (frame ∷ accepted) lost refused

  -- What is accepted is a front part of the message: `send` stops at the first frame that is not.
  send-Prefix :
      Yields p
      → (sock : Socket) (msg : List Msg) (s : Io p)
      → Returns
          (λ _ t. Grows p (Prefix p) sock (map p.zmq_msg_data msg) s.sent t)
          (send p sock no_flags msg s)
  unfolding send send_loop frames
  send-Prefix yielding sock [] s = yields ([], whole, sym (append-nil s.sent))
  send-Prefix yielding sock (m ∷ msg) s =
      let flags : Flags = record { sndmore = not (empty msg) || false; dontwait = false } in
      let frame : Frame Socket = record {
        sock = sock;
        bytes = p.zmq_msg_data m;
        sndmore = not (empty (map p.zmq_msg_data msg));
      } in
      let same = or-false p (not (empty msg)) ∙ ap not (sym (empty-map p msg)) in
      let (w, r) = yielding sock m flags s.world in
      elim r [
        | inl accepted ↦ rw (send-accepted p sock m flags s w accepted) (
            Returns-mono (send-Prefix yielding sock msg _) λ _ t (later, outcome, grown). (
              frame ∷ later,
              more_accepted outcome,
              grown
                  ∙ append_assoc s.sent _ later
                  ∙ ap
                      (λ b.
                        s.sent
                        ++ record { sock = sock; bytes = p.zmq_msg_data m; sndmore = b } ∷ later)
                      same,
            ))
        | inr refused ↦ rw (send-refused p sock m flags s w refused) (
            yields (
              [],
              cut_off [] _ (record {
                msg = m;
                flags = flags;
                world = s.world;
                bytes = refl;
                sndmore = same;
                gives_up = refused;
              }),
              sym (append-nil s.sent),
            ))
      ]

  pub Yields-Sending : Memory p → Yields p → Sending p (Prefix p)
  Yields-Sending memory yielding = record { memory = memory; sends = send-Prefix yielding }
