-- ===== src/Zmq.antt =====
-- src/zmq.hpp: the wrappers `message_t`, `socket_t` and `poll` that the proxy calls.
pub mod Calls
pub mod Keeps
pub mod Silent
use zmq_proxy.Cmd.{threw, returned, Ensures, Run, Cmd, returns, throws, error_t, pure, ◌>>=◌}
use zmq_proxy.Platform.{Platform, Rc, Frame, done, failed, Flags, Status, pos, negsuc, Io, checked}
use zmq_proxy.Prelude.{
  ◌≡◌, refl, ◌≡◌, ℕ, Bool, true, false, Option, none, some, List, [], ◌∷◌, ◌++◌, Bytes, length,
  if◌then◌else◌, ◌==◌, str_eq, not,
}

module _ (p : Platform) where
  open p use {Msg, Socket}

  -- `message_t (const void *data_, size_t size_)`
  unfoldable pub message_of : Bytes → Cmd (Io p) Msg
  message_of data_ = do
    msg ← checked p (p.zmq_msg_init_size (length data_))
    pure (p.memcpy msg data_)

  -- `copy`: `msg` is what the message held before.
  unfoldable pub copy : Msg → Msg → Cmd (Io p) Msg
  copy msg source = checked p (p.zmq_msg_copy msg source)

  unfoldable pub more : Msg → Bool
  more msg = p.zmq_msg_more msg

  unfoldable pub size : Msg → ℕ
  size msg = length (p.zmq_msg_data msg)

  unfoldable pub equal : Msg → Msg → Bool
  unfolding size
  equal msg other =
      if not (size msg == size other)
      then false
      else str_eq (p.zmq_msg_data msg) (p.zmq_msg_data other)

  -- `nbytes >= 0`, EAGAIN, any other error.
  received : Io p → Rc Msg × p.World → Run (Io p) (Option Msg)
  received s (done msg, w) = returns (some msg) (record s { world = w })
  received s (failed e, w) =
      if e == p.eagain
      then returns none (record s { world = w })
      else throws (error_t e) (record s { world = w })

  -- `socket_t::recv (message_t *msg_, int flags_)`: `none` where it returns false.
  unfoldable pub recv : Socket → Flags → Cmd (Io p) (Option Msg)
  unfolding received
  recv sock flags_ s = received s (p.zmq_msg_recv sock flags_ s.world)

  -- An accepted frame is put on record.
  sent_on : Io p → Frame Socket → Rc (Unit {0}) × p.World → Run (Io p) Bool
  sent_on s frame (done _, w) = returns true (record { world = w; sent = s.sent ++ frame ∷ [] })
  sent_on s frame (failed e, w) =
      if e == p.eagain
      then returns false (record s { world = w })
      else throws (error_t e) (record s { world = w })

  -- `socket_t::send (message_t &msg_, int flags_)`
  unfoldable pub send : Socket → Msg → Flags → Cmd (Io p) Bool
  unfolding sent_on
  send sock msg flags_ s =
      let frame : Frame Socket = record {
        sock = sock;
        bytes = p.zmq_msg_data msg;
        sndmore = flags_.sndmore;
      } in
      sent_on s frame (p.zmq_msg_send sock msg flags_ s.world)

  -- A negative status is thrown as an error.
  poll_status : Io p → (ℕ → Bool) → ℕ → Status → Run (Io p) (Status × (ℕ → Bool))
  poll_status s pollin errno (pos n) = returns (pos n, pollin) s
  poll_status s pollin errno (negsuc n) = throws (error_t errno) s

  -- `poll`: the status, and the bits that zmq_poll writes.
  unfoldable pub poll : List Socket → ℕ → Cmd (Io p) (Status × (ℕ → Bool))
  unfolding poll_status
  poll items_ timeout_ s =
      let (result, w) = p.zmq_poll items_ timeout_ s.world in
      poll_status (record s { world = w }) result.pollin result.errno result.rc

  -- `poll` throws where zmq_poll returns a negative status; else it passes the bits on.
  pub poll-Ensures :
      (items_ : List Socket) (timeout_ : ℕ) (s : Io p)
      → Ensures
          (λ (rc, pollin) t.
            ((n : ℕ) × (rc ≡ pos n))
            × (pollin ≡ (p.zmq_poll items_ timeout_ s.world).0.pollin)
            × (t.sent ≡ s.sent))
          (poll items_ timeout_ s)
  unfolding poll
  poll-Ensures items_ timeout_ s = by_status _
    where
      by_status :
          (rc : Status)
          → Ensures
              (λ (rc, pollin) t.
                ((n : ℕ) × (rc ≡ pos n))
                × (pollin ≡ (p.zmq_poll items_ timeout_ s.world).0.pollin)
                × (t.sent ≡ s.sent))
              (poll_status
                (record s { world = (p.zmq_poll items_ timeout_ s.world).1 })
                (p.zmq_poll items_ timeout_ s.world).0.pollin
                (p.zmq_poll items_ timeout_ s.world).0.errno
                rc)
      by_status (pos n) = returned ((n, refl), refl, refl)
      by_status (negsuc n) = threw
