-- ===== src/Zmq/Keeps.antt =====
-- src/zmq.hpp: a property of the world that a call of libzmq keeps is kept by the wrapper of the call.
use zmq_proxy.Cmd.{Cmd, Ensures, returned, threw, undef, Ensures-bind}
use zmq_proxy.Platform.{
  Platform, Rc, Frame, done, failed, Flags, Io, query, checked, checked-Ensures, int64,
}
use zmq_proxy.Prelude.{ℕ, subst, ◌==◌, ltb, ◌^◌, Bool-cases, inl, inr, Bytes, length}
use zmq_proxy.Zmq.{message_of, received, recv, sent_on, send}

module _ (p : Platform) (I : p.World → Type 0) where
  open p use {Msg, Socket, World}

  -- Where the code returns from a world with the property, the new world has it.
  abbrev pub Keeps : {A : Type 0} → Cmd (Io p) A → Type 0
  Keeps c = (s : Io p) → I s.world → Ensures (λ _ t. I t.world) (c s)

  pub query-Keeps :
      {A : Type 0} (f : World → A × World) → ((w : World) → I w → I (f w).1) → Keeps (query p f)
  unfolding query
  query-Keeps f keeps s i = returned (keeps s.world i)

  pub checked-Keeps :
      {A : Type 0} (f : World → Rc A × World)
      → ((w : World) → I w → I (f w).1)
      → Keeps (checked p f)
  checked-Keeps f keeps s i = checked-Ensures p f s λ a w e. subst (λ r. I r.1) e (keeps s.world i)

  pub int64-Keeps : (n : ℕ) → Keeps (int64 p n)
  unfolding int64
  int64-Keeps n s i = elim (Bool-cases (ltb n (2 ^ 63))) [
    | inl fits ↦ rw fits (returned i)
    | inr over ↦ rw over undef
  ]

  pub message_of-Keeps :
      (b : Bytes)
      → ((w : World) → I w → I (p.zmq_msg_init_size (length b) w).1)
      → Keeps (message_of p b)
  unfolding message_of
  message_of-Keeps b keeps s i =
      Ensures-bind (checked-Keeps (p.zmq_msg_init_size (length b)) keeps s i) λ m t i. returned i

  on_recv : (s : Io p) (r : Rc Msg × World) → I r.1 → Ensures (λ _ t. I t.world) (received p s r)
  unfolding received
  on_recv s (done m, w) i = returned i
  on_recv s (failed e, w) i = elim (Bool-cases (e == p.eagain)) [
    | inl again ↦ rw again (returned i)
    | inr fails ↦ rw fails threw
  ]

  pub recv-Keeps :
      (sock : Socket) (flags_ : Flags)
      → ((w : World) → I w → I (p.zmq_msg_recv sock flags_ w).1)
      → Keeps (recv p sock flags_)
  unfolding recv
  recv-Keeps sock flags_ keeps s i = on_recv s _ (keeps s.world i)

  on_send :
      (s : Io p) (frame : Frame Socket) (r : Rc (Unit {0}) × World)
      → I r.1
      → Ensures (λ _ t. I t.world) (sent_on p s frame r)
  unfolding sent_on
  on_send s frame (done _, w) i = returned i
  on_send s frame (failed e, w) i = elim (Bool-cases (e == p.eagain)) [
    | inl again ↦ rw again (returned i)
    | inr fails ↦ rw fails threw
  ]

  pub send-Keeps :
      (sock : Socket) (m : Msg) (flags_ : Flags)
      → ((w : World) → I w → I (p.zmq_msg_send sock m flags_ w).1)
      → Keeps (send p sock m flags_)
  unfolding send
  send-Keeps sock m flags_ keeps s i = on_send s _ _ (keeps s.world i)
