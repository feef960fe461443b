-- ===== src/Multipart/Wire.antt =====
-- src/zmq_addon.hpp: what `multipart_t::send` puts on the wire, and what `multipart_t::recv` makes of
-- the frames that a socket delivers.
use zmq_proxy.Cmd.{Returns-mono, returns, Returns, yields, Returns-bind}
use zmq_proxy.Multipart.Deque.{empty}
use zmq_proxy.Multipart.Transfer.{recv_loop, recv, send_loop, send}
use zmq_proxy.Platform.{Platform, Reliable, done, Flags, Frame, Io}
use zmq_proxy.Prelude.{
  ◌||◌, ℕ, zero, suc, ◌≤◌, ◌≡◌, refl, sym, ap, ◌∙◌, Bool, true, false, not, List, [], ◌∷◌, ◌++◌,
  map, append_assoc, append-nil, Bytes, length, arith,
}
use zmq_proxy.Zmq
use zmq_proxy.Zmq.Calls.{send-Returns}

-- The frames of one message: ZMQ_SNDMORE is set on all but the last.
unfoldable pub frames : {Socket : Type 0} → Socket → List Bytes → List (Frame Socket)
frames sock [] = []
frames sock (b ∷ bs) = record { sock = sock; bytes = b; sndmore = not (empty bs) } ∷ frames sock bs

module _ (p : Platform) where
  open p use {Msg, Socket, World}

  -- From world `w` the socket delivers `parts` as one message, and the world is then `w'`.
  pub data Delivers (socket : Socket) (flags : Flags) : World → List Msg → World → Type 0 where
    last :
        {w w' : World} {m : Msg}
        → p.zmq_msg_recv socket flags w ≡ (done m, w')
        → p.zmq_msg_more m ≡ false
        → Delivers socket flags w (m ∷ []) w'
    next :
        {w v w' : World} {m : Msg} {parts : List Msg}
        → p.zmq_msg_recv socket flags w ≡ (done m, v)
        → p.zmq_msg_more m ≡ true
        → Delivers socket flags v parts w'
        → Delivers socket flags w (m ∷ parts) w'

  recv_loop-Delivers :
      (fuel : ℕ) {socket : Socket} {flags : Flags} {w w' : World} {parts : List Msg}
      (got : List Msg) (sent : List (Frame Socket))
      → Delivers socket flags w parts w'
      → length parts ≤ fuel
      → recv_loop p fuel socket flags got (record { world = w; sent = sent })
        ≡ returns (true, got ++ parts) (record { world = w'; sent = sent })
  unfolding recv_loop Zmq.recv Zmq.more
  recv_loop-Delivers zero got sent (last e m) h = absurd (omega arith)
  recv_loop-Delivers zero got sent (next e m d) h = absurd (omega arith)
  recv_loop-Delivers (suc fuel) got sent (last e m) h = rw (e, m)
  recv_loop-Delivers (suc fuel) {w'} got sent (next {m = x} {parts} e m d) h =
      rw (e, m)
        (recv_loop-Delivers fuel (got ++ x ∷ []) sent d (omega arith)
          ∙ ap (λ l. returns (true, l) (record { world = w'; sent = sent }))
              (append_assoc got (x ∷ []) parts))

  -- If a socket delivers `parts` as one message, and the fuel is at least their number, then `recv`
  -- returns true with exactly these parts, reads no frame behind them and sends nothing.
  pub recv-Delivers :
      (fuel : ℕ) {socket : Socket} {flags : Flags} {w w' : World} {parts : List Msg}
      (sent : List (Frame Socket))
      → Delivers socket flags w parts w'
      → length parts ≤ fuel
      → recv p fuel socket flags (record { world = w; sent = sent })
        ≡ returns (true, parts) (record { world = w'; sent = sent })
  unfolding recv
  recv-Delivers fuel sent d h = recv_loop-Delivers fuel [] sent d h

  pub empty-map : (parts : List Msg) → empty (map p.zmq_msg_data parts) ≡ empty parts
  empty-map [] = refl
  empty-map (_ ∷ _) = refl

  pub or-false : (b : Bool) → (b || false) ≡ b
  or-false true = refl
  or-false false = refl

  module _ (reliable : Reliable p) where
    send_loop-frames :
        (socket : Socket) (dontwait : Bool) (parts : List Msg) (s : Io p)
        → Returns
            (λ (ok, rest) t.
              (ok ≡ true)
              × (rest ≡ [])
              × (t.sent ≡ s.sent ++ frames socket (map p.zmq_msg_data parts)))
            (send_loop p socket (record { sndmore = false; dontwait = dontwait }) parts s)
    unfolding send_loop frames
    send_loop-frames socket dontwait [] s = yields (refl, refl, sym (append-nil s.sent))
    send_loop-frames socket dontwait (m ∷ parts) s =
        Returns-bind (send-Returns p reliable socket m _ s) λ ok t (done_, grown). rw done_ (
          Returns-mono (send_loop-frames socket dontwait parts t) λ r u (a, b, c).
            (a, b, rw (c, grown, append_assoc, or-false (not (empty parts)), empty-map parts) refl))

    -- On a platform that accepts every frame, `send` returns true, leaves no part behind, and puts
    -- the parts on the wire in their order with ZMQ_SNDMORE on all but the last.
    pub send-frames :
        (socket : Socket) (flags : Flags) (parts : List Msg) (s : Io p)
        → Returns
            (λ (ok, rest) t.
              (ok ≡ true)
              × (rest ≡ [])
              × (t.sent ≡ s.sent ++ frames socket (map p.zmq_msg_data parts)))
            (send p socket flags parts s)
    unfolding send
    send-frames socket flags parts s = send_loop-frames socket flags.dontwait parts s
