-- ===== src/Zmq/Calls.antt =====
-- src/zmq.hpp: the wrappers on a platform whose calls succeed. Each returns, and adds to the accepted
-- frames what it says and nothing else.
use zmq_proxy.Cmd.{
  Ensures, returned, threw, Throws, thrown, error_t, throws, returns, Returns, yields,
}
use zmq_proxy.Platform.{
  Status, negsuc, failed, pos, Platform, MessageLaws, Memory, Reliable, Rc, done, Flags, Io,
  checked, query, resume,
}
use zmq_proxy.Prelude.{
  false, none, if◌then◌else◌, ◌==◌, List, ℕ, ◌≡◌, refl, ap, true, [], ◌∷◌, ◌++◌, Bytes, length,
  str_eq, str_eq_iff, arith,
}
use zmq_proxy.Zmq.{sent_on, message_of, copy, send, equal, poll, poll_status, recv, received}

module _ (p : Platform) where
  open p use {Msg, Socket, World}

  -- `equal` compares the bytes.
  pub equal-str_eq : (a b : Msg) → equal p a b ≡ str_eq (p.zmq_msg_data a) (p.zmq_msg_data b)
  unfolding equal
  equal-str_eq a b = ground (arith, str_eq_iff (p.zmq_msg_data a) (p.zmq_msg_data b))

  pub checked-done :
      {A : Type 0} (f : World → Rc A × World) (s : Io p) (a : A) (w : World)
      → f s.world ≡ (done a, w)
      → checked p f s ≡ returns a (record s { world = w })
  unfolding checked
  checked-done f s a w e = ap (resume p s) e

  -- A call that succeeds returns, and sends nothing.
  pub checked-Returns :
      {A : Type 0} (f : World → Rc A × World) (s : Io p)
      → (a : A) × (w : World) × (f s.world ≡ (done a, w))
      → Returns (λ _ t. t.sent ≡ s.sent) (checked p f s)
  checked-Returns f s (a, w, e) = rw (checked-done f s a w e) (yields refl)

  pub query-Returns :
      {A : Type 0} (f : World → A × World) (s : Io p)
      → Returns (λ a t. (a ≡ (f s.world).0) × (t.sent ≡ s.sent)) (query p f s)
  unfolding query
  query-Returns f s = yields (refl, refl)

  pub query-result :
      {A : Type 0} (f : World → A × World) (s : Io p)
      → Returns
          (λ a t. (a ≡ (f s.world).0) × (t.world ≡ (f s.world).1) × (t.sent ≡ s.sent))
          (query p f s)
  unfolding query
  query-result f s = yields (refl, refl, refl)

  module _ (laws : MessageLaws p) (memory : Memory p) where
    pub message_of-Returns :
        (b : Bytes) (s : Io p)
        → Returns (λ m t. (p.zmq_msg_data m ≡ b) × (t.sent ≡ s.sent)) (message_of p b s)
    unfolding message_of
    message_of-Returns b s =
        let (m, w, e) = memory.allocates (length b) s.world in
        rw (checked-done (p.zmq_msg_init_size (length b)) s m w e)
          (yields (laws.data_of_memcpy m b (laws.size_of_init _ _ w m e), refl))

    pub copy-Returns :
        (m source : Msg) (s : Io p)
        → Returns
            (λ m' t. (p.zmq_msg_data m' ≡ p.zmq_msg_data source) × (t.sent ≡ s.sent))
            (copy p m source s)
    unfolding copy
    copy-Returns m source s =
        let (m', w, e) = memory.copies m source s.world in
        rw (checked-done (p.zmq_msg_copy m source) s m' w e)
          (yields (laws.data_of_copy m source m' _ w e, refl))

  pub send-Returns :
      Reliable p
      → (sock : Socket) (m : Msg) (flags : Flags) (s : Io p)
      → Returns
          (λ ok t.
            (ok ≡ true)
            × (t.sent
                ≡ s.sent
                  ++ record { sock = sock; bytes = p.zmq_msg_data m; sndmore = flags.sndmore }
                    ∷ []))
          (send p sock m flags s)
  unfolding send
  send-Returns reliable sock m flags s =
      let (w, e) = reliable.sends sock m flags s.world in rw e (yields (refl, refl))

  -- `send` where zmq_msg_send accepts the frame: true, and the frame is on record.
  pub send-accepted :
      (sock : Socket) (m : Msg) (flags_ : Flags) (s : Io p) (w : World)
      → p.zmq_msg_send sock m flags_ s.world ≡ (done tt, w)
      → send p sock m flags_ s
        ≡ returns true (record {
          world = w;
          sent =
              s.sent
              ++ record { sock = sock; bytes = p.zmq_msg_data m; sndmore = flags_.sndmore } ∷ [];
        })
  unfolding send sent_on
  send-accepted sock m flags_ s w e = rw e refl

  -- `send` where zmq_msg_send gives up with EAGAIN: false, and no frame is accepted.
  pub send-refused :
      (sock : Socket) (m : Msg) (flags_ : Flags) (s : Io p) (w : World)
      → p.zmq_msg_send sock m flags_ s.world ≡ (failed p.eagain, w)
      → send p sock m flags_ s ≡ returns false (record s { world = w })
  unfolding send sent_on
  send-refused sock m flags_ s w e = rw e (ground arith)

  -- `poll` returns where zmq_poll returns a status that is not negative.
  pub poll-Returns :
      (items_ : List Socket) (timeout_ : ℕ) (s : Io p)
      → (n : ℕ) × ((p.zmq_poll items_ timeout_ s.world).0.rc ≡ pos n)
      → Returns (λ _ _. Unit {0}) (poll p items_ timeout_ s)
  unfolding poll poll_status
  poll-Returns items_ timeout_ s (n, e) = rw e (yields tt)

  -- The world behind `poll` is the one behind zmq_poll.
  pub poll-world :
      (items_ : List Socket) (timeout_ : ℕ) (s : Io p)
      → Ensures (λ _ t. t.world ≡ (p.zmq_poll items_ timeout_ s.world).1) (poll p items_ timeout_ s)
  unfolding poll poll_status
  poll-world items_ timeout_ s = by_status _
    where
      by_status :
          (rc : Status)
          → Ensures
              (λ _ t. t.world ≡ (p.zmq_poll items_ timeout_ s.world).1)
              (poll_status p
                (record s { world = (p.zmq_poll items_ timeout_ s.world).1 })
                (p.zmq_poll items_ timeout_ s.world).0.pollin
                (p.zmq_poll items_ timeout_ s.world).0.errno
                rc)
      by_status (pos n) = returned refl
      by_status (negsuc n) = threw

  -- `poll` throws the errno where zmq_poll returns a negative status.
  pub poll-Throws :
      (items_ : List Socket) (timeout_ : ℕ) (s : Io p) (n errno : ℕ)
      → (p.zmq_poll items_ timeout_ s.world).0.rc ≡ negsuc n
      → (p.zmq_poll items_ timeout_ s.world).0.errno ≡ errno
      → Throws (λ e t. (e ≡ error_t errno) × (t.sent ≡ s.sent)) (poll p items_ timeout_ s)
  unfolding poll poll_status
  poll-Throws items_ timeout_ s n errno e e' = rw (e, e') (thrown (refl, refl))

  -- `recv` where zmq_msg_recv fails: false for EAGAIN, and else the errno is thrown.
  pub recv-failed :
      (sock : Socket) (flags_ : Flags) (s : Io p) (errno : ℕ) (w : World)
      → p.zmq_msg_recv sock flags_ s.world ≡ (failed errno, w)
      → recv p sock flags_ s ≡ (
          if errno == p.eagain
          then returns none (record s { world = w })
          else throws (error_t errno) (record s { world = w }))
  unfolding recv received
  recv-failed sock flags_ s errno w e = rw e refl
