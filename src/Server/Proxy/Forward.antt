-- ===== src/Server/Proxy/Forward.antt =====
-- src/zmq_server.cc: what the proxy does with a message from either socket.
use zmq_proxy.Cmd.{pure, Returns, Returns-mono}
use zmq_proxy.Multipart.Deque.{pop, remove, split_last}
use zmq_proxy.Multipart.Outcomes.{Grows-Whole, Whole, Reliable-Sending}
use zmq_proxy.Server.Proxy.Sends.{backend-Grows, frontend-Replies, Replies}
use zmq_proxy.Multipart.Wire.{frames, Delivers, recv-Delivers}
use zmq_proxy.Platform.{Io, Platform, MessageLaws, Reliable, no_flags, Frame}
use zmq_proxy.Prelude.{
  inr, inl, ◌⊎◌, ◌<◌, ℕ, ◌≡◌, ◌≢◌, List, [], ◌∷◌, ◌++◌, map, length, arith, if◌then◌else◌, str_eq,
}
use zmq_proxy.Server.Proxy.{no_worker_text, backend, frontend}
use zmq_proxy.Server.Registry.Choice.{Names}
use zmq_proxy.Server.Registry.{make_new_worker}
use zmq_proxy.Server.State.{Server, heartbeat_key}

module _ (p : Platform) (server : Server p) where
  open p use {Msg}

  -- The frames that answer a client's message: with a worker, the message goes to it, behind its
  -- identity; with none, the client is told so.
  abbrev pub Answered : Msg → List Msg → List (Frame p.Socket) → List (Frame p.Socket) → Type 0
  Answered client rest sent sent' =
      ((length server.vec_work ≡ 0)
        × (sent'
            ≡ sent ++ frames server.front_sock (p.zmq_msg_data client ∷ [] ∷ no_worker_text ∷ [])))
      ⊎ ((worker_id : Msg) × Names p server.vec_work worker_id
          × (sent'
              ≡ sent
                ++ frames server.back_sock
                    (p.zmq_msg_data worker_id ∷ map p.zmq_msg_data (client ∷ rest))))

module _ (p : Platform) (parts : ℕ) (server : Server p) where
  open p use {Msg, World}

  -- If a whole message is there on the back socket, at most `parts` parts long, the number of parts
  -- behind its first is not one, and every frame is accepted, then the branch for the back socket
  -- returns with the server unchanged, and exactly the message without its first part is sent to the
  -- front socket, in one piece.
  pub backend-relays :
      Reliable p
      → {w w' : World} {identity : Msg} {msg : List Msg} (sent : List (Frame p.Socket))
      → Delivers p server.back_sock no_flags w (identity ∷ msg) w'
      → length msg < parts
      → length msg ≢ 1
      → Returns
          (λ server' t.
            (server' ≡ server)
            × (t.sent ≡ sent ++ frames server.front_sock (map p.zmq_msg_data msg)))
          (backend p parts server (record { world = w; sent = sent }))
  backend-relays reliable {msg} sent d h other =
      Returns-mono (backend-Grows p (Reliable-Sending p reliable) parts server sent d h other)
        λ server' t (e, grown).
          (e, Grows-Whole p server.front_sock (map p.zmq_msg_data msg) sent t grown)

  -- If a message of an identity and one part is there on the back socket, then the branch for the back
  -- socket reads it and registers the identity if the part is "HEARTBEAT"; with any other part it
  -- does nothing more, and the message is dropped.
  pub backend-two_parts :
      {w w' : World} {identity data_ : Msg} (sent : List (Frame p.Socket))
      → Delivers p server.back_sock no_flags w (identity ∷ data_ ∷ []) w'
      → 1 < parts
      → backend p parts server (record { world = w; sent = sent })
        ≡ (if str_eq (p.zmq_msg_data data_) heartbeat_key
              then make_new_worker p identity server
              else pure server)
            (record { world = w'; sent = sent })
  unfolding backend pop remove split_last
  backend-two_parts sent d h = rw (recv-Delivers p parts sent d (omega arith))

  -- If a whole message is there on the front socket, at most `parts` parts long, and the platform
  -- is reliable, then the branch for the front socket returns. If there is a worker, exactly the
  -- message is sent to the back socket, in one piece behind the identity of a worker of the list;
  -- if there is none, exactly the three parts `client`, empty, "not have woker!" are sent to the
  -- front socket.
  pub frontend-Answered :
      MessageLaws p
      → Reliable p
      → {w w' : World} {client : Msg} {rest : List Msg} (sent : List (Frame p.Socket))
      → Delivers p server.front_sock no_flags w (client ∷ rest) w'
      → length rest < parts
      → Returns
          (λ _ t. Answered p server client rest sent t.sent)
          (frontend p parts server (record { world = w; sent = sent }))
  frontend-Answered laws reliable {client} {rest} sent d h =
      Returns-mono (frontend-Replies p (Reliable-Sending p reliable) parts server laws sent d h)
        λ _ t r. exactly t r
    where
      exactly :
          (t : Io p)
          → Replies p (Whole p) server client rest sent t
          → Answered p server client rest sent t.sent
      exactly t (inl (none_left, grown)) =
          inl (none_left, Grows-Whole p server.front_sock _ sent t grown)
      exactly t (inr (worker_id, names, grown)) =
          inr (worker_id, names, Grows-Whole p server.back_sock _ sent t grown)
