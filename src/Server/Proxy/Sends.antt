-- ===== src/Server/Proxy/Sends.antt =====
-- src/zmq_server.cc: what the branches of `Server::Start` send, whatever becomes of the frames.
use zmq_proxy.Cmd.{Cmd, Returns, yields, Returns-bind, Returns-mono}
use zmq_proxy.Multipart.Building.{pushmem-Returns, addstr-Returns}
use zmq_proxy.Multipart.Deque.{pop}
use zmq_proxy.Multipart.Outcomes.{Outcome, Grows, Grows-at, Sending}
use zmq_proxy.Multipart.Wire.{Delivers, recv-Delivers}
use zmq_proxy.Platform.{Platform, MessageLaws, no_flags, Frame, Io}
use zmq_proxy.Prelude.{
  inr, inl, Option, none, some, ap, ◌⊎◌, ◌∙◌, ◌<◌, ℕ, ◌≡◌, ◌≢◌, refl, false, List, [], ◌∷◌, ◌++◌,
  map, length, ◌==◌, arith,
}
use zmq_proxy.Server.Proxy.{refuse, dispatch, no_worker_text, backend, frontend}
use zmq_proxy.Server.Registry.Choice.{Names, Answers, get_worker-Answers}
use zmq_proxy.Server.State.{Server}

not_one : {n : ℕ} → n ≢ 1 → (n == 1) ≡ false
not_one h = ground arith

module _ (p : Platform) (outcome : Outcome p) (server : Server p) where
  open p use {Msg}

  -- What is sent for a client's message: with a worker, the message goes to it, behind its identity;
  -- with none, the client is told so.
  abbrev pub Replies : Msg → List Msg → List (Frame p.Socket) → Io p → Type 0
  Replies client rest sent t =
      ((length server.vec_work ≡ 0)
        × Grows p outcome server.front_sock (p.zmq_msg_data client ∷ [] ∷ no_worker_text ∷ []) sent
            t)
      ⊎ ((worker_id : Msg) × Names p server.vec_work worker_id
          × Grows p outcome server.back_sock
              (p.zmq_msg_data worker_id ∷ map p.zmq_msg_data (client ∷ rest)) sent t)

module _ (p : Platform) {outcome : Outcome p} (sending : Sending p outcome) (parts : ℕ)
    (server : Server p) where
  open p use {Msg, World}

  -- A message whose number of parts behind the first is not one is relayed.
  pub backend-Grows :
      {w w' : World} {identity : Msg} {msg : List Msg} (sent : List (Frame p.Socket))
      → Delivers p server.back_sock no_flags w (identity ∷ msg) w'
      → length msg < parts
      → length msg ≢ 1
      → Returns
          (λ server' t.
            (server' ≡ server) × Grows p outcome server.front_sock (map p.zmq_msg_data msg) sent t)
          (backend p parts server (record { world = w; sent = sent }))
  unfolding backend pop
  backend-Grows {msg} sent d h other =
      rw (recv-Delivers p parts sent d (omega arith), not_one other)
        (Returns-bind (sending.sends server.front_sock msg _) λ r t grown. yields (refl, grown))

  module _ (laws : MessageLaws p) where
    dispatch-Grows :
        (msg : List Msg) (worker_id : Msg) (s : Io p)
        → Returns
            (λ _ t.
              Grows p outcome server.back_sock
                (p.zmq_msg_data worker_id ∷ map p.zmq_msg_data msg)
                s.sent
                t)
            (dispatch p server msg worker_id s)
    unfolding dispatch
    dispatch-Grows msg worker_id s =
        Returns-bind (pushmem-Returns p laws sending.memory (p.zmq_msg_data worker_id) msg s)
          λ out t (d, kept).
            Returns-bind (sending.sends server.back_sock out t)
              λ r u grown. yields (Grows-at p outcome server.back_sock d kept grown)

    refuse-Grows :
        (client : Msg) (rest : List Msg) (s : Io p)
        → Returns
            (λ _ t.
              Grows p outcome server.front_sock
                (p.zmq_msg_data client ∷ [] ∷ no_worker_text ∷ [])
                s.sent
                t)
            (refuse p server (client ∷ rest) s)
    unfolding refuse pop
    refuse-Grows client rest s =
        Returns-bind (addstr-Returns p laws sending.memory [] (client ∷ []) s) λ a t (d, kept).
          Returns-bind (addstr-Returns p laws sending.memory no_worker_text a t) λ b u (d', kept').
            Returns-bind (sending.sends server.front_sock b u) λ r v grown. yields (
              Grows-at p outcome server.front_sock (d' ∙ ap (λ l. l ++ no_worker_text ∷ []) d)
                (kept' ∙ kept) grown)

    pub frontend-Replies :
        {w w' : World} {client : Msg} {rest : List Msg} (sent : List (Frame p.Socket))
        → Delivers p server.front_sock no_flags w (client ∷ rest) w'
        → length rest < parts
        → Returns
            (λ _ t. Replies p outcome server client rest sent t)
            (frontend p parts server (record { world = w; sent = sent }))
    unfolding frontend
    frontend-Replies {w'} {client} {rest} sent d h =
        rw (recv-Delivers p parts sent d (omega arith)) (
          Returns-bind (get_worker-Answers p laws sending.memory p.zmq_msg_init server _)
            λ ret t (a, kept). answer ret t a kept)
      where
        answer :
            (ret : Option Msg) (t : Io p)
            → Answers p server.vec_work ret
            → t.sent ≡ sent
            → Returns
                (λ _ u. Replies p outcome server client rest sent u)
                (elim ret as (λ _. Cmd (Io p) (Unit {0})) [
                  | none ↦ refuse p server (client ∷ rest)
                  | some worker_id ↦ dispatch p server (client ∷ rest) worker_id
                ]
                  t)
        answer none t a kept =
            Returns-mono (refuse-Grows client rest t)
              λ _ u grown. inl (a, Grows-at p outcome server.front_sock refl kept grown)
        answer (some worker_id) t a kept =
            Returns-mono (dispatch-Grows (client ∷ rest) worker_id t)
              λ _ u grown. inr (worker_id, a, Grows-at p outcome server.back_sock refl kept grown)
