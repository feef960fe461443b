-- ===== src/Server/Registry/Choice.antt =====
-- src/zmq_server.cc: which worker `GetWorker` gives.
use zmq_proxy.Cmd.{Returns, yields, Returns-bind}
use zmq_proxy.Platform.{Platform, MessageLaws, Memory, Io}
use zmq_proxy.Prelude.{
  inr, inl, Bool-cases, ℕ, ◌%◌, ◌≡◌, refl, ◌∙◌, ◌==◌, Option, none, some, List, length, get_elem?,
  get_elem?-lt, arith,
}
use zmq_proxy.Server.Registry.{get_worker}
use zmq_proxy.Server.State.{Worker, Server}
use zmq_proxy.Zmq.Calls.{query-Returns, copy-Returns}

module _ (p : Platform) where
  open p use {Msg}

  -- `m` carries the bytes of the identity of one of the workers.
  pub record Names (workers : List (Worker Msg)) (m : Msg) : Type 0 where
    pub position : ℕ
    pub worker : Worker Msg
    pub stands : get_elem? workers position ≡ some worker
    pub identity : p.zmq_msg_data m ≡ p.zmq_msg_data worker.identity

  -- What `GetWorker` answers: -1 to an empty list, else the identity of a worker in the list.
  abbrev pub Answers : List (Worker Msg) → Option Msg → Type 0
  Answers workers none = length workers ≡ 0
  Answers workers (some m) = Names workers m

  -- If allocations succeed and messages behave as documented, `GetWorker` returns, whatever number
  -- `rand` gives: -1
  -- exactly if there is no worker, and else a copy of the identity of a worker of the list. It
  -- sends nothing.
  pub get_worker-Answers :
      MessageLaws p
      → Memory p
      → (worker_id : Msg) (server : Server p) (s : Io p)
      → Returns
          (λ ret t. Answers server.vec_work ret × (t.sent ≡ s.sent))
          (get_worker p worker_id server s)
  unfolding get_worker
  get_worker-Answers laws memory worker_id server s =
      elim (Bool-cases (length server.vec_work == 0)) [
        | inl none_left ↦ rw none_left (yields (ground arith, refl))
        | inr some_left ↦ rw some_left (
            Returns-bind (query-Returns p p.rand s) λ r t (_, same).
              let i = r % length server.vec_work in
              let (w, e) = get_elem?-lt server.vec_work i (ground arith) in
              rw e (
                Returns-bind (copy-Returns p laws memory worker_id w.identity t) λ m u (d, kept).
                  yields
                    (record { position = i; worker = w; stands = e; identity = d }, kept ∙ same)))
      ]
