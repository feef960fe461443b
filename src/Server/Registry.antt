-- ===== src/Server/Registry.antt =====
-- src/zmq_server.cc: `MakeNewWorker`, `GetWorker` and `CheckWorker`.
pub mod Check
pub mod Choice
pub mod Identities
pub mod Table
pub mod Insertion
pub mod Expiry
use zmq_proxy.Cmd.{Cmd, undefined, out_of_fuel, pure, ◌>>=◌}
use zmq_proxy.Platform.{Platform, Io, query}
use zmq_proxy.Prelude.{
  ℕ, zero, suc, ◌+◌, ◌-◌, ◌%◌, Bool, true, false, Option, none, some, List, [], ◌∷◌, ◌++◌, length,
  get_elem?, if◌then◌else◌, ltb, ◌==◌,
}
use zmq_proxy.Server.State.{lifetime, Worker, Server, s_clock, clock_after}
use zmq_proxy.Zmq

-- `vector::erase`
unfoldable pub erase_at {ℓ} : {A : Type ℓ} → ℕ → List A → List A
erase_at i [] = []
erase_at zero (x ∷ xs) = xs
erase_at (suc i) (x ∷ xs) = x ∷ erase_at i xs

module _ (p : Platform) where
  open p use {Msg}

  -- The loop of `MakeNewWorker`, from an iterator on: `found`, and the workers from there on.
  unfoldable pub update_expiry : Msg → List (Worker Msg) → Cmd (Io p) (Bool × List (Worker Msg))
  update_expiry identity [] = pure (false, [])
  update_expiry identity (it ∷ rest) =
      if Zmq.equal p it.identity identity
      then (do expiry ← clock_after p lifetime; pure (true, record it { expiry = expiry } ∷ rest))
      else (do (found, rest') ← update_expiry identity rest; pure (found, it ∷ rest'))

  unfoldable pub make_new_worker : Msg → Server p → Cmd (Io p) (Server p)
  make_new_worker identity server = do
    (found, vec_work) ← update_expiry identity server.vec_work
    if found then pure (record server { vec_work = vec_work }) else (do
      new_identity ← Zmq.message_of p (p.zmq_msg_data identity)
      expiry ← clock_after p lifetime
      let new_worker : Worker Msg = record { identity = new_identity; expiry = expiry }
      pure (record server { vec_work = vec_work ++ new_worker ∷ [] }))

  -- `GetWorker`: `none` where it returns -1; else 0 with the new content of `worker_id`.
  unfoldable pub get_worker : Msg → Server p → Cmd (Io p) (Option Msg)
  get_worker worker_id server = if length server.vec_work == 0 then pure none else (do
    r ← query p (p.rand)
    elim (get_elem? server.vec_work (r % length server.vec_work)) [
      | none ↦ λ _. undefined
      | some w ↦ do copied ← Zmq.copy p worker_id w.identity; pure (some copied)
    ])

  -- The loop of `CheckWorker`. An iterator is its distance from `begin ()` plus one, so that
  -- `begin () - 1`, which `erase (begin ()) - 1` forms, is 0. Each round erases a worker or moves on.
  unfoldable pub check_loop : ℕ → ℕ → ℕ → List (Worker Msg) → Cmd (Io p) (List (Worker Msg))
  check_loop zero clock itor vec_work =
      if ltb itor (length vec_work + 1) then (λ _. out_of_fuel) else pure vec_work
  check_loop (suc fuel) clock itor vec_work =
      if ltb itor (length vec_work + 1)
      then elim (get_elem? vec_work (itor - 1)) [
        | none ↦ λ _. undefined
        | some w ↦
            let expired = ltb w.expiry clock in
            let itor' = if expired then itor - 1 else itor in
            let vec_work' = if expired then erase_at (itor - 1) vec_work else vec_work in
            check_loop fuel clock (itor' + 1) vec_work'
      ]
      else pure vec_work

  unfoldable pub check_worker : Server p → Cmd (Io p) (Server p)
  check_worker server = do
    clock ← s_clock p
    vec_work ← check_loop (length server.vec_work) clock 1 server.vec_work
    pure (record server { vec_work = vec_work })
