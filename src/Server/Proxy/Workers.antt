-- ===== src/Server/Proxy/Workers.antt =====
-- src/zmq_server.cc: how the number of workers changes in a round of `Server::Start`.
use zmq_proxy.Cmd.{Cmd, pure, Ensures, returned, Ensures-bind, Ensures-then, Ensures-mono}
use zmq_proxy.Multipart.Deque.{pop, remove}
use zmq_proxy.Multipart.Transfer
use zmq_proxy.Platform.{Platform, MessageLaws, Io, no_flags}
use zmq_proxy.Prelude.{
  ℕ, zero, suc, ◌+◌, ◌≤◌, ◌≡◌, Bool, true, false, List, [], ◌∷◌, ◌++◌, Bytes, length, length-map,
  length-append, if◌then◌else◌, ltb, ◌==◌, arith, Bool-cases, inl, inr, str_eq,
}
use zmq_proxy.Server.Proxy.{
  Flow, continues, breaks, Loop, after_poll, is_minus_one, items, backend, frontend, heartbeat,
  serve, round, rounds, start,
}
use zmq_proxy.Server.Registry.Check.{live, check_worker-live}
use zmq_proxy.Server.Registry.Identities.{member, ids, make_new_worker-Registered}
use zmq_proxy.Server.Registry.{make_new_worker, check_worker}
use zmq_proxy.Server.State.{heartbeat_interval, heartbeat_key, Worker, Server, s_clock, clock_after}
use zmq_proxy.Zmq

live-shorter :
    {Msg : Type 0} (clock : ℕ) (ws : List (Worker Msg)) → length (live clock ws) ≤ length ws
unfolding live
live-shorter clock [] = omega arith
live-shorter clock (w ∷ ws) = elim (Bool-cases (ltb w.expiry clock)) [
  | inl old ↦ rw old (omega (arith, live-shorter clock ws))
  | inr young ↦ rw young (omega (arith, live-shorter clock ws))
]

with_new-longer :
    (id : Bytes) (old new : List Bytes)
    → new ≡ (if member id old then old else old ++ id ∷ [])
    → length new ≤ length old + 1
with_new-longer id old new e = elim (Bool-cases (member id old)) [
  | inl known ↦ rw (e, known) (omega arith)
  | inr fresh ↦ rw (e, fresh) (omega (arith, length-append old (id ∷ [])))
]

module _ (p : Platform) (laws : MessageLaws p) (parts : ℕ) where
  open p use {Msg}

  -- At most one worker more than there are in the list.
  abbrev OneMore : List (Worker Msg) → Server p → Type 0
  OneMore ws server = length server.vec_work ≤ length ws + 1

  make_new_worker-OneMore :
      (identity : Msg) (server : Server p) (s : Io p)
      → Ensures (λ server' _. OneMore server.vec_work server') (make_new_worker p identity server s)
  make_new_worker-OneMore identity server s =
      Ensures-mono (make_new_worker-Registered p laws identity server s) λ server' t r. omega (
        arith,
        with_new-longer (p.zmq_msg_data identity) (ids p server.vec_work) (ids p server'.vec_work)
            r.identities,
        length-map (λ (w : Worker Msg). p.zmq_msg_data w.identity) server.vec_work,
        length-map (λ (w : Worker Msg). p.zmq_msg_data w.identity) server'.vec_work,
      )

  backend-OneMore :
      (server : Server p) (s : Io p)
      → Ensures (λ server' _. OneMore server.vec_work server') (backend p parts server s)
  unfolding backend
  backend-OneMore server s =
      Ensures-then (Transfer.recv p parts server.back_sock no_flags s) λ (_, received) t.
        Ensures-then (pop received t) λ (identity, msg) u. elim (Bool-cases (length msg == 1)) [
          | inl one ↦ rw one (
              Ensures-then (remove msg u) λ (data_, _) w.
                elim (Bool-cases (str_eq (p.zmq_msg_data data_) heartbeat_key)) [
                  | inl beat ↦ rw beat (make_new_worker-OneMore identity server w)
                  | inr other ↦ rw other (returned (omega arith))
                ])
          | inr more ↦ rw more (
              Ensures-then (Transfer.send p server.front_sock no_flags msg u)
                λ _ _. returned (omega arith))
        ]

  check_worker-fewer :
      (server : Server p) (s : Io p)
      → Ensures
          (λ server' _. length server'.vec_work ≤ length server.vec_work)
          (check_worker p server s)
  check_worker-fewer server s =
      rw (check_worker-live p server s)
        (Ensures-then (s_clock p s) λ now t. returned (live-shorter now server.vec_work))

  serve-OneMore :
      (l : Loop p) (s : Io p)
      → Ensures (λ l' _. OneMore l.server.vec_work l'.server) (serve p parts l s)
  unfolding serve
  serve-OneMore l s = Ensures-bind (back l.back_in) λ server t h.
      Ensures-then ((if l.front_in then frontend p parts server else pure tt) t) λ _ u.
        Ensures-then (heartbeat p server l.heartbeat_at u)
          λ at w. Ensures-bind (check_worker-fewer server w) λ checked x h'. returned (omega arith)
    where
      back :
          (b : Bool)
          → Ensures
              (λ server _. OneMore l.server.vec_work server)
              ((if b then backend p parts l.server else pure l.server) s)
      back true = backend-OneMore l.server s
      back false = returned (omega arith)

  abbrev pub loop_of : Flow p → Loop p
  loop_of (continues l) = l
  loop_of (breaks l) = l

  -- At most so many workers more than there are in the list.
  abbrev pub MoreBy : ℕ → List (Worker Msg) → Flow p → Type 0
  MoreBy n ws flow = length (loop_of flow).server.vec_work ≤ length ws + n

  round-MoreBy :
      (l : Loop p) (s : Io p)
      → Ensures (λ flow _. MoreBy 1 l.server.vec_work flow) (round p parts l s)
  unfolding round
  round-MoreBy l s =
      Ensures-then (Zmq.poll p (items p l.server) heartbeat_interval s) λ (rc, pollin) t.
        elim (Bool-cases (is_minus_one rc)) [
          | inl stop ↦ rw stop (returned (omega arith))
          | inr go ↦
              rw go
                (Ensures-bind (serve-OneMore (after_poll p l pollin) t) λ served u h. returned h)
        ]

  -- The rounds behind a first one.
  later-MoreBy :
      (n : ℕ) (l : Loop p) (flow : Flow p) (t : Io p)
      → MoreBy 1 l.server.vec_work flow
      → ((l' : Loop p)
          → Ensures (λ flow' _. MoreBy n l'.server.vec_work flow') (rounds p parts n l' t))
      → Ensures
          (λ flow' _. MoreBy (suc n) l.server.vec_work flow')
          ((elim flow as (λ _. Cmd (Io p) (Flow p)) [
            | breaks l' ↦ pure (breaks l')
            | continues l' ↦ rounds p parts n l'
          ])
            t)
  later-MoreBy n l (breaks l') t h rest = returned (omega arith)
  later-MoreBy n l (continues l') t h rest = Ensures-mono (rest l') λ flow' u h'. omega arith

  rounds-MoreBy :
      (n : ℕ) (l : Loop p) (s : Io p)
      → Ensures (λ flow _. MoreBy n l.server.vec_work flow) (rounds p parts n l s)
  unfolding rounds
  rounds-MoreBy zero l s = returned (omega arith)
  rounds-MoreBy (suc n) l s = elim (Bool-cases l.server.running) [
    | inl on ↦ simp on (
        Ensures-bind (round-MoreBy l s)
          λ flow t h. later-MoreBy n l flow t h λ l'. rounds-MoreBy n l' t)
    | inr off ↦ rw off (returned (omega arith))
  ]

  -- However many workers a server begins with, if `n` rounds of `Start` return then there are at
  -- most `n` more.
  pub start-MoreBy :
      (n : ℕ) (server : Server p) (s : Io p)
      → Ensures (λ flow _. MoreBy n server.vec_work flow) (start p parts n server s)
  unfolding start
  start-MoreBy n server s =
      Ensures-then (clock_after p heartbeat_interval s) λ at t. rounds-MoreBy n _ t
