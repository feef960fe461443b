-- ===== src/Server/Registry/Identities.antt =====
-- src/zmq_server.cc: the identities of the workers, and what the operations on the list do to them.
use zmq_proxy.Cmd.{Ensures, returned, Ensures-bind, Ensures-then}
use zmq_proxy.Platform.{Platform, MessageLaws, Io, checked-Ensures}
use zmq_proxy.Prelude.{
  ◌≡◌, refl, ap, Bool, false, ◌||◌, List, [], ◌∷◌, ◌++◌, Bytes, map, length, map-append,
  if◌then◌else◌, arith, Bool-cases, inl, inr, str_eq, str_eq_comm,
}
use zmq_proxy.Server.Registry.{update_expiry, make_new_worker}
use zmq_proxy.Server.State.{lifetime, Worker, Server, clock_after}
use zmq_proxy.Zmq
use zmq_proxy.Zmq.Calls.{equal-str_eq}

-- Whether `id` is one of the byte strings.
unfoldable pub member : Bytes → List Bytes → Bool
member id [] = false
member id (x ∷ xs) = str_eq x id || member id xs

-- No byte string stands twice in the list.
abbrev pub Distinct : List Bytes → Type 0
Distinct [] = Unit {0}
Distinct (x ∷ xs) = (member x xs ≡ false) × Distinct xs

member-concat :
    (x id : Bytes) (xs : List Bytes) → member x (xs ++ id ∷ []) ≡ (member x xs || str_eq id x)
unfolding member
member-concat x id [] = ground arith
member-concat x id (y ∷ xs) = ground (arith, member-concat x id xs)

pub Distinct-concat :
    (id : Bytes) (xs : List Bytes) → member id xs ≡ false → Distinct xs → Distinct (xs ++ id ∷ [])
unfolding member
Distinct-concat id [] out d = (refl, tt)
Distinct-concat id (x ∷ xs) out d = (
  ground (arith, member-concat x id xs, str_eq_comm x id),
  Distinct-concat id xs (ground arith) d.1,
)

module _ (p : Platform) where
  open p use {Msg}

  -- The bytes of the identities of the workers, in order.
  abbrev pub ids : List (Worker Msg) → List Bytes
  ids = map (λ w. p.zmq_msg_data w.identity)

  -- The loop of `MakeNewWorker` finds the worker if it is there, and keeps the identities.
  update_expiry-ids :
      (identity : Msg) (ws : List (Worker Msg)) (s : Io p)
      → Ensures
          (λ (found, ws') _.
            (found ≡ member (p.zmq_msg_data identity) (ids ws)) × (ids ws' ≡ ids ws))
          (update_expiry p identity ws s)
  unfolding update_expiry member
  update_expiry-ids identity [] s = returned (refl, refl)
  update_expiry-ids identity (w ∷ ws) s =
      rw (equal-str_eq p w.identity identity)
        (elim (Bool-cases (str_eq (p.zmq_msg_data w.identity) (p.zmq_msg_data identity))) [
          | inl hit ↦ rw hit (Ensures-then (clock_after p lifetime s) λ e t. returned (refl, refl))
          | inr miss ↦ rw miss (
              Ensures-bind (update_expiry-ids identity ws s)
                λ r t h. returned (h.0, ap (◌∷◌ (p.zmq_msg_data w.identity)) h.1))
        ])

  -- The bytes of a message that is built from a block are the block.
  message_of-data :
      MessageLaws p
      → (b : Bytes) (s : Io p) → Ensures (λ m _. p.zmq_msg_data m ≡ b) (Zmq.message_of p b s)
  unfolding Zmq.message_of
  message_of-data laws b s =
      Ensures-bind
        (checked-Ensures p (p.zmq_msg_init_size (length b)) s λ m w e. laws.size_of_init _ _ w m e)
        λ m t h. returned (laws.data_of_memcpy m b h)

  -- What `MakeNewWorker` makes of a server: the identity `id` is added at the end exactly if no
  -- worker has it, and no other identity changes, nor any other member.
  pub record Registered (id : Bytes) (server server' : Server p) : Type 0 where
    pub running : server'.running ≡ server.running
    pub front_sock : server'.front_sock ≡ server.front_sock
    pub back_sock : server'.back_sock ≡ server.back_sock
    pub identities : ids server'.vec_work ≡ (
        if member id (ids server.vec_work)
        then ids server.vec_work
        else ids server.vec_work ++ id ∷ [])

  -- If messages behave as documented and `MakeNewWorker` returns, then the identities are those
  -- from before, in their order, with the given one behind them exactly if no worker had it; the
  -- sockets and the flag are unchanged.
  pub make_new_worker-Registered :
      MessageLaws p
      → (identity : Msg) (server : Server p) (s : Io p)
      → Ensures
          (λ server' _. Registered (p.zmq_msg_data identity) server server')
          (make_new_worker p identity server s)
  unfolding make_new_worker
  make_new_worker-Registered laws identity server s =
      Ensures-bind (update_expiry-ids identity server.vec_work s) λ (found, ws) t (f, same).
        elim (Bool-cases found) [
          | inl old ↦ rw old (
              returned (record {
                running = refl;
                front_sock = refl;
                back_sock = refl;
                identities = rw (← f, old) same;
              }))
          | inr new ↦ rw new (
              Ensures-bind (message_of-data laws (p.zmq_msg_data identity) t) λ m u d.
                Ensures-then (clock_after p lifetime u) λ e v. returned (record {
                  running = refl;
                  front_sock = refl;
                  back_sock = refl;
                  identities = rw (← f, new, map-append, same, d);
                }))
        ]
