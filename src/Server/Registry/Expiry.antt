-- ===== src/Server/Registry/Expiry.antt =====
-- src/zmq_server.cc: `MakeNewWorker` and `CheckWorker` on the map from identities to expiry times, at
-- a clock that stands still.
use zmq_proxy.Cmd.{Returns-mono, Returns, yields, Returns-bind}
use zmq_proxy.Platform.{Platform, MessageLaws, Memory, Io}
use zmq_proxy.Prelude.{ℕ, ◌+◌, ◌*◌, ◌^◌, ◌<◌, ◌≡◌, refl, ◌∙◌, some, Bytes, if◌then◌else◌, str_eq}
use zmq_proxy.Server.Registry.Check.{check_worker-live}
use zmq_proxy.Server.Registry.Identities.{Distinct, ids}
use zmq_proxy.Server.Registry.{make_new_worker, check_worker}
use zmq_proxy.Server.State.{Server, lifetime}
use zmq_proxy.Server.Clock.{ClockReads, s_clock-Returns}
use zmq_proxy.Server.Registry.Insertion.{make_new_worker-insert}
use zmq_proxy.Server.Registry.Table.{expiry_of, expiry_of-live}
use zmq_proxy.Server.Spec.{unexpired}

module _ (p : Platform) where
  open p use {Msg}

  -- If the clock reads `t` seconds, within the range of `int64_t`, and the workers have distinct
  -- identities, then `CheckWorker` returns, and each identity has the expiry time from before, or
  -- none if that is below the clock.
  pub check_worker-unexpired :
      (t : ℕ) (server : Server p) (s : Io p)
      → ClockReads p t
      → t * 1000 < 2 ^ 63
      → Distinct (ids p server.vec_work)
      → Returns
          (λ server' _.
            (id : Bytes)
            → expiry_of p id server'.vec_work
              ≡ unexpired (t * 1000) (expiry_of p id server.vec_work))
          (check_worker p server s)
  check_worker-unexpired t server s reads fits d = rw (check_worker-live p server s) (
      Returns-bind (s_clock-Returns p t s reads fits)
        λ now u (e, kept). yields λ id. rw e (expiry_of-live p (t * 1000) id server.vec_work d))

  -- If the clock reads `t` seconds, the new time is within the range of `int64_t`, memory does not
  -- run out and messages behave as documented, then `MakeNewWorker` returns, the given identity
  -- expires at `t * 1000 + lifetime`, and every other identity has the expiry time from before, or
  -- none if it had none.
  pub make_new_worker-expiry_of :
      (t : ℕ) (identity : Msg) (server : Server p) (s : Io p)
      → MessageLaws p
      → Memory p
      → ClockReads p t
      → t * 1000 + lifetime < 2 ^ 63
      → Returns
          (λ server' _.
            (id : Bytes)
            → expiry_of p id server'.vec_work ≡ (
                if str_eq (p.zmq_msg_data identity) id
                then some (t * 1000 + lifetime)
                else expiry_of p id server.vec_work))
          (make_new_worker p identity server s)
  make_new_worker-expiry_of t identity server s laws memory reads fits =
      Returns-mono (make_new_worker-insert p (λ w. rw (reads w) fits) identity server s laws memory)
        λ server' u ((now, (w, _, e, _), at), _) id. at id ∙ rw (e, reads w) refl
