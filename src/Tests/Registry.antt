-- ===== src/Tests/Registry.antt =====
-- The list of workers: the theorems at concrete inputs.
use zmq_proxy.Server.Registry.Table.{expiry_of}
use zmq_proxy.Server.Spec.{unexpired}
use zmq_proxy.Cmd.{Ensures, Returns, returns, pure, ◌>>=◌}
use zmq_proxy.Example.{
  fixed-Memory, fixed-laws, fixed_io, fixed_server, fixed, scripted, scripted-laws, scripted-Memory,
  Script, quiet, io, worker, server_with, final,
}
use zmq_proxy.Platform.{query, int64}
use zmq_proxy.Prelude.{◌≡◌, refl, [], ◌∷◌, codes, arith, if◌then◌else◌, str_eq, Bytes, some}
use zmq_proxy.Server.Registry.Check.{live, check_worker-live}
use zmq_proxy.Server.Registry.Choice.{Answers, get_worker-Answers}
use zmq_proxy.Server.Registry.Expiry.{make_new_worker-expiry_of, check_worker-unexpired}
use zmq_proxy.Server.Registry.Identities.{Registered, make_new_worker-Registered, member}
use zmq_proxy.Server.Registry.{erase_at, check_loop, make_new_worker, get_worker, check_worker}
use zmq_proxy.Server.State.{Server, s_clock}

abbrev two_workers : Server scripted
two_workers = server_with (worker (codes "w1") 9000 ∷ worker (codes "w2") 13000 ∷ [])

-- The clock stands still at 0 seconds once its readings have run out.
abbrev stopped : Script
stopped = record quiet { seconds = [] }

check_worker-live_example :
    check_worker scripted two_workers (io quiet)
    ≡ (s_clock scripted >>= λ now.
          pure (record two_workers { vec_work = live now two_workers.vec_work }))
        (io quiet)
check_worker-live_example = check_worker-live scripted two_workers (io quiet)

-- At 10 seconds the first of the two workers has expired.
check_worker_runs :
    check_worker scripted two_workers (io quiet)
    ≡ returns
        (server_with (worker (codes "w2") 13000 ∷ []))
        (io (record quiet { seconds = 10 ∷ 10 ∷ 10 ∷ 10 ∷ 10 ∷ [] }))
unfolding check_worker check_loop erase_at s_clock query int64
check_worker_runs = refl

make_new_worker-Registered_example :
    Ensures
      (λ server' _. Registered scripted (codes "w1") two_workers server')
      (make_new_worker scripted (final (codes "w1")) two_workers (io quiet))
make_new_worker-Registered_example =
    make_new_worker-Registered scripted scripted-laws (final (codes "w1")) two_workers (io quiet)

get_worker-Answers_example :
    Returns
      (λ ret t. Answers scripted two_workers.vec_work ret × (t.sent ≡ []))
      (get_worker scripted (final []) two_workers (io quiet))
get_worker-Answers_example =
    get_worker-Answers scripted scripted-laws scripted-Memory (final []) two_workers (io quiet)

abbrev at_ten : Server (fixed 10)
at_ten = fixed_server 10 (worker (codes "w1") 9000 ∷ worker (codes "w2") 13000 ∷ [])

make_new_worker-expiry_of_example :
    Returns
      (λ server' _.
        (id : Bytes)
        → expiry_of (fixed 10) id server'.vec_work ≡ (
            if str_eq (codes "w1") id then some 13000 else expiry_of (fixed 10) id at_ten.vec_work))
      (make_new_worker (fixed 10) (final (codes "w1")) at_ten (fixed_io 10))
make_new_worker-expiry_of_example =
    make_new_worker-expiry_of (fixed 10) 10 (final (codes "w1")) at_ten (fixed_io 10)
      (fixed-laws 10) (fixed-Memory 10) (λ w. refl) (omega arith)

check_worker-unexpired_example :
    Returns
      (λ server' _.
        (id : Bytes)
        → expiry_of (fixed 10) id server'.vec_work
          ≡ unexpired 10000 (expiry_of (fixed 10) id at_ten.vec_work))
      (check_worker (fixed 10) at_ten (fixed_io 10))
unfolding member str_eq
check_worker-unexpired_example =
    check_worker-unexpired (fixed 10) 10 at_ten (fixed_io 10) (λ w. refl) (omega arith)
      (refl, (refl, tt))
