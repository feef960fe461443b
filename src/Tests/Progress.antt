-- ===== src/Tests/Progress.antt =====
-- Peers that send when they like: the theorem at a platform with boxes, and a run on it.
use zmq_proxy.Cmd.{Run, returns, Returns}
use zmq_proxy.Example.{followed, final}
use zmq_proxy.Multipart.Outcomes.{Prefix}
use zmq_proxy.Platform.{Io, Frame}
use zmq_proxy.Prelude.{ℕ, ◌<◌, ◌⊎◌, ◌≡◌, List, ◌∷◌, codes, false, [], refl}
use zmq_proxy.Server.Proxy.{Flow, start, round}
use zmq_proxy.Multipart.Wire.{frames}
use zmq_proxy.Example.Mailbox.{
  Door, front_door, back_door, mailbox, mailbox-laws, mailbox-Memory, mailbox-Yields,
  mailbox-Steady, mailbox-Readiness,
}
use zmq_proxy.Server.Refines.Progress.{Stale, start-Progresses}
use zmq_proxy.Server.Refines.Runs.{Runs}
use zmq_proxy.Server.State.{Server}
use zmq_proxy.Server.State.{clock_after, s_clock}
use zmq_proxy.Platform.{query, int64, checked}
use zmq_proxy.Server.Proxy.{
  rounds, serve, backend, dispatch, frontend, heartbeat, heartbeat_loop, refuse,
}
use zmq_proxy.Zmq
use zmq_proxy.Zmq.{poll, copy, message_of}
use zmq_proxy.Multipart.Transfer
use zmq_proxy.Multipart.Transfer.{recv_loop, send_loop}
use zmq_proxy.Multipart.Deque.{pop, remove, split_last}
use zmq_proxy.Multipart.Content.{addstr, pushmem}
use zmq_proxy.Prelude.{str_eq}
use zmq_proxy.Server.Registry.{
  make_new_worker, check_loop, check_worker, erase_at, get_worker, update_expiry,
}

-- A heartbeat of "w1" and a request of "c1" wait.
abbrev waiting : Io mailbox
waiting = record {
  world = record {
    front = followed (codes "c1") ∷ followed [] ∷ final (codes "hi") ∷ [];
    back = followed (codes "w1") ∷ final (codes "HEARTBEAT") ∷ [];
  };
  sent = [];
}

abbrev at_doors : Server mailbox
at_doors = record { running = false; front_sock = front_door; back_sock = back_door; vec_work = [] }

start-Progresses_example :
    Returns
      (λ flow t. Runs mailbox (Prefix mailbox) 9 at_doors waiting flow t)
      (start mailbox 3 9 at_doors waiting)
    ⊎ ((k : ℕ) × (k < 9)
        × Returns
            (λ flow t. Runs mailbox (Prefix mailbox) k at_doors waiting flow t × Stale flow)
            (start mailbox 3 k at_doors waiting))
start-Progresses_example =
    start-Progresses mailbox 3 mailbox-laws mailbox-Memory mailbox-Yields mailbox-Steady
      mailbox-Readiness 9 at_doors waiting (λ e. cc) tt

abbrev sent_by : Run (Io mailbox) (Flow mailbox) → List (Frame Door)
sent_by (returns flow t) = t.sent
sent_by _ = []

-- The request is not read before the worker is known, and goes to it in the second round.
mailbox_run :
    sent_by (start mailbox 3 2 at_doors waiting)
    ≡ frames back_door (codes "w1" ∷ codes "c1" ∷ [] ∷ codes "hi" ∷ [])
unfolding start frames clock_after s_clock query int64 rounds round poll serve backend Transfer.recv
    Zmq.recv Zmq.more pop remove str_eq split_last make_new_worker addstr pushmem recv_loop
    Transfer.send send_loop checked dispatch frontend heartbeat heartbeat_loop refuse check_loop
    check_worker erase_at get_worker update_expiry copy Zmq.equal message_of Zmq.send Zmq.size
mailbox_run = refl
