-- ===== src/Tests/Errors.antt =====
-- What goes wrong: the theorems at platforms whose calls fail.
use zmq_proxy.Cmd.{Returns, Throws, error_t, undefined, throws}
use zmq_proxy.Example.Busy.{
  choosy, choosy-laws, choosy-Memory, choosy-Yields, choosy-Steady, choosy-Fed,
}
use zmq_proxy.Example.{fixed, quiet}
use zmq_proxy.Platform.{failed, Platform, Io, negsuc}
use zmq_proxy.Multipart.Outcomes.{Prefix}
use zmq_proxy.Server.Refines.Runs.{Runs}
use zmq_proxy.Server.Proxy.Total.{start-Returns}
use zmq_proxy.Prelude.{true, ◌≡◌, refl, false, [], if◌then◌else◌, ◌==◌, arith}
use zmq_proxy.Server.Proxy.Errors.{start-Throws, backend-recv_fails}
use zmq_proxy.Server.Proxy.{start, backend}
use zmq_proxy.Server.State.{Server}

-- A signal interrupts every poll: 4 is EINTR.
abbrev interrupted : Platform
interrupted = record (fixed 10) {
  zmq_poll = λ socks timeout w. (record { rc = negsuc 0; errno = 4; pollin = λ _. false }, w);
}

abbrev idle : Server interrupted
idle = record { running = false; front_sock = 0; back_sock = 1; vec_work = [] }

abbrev at_start : Io interrupted
at_start = record { world = quiet; sent = [] }

start-Throws_example :
    Throws (λ e t. (e ≡ error_t 4) × (t.sent ≡ [])) (start interrupted 2 3 idle at_start)
start-Throws_example =
    start-Throws interrupted 2 4 (λ socks timeout w. (0, refl, refl)) (λ w. omega arith) 2 idle
      at_start

-- The same for every receipt.
abbrev cut_off : Platform
cut_off = record (fixed 10) { zmq_msg_recv = λ sock flags w. (failed 4, w) }

abbrev crewed : Server cut_off
crewed = record { running = true; front_sock = 0; back_sock = 1; vec_work = [] }

abbrev in_loop : Io cut_off
in_loop = record { world = quiet; sent = [] }

backend-recv_fails_example :
    backend cut_off 9 crewed in_loop
    ≡ (if 4 == cut_off.eagain then undefined else throws (error_t 4) in_loop)
backend-recv_fails_example = backend-recv_fails cut_off 8 4 crewed in_loop quiet refl

abbrev cut_short : Server choosy
cut_short = record { running = false; front_sock = 0; back_sock = 1; vec_work = [] }

abbrev beforehand : Io choosy
beforehand = record { world = quiet; sent = [] }

start-Returns_example :
    Returns
      (λ flow t. Runs choosy (Prefix choosy) 5 cut_short beforehand flow t)
      (start choosy 2 5 cut_short beforehand)
start-Returns_example =
    start-Returns choosy 2 choosy-laws choosy-Memory choosy-Yields choosy-Steady 5 cut_short
      beforehand (choosy-Fed 1) (choosy-Fed 0) tt
