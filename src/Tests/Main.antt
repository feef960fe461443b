-- ===== src/Tests/Main.antt =====
-- The whole program: the theorems at concrete inputs, and a run on the file of the repository.
use zmq_proxy.Ini.Format.{print_entry}
use zmq_proxy.Prelude.{length, ◌+◌, ◌<◌, ◌^◌, arith}
use zmq_proxy.Cmd.{Ensures, Returns, Run, returns}
use zmq_proxy.Example.Disk.{
  disk, disk-laws, disk-Roomy, busy_disk, busy_disk-laws, busy_disk-Roomy, busy_disk-Opens, digits,
  decimal,
}
use zmq_proxy.Example.{scripted, scripted-laws, quiet, io}
use zmq_proxy.Host.{Host}
use zmq_proxy.Example.Config.{ports, ports-IsPlain}
use zmq_proxy.Example.Disk.{disk-Contains}
use zmq_proxy.Ini.Format.{print}
use zmq_proxy.Main.Configured.{BoundBy, main-Configured}
use zmq_proxy.Ini.Load.{overlay, within, load_block, load_file, load_opened, ini_load}
use zmq_proxy.Ini.Safety.Loading.{Valid, ini_load-Valid}
use zmq_proxy.Example.Busy.{busy, busy-laws, busy-Memory, busy-Yields, busy-Steady, busy-Fed}
use zmq_proxy.Main.Outcome.{Outcome, Garbage, Ran, main-Outcome}
use zmq_proxy.Main.{Exit, main, config_file}
use zmq_proxy.Platform.{Io}
use zmq_proxy.Ini.Buffer.{
  read, write, skip_to, next, next_loop, trim_back, discard_line, strcmpci, tolower,
}
use zmq_proxy.Ini.Get.{ini_get, get_loop, in_section}
use zmq_proxy.Ini.Split.{
  split_data, split_loop, split_step, split_line, split_value, blank_loop, unescape_quoted_value,
  unescape_loop, escaped,
}
use zmq_proxy.Ini.Load.{
  load_sized, int_of, int_of_bits, load_opened, load_file, load_block, within, overlay, ini_sget,
  store, string_at,
}
use zmq_proxy.Main.{or_minus_one, sget_port, run_server, read_port, new_context}
use zmq_proxy.Server.Setup.{new_server, new_socket, bind, setsockopt, endpoint}
use zmq_proxy.Server.Proxy.{start, rounds}
use zmq_proxy.Server.State.{clock_after, s_clock}
use zmq_proxy.Platform.{int64, query, checked}
use zmq_proxy.Prelude.{ℕ, ◌≡◌, refl, some, List, [], ◌∷◌, Bytes, codes}

-- config.ini, without its comment
abbrev repository_config : Bytes
repository_config = codes "[ProxyServer]\nfront_port=9999\nback_port=9998"

abbrev machine : Host scripted
machine = disk (some repository_config)

ini_load-Valid_example :
    Returns (λ ini _. Valid ini) (ini_load scripted machine config_file (io quiet))
ini_load-Valid_example =
    ini_load-Valid scripted machine (disk-laws (some repository_config))
      (disk-Roomy (some repository_config) (omega arith)) config_file (io quiet)

abbrev bound_by : Run (Io scripted) (Exit scripted) → List (ℕ × Bytes)
bound_by (returns exit s) = s.world.bound
bound_by _ = []

main_runs :
    bound_by (main scripted machine 9 0 (io quiet))
    ≡ (0, codes "tcp://*:9999") ∷ (1, codes "tcp://*:9998") ∷ []
unfolding main ini_load load_opened load_file load_sized int_of int_of_bits load_block within
    overlay split_data split_loop split_step split_line split_value blank_loop unescape_quoted_value
    unescape_loop escaped read write skip_to next next_loop trim_back discard_line strcmpci tolower
    ini_get get_loop in_section ini_sget store string_at or_minus_one sget_port run_server read_port
    new_context new_server new_socket bind setsockopt endpoint decimal digits start rounds
    clock_after s_clock int64 query checked
main_runs = refl

abbrev site : Host busy
site = busy_disk (some repository_config)

abbrev boot : Io busy
boot = record { world = quiet; sent = [] }

main-Outcome_example :
    Outcome (Garbage busy site boot) (Ran busy site 5 boot) (main busy site 2 5 boot)
main-Outcome_example =
    main-Outcome busy site (busy_disk-Opens (some repository_config)) busy-laws busy-Memory
      busy-Yields 2 busy-Steady busy-Fed 5 (busy_disk-laws (some repository_config))
      (busy_disk-Roomy (some repository_config) (omega arith)) boot

abbrev installed : Host scripted
installed = disk (some (print ports))

fits_int : length (print ports) + 1 < 2 ^ 31
unfolding print print_entry
fits_int = omega arith

main-Configured_example :
    Ensures
      (λ exit _. BoundBy scripted installed ports exit)
      (main scripted installed 9 2 (io quiet))
main-Configured_example =
    main-Configured scripted installed ports ports-IsPlain scripted-laws
      (disk-laws (some (print ports))) (disk-Contains config_file (print ports) fits_int) 9 2
      (io quiet)
