-- ===== src/Tests/Ini.antt =====
-- The configuration file: the theorems at concrete inputs, and a run on the file of the repository.
use zmq_proxy.Ini.Safety.Lookup.{Inside, ini_get-Inside}
use zmq_proxy.Ini.Safety.Loading.{ini_sget-Returns}
use zmq_proxy.Example.Config.{ports, ports-IsPlain}
use zmq_proxy.Example.Disk.{disk}
use zmq_proxy.Example.{scripted}
use zmq_proxy.Host.{Host}
use zmq_proxy.Platform.{pos}
use zmq_proxy.Ini.Format.{print, cut, lookup, in_scope, same_ci}
use zmq_proxy.Ini.Format.Strings.{no_byte-All}
use zmq_proxy.Ini.Format.Values.{ini_sget-print, stored}
use zmq_proxy.Ini.Load.{number}
use zmq_proxy.Ini.Load.{ini_sget, uninitialised}
use zmq_proxy.Cmd.{Returns, Run, returns, ◌>>◌}
use zmq_proxy.Ini.Buffer.{
  read, write, skip_to, next, next_loop, trim_back, discard_line, strcmpci, tolower,
}
use zmq_proxy.Ini.Get.{ini_get, get_loop, in_section}
use zmq_proxy.Ini.Safety.Splitting.{split_data-Good}
use zmq_proxy.Ini.Split.{
  split_data, split_loop, split_step, split_line, split_value, blank_loop, unescape_quoted_value,
  unescape_loop, escaped,
}
use zmq_proxy.Prelude.{
  true, ℕ, suc, ◌≡◌, refl, some, none, Option, [], ◌∷◌, ◌++◌, codes, arith, length, get_elem?,
  Bytes, ◌+◌, ◌==◌,
}

abbrev config : Bytes
config = codes "[ProxyServer]\n;port\nfront_port = 9999 \nname=\"a\\tb\"x\nback_port=9998"

split_data-Good_example :
    Returns
      (λ _ b. (length b ≡ suc (length config)) × (get_elem? b (length config) ≡ some 0))
      (split_data 100 (length config) (config ++ 0 ∷ []))
split_data-Good_example = split_data-Good config 100 (omega arith)

abbrev machine : Host scripted
machine = disk (some config)

abbrev outcome : Run Bytes (Option ℕ) → Option ℕ
outcome (returns v b) = v
outcome _ = none

abbrev looked_up : Bytes → Option ℕ
looked_up key = outcome (
    (split_data 100 (length config) >> ini_get 100 (length config) (some (codes "proxyserver")) key)
      (config ++ 0 ∷ []))

lookups_run :
    (looked_up (codes "FRONT_PORT") ≡ some 33)
    × (looked_up (codes "back_port") ≡ some 62)
    × (looked_up (codes "port") ≡ none)
unfolding split_data split_loop split_step split_line split_value blank_loop unescape_quoted_value
    unescape_loop escaped ini_get get_loop in_section read write skip_to next next_loop trim_back
    discard_line strcmpci tolower
lookups_run = (refl, refl, refl)

ini_get-Inside_example :
    Returns
      (λ val b. (b ≡ config ++ 0 ∷ []) × Inside (length config) val)
      (ini_get 100 (length config) none (codes "name") (config ++ 0 ∷ []))
ini_get-Inside_example =
    ini_get-Inside (length config) 100 none (codes "name") (config ++ 0 ∷ []) refl refl
      (omega arith)

ini_sget-Returns_example :
    Returns
      (λ _ b. b ≡ config ++ 0 ∷ [])
      (ini_sget (length config) none (codes "name") none uninitialised (config ++ 0 ∷ []))
ini_sget-Returns_example =
    ini_sget-Returns (length config) none (codes "name") none uninitialised (config ++ 0 ∷ [])
      (refl, refl)

ini_sget-print_example :
    (split_data (length (print ports) + 1) (length (print ports))
        >> ini_sget
            (length (print ports))
            (some (codes "proxyserver"))
            (codes "Back_Port")
            (some machine.sscanf_d)
            uninitialised)
      (print ports ++ 0 ∷ [])
    ≡ returns
        (stored machine.sscanf_d uninitialised
          (lookup (some (codes "proxyserver")) (codes "Back_Port") [] ports))
        (cut ports ++ 0 ∷ [])
ini_sget-print_example =
    ini_sget-print ports (some (codes "proxyserver")) (codes "Back_Port") machine.sscanf_d
      uninitialised ports-IsPlain (no_byte-All (λ c. c == 0) (codes "proxyserver") refl)
      (no_byte-All (λ c. c == 0) (codes "Back_Port") refl)

back_port_stored :
    stored machine.sscanf_d uninitialised
      (lookup (some (codes "proxyserver")) (codes "Back_Port") [] ports)
    ≡ (true, number (pos 9998))
unfolding stored lookup in_scope same_ci tolower
back_port_stored = refl
