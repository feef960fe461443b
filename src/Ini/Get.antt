-- ===== src/Ini/Get.antt =====
-- src/ini.c: `ini_get`, on the strings that `split_data` leaves.
use zmq_proxy.Cmd.{Cmd, out_of_fuel, pure, ◌>>=◌}
use zmq_proxy.Ini.Buffer.{read, next, strcmpci}
use zmq_proxy.Prelude.{
  ℕ, zero, suc, ◌+◌, Bool, true, false, none, some, Option, [], ◌∷◌, Bytes, if◌then◌else◌, ltb,
  ◌==◌,
}

-- `!section || !strcmpci(section, current_section)`. The section before the first header is `none`,
-- the literal "".
unfoldable pub in_section : Option Bytes → Option ℕ → Cmd Bytes Bool
in_section none current_section = pure true
in_section (some []) none = pure true
in_section (some (x ∷ _)) none = pure (x == 0)
in_section (some section) (some q) = strcmpci section q

-- The loop of `ini_get`: where the value starts, or `none` for NULL.
unfoldable pub get_loop : ℕ → ℕ → ℕ → Option Bytes → Bytes → Option ℕ → ℕ → Cmd Bytes (Option ℕ)
get_loop zero fuel end section key current_section p = λ _. out_of_fuel
get_loop (suc rounds) fuel end section key current_section p =
    if ltb p end
    then (do
      c ← read p
      if c == b'['
          then (do q ← next fuel end p; get_loop rounds fuel end section key (some (p + 1)) q)
          else (do
            val ← next fuel end p
            here ← in_section section current_section
            found ← if here then strcmpci key p else pure false
            if found then pure (some val) else (do
              q ← next fuel end val
              get_loop rounds fuel end section key current_section q)))
    else pure none

unfoldable pub ini_get : ℕ → ℕ → Option Bytes → Bytes → Cmd Bytes (Option ℕ)
ini_get fuel end section key = do
  c ← read 0
  p ← if c == 0 then next fuel end 0 else pure 0
  get_loop fuel fuel end section key none p
