-- ===== src/Ini/Split.antt =====
-- src/ini.c: `split_data`, which cuts the file in place into section headers, keys and values.
use zmq_proxy.Cmd.{Cmd, out_of_fuel, pure, ◌>>=◌, ◌>>◌}
use zmq_proxy.Ini.Buffer.{read, write, skip_to, trim_back, discard_line}
use zmq_proxy.Prelude.{
  ℕ, zero, suc, ◌+◌, not, ◌||◌, none, some, Option, Bytes, if◌then◌else◌, ltb, ◌==◌,
}

-- What stands for an escaped character: `none` where the line or the file ends instead.
unfoldable pub escaped : ℕ → Option ℕ
escaped c =
    if c == b'r'
    then some b'\r'
    else if c == b'n'
    then some b'\n'
    else if c == b't'
    then some b'\t'
    else if c == b'\r' || c == b'\n' || c == 0
    then none
    else some c

-- The loop of `unescape_quoted_value`, with the read-head `p` and the write-head `q`.
unfoldable pub unescape_loop : ℕ → ℕ → ℕ → ℕ → Cmd Bytes ℕ
unescape_loop zero end p q = λ _. out_of_fuel
unescape_loop (suc fuel) end p q =
    if ltb p end
    then (do
      c ← read p
      if c == b'"' || c == b'\r' || c == b'\n'
          then pure q
          else (if c == b'\\'
              then (do
                e ← read (p + 1)
                elim (escaped e) [
                  | none ↦ pure q
                  | some v ↦ write q v >> unescape_loop fuel end (p + 2) (q + 1)
                ])
              else (write q c >> unescape_loop fuel end (p + 1) (q + 1))))
    else pure q

unfoldable pub unescape_quoted_value : ℕ → ℕ → ℕ → Cmd Bytes ℕ
unescape_quoted_value fuel end p = unescape_loop fuel end (p + 1) p

-- `do { *p++ = '\0'; } while (*p == ' ' || *p == '\r' || *p == '\t');`
unfoldable pub blank_loop : ℕ → ℕ → Cmd Bytes ℕ
blank_loop zero p = λ _. out_of_fuel
blank_loop (suc fuel) p = do
  write p 0
  c ← read (p + 1)
  if c == b' ' || c == b'\r' || c == b'\t' then blank_loop fuel (p + 1) else pure (p + 1)

-- The value of a line, whose first character is at `p`.
unfoldable pub split_value : ℕ → ℕ → ℕ → ℕ → Cmd Bytes ℕ
split_value fuel end line_start p = do
  c ← read p
  if c == b'\n' || c == 0
      then discard_line fuel end line_start
      else (if c == b'"'
          then (do
            q ← unescape_quoted_value fuel end p
            if q == p then discard_line fuel end line_start else discard_line fuel end q)
          else (do q ← skip_to fuel (λ d. d == b'\n') p; trim_back q; pure q))

-- The `default` case: a line with a key.
unfoldable pub split_line : ℕ → ℕ → ℕ → Cmd Bytes ℕ
split_line fuel end line_start = do
  p ← skip_to fuel (λ d. d == b'=' || d == b'\n') line_start
  c ← read p
  if not (c == b'=')
      then discard_line fuel end line_start
      else (do trim_back p; q ← blank_loop fuel p; split_value fuel end line_start q)

-- The `switch` on the character `c` at `p`.
unfoldable pub split_step : ℕ → ℕ → ℕ → ℕ → Cmd Bytes ℕ
split_step fuel end p c =
    if c == b'\r' || c == b'\n' || c == b'\t' || c == b' '
    then (write p 0 >> pure (p + 1))
    else if c == 0
    then pure (p + 1)
    else if c == b'['
    then (do q ← skip_to fuel (λ d. d == b']' || d == b'\n') p; write q 0; pure q)
    else if c == b';'
    then discard_line fuel end p
    else split_line fuel end p

-- The loop of `split_data`, with fuel for its rounds and for the loops inside.
unfoldable pub split_loop : ℕ → ℕ → ℕ → ℕ → Cmd Bytes (Unit {0})
split_loop zero fuel end p = λ _. out_of_fuel
split_loop (suc rounds) fuel end p =
    if ltb p end
    then (do c ← read p; q ← split_step fuel end p c; split_loop rounds fuel end q)
    else pure tt

unfoldable pub split_data : ℕ → ℕ → Cmd Bytes (Unit {0})
split_data fuel end = split_loop fuel fuel end 0
