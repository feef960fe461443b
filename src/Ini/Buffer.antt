-- ===== src/Ini/Buffer.antt =====
-- src/ini.c: the file in memory. The state is the block that `ini->data` points to: `sz` bytes and
-- the NUL behind them; a pointer into it is its index. A read or a write outside is undefined. The
-- loops run on fuel.
use zmq_proxy.Cmd.{Cmd, returns, undefined, out_of_fuel, pure, ◌>>=◌, ◌>>◌}
use zmq_proxy.Prelude.{
  ℕ, zero, suc, ◌+◌, Bool, false, not, ◌&&◌, ◌||◌, none, some, [], ◌∷◌, Bytes, length, get_elem?,
  set, if◌then◌else◌, ltb, leb, ◌==◌,
}

-- `*p`
unfoldable pub read : ℕ → Cmd Bytes ℕ
read p b = elim (get_elem? b p) [ none ↦ undefined | some c ↦ returns c b ]

-- `*p = c`
unfoldable pub write : ℕ → ℕ → Cmd Bytes (Unit {0})
write p c b = if ltb p (length b) then returns tt (set b p c) else undefined

-- `tolower`, in the C locale; on a byte above 127, which is negative where `char` is signed, the
-- C standard leaves it undefined, and it is the byte here
unfoldable pub tolower : ℕ → ℕ
tolower c = if leb b'A' c && leb c b'Z' then c + 32 else c

-- `p + strcspn(p, reject)`, where `reject` is given by a test. With no `reject` it is `p + strlen(p)`.
unfoldable pub skip_to : ℕ → (ℕ → Bool) → ℕ → Cmd Bytes ℕ
skip_to zero reject p = λ _. out_of_fuel
skip_to (suc fuel) reject p = do
  c ← read p
  if c == 0 || reject c then pure p else skip_to fuel reject (p + 1)

abbrev pub nothing : ℕ → Bool
nothing c = false

-- The loop of `next`, over the NULs.
unfoldable pub next_loop : ℕ → ℕ → ℕ → Cmd Bytes ℕ
next_loop zero end p = λ _. out_of_fuel
next_loop (suc fuel) end p =
    if ltb p end
    then (do c ← read p; if c == 0 then next_loop fuel end (p + 1) else pure p)
    else pure p

-- `next`
unfoldable pub next : ℕ → ℕ → ℕ → Cmd Bytes ℕ
next fuel end p = do q ← skip_to fuel nothing p; next_loop fuel end q

-- `trim_back`. The pointer is given by the number of bytes up to it and with it, which is 0 where the
-- pointer has passed the start of the block.
unfoldable pub trim_back : ℕ → Cmd Bytes (Unit {0})
trim_back zero = pure tt
trim_back (suc p) = do
  c ← read p
  if c == b' ' || c == b'\t' || c == b'\r' then (write p 0 >> trim_back p) else pure tt

-- `discard_line`
unfoldable pub discard_line : ℕ → ℕ → ℕ → Cmd Bytes ℕ
discard_line zero end p = λ _. out_of_fuel
discard_line (suc fuel) end p =
    if ltb p end
    then (do
      c ← read p
      if not (c == b'\n') then (write p 0 >> discard_line fuel end (p + 1)) else pure p)
    else pure p

-- The loop of `strcmpci` between a string given by its bytes and the string at `b`: whether it
-- returns 0, which is all that its callers look at.
unfoldable pub strcmpci : Bytes → ℕ → Cmd Bytes Bool
strcmpci [] b = do c ← read b; pure (tolower 0 == tolower c)
strcmpci (x ∷ a) b = do
  c ← read b
  if not (tolower x == tolower c) || x == 0
      then pure (tolower x == tolower c)
      else strcmpci a (b + 1)
