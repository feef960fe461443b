-- ===== src/Ini/Load.antt =====
-- src/ini.c: `ini_load` and `ini_sget`. An `ini_t` is the block at `data`, whose last byte is the one
-- at `end`. What `ini_free` frees is not used again and has no state here.
use zmq_proxy.Cmd.{Run, Cmd, returns, throws, undefined, out_of_fuel, pure, ◌>>=◌, ◌>>◌}
use zmq_proxy.Host.{Host}
use zmq_proxy.Ini.Buffer.{read, write}
use zmq_proxy.Ini.Get.{ini_get}
use zmq_proxy.Ini.Split.{split_data}
use zmq_proxy.Platform.{Platform, Status, pos, negsuc, Io, query}
use zmq_proxy.Prelude.{
  ℕ, zero, suc, ◌+◌, Bool, true, false, Option, none, some, [], ◌∷◌, Bytes, length, if◌then◌else◌,
  ◌==◌, ◌^◌, ◌-◌, ◌%◌, ltb,
}

-- What a variable holds that `ini_sget` writes through `dst`.
pub data Dst : Type 0 where
  uninitialised : Dst
  number : Status → Dst
  pointer : ℕ → Dst

-- The bytes that fread stores at the start of the block.
unfoldable pub overlay : Bytes → Bytes → Bytes
overlay [] b = b
overlay (x ∷ xs) [] = []
overlay (x ∷ xs) (y ∷ b) = x ∷ overlay xs b

-- The string at `p`, up to its NUL.
unfoldable pub string_at : ℕ → ℕ → Cmd Bytes Bytes
string_at zero p = λ _. out_of_fuel
string_at (suc fuel) p = do
  c ← read p
  if c == 0 then pure [] else (do rest ← string_at fuel (p + 1); pure (c ∷ rest))

-- `ini_sget`, behind the call of `ini_get`.
unfoldable pub store : ℕ → Option (Bytes → Option Status) → Dst → Option ℕ → Cmd Bytes (Bool × Dst)
store fuel scanfmt dst none = pure (false, dst)
store fuel none dst (some val) = pure (true, pointer val)
store fuel (some scan) dst (some val) = do
  string ← string_at fuel val
  pure (true, elim (scan string) [ none ↦ dst | some n ↦ number n ])

-- `ini_sget`. `scanfmt` is given by what its conversion makes of a string, or is NULL.
unfoldable pub ini_sget :
    ℕ → Option Bytes → Bytes → Option (Bytes → Option Status) → Dst → Cmd Bytes (Bool × Dst)
ini_sget end section key scanfmt dst = do
  val ← ini_get (end + 1) end section key
  store (end + 1) scanfmt dst val

-- The `int` of 32 bits with this two's complement.
unfoldable pub int_of_bits : ℕ → Status
int_of_bits m = if ltb m (2 ^ 31) then pos m else negsuc (2 ^ 32 - 1 - m)

-- What an `int` of 32 bits holds that a `long` is stored in.
unfoldable pub int_of : Status → Status
int_of (pos n) = int_of_bits (n % 2 ^ 32)
int_of (negsuc n) = int_of_bits (2 ^ 32 - 1 - n % 2 ^ 32)

module _ (p : Platform) where
  abbrev pub on_block : {A : Type 0} → Io p → Run Bytes A → Run (Io p) (A × Bytes)
  on_block s (returns a b) = returns (a, b) s
  on_block s (throws e b) = throws e s
  on_block s undefined = undefined
  on_block s out_of_fuel = out_of_fuel

  -- Code that works on a block.
  unfoldable pub within : {A : Type 0} → Bytes → Cmd Bytes A → Cmd (Io p) (A × Bytes)
  within b c s = on_block s (c b)

  module _ (h : Host p) where
    open h use {File}

    -- `ini_load`, from `ini->data[sz] = '\0'` on.
    unfoldable pub load_block : File → ℕ → Bytes → Cmd (Io p) (Option Bytes)
    load_block fp sz data_ = do
      (_, ended) ← within data_ (write sz 0)
      stored ← query p (h.fread fp sz)
      let filled = overlay stored ended
      if length stored == sz
          then (do
            (_, split) ← within filled (split_data (sz + 1) sz)
            query p (h.fclose fp)
            pure (some split))
          else (query p (h.fclose fp) >> pure none)

    -- `ini_load`, from `malloc(sz + 1)` on: the sum overflows for the largest `int`, and a negative
    -- size and a NULL block are written through.
    unfoldable pub load_sized : File → Status → Cmd (Io p) (Option Bytes)
    load_sized fp (negsuc _) = λ _. undefined
    load_sized fp (pos sz) =
        if ltb (sz + 1) (2 ^ 31)
        then (do
          data_ ← query p (h.malloc (sz + 1))
          elim data_ [ none ↦ λ _. undefined | some block ↦ load_block fp sz block ])
        else λ _. undefined

    -- `ini_load`, on the open file: the `long` of `ftell` is stored in an `int`.
    unfoldable pub load_file : File → Cmd (Io p) (Option Bytes)
    load_file fp = do
      query p (h.fseek_end fp)
      size ← query p (h.ftell fp)
      query p (h.rewind fp)
      load_sized fp (int_of size)

    -- `ini_load`, behind `fopen`.
    unfoldable pub load_opened : Option File → Cmd (Io p) (Option Bytes)
    load_opened none = pure none
    load_opened (some fp) = load_file fp

    unfoldable pub ini_load : Bytes → Cmd (Io p) (Option Bytes)
    ini_load filename = do
      ini ← query p (h.malloc h.sizeof_ini_t)
      elim ini [
        | none ↦ pure none
        | some _ ↦ do opened ← query p (h.fopen filename); load_opened opened
      ]
