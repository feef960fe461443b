-- ===== src/Ini/Safety/Quiet.antt =====
-- src/ini.c: `ini_load` sends nothing.
use zmq_proxy.Cmd.{
  pure, ◌>>=◌, Run, Cmd, Ensures, returned, threw, undef, spent, returns, throws, undefined,
  out_of_fuel, Ensures-bind,
}
use zmq_proxy.Host.{Host}
use zmq_proxy.Ini.Buffer.{write}
use zmq_proxy.Ini.Load.{
  load_sized, int_of, overlay, within, on_block, load_block, load_file, load_opened, ini_load,
}
use zmq_proxy.Ini.Split.{split_data}
use zmq_proxy.Platform.{Platform, Status, Frame, Io, query, pos, negsuc}
use zmq_proxy.Prelude.{
  ℕ, ◌+◌, ◌≡◌, List, Option, none, some, Bytes, length, ◌==◌, Bool-cases, inl, inr, ltb, ◌^◌,
}

module _ (p : Platform) (sent : List (Frame p.Socket)) where
  -- The frames that have been sent are still `sent`.
  abbrev Quiet : {A : Type 0} → Run (Io p) A → Type 0
  Quiet = Ensures λ _ t. t.sent ≡ sent

  Quiet-query :
      {A : Type 0} (f : p.World → A × p.World) (s : Io p) → s.sent ≡ sent → Quiet (query p f s)
  unfolding query
  Quiet-query f s e = returned e

  Quiet-within :
      {A : Type 0} (b : Bytes) (c : Cmd Bytes A) (s : Io p) → s.sent ≡ sent → Quiet (within p b c s)
  unfolding within
  Quiet-within b c s e = on_run (c b)
    where
      on_run : {A : Type 0} (run : Run Bytes A) → Quiet (on_block p s run)
      on_run (returns a b) = returned e
      on_run (throws e b) = threw
      on_run undefined = undef
      on_run out_of_fuel = spent

  module _ (h : Host p) where
    load_block-Quiet :
        (fp : h.File) (sz : ℕ) (data_ : Bytes) (s : Io p)
        → s.sent ≡ sent
        → Quiet (load_block p h fp sz data_ s)
    unfolding load_block
    load_block-Quiet fp sz data_ s e = Ensures-bind (Quiet-within data_ (write sz 0) s e) λ r t e.
        Ensures-bind (Quiet-query (h.fread fp sz) t e) λ stored u e.
          elim (Bool-cases (length stored == sz)) [
            | inl whole ↦ rw whole (
                Ensures-bind (Quiet-within (overlay stored r.1) (split_data (sz + 1) sz) u e)
                  λ split v e. Ensures-bind (Quiet-query (h.fclose fp) v e) λ _ w e. returned e)
            | inr short ↦
                rw short (Ensures-bind (Quiet-query (h.fclose fp) u e) λ _ w e. returned e)
          ]

    -- Behind the `malloc` for the block.
    by_block :
        (fp : h.File) (sz : ℕ) (data_ : Option Bytes) (s : Io p)
        → s.sent ≡ sent
        → Quiet (
            (elim data_ as (λ _. Cmd (Io p) (Option Bytes)) [
              | none ↦ λ _. undefined
              | some block ↦ load_block p h fp sz block
            ])
              s)
    by_block fp sz none s e = undef
    by_block fp sz (some block) s e = load_block-Quiet fp sz block s e

    load_sized-Quiet :
        (fp : h.File) (size : Status) (s : Io p) → s.sent ≡ sent → Quiet (load_sized p h fp size s)
    unfolding load_sized
    load_sized-Quiet fp (negsuc _) s e = undef
    load_sized-Quiet fp (pos sz) s e = elim (Bool-cases (ltb (sz + 1) (2 ^ 31))) [
      | inl fits ↦
          rw fits (
            Ensures-bind (Quiet-query (h.malloc (sz + 1)) s e)
              λ data_ t e. by_block fp sz data_ t e)
      | inr big ↦ rw big undef
    ]

    load_file-Quiet : (fp : h.File) (s : Io p) → s.sent ≡ sent → Quiet (load_file p h fp s)
    unfolding load_file
    load_file-Quiet fp s e = Ensures-bind (Quiet-query (h.fseek_end fp) s e) λ _ t e.
        Ensures-bind (Quiet-query (h.ftell fp) t e) λ size u e.
          Ensures-bind (Quiet-query (h.rewind fp) u e)
            λ _ v e. load_sized-Quiet fp (int_of size) v e

    load_opened-Quiet :
        (opened : Option h.File) (s : Io p) → s.sent ≡ sent → Quiet (load_opened p h opened s)
    unfolding load_opened
    load_opened-Quiet none s e = returned e
    load_opened-Quiet (some fp) s e = load_file-Quiet fp s e

    -- Behind the `malloc` for the `ini_t`.
    by_ini :
        (filename : Bytes) (ini : Option Bytes) (s : Io p)
        → s.sent ≡ sent
        → Quiet (
            (elim ini as (λ _. Cmd (Io p) (Option Bytes)) [
              | none ↦ pure none
              | some _ ↦ query p (h.fopen filename) >>= λ opened. load_opened p h opened
            ])
              s)
    by_ini filename none s e = returned e
    by_ini filename (some _) s e =
        Ensures-bind (Quiet-query (h.fopen filename) s e) λ opened t e. load_opened-Quiet opened t e

    pub ini_load-Quiet :
        (filename : Bytes) (s : Io p)
        → s.sent ≡ sent
        → Ensures (λ _ t. t.sent ≡ sent) (ini_load p h filename s)
    unfolding ini_load
    ini_load-Quiet filename s e =
        Ensures-bind (Quiet-query (h.malloc h.sizeof_ini_t) s e) λ ini t e. by_ini filename ini t e
