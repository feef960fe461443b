-- ===== src/Ini/Safety/Loading.antt =====
-- src/ini.c: `ini_load` makes a block that `ini_get` and `ini_sget` can read.
use zmq_proxy.Cmd.{Run, Cmd, Returns, yields, Returns-bind}
use zmq_proxy.Host.{Host, HostLaws, Roomy}
use zmq_proxy.Ini.Buffer.{write}
use zmq_proxy.Ini.Load.{
  load_sized, int_of, int_of_bits, Dst, overlay, string_at, store, ini_sget, within, on_block,
  load_block, load_file, load_opened, ini_load,
}
use zmq_proxy.Ini.Safety.Lookup.{Inside, ini_get-Inside}
use zmq_proxy.Ini.Safety.Primitives.{Good, read-Good, before_end, write-returns, get_elem?-set}
use zmq_proxy.Ini.Safety.Splitting.{split_data-Good}
use zmq_proxy.Ini.Split.{split_data}
use zmq_proxy.Platform.{pos, Platform, Status, Io, query}
use zmq_proxy.Prelude.{
  ℕ, zero, suc, ◌+◌, ◌≤◌, ◌<◌, ◌≡◌, refl, ap, ◌∙◌, inl, inr, Option, none, some, [], ◌∷◌, ◌++◌,
  Bytes, length, length-set, get_elem?, ◌==◌, arith, Bool-cases, ◌%◌, ◌^◌, lt→ltb,
}
use zmq_proxy.Zmq.Calls.{query-Returns}

-- The block of an `ini_t`: its last byte is the NUL at `end`.
abbrev pub Ended : ℕ → Bytes → Type 0
Ended end b = (length b ≡ suc end) × (get_elem? b end ≡ some 0)

-- NULL, or an `ini_t`.
abbrev pub Valid : Option Bytes → Type 0
Valid none = Unit
Valid (some b) = (end : ℕ) × Ended end b

pub overlay-full :
    (stored b : Bytes) → Ended (length stored) b → overlay stored b ≡ stored ++ 0 ∷ []
unfolding overlay
overlay-full [] [] (size, nul) = absurd (ground arith)
overlay-full [] (y ∷ []) (size, nul) = ground arith
overlay-full [] (y ∷ z ∷ b) (size, nul) = absurd (omega (arith, size))
overlay-full (x ∷ stored) [] (size, nul) = absurd (omega (arith, size))
overlay-full (x ∷ stored) (y ∷ b) (size, nul) =
    ap (λ l. x ∷ l) (overlay-full stored b (omega (arith, size), nul))

-- An `int` is big enough for the size.
pub int_of-fits : {n : ℕ} → n + 1 < 2 ^ 31 → int_of (pos n) ≡ pos n
unfolding int_of int_of_bits
int_of-fits {n} h =
    let same : n % 2 ^ 32 ≡ n = omega (arith, h) in
    let inside : n < 2 ^ 31 = omega (arith, h) in rw (same, lt→ltb n (2 ^ 31) inside) refl

module _ {end : ℕ} where
  string_at-Good :
      (fuel p : ℕ) {b : Bytes}
      → Good end end b
      → p ≤ end
      → end < fuel + p
      → Returns (λ _ b'. b' ≡ b) (string_at fuel p b)
  unfolding string_at
  string_at-Good zero p g h f = absurd (omega arith)
  string_at-Good (suc fuel) p g h f = Returns-bind (read-Good p g h) λ c b' (same, e).
      elim (Bool-cases (c == 0)) [
        | inl nul ↦ rw (nul, same) (yields refl)
        | inr other ↦
            rw (other, same)
              (Returns-bind
                (string_at-Good fuel (p + 1) g (omega (arith, before_end p g e (ground arith) h))
                  (omega arith))
                λ rest b'' same'. yields same')
      ]

  store-Good :
      (scanfmt : Option (Bytes → Option Status)) (dst : Dst) (val : Option ℕ) {b : Bytes}
      → Good end end b
      → Inside end val
      → Returns (λ _ b'. b' ≡ b) (store (end + 1) scanfmt dst val b)
  unfolding store
  store-Good scanfmt dst none g i = yields refl
  store-Good none dst (some val) g h = yields refl
  store-Good (some scan) dst (some val) g h =
      Returns-bind (string_at-Good (end + 1) val g h (omega arith)) λ string b' same. yields same

-- `ini_sget` is memory safe and ends on every block whose last byte is the NUL at `end`, with and
-- without a format, and does not change the block.
pub ini_sget-Returns :
    (end : ℕ) (section : Option Bytes) (key : Bytes) (scanfmt : Option (Bytes → Option Status))
    (dst : Dst) (b : Bytes)
    → Ended end b
    → Returns (λ _ b'. b' ≡ b) (ini_sget end section key scanfmt dst b)
unfolding ini_sget
ini_sget-Returns end section key scanfmt dst b (size, nul) =
    Returns-bind (ini_get-Inside end (end + 1) section key b size nul (omega arith))
      λ val b' (same, inside). rw same (store-Good scanfmt dst val g inside)
  where
    g : Good end end b
    g = record { size = size; nul = nul; solid = λ e. ground arith }

-- `data_[sz] = '\0'` on a block of `sz + 1` bytes
pub write-Ended :
    (data_ : Bytes) (sz : ℕ)
    → length data_ ≡ suc sz
    → Returns (λ _ b. Ended sz b) (write sz 0 data_)
write-Ended data_ sz size = rw (write-returns data_ sz 0 (omega (arith, size))) (
    yields (
      length-set data_ sz 0 ∙ size,
      ground (arith, get_elem?-set data_ sz sz 0 (omega (arith, size))),
    ))

split-Ended :
    (stored b : Bytes) (sz : ℕ)
    → length stored ≡ sz
    → Ended sz b
    → Returns (λ _ b'. Ended sz b') (split_data (sz + 1) sz (overlay stored b))
split-Ended stored b sz e ended =
    rw (← e, overlay-full stored b (rw e ended))
      (split_data-Good stored (length stored + 1) (omega arith))

module _ (p : Platform) where
  pub within-Returns :
      {A : Type 0} {P : A → Bytes → Type 0} (b : Bytes) (c : Cmd Bytes A) (s : Io p)
      → Returns P (c b)
      → Returns (λ (a, b') t. P a b' × (t ≡ s)) (within p b c s)
  unfolding within
  within-Returns b c s r = on_run (c b) r
    where
      on_run :
          {A : Type 0} {P : A → Bytes → Type 0} (run : Run Bytes A)
          → Returns P run
          → Returns (λ (a, b') t. P a b' × (t ≡ s)) (on_block p s run)
      on_run run (yields h) = yields (h, refl)

  module _ (h : Host p) (laws : HostLaws p h) where
    open h use {File}

    load_block-Valid :
        (fp : File) (sz : ℕ) (data_ : Bytes) (s : Io p)
        → length data_ ≡ suc sz
        → Returns (λ ini _. Valid ini) (load_block p h fp sz data_ s)
    unfolding load_block
    load_block-Valid fp sz data_ s size =
        Returns-bind (within-Returns data_ (write sz 0) s (write-Ended data_ sz size)) λ r t (e, _).
          Returns-bind (query-Returns p (h.fread fp sz) t) λ stored u (_, _).
            elim (Bool-cases (length stored == sz)) [
              | inl whole ↦ rw whole (
                  Returns-bind
                    (within-Returns (overlay stored r.1) (split_data (sz + 1) sz) u
                      (split-Ended stored r.1 sz (ground arith) e))
                    λ split v (good, _).
                      Returns-bind (query-Returns p (h.fclose fp) v) λ _ _ _. yields (sz, good))
              | inr short ↦
                  rw short (Returns-bind (query-Returns p (h.fclose fp) u) λ _ _ _. yields tt)
            ]

    load_file-Valid :
        Roomy p h → (fp : File) (s : Io p) → Returns (λ ini _. Valid ini) (load_file p h fp s)
    unfolding load_file load_sized query
    load_file-Valid roomy fp s =
        let t = (h.fseek_end fp s.world).1 in
        let (sz, w, fits, e) = roomy.sized fp t in
        let v = (h.rewind fp w).1 in
        let (b, w', e') = roomy.mallocs (sz + 1) v in
        rw (e, int_of-fits fits, lt→ltb _ _ fits, e')
          (load_block-Valid fp sz b (record s { world = w' })
            (laws.size_of_malloc (sz + 1) v w' b e' ∙ omega arith))

    load_opened-Valid :
        Roomy p h
        → (fp : Option File) (s : Io p) → Returns (λ ini _. Valid ini) (load_opened p h fp s)
    unfolding load_opened
    load_opened-Valid roomy none t = yields tt
    load_opened-Valid roomy (some fp) t = load_file-Valid roomy fp t

    -- If memory does not run out and an open file has a size of at most 2^31 - 2 bytes, `ini_load`
    -- returns, whatever the file holds and however much of it can be read: NULL, or a block whose last byte is NUL, which is
    -- what `ini_get` and `ini_sget` need to be memory safe.
    pub ini_load-Valid :
        Roomy p h
        → (filename : Bytes) (s : Io p) → Returns (λ ini _. Valid ini) (ini_load p h filename s)
    unfolding ini_load query
    ini_load-Valid roomy filename s =
        let (b, w, e) = roomy.mallocs h.sizeof_ini_t s.world in
        rw e (
          load_opened-Valid roomy (h.fopen filename w).0
            (record s { world = (h.fopen filename w).1 }))
