-- ===== src/Ini/Safety/Primitives.antt =====
-- src/ini.c: reads and writes that stay inside the block.
use zmq_proxy.Cmd.{returns, Returns, yields}
use zmq_proxy.Ini.Buffer.{read, write}
use zmq_proxy.Prelude.{
  ◌==◌, if◌then◌else◌, ℕ, zero, suc, ◌≤◌, ◌<◌, ◌≡◌, ◌≢◌, refl, ◌⊎◌, some, [], ◌∷◌, Bytes, length,
  get_elem?, set, lt→ltb, arith, length-set, get_elem?-lt, ◌∙◌,
}

-- The block has `end + 1` bytes, the last of them NUL, and the byte at `line` is no newline.
pub record Good (end line : ℕ) (b : Bytes) : Type 0 where
  pub size : length b ≡ suc end
  pub nul : get_elem? b end ≡ some 0
  pub solid : get_elem? b line ≢ some b'\n'

-- What stands at `j` behind a write at `i`.
pub get_elem?-set :
    (b : Bytes) (i j c : ℕ)
    → i < length b
    → get_elem? (set b i c) j ≡ (if i == j then some c else get_elem? b j)
get_elem?-set [] i j c h = elim h [ ]
get_elem?-set (x ∷ b) zero zero c h = refl
get_elem?-set (x ∷ b) zero (suc j) c h = ground arith
get_elem?-set (x ∷ b) (suc i) zero c h = ground arith
get_elem?-set (x ∷ b) (suc i) (suc j) c h = ground (arith, get_elem?-set b i j c)

pub read-returns : (b : Bytes) (p : ℕ) {c : ℕ} → get_elem? b p ≡ some c → read p b ≡ returns c b
unfolding read
read-returns b p e = rw (e, read)

pub write-returns : (b : Bytes) (p c : ℕ) → p < length b → write p c b ≡ returns tt (set b p c)
unfolding write
write-returns b p c h = rw (lt→ltb _ _ h)

module _ {end line : ℕ} where
  pub read-Good :
      {b : Bytes} (p : ℕ)
      → Good end line b
      → p ≤ end
      → Returns (λ c b'. (b' ≡ b) × (get_elem? b p ≡ some c)) (read p b)
  read-Good {b} p g h =
      let (c, e) = get_elem?-lt b p (omega arith) in rw (read-returns b p e) (yields (refl, e))

  -- A NUL may be written anywhere in the block, and any byte between `line` and the last NUL.
  pub write-Good :
      {b : Bytes} (p c : ℕ)
      → Good end line b
      → p ≤ end
      → (c ≡ 0) ⊎ ((line < p) × (p < end))
      → Returns (λ _ b'. Good end line b') (write p c b)
  write-Good {b} p c g h allowed = rw (write-returns b p c (omega (arith, g.size))) (
      yields (record {
        size = length-set b p c ∙ g.size;
        nul = ground (arith, get_elem?-set b p end c, g.nul, g.size);
        solid = λ e. ground (arith, get_elem?-set b p line c, g.solid, g.size);
      }))

  -- A byte other than NUL stands before the last one.
  pub before_end :
      {b : Bytes} {c : ℕ} (p : ℕ)
      → Good end line b
      → get_elem? b p ≡ some c
      → c ≢ 0
      → p ≤ end
      → p < end
  before_end p g e n h = ground (arith, g.nul)
