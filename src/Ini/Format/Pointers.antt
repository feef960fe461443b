-- ===== src/Ini/Format/Pointers.antt =====
-- src/ini.c: what stands at a pointer into the block, and what the scans read there.
use zmq_proxy.Cmd.{returns}
use zmq_proxy.Ini.Buffer.{read, write, skip_to, trim_back}
use zmq_proxy.Ini.Format.{Passes, is_blank, Closed}
use zmq_proxy.Ini.Safety.Primitives.{read-returns, write-returns}
use zmq_proxy.Prelude.{
  append_assoc, ℕ, zero, suc, ◌+◌, ◌<◌, ◌≡◌, refl, ap, ◌∙◌, Bool, true, false, ◌||◌, some, [], ◌∷◌,
  ◌++◌, Bytes, length, length-append, get_elem?, set, ◌==◌, arith,
}

-- The bytes from a pointer on.
abbrev pub drop : ℕ → Bytes → Bytes
drop zero b = b
drop (suc n) [] = []
drop (suc n) (x ∷ b) = drop n b

pub drop-append : (xs ys : Bytes) → drop (length xs) (xs ++ ys) ≡ ys
drop-append [] ys = refl
drop-append (x ∷ xs) ys = drop-append xs ys

-- Pointers at equal places.
drop-at : {p q : ℕ} (b : Bytes) → p ≡ q → drop p b ≡ drop q b
drop-at b e = ap (λ n. drop n b) e

pub drop-suc :
    (p : ℕ) (b : Bytes) {c : ℕ} {rest : Bytes} → drop p b ≡ c ∷ rest → drop (p + 1) b ≡ rest
drop-suc zero [] e = cc
drop-suc zero (x ∷ b) e = cc
drop-suc (suc p) [] e = cc
drop-suc (suc p) (x ∷ b) e =
    drop-at {p = suc p + 1} {q = suc (p + 1)} (x ∷ b) (omega arith) ∙ drop-suc p b e

pub drop-add : (p : ℕ) (b w rest : Bytes) → drop p b ≡ w ++ rest → drop (p + length w) b ≡ rest
drop-add p b [] rest e = drop-at {p = p + 0} {q = p} b (omega arith) ∙ e
drop-add p b (x ∷ w) rest e =
    drop-at {p = p + suc (length w)} {q = (p + 1) + length w} b (omega arith)
    ∙ drop-add (p + 1) b w rest (drop-suc p b e)

get_elem?-drop :
    (p : ℕ) (b : Bytes) {c : ℕ} {rest : Bytes} → drop p b ≡ c ∷ rest → get_elem? b p ≡ some c
get_elem?-drop zero [] e = cc
get_elem?-drop zero (x ∷ b) e = cc
get_elem?-drop (suc p) [] e = cc
get_elem?-drop (suc p) (x ∷ b) e = get_elem?-drop p b e

pub read-drop :
    (p : ℕ) (b : Bytes) {c : ℕ} {rest : Bytes} → drop p b ≡ c ∷ rest → read p b ≡ returns c b
read-drop p b e = read-returns b p (get_elem?-drop p b e)

-- A write behind `pre`.
pub write-append :
    (pre rest : Bytes) (c v : ℕ)
    → write (length pre) v (pre ++ c ∷ rest) ≡ returns tt (pre ++ v ∷ rest)
write-append pre rest c v =
    write-returns (pre ++ c ∷ rest) (length pre) v (omega (arith, length-append pre (c ∷ rest)))
    ∙ ap (returns tt) (set-append pre)
  where
    set-append : (xs : Bytes) → set (xs ++ c ∷ rest) (length xs) v ≡ xs ++ v ∷ rest
    set-append [] = refl
    set-append (x ∷ xs) = ap (λ l. x ∷ l) (set-append xs)

-- A scan over a word, up to a byte that it stops at.
pub skip_to-drop :
    (fuel : ℕ) (reject : ℕ → Bool) (p : ℕ) (b w : Bytes) (c : ℕ) (rest : Bytes)
    → drop p b ≡ w ++ c ∷ rest
    → Passes reject w
    → (c == 0 || reject c) ≡ true
    → length w < fuel
    → skip_to fuel reject p b ≡ returns (p + length w) b
unfolding skip_to
skip_to-drop zero reject p b w c rest e passes stop h = absurd (omega arith)
skip_to-drop (suc fuel) reject p b [] c rest e passes stop h =
    rw (read-drop p b e, stop) (ap (λ q. returns q b) (omega arith))
skip_to-drop (suc fuel) reject p b (x ∷ w) c rest e (on, passes) stop h =
    rw (read-drop p b e, on)
      (skip_to-drop fuel reject (p + 1) b w c rest (drop-suc p b e) passes stop (omega arith)
        ∙ ap (λ q. returns q b) (omega arith))

-- Nothing is trimmed behind a byte that is not blank.
pub trim_back-drop :
    (p : ℕ) (b : Bytes) {c : ℕ} {rest : Bytes}
    → drop p b ≡ c ∷ rest
    → is_blank c ≡ false
    → trim_back (suc p) b ≡ returns tt b
unfolding trim_back
trim_back-drop p b e solid = rw (read-drop p b e, solid) refl

-- Nor behind a word that ends with one.
pub trim_back-Closed :
    (p : ℕ) (b w rest : Bytes)
    → drop p b ≡ w ++ rest
    → Closed w
    → trim_back (p + length w) b ≡ returns tt b
trim_back-Closed p b w rest e closed =
    ap (λ n. trim_back n b)
      (omega (arith, ap length closed.position, length-append closed.front (closed.last ∷ [])))
    ∙ trim_back-drop (p + length closed.front) b
        (drop-add p b closed.front (closed.last ∷ rest) (
          e
          ∙ ap (λ l. l ++ rest) closed.position
          ∙ append_assoc closed.front (closed.last ∷ []) rest))
        closed.solid

-- A write at the place behind `pre`.
pub write-at :
    {p : ℕ} {b : Bytes} (pre rest : Bytes) (c v : ℕ)
    → p ≡ length pre
    → b ≡ pre ++ c ∷ rest
    → write p v b ≡ returns tt (pre ++ v ∷ rest)
write-at pre rest c v at same = rw (at, same) (write-append pre rest c v)
