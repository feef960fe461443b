-- ===== src/Ini/Format/Strings.antt =====
-- src/ini.c: the loops over the strings that `split_data` leaves.
use zmq_proxy.Cmd.{returns}
use zmq_proxy.Ini.Buffer.{nothing, next_loop, next, strcmpci, tolower}
use zmq_proxy.Ini.Format.{nuls, true, Passes, IsString, same_ci}
use zmq_proxy.Ini.Format.Pointers.{drop, drop-suc, drop-add, read-drop, skip_to-drop}
use zmq_proxy.Ini.Load.{string_at}
use zmq_proxy.Prelude.{
  ◌≤◌, ℕ, zero, suc, ◌+◌, ◌<◌, ◌≡◌, refl, Bool, false, ◌||◌, [], ◌∷◌, ◌++◌, Bytes, length, ltb,
  lt→ltb, ◌==◌, arith, Bool-cases, inl, inr, ◌⊎◌, not, ◌&&◌, All, subst, ap, sym, ◌∙◌,
}

-- A word that a scan passes is a string.
pub Passes-IsString : (reject : ℕ → Bool) (w : Bytes) → Passes reject w → IsString w
Passes-IsString reject [] p = tt
Passes-IsString reject (x ∷ w) (h, p) = (not_null (reject x) h, Passes-IsString reject w p)
  where
    not_null : (r : Bool) → (x == 0 || r) ≡ false → (x == 0) ≡ false
    not_null r h = ground arith

-- A test for the words without such a byte.
abbrev pub no_byte : (ℕ → Bool) → Bytes → Bool
no_byte f [] = true
no_byte f (x ∷ w) = not (f x) && no_byte f w

pub no_byte-All : (f : ℕ → Bool) (w : Bytes) → no_byte f w ≡ true → All (λ c. f c ≡ false) w
no_byte-All f [] h = tt
no_byte-All f (x ∷ w) h = (ground (arith, h), no_byte-All f w (ground (arith, h)))

IsString-Passes : (w : Bytes) → IsString w → Passes nothing w
IsString-Passes [] p = tt
IsString-Passes (x ∷ w) (h, p) = (rw h refl, IsString-Passes w p)

lower_null : (c : ℕ) → (c == 0) ≡ false → (tolower 0 == tolower c) ≡ false
unfolding tolower
lower_null c h = ground arith

null_lower : (c : ℕ) → (c == 0) ≡ false → (tolower c == tolower 0) ≡ false
unfolding tolower
null_lower c h = ground arith

pub strcmpci-drop :
    (a w rest : Bytes) (p : ℕ) (b : Bytes)
    → drop p b ≡ w ++ 0 ∷ rest
    → IsString a
    → IsString w
    → strcmpci a p b ≡ returns (same_ci a w) b
unfolding strcmpci same_ci tolower
strcmpci-drop [] [] rest p b e ha hw = rw (read-drop p b e) refl
strcmpci-drop [] (y ∷ w) rest p b e ha (hy, hw) = rw (read-drop p b e, lower_null y hy) refl
strcmpci-drop (x ∷ a) [] rest p b e (hx, ha) hw = rw (read-drop p b e, null_lower x hx) refl
strcmpci-drop (x ∷ a) (y ∷ w) rest p b e (hx, ha) (hy, hw) =
    elim (Bool-cases (tolower x == tolower y)) [
      | inl same ↦
          rw (read-drop p b e, same, hx) (strcmpci-drop a w rest (p + 1) b (drop-suc p b e) ha hw)
      | inr other ↦ rw (read-drop p b e, other) refl
    ]

pub string_at-drop :
    (fuel : ℕ) (w rest : Bytes) (p : ℕ) (b : Bytes)
    → drop p b ≡ w ++ 0 ∷ rest
    → IsString w
    → length w < fuel
    → string_at fuel p b ≡ returns w b
unfolding string_at
string_at-drop zero w rest p b e hw h = absurd (omega arith)
string_at-drop (suc fuel) [] rest p b e hw h = rw (read-drop p b e) refl
string_at-drop (suc fuel) (x ∷ w) rest p b e (hx, hw) h =
    rw (read-drop p b e, hx, string_at-drop fuel w rest (p + 1) b (drop-suc p b e) hw (omega arith))
      refl

-- The end of the block, or a byte that is not NUL.
abbrev pub Rests : ℕ → ℕ → Bytes → Type 0
Rests end p b =
    (p ≡ end) ⊎ ((c : ℕ) × (rest : Bytes) × (p < end) × (drop p b ≡ c ∷ rest) × ((c == 0) ≡ false))

at_end : (p end : ℕ) → p ≡ end → ltb p end ≡ false
at_end p end at = ground arith

next_loop-Rests :
    (fuel end p : ℕ) (b : Bytes) → Rests end p b → next_loop (suc fuel) end p b ≡ returns p b
unfolding next_loop
next_loop-Rests fuel end p b (inl at) = rw (at_end p end at) refl
next_loop-Rests fuel end p b (inr (c, rest, inside, e, solid)) =
    rw (lt→ltb _ _ inside, read-drop p b e, solid) refl

-- A pointer that rests is in the block or at its end.
Rests-in : {end p : ℕ} (b : Bytes) → Rests end p b → p ≤ end
Rests-in b (inl at) = omega (arith, at)
Rests-in b (inr (c, rest, inside, _, _)) = omega (arith, inside)

next_loop-nuls :
    (k fuel end p : ℕ) (b rest : Bytes)
    → drop p b ≡ nuls k ++ rest
    → Rests end (p + k) b
    → k < fuel
    → next_loop fuel end p b ≡ returns (p + k) b
unfolding next_loop
next_loop-nuls k zero end p b rest e stop h = absurd (omega arith)
next_loop-nuls zero (suc fuel) end p b rest e stop h =
    let here : p + 0 ≡ p = omega arith in
    next_loop-Rests fuel end p b (subst (λ q. Rests end q b) here stop)
    ∙ ap (λ q. returns q b) (sym here)
next_loop-nuls (suc k) (suc fuel) end p b rest e stop h =
    let on : p + suc k ≡ p + 1 + k = omega arith in
    rw (lt→ltb p end (omega (arith, Rests-in b stop)), read-drop p b e)
      (next_loop-nuls k fuel end (p + 1) b rest (drop-suc p b e)
          (subst (λ q. Rests end q b) on stop) (omega (arith, h))
        ∙ ap (λ q. returns q b) (sym on))

-- From a string to the next one, behind its NUL and those that follow.
pub next-nuls :
    (fuel end p k : ℕ) (b w rest : Bytes)
    → drop p b ≡ w ++ 0 ∷ (nuls k ++ rest)
    → IsString w
    → Rests end (p + length w + 1 + k) b
    → length w < fuel
    → k + 1 < fuel
    → next fuel end p b ≡ returns (p + length w + 1 + k) b
unfolding next
next-nuls fuel end p k b w rest e hw stop h more =
    let on : p + length w + suc k ≡ p + length w + 1 + k = omega arith in
    rw (skip_to-drop fuel nothing p b w 0 (nuls k ++ rest) e (IsString-Passes w hw) refl h) (
      next_loop-nuls (suc k) fuel end (p + length w) b rest (drop-add p b w _ e)
        (subst (λ q. Rests end q b) (sym on) stop) (omega (arith, more))
      ∙ ap (λ q. returns q b) on)

-- From a string to one that follows at once.
pub next-one :
    (fuel end p : ℕ) (b w rest : Bytes)
    → drop p b ≡ w ++ 0 ∷ rest
    → IsString w
    → Rests end (p + length w + 1) b
    → length w < fuel
    → 1 < fuel
    → next fuel end p b ≡ returns (p + length w + 1) b
next-one fuel end p b w rest e hw stop h more =
    let here : p + length w + 1 ≡ p + length w + 1 + 0 = omega arith in
    next-nuls fuel end p 0 b w rest e hw (subst (λ q. Rests end q b) here stop) h (omega arith)
    ∙ ap (λ q. returns q b) (sym here)
