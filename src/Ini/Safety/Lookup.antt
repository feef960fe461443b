-- ===== src/Ini/Safety/Lookup.antt =====
-- src/ini.c: `ini_get` stays inside the block and ends.
use zmq_proxy.Cmd.{pure, Returns, yields, Returns-bind, Returns-mono}
use zmq_proxy.Ini.Buffer.{nothing, next_loop, next, strcmpci, tolower}
use zmq_proxy.Ini.Get.{in_section, get_loop, ini_get}
use zmq_proxy.Ini.Safety.Primitives.{Good, read-Good, before_end}
use zmq_proxy.Ini.Safety.Scans.{skip_to-Good}
use zmq_proxy.Prelude.{
  false, if◌then◌else◌, Bool, inr, not, true, inl, ℕ, zero, suc, ◌+◌, ◌≤◌, ◌<◌, ◌≡◌, ◌≢◌, refl,
  ◌||◌, Option, none, some, [], ◌∷◌, Bytes, length, get_elem?, ltb, ◌==◌, arith, Bool-cases,
}

-- A pointer into the block, or NULL.
abbrev pub Inside : ℕ → Option ℕ → Type 0
Inside end none = Unit
Inside end (some val) = val ≤ end

tolower_nul : (x c : ℕ) → (tolower x == tolower c) ≡ true → x ≢ 0 → c ≢ 0
unfolding tolower
tolower_nul x c same n z = ground arith

module _ {end line : ℕ} where
  next_loop-Good :
      (fuel p : ℕ) {b : Bytes}
      → Good end line b
      → p ≤ end
      → end < fuel + p
      → Returns
          (λ q b'. (b' ≡ b) × (p ≤ q) × (q ≤ end) × (q < end → get_elem? b q ≢ some 0))
          (next_loop fuel end p b)
  unfolding next_loop
  next_loop-Good zero p g h f = absurd (omega arith)
  next_loop-Good (suc fuel) p {b} g h f = elim (Bool-cases (ltb p end)) [
    | inl inside ↦ rw inside (
        Returns-bind (read-Good p g h) λ c b' (same, e). elim (Bool-cases (c == 0)) [
          | inl nul ↦
              rw (nul, same)
                (Returns-mono (next_loop-Good fuel (p + 1) g (ground arith) (omega arith))
                  λ q b'' (same', lo, hi, at). (same', omega arith, hi, at))
          | inr other ↦ rw (other, same) (yields (refl, omega arith, h, λ _. ground arith))
        ])
    | inr outside ↦ rw outside (yields (refl, omega arith, h, λ i. ground arith))
  ]

  -- The next string starts behind the one at `p`, and behind `p` if that one is not empty.
  next-Good :
      (fuel p : ℕ) {b : Bytes}
      → Good end line b
      → p ≤ end
      → end < fuel
      → Returns
          (λ q b'.
            (b' ≡ b)
            × (p ≤ q)
            × (q ≤ end)
            × (q < end → get_elem? b q ≢ some 0)
            × (get_elem? b p ≢ some 0 → p < q))
          (next fuel end p b)
  unfolding next
  next-Good fuel p g h f =
      Returns-bind (skip_to-Good fuel nothing p g h (omega arith))
        λ q b' (same, lo, hi, (c, e, stop)). rw same (
          Returns-mono (next_loop-Good fuel q g hi (omega arith))
            λ r b'' (same', lo', hi', at). (same', omega arith, hi', at, λ n. ground arith))

  strcmpci-Good :
      (a : Bytes) (q : ℕ) {b : Bytes}
      → Good end line b
      → q ≤ end
      → Returns (λ _ b'. b' ≡ b) (strcmpci a q b)
  unfolding strcmpci
  strcmpci-Good [] q g h = Returns-bind (read-Good q g h) λ c b' (same, _). yields same
  strcmpci-Good (x ∷ a) q g h = Returns-bind (read-Good q g h) λ c b' (same, e).
      elim (Bool-cases (not (tolower x == tolower c) || x == 0)) [
        | inl stop ↦ rw stop (yields same)
        | inr on ↦
            rw (on, same)
              (strcmpci-Good a (q + 1) g
                (omega (arith, before_end q g e (tolower_nul x c (ground arith) (ground arith)) h)))
      ]

  in_section-Good :
      (section : Option Bytes) (current_section : Option ℕ) {b : Bytes}
      → Good end line b
      → Inside end current_section
      → Returns (λ _ b'. b' ≡ b) (in_section section current_section b)
  unfolding in_section
  in_section-Good none current_section g i = yields refl
  in_section-Good (some []) none g i = yields refl
  in_section-Good (some (x ∷ _)) none g i = yields refl
  in_section-Good (some section) (some q) g i = strcmpci-Good section q g i

  -- Whether the key at `p` is the one that is looked for.
  found-Good :
      (here : Bool) (key : Bytes) (p : ℕ) {b : Bytes}
      → Good end line b
      → p ≤ end
      → Returns (λ _ b'. b' ≡ b) ((if here then strcmpci key p else pure false) b)
  found-Good true key p g h = strcmpci-Good key p g h
  found-Good false key p g h = yields refl

  get_loop-Good :
      (rounds fuel : ℕ) (section : Option Bytes) (key : Bytes) (current_section : Option ℕ) (p : ℕ)
      {b : Bytes}
      → Good end line b
      → Inside end current_section
      → p ≤ end
      → (p < end → get_elem? b p ≢ some 0)
      → end < rounds + p
      → end < fuel
      → Returns
          (λ val b'. (b' ≡ b) × Inside end val)
          (get_loop rounds fuel end section key current_section p b)
  unfolding get_loop
  get_loop-Good zero fuel section key current_section p g i h at r f = absurd (omega arith)
  get_loop-Good (suc rounds) fuel section key current_section p g i h at r f =
      elim (Bool-cases (ltb p end)) [
        | inl inside ↦
            let on_string = at (ground arith) in
            rw inside (
              Returns-bind (read-Good p g h) λ c b' (same, e). elim (Bool-cases (c == b'[')) [
                | inl header ↦
                    rw (header, same)
                      (Returns-bind (next-Good fuel p g h f) λ q b'' (same', _, hi, at', on).
                        rw same' (
                          get_loop-Good rounds fuel section key (some (p + 1)) q g (ground arith) hi
                            at' (omega (arith, on on_string)) f))
                | inr other ↦
                    rw (other, same)
                      (Returns-bind (next-Good fuel p g h f) λ val b'' (same', _, hi, at', on).
                        rw same' (
                          Returns-bind (in_section-Good section current_section g i)
                            λ here b3 same3. rw same3 (
                              Returns-bind (found-Good here key p g h) λ found b4 same4.
                                rw same4 (elim (Bool-cases found) [
                                  | inl hit ↦ rw hit (yields (refl, hi))
                                  | inr miss ↦ rw miss (
                                      Returns-bind (next-Good fuel val g hi f)
                                        λ q b5 (same5, lo, hi', at5, _). rw same5 (
                                          get_loop-Good rounds fuel section key current_section q g
                                            i hi' at5 (omega (arith, on on_string)) f))
                                ]))))
              ])
        | inr outside ↦ rw outside (yields (refl, tt))
      ]

-- `ini_get` is memory safe and ends on every block of `end + 1` bytes whose last is NUL, whatever
-- `split_data` left in it: with any fuel above `end` it returns, does not change the block, and its
-- result is NULL or points into the block.
pub ini_get-Inside :
    (end fuel : ℕ) (section : Option Bytes) (key : Bytes) (b : Bytes)
    → length b ≡ suc end
    → get_elem? b end ≡ some 0
    → end < fuel
    → Returns (λ val b'. (b' ≡ b) × Inside end val) (ini_get fuel end section key b)
unfolding ini_get
ini_get-Inside end fuel section key b size nul f =
    Returns-bind (read-Good 0 g (omega arith)) λ c b' (same, e).
      rw same (elim (Bool-cases (c == 0)) [
        | inl empty_start ↦ rw empty_start (
            Returns-bind (next-Good fuel 0 g (omega arith) f) λ p b'' (same', _, hi, at, _).
              rw same' (get_loop-Good fuel fuel section key none p g tt hi at (omega arith) f))
        | inr string ↦ rw string (
            get_loop-Good fuel fuel section key none 0 g tt (omega arith) (λ _. ground arith)
              (omega arith) f)
      ])
  where
    g : Good end end b
    g = record { size = size; nul = nul; solid = λ e. ground arith }
