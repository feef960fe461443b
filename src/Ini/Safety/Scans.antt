-- ===== src/Ini/Safety/Scans.antt =====
-- src/ini.c: the loops of the parser stay inside the block, move forward and end.
use zmq_proxy.Cmd.{Returns, yields, Returns-bind, Returns-mono}
use zmq_proxy.Ini.Buffer.{skip_to, trim_back, discard_line}
use zmq_proxy.Ini.Safety.Primitives.{Good, read-Good, write-Good, before_end}
use zmq_proxy.Ini.Split.{blank_loop}
use zmq_proxy.Prelude.{
  ℕ, zero, suc, ◌+◌, ◌≤◌, ◌<◌, ◌≡◌, ◌≢◌, refl, inl, inr, Bool, true, ◌||◌, some, Bytes, get_elem?,
  ltb, ◌==◌, arith, Bool-cases,
}

module _ {end line : ℕ} where
  -- The scan ends at a NUL or at a rejected character, and moves past `p` if that is neither.
  pub skip_to-Good :
      (fuel : ℕ) (reject : ℕ → Bool) (p : ℕ) {b : Bytes}
      → Good end line b
      → p ≤ end
      → end < fuel + p
      → Returns
          (λ q b'.
            (b' ≡ b)
            × (p ≤ q)
            × (q ≤ end)
            × ((c : ℕ) × (get_elem? b q ≡ some c) × ((c == 0 || reject c) ≡ true)))
          (skip_to fuel reject p b)
  unfolding skip_to
  skip_to-Good zero reject p g h f = absurd (omega arith)
  skip_to-Good (suc fuel) reject p {b} g h f = Returns-bind (read-Good p g h) λ c b' (same, e).
      elim (Bool-cases (c == 0 || reject c)) [
        | inl stop ↦ rw stop (yields (same, omega arith, h, (c, e, stop)))
        | inr on ↦
            rw (on, same)
              (Returns-mono
                (skip_to-Good fuel reject (p + 1) g
                  (omega (arith, before_end p g e (ground arith) h)) (omega arith))
                λ q b'' (same', lo, hi, at). (same', omega arith, hi, at))
      ]

  pub trim_back-Good :
      (n : ℕ) {b : Bytes}
      → Good end line b
      → n ≤ end
      → Returns (λ _ b'. Good end line b') (trim_back n b)
  unfolding trim_back
  trim_back-Good zero g h = yields g
  trim_back-Good (suc p) g h = Returns-bind (read-Good p g (omega arith)) λ c b' (same, e).
      elim (Bool-cases (c == b' ' || c == b'\t' || c == b'\r')) [
        | inl blank ↦
            rw (blank, same)
              (Returns-bind (write-Good p 0 g (omega arith) (inl refl))
                λ _ b'' g'. trim_back-Good p g' (omega arith))
        | inr other ↦ rw (other, same) (yields g)
      ]

  -- The scan over a line moves past `p` if a character other than a newline stands there.
  pub discard_line-Good :
      (fuel p : ℕ) {b : Bytes}
      → Good end line b
      → p ≤ end
      → end < fuel + p
      → Returns
          (λ q b'.
            Good end line b' × (p ≤ q) × (q ≤ end) × (p < end → get_elem? b p ≢ some b'\n' → p < q))
          (discard_line fuel end p b)
  unfolding discard_line
  discard_line-Good zero p g h f = absurd (omega arith)
  discard_line-Good (suc fuel) p {b} g h f = elim (Bool-cases (ltb p end)) [
    | inl inside ↦ rw inside (
        Returns-bind (read-Good p g h) λ c b' (same, e). elim (Bool-cases (c == b'\n')) [
          | inl newline ↦
              rw (newline, same) (yields (g, omega arith, h, λ _ n. absurd (n (ground arith))))
          | inr other ↦
              rw (other, same)
                (Returns-bind (write-Good p 0 g h (inl refl)) λ _ b'' g'.
                  Returns-mono (discard_line-Good fuel (p + 1) g' (ground arith) (omega arith))
                    λ q b''' (g'', lo, hi, _). (g'', omega arith, hi, λ _ _. omega arith))
        ])
    | inr outside ↦ rw outside (yields (g, omega arith, h, λ i _. ground arith))
  ]

  -- The loop over the blanks behind `=` ends at a character that is none, past `p`.
  pub blank_loop-Good :
      (fuel p : ℕ) {b : Bytes}
      → Good end line b
      → p < end
      → end < fuel + p
      → Returns (λ q b'. Good end line b' × (p < q) × (q ≤ end)) (blank_loop fuel p b)
  unfolding blank_loop
  blank_loop-Good zero p g h f = absurd (omega arith)
  blank_loop-Good (suc fuel) p g h f =
      Returns-bind (write-Good p 0 g (omega arith) (inl refl)) λ _ b' g'.
        Returns-bind (read-Good (p + 1) g' (omega arith)) λ c b'' (same, e).
          elim (Bool-cases (c == b' ' || c == b'\r' || c == b'\t')) [
            | inl blank ↦
                rw (blank, same)
                  (Returns-mono
                    (blank_loop-Good fuel (p + 1) g'
                      (before_end (p + 1) g' e (ground arith) (omega arith)) (omega arith))
                    λ q b''' (g'', lo, hi). (g'', omega arith, hi))
            | inr other ↦ rw (other, same) (yields (g', omega arith, omega arith))
          ]
