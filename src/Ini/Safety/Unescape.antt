-- ===== src/Ini/Safety/Unescape.antt =====
-- src/ini.c: `unescape_quoted_value` stays inside the block and ends.
use zmq_proxy.Cmd.{Returns, yields, Returns-bind, Returns-mono}
use zmq_proxy.Ini.Safety.Primitives.{Good, read-Good, write-Good, before_end}
use zmq_proxy.Ini.Split.{escaped, unescape_loop, unescape_quoted_value}
use zmq_proxy.Prelude.{
  ℕ, zero, suc, ◌+◌, ◌≤◌, ◌<◌, ◌≡◌, ◌≢◌, inl, inr, ◌||◌, some, Bytes, ltb, ◌==◌, arith, Bool-cases,
  Option-cases,
}

escaped-ne : (e v : ℕ) → escaped e ≡ some v → e ≢ 0
unfolding escaped
escaped-ne e v h z = ground arith

module _ {end line : ℕ} where
  -- The write-head stays behind the read-head and past `line`.
  pub unescape_loop-Good :
      (fuel p q : ℕ) {b : Bytes}
      → Good end line b
      → p ≤ end
      → q < p
      → line < q
      → end < fuel + p
      → Returns (λ r b'. Good end line b' × (q ≤ r) × (r ≤ end)) (unescape_loop fuel end p q b)
  unfolding unescape_loop
  unescape_loop-Good zero p q g h le past f = absurd (omega arith)
  unescape_loop-Good (suc fuel) p q g h le past f = elim (Bool-cases (ltb p end)) [
    | inr outside ↦ rw outside (yields (g, omega arith, omega arith))
    | inl inside ↦ rw inside (
        Returns-bind (read-Good p g h) λ c b' (same, e).
          elim (Bool-cases (c == b'"' || c == b'\r' || c == b'\n')) [
            | inl stop ↦ rw (stop, same) (yields (g, omega arith, omega arith))
            | inr on ↦ elim (Bool-cases (c == b'\\')) [
              | inr plain ↦
                  rw (on, plain, same)
                    (Returns-bind (write-Good q c g (omega arith) (inr (past, ground arith)))
                      λ _ b'' g'.
                        Returns-mono
                          (unescape_loop-Good fuel (p + 1) (q + 1) g' (ground arith) (omega arith)
                            (omega arith) (omega arith))
                          λ r b''' (g'', lo, hi). (g'', omega arith, hi))
              | inl backslash ↦
                  rw (on, backslash, same)
                    (Returns-bind (read-Good (p + 1) g (ground arith)) λ d b'' (same', e').
                      elim (Option-cases (escaped d)) [
                        | inl ends ↦ rw (ends, same') (yields (g, omega arith, omega arith))
                        | inr (v, stands) ↦
                            let more =
                              before_end (p + 1) g e' (escaped-ne d v stands) (ground arith) in
                            rw (stands, same')
                              (Returns-bind
                                (write-Good q v g (omega arith) (inr (past, omega (arith, more))))
                                λ _ b''' g'.
                                  Returns-mono
                                    (unescape_loop-Good fuel (p + 2) (q + 1) g'
                                      (omega (arith, more)) (omega arith) (omega arith)
                                      (omega arith))
                                    λ r b4 (g'', lo, hi). (g'', omega arith, hi))
                      ])
            ]
          ])
  ]

  pub unescape_quoted_value-Good :
      (fuel p : ℕ) {b : Bytes}
      → Good end line b
      → p < end
      → line < p
      → end < fuel + p
      → Returns
          (λ r b'. Good end line b' × (p ≤ r) × (r ≤ end))
          (unescape_quoted_value fuel end p b)
  unfolding unescape_quoted_value
  unescape_quoted_value-Good fuel p g h past f =
      unescape_loop-Good fuel (p + 1) p g (omega arith) (omega arith) past (omega arith)
