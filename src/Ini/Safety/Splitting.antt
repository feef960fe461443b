-- ===== src/Ini/Safety/Splitting.antt =====
-- src/ini.c: `split_data` stays inside the block and ends.
use zmq_proxy.Cmd.{Returns, yields, Returns-bind, Returns-mono}
use zmq_proxy.Ini.Safety.Primitives.{Good, read-Good, write-Good, before_end}
use zmq_proxy.Ini.Safety.Scans.{skip_to-Good, trim_back-Good, discard_line-Good, blank_loop-Good}
use zmq_proxy.Ini.Safety.Unescape.{unescape_quoted_value-Good}
use zmq_proxy.Ini.Split.{split_value, split_line, split_step, split_loop, split_data}
use zmq_proxy.Prelude.{
  ℕ, zero, suc, ◌+◌, ◌≤◌, ◌<◌, ◌≡◌, ◌≢◌, refl, inl, inr, ◌||◌, some, [], ◌∷◌, ◌++◌, Bytes, length,
  length-append, get_elem?, ltb, ◌==◌, arith, Bool-cases,
}

rebase :
    {end line : ℕ} {b : Bytes} (l : ℕ) → Good end line b → get_elem? b l ≢ some b'\n' → Good end l b
rebase l g s = record { size = g.size; nul = g.nul; solid = s }

to_end : {end line : ℕ} {b : Bytes} → Good end line b → Good end end b
to_end {end} g = rebase end g (λ e. ground (arith, g.nul))

module _ {end line : ℕ} where
  split_value-Good :
      (fuel p : ℕ) {b : Bytes}
      → Good end line b
      → line < p
      → p ≤ end
      → end < fuel
      → Returns (λ q b'. Good end line b' × (line < q) × (q ≤ end)) (split_value fuel end line p b)
  unfolding split_value
  split_value-Good fuel p {b} g past h f = Returns-bind (read-Good p g h) λ c b' (same, e).
      elim (Bool-cases (c == b'\n' || c == 0)) [
        | inl missing ↦
            rw (missing, same)
              (Returns-mono (discard_line-Good fuel line g (omega arith) (omega arith))
                λ q b'' (g', lo, hi, on). (g', on (omega arith) g.solid, hi))
        | inr there ↦ elim (Bool-cases (c == b'"')) [
          | inl quoted ↦
              rw (there, quoted, same)
                (Returns-bind
                  (unescape_quoted_value-Good fuel p g (before_end p g e (ground arith) h) past
                    (omega arith))
                  λ q b'' (g', lo, hi). elim (Bool-cases (q == p)) [
                    | inl empty_value ↦ rw empty_value (
                        Returns-mono (discard_line-Good fuel line g' (omega arith) (omega arith))
                          λ r b''' (g'', _, hi', on). (g'', on (omega arith) g'.solid, hi'))
                    | inr value ↦ rw value (
                        Returns-mono (discard_line-Good fuel q g' hi (omega arith))
                          λ r b''' (g'', lo', hi', _). (g'', omega arith, hi'))
                  ])
          | inr plain ↦
              rw (there, plain, same)
                (Returns-bind (skip_to-Good fuel (λ d. d == b'\n') p g h (omega arith))
                  λ q b'' (same', lo, hi, _). rw same' (
                    Returns-bind (trim_back-Good q g hi) λ _ b''' g'. yields (g', omega arith, hi)))
        ]
      ]

  split_line-Good :
      (fuel : ℕ) {b : Bytes}
      → Good end line b
      → line < end
      → end < fuel
      → Returns (λ q b'. Good end line b' × (line < q) × (q ≤ end)) (split_line fuel end line b)
  unfolding split_line
  split_line-Good fuel {b} g h f =
      Returns-bind
        (skip_to-Good fuel (λ d. d == b'=' || d == b'\n') line g (omega arith) (omega arith))
        λ p b' (same, lo, hi, _). rw same (
          Returns-bind (read-Good p g hi) λ c b'' (same', e). elim (Bool-cases (c == b'=')) [
            | inr no_key ↦
                rw (no_key, same')
                  (Returns-mono (discard_line-Good fuel line g (omega arith) (omega arith))
                    λ q b3 (g', _, hi', on). (g', on h g.solid, hi'))
            | inl key ↦
                rw (key, same')
                  (Returns-bind (trim_back-Good p g hi) λ _ b3 g'.
                    Returns-bind
                      (blank_loop-Good fuel p g' (before_end p g e (ground arith) hi) (omega arith))
                      λ q b4 (g'', lo', hi'). split_value-Good fuel q g'' (omega arith) hi' f)
          ])

module _ {end : ℕ} where
  split_step-Good :
      (fuel p c : ℕ) {b : Bytes}
      → Good end end b
      → p < end
      → get_elem? b p ≡ some c
      → end < fuel
      → Returns (λ q b'. Good end end b' × (p < q) × (q ≤ end)) (split_step fuel end p c b)
  unfolding split_step
  split_step-Good fuel p c {b} g h e f =
      elim (Bool-cases (c == b'\r' || c == b'\n' || c == b'\t' || c == b' ')) [
        | inl blank ↦ rw blank (
            Returns-bind (write-Good p 0 g (omega arith) (inl refl))
              λ _ b' g'. yields (g', omega arith, omega arith))
        | inr solid ↦ elim (Bool-cases (c == 0)) [
          | inl nul ↦ rw (solid, nul) (yields (g, omega arith, omega arith))
          | inr some_char ↦ elim (Bool-cases (c == b'[')) [
            | inl header ↦
                rw (solid, some_char, header)
                  (Returns-bind
                    (skip_to-Good fuel (λ d. d == b']' || d == b'\n') p g (omega arith)
                      (omega arith))
                    λ q b' (same, lo, hi, (d, e', stop)). rw same (
                      Returns-bind (write-Good q 0 g hi (inl refl))
                        λ _ b'' g'. yields (g', ground arith, hi)))
            | inr no_header ↦ elim (Bool-cases (c == b';')) [
              | inl comment ↦
                  rw (solid, some_char, no_header, comment)
                    (Returns-mono (discard_line-Good fuel p g (omega arith) (omega arith))
                      λ q b' (g', lo, hi, on). (g', on h (λ n. ground arith), hi))
              | inr key ↦
                  rw (solid, some_char, no_header, key)
                    (Returns-mono (split_line-Good fuel (rebase p g (λ n. ground arith)) h f)
                      λ q b' (g', lo, hi). (to_end g', lo, hi))
            ]
          ]
        ]
      ]

  split_loop-Good :
      (rounds fuel p : ℕ) {b : Bytes}
      → Good end end b
      → p ≤ end
      → end < rounds + p
      → end < fuel
      → Returns (λ _ b'. Good end end b') (split_loop rounds fuel end p b)
  unfolding split_loop
  split_loop-Good zero fuel p g h r f = absurd (omega arith)
  split_loop-Good (suc rounds) fuel p g h r f = elim (Bool-cases (ltb p end)) [
    | inr outside ↦ rw outside (yields g)
    | inl inside ↦ rw inside (
        Returns-bind (read-Good p g h) λ c b' (same, e). rw same (
          Returns-bind (split_step-Good fuel p c g (ground arith) e f)
            λ q b'' (g', lo, hi). split_loop-Good rounds fuel q g' hi (omega arith) f))
  ]

get_elem?-last : (text : Bytes) (c : ℕ) → get_elem? (text ++ c ∷ []) (length text) ≡ some c
get_elem?-last [] c = refl
get_elem?-last (x ∷ text) c = get_elem?-last text c

-- `split_data` is memory safe and ends, whatever the file holds: on a file of `length text` bytes in a
-- block with a NUL behind it, with any fuel above that length, it returns, having touched no byte
-- outside the block, and the block still ends in a NUL.
pub split_data-Good :
    (text : Bytes) (fuel : ℕ)
    → length text < fuel
    → Returns
        (λ _ b. (length b ≡ suc (length text)) × (get_elem? b (length text) ≡ some 0))
        (split_data fuel (length text) (text ++ 0 ∷ []))
unfolding split_data
split_data-Good text fuel h =
    Returns-mono
      (split_loop-Good {end = length text} fuel fuel 0 {b = text ++ 0 ∷ []}
        (record {
          size = omega (arith, length-append text (0 ∷ []));
          nul = get_elem?-last text 0;
          solid = λ e. ground (arith, get_elem?-last text 0);
        })
        (omega arith) (omega arith) h)
      λ _ b g. (g.size, g.nul)
