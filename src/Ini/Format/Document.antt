-- ===== src/Ini/Format/Document.antt =====
-- src/ini.c: `split_data` on a whole file of the format.
use zmq_proxy.Cmd.{returns}
use zmq_proxy.Ini.Format.{
  Entry, header, setting, comment, blank, print_entry, cut_entry, print, cut, IsPlain,
}
use zmq_proxy.Ini.Format.Comments.{length-nuls, comment-line, blank-line}
use zmq_proxy.Ini.Format.Cutting.{header-line, setting-line}
use zmq_proxy.Ini.Split.{split_loop, split_data}
use zmq_proxy.Prelude.{
  ℕ, zero, suc, ◌+◌, ◌≤◌, ◌<◌, ◌≡◌, refl, sym, ap, ◌∙◌, List, [], ◌∷◌, ◌++◌, append_assoc, Bytes,
  All, length, length-append, ltb, arith, Bool-cases, inl, inr,
}

length-print_entry : (e : Entry) → length (cut_entry e) ≡ length (print_entry e)
unfolding cut_entry print_entry
length-print_entry (header name) =
    length-append (b'[' ∷ name) (0 ∷ 0 ∷ []) ∙ sym (length-append (b'[' ∷ name) (b']' ∷ b'\n' ∷ []))
length-print_entry (setting key value) =
    length-append key (0 ∷ (value ++ 0 ∷ []))
    ∙ omega (arith, length-append value (0 ∷ []), length-append value (b'\n' ∷ []))
    ∙ sym (length-append key (b'=' ∷ (value ++ b'\n' ∷ [])))
length-print_entry (comment text) =
    omega (arith, length-nuls (length text), length-append text (b'\n' ∷ []))
length-print_entry blank = refl

-- The strings take the place of the lines.
pub length-print : (es : List Entry) → length (cut es) ≡ length (print es)
unfolding cut print
length-print [] = refl
length-print (e ∷ es) =
    length-append (cut_entry e) (cut es)
    ∙ omega (arith, length-print_entry e, length-print es)
    ∙ sym (length-append (print_entry e) (print es))

module _ (fuel end : ℕ) where
  -- The loop goes past the line of an entry, in at most as many rounds as the line has bytes.
  entry-line :
      (e : Entry) (done tail : Bytes) (rounds : ℕ)
      → IsPlain e
      → length (print_entry e) < fuel
      → length (print_entry e) ≤ rounds
      → length done + length (print_entry e) ≤ end
      → (k : ℕ) × (rounds ≤ k + length (print_entry e))
        × (k < rounds)
        × (split_loop rounds fuel end (length done) (done ++ (print_entry e ++ tail))
            ≡ split_loop k fuel end (length (done ++ cut_entry e)) ((done ++ cut_entry e) ++ tail))
  unfolding print_entry
  entry-line (header name) done tail (suc (suc (suc k))) passes h hr inside =
      let size = length-append name (b']' ∷ b'\n' ∷ []) in
      (
        k,
        omega (arith, size),
        omega arith,
        ap (λ l. split_loop (suc (suc (suc k))) fuel end (length done) (done ++ (b'[' ∷ l)))
              (append_assoc name (b']' ∷ b'\n' ∷ []) tail)
            ∙ header-line fuel end done name tail k passes (omega (arith, size, h))
                (omega (arith, size, inside)),
      )
  entry-line (header name) done tail zero passes h hr inside = absurd (omega arith)
  entry-line (header name) done tail (suc zero) passes h hr inside =
      absurd (omega (arith, length-append name (b']' ∷ b'\n' ∷ [])))
  entry-line (header name) done tail (suc (suc zero)) passes h hr inside =
      absurd (omega (arith, length-append name (b']' ∷ b'\n' ∷ [])))
  entry-line (setting key value) done tail (suc (suc k)) (is_key, is_value) h hr inside =
      let size = length-append key (b'=' ∷ (value ++ b'\n' ∷ [])) in
      let size' = length-append value (b'\n' ∷ []) in
      (
        k,
        omega (arith, size, size'),
        omega arith,
        ap (λ l. split_loop (suc (suc k)) fuel end (length done) (done ++ l))
              (append_assoc key (b'=' ∷ (value ++ b'\n' ∷ [])) tail
                ∙ ap (λ l. key ++ (b'=' ∷ l)) (append_assoc value (b'\n' ∷ []) tail))
            ∙ setting-line fuel end done key value tail k is_key is_value
                (omega (arith, size, size', h)) (omega (arith, size, size', h))
                (omega (arith, size, size', inside)),
      )
  entry-line (setting key value) done tail zero plain h hr inside =
      absurd (omega (arith, length-append key (b'=' ∷ (value ++ b'\n' ∷ []))))
  entry-line (setting key value) done tail (suc zero) plain h hr inside = absurd (
      omega
        (arith, length-append key (b'=' ∷ (value ++ b'\n' ∷ [])), length-append value (b'\n' ∷ [])))
  entry-line (comment text) done tail (suc (suc k)) passes h hr inside =
      let size = length-append text (b'\n' ∷ []) in
      (
        k,
        omega (arith, size),
        omega arith,
        ap (λ l. split_loop (suc (suc k)) fuel end (length done) (done ++ (b';' ∷ l)))
              (append_assoc text (b'\n' ∷ []) tail)
            ∙ comment-line fuel end done text tail k passes (omega (arith, size, h))
                (omega (arith, size, inside)),
      )
  entry-line (comment text) done tail zero plain h hr inside = absurd (omega arith)
  entry-line (comment text) done tail (suc zero) plain h hr inside =
      absurd (omega (arith, length-append text (b'\n' ∷ [])))
  entry-line blank done tail (suc k) plain h hr inside =
      (k, omega arith, omega arith, blank-line fuel end done tail k (omega (arith, inside)))
  entry-line blank done tail zero plain h hr inside = absurd (omega arith)

  split_loop-print :
      (es : List Entry) (done : Bytes) (rounds : ℕ)
      → All IsPlain es
      → length (print es) < fuel
      → length (print es) < rounds
      → length done + length (print es) ≡ end
      → split_loop rounds fuel end (length done) (done ++ (print es ++ 0 ∷ []))
        ≡ returns tt (done ++ (cut es ++ 0 ∷ []))
  unfolding print cut split_loop
  split_loop-print [] done zero plain h hr at = absurd (omega arith)
  split_loop-print [] done (suc rounds) plain h hr at = elim (Bool-cases (ltb (length done) end)) [
    | inl inside ↦ absurd (ground (arith, inside, at))
    | inr outside ↦ rw outside refl
  ]
  split_loop-print (e ∷ es) done rounds (plain, rest) h hr at =
      let size = length-append (print_entry e) (print es) in
      let (k, most, fewer, step) =
        entry-line e done (print es ++ 0 ∷ []) rounds plain (omega (arith, size, h))
          (omega (arith, size, hr)) (omega (arith, size, at)) in
      ap (λ l. split_loop rounds fuel end (length done) (done ++ l))
        (append_assoc (print_entry e) (print es) (0 ∷ []))
      ∙ step
      ∙ split_loop-print es (done ++ cut_entry e) k rest (omega (arith, size, h))
          (omega (arith, size, hr, most))
          (omega (arith, size, at, length-append done (cut_entry e), length-print_entry e))
      ∙ ap (returns tt) (
          append_assoc done (cut_entry e) (cut es ++ 0 ∷ [])
          ∙ ap (λ l. done ++ l) (sym (append_assoc (cut_entry e) (cut es) (0 ∷ []))))

-- On a file of the format `split_data` leaves just the strings of its entries.
pub split_data-print :
    (es : List Entry) (fuel : ℕ)
    → All IsPlain es
    → length (print es) < fuel
    → split_data fuel (length (print es)) (print es ++ 0 ∷ []) ≡ returns tt (cut es ++ 0 ∷ [])
unfolding split_data
split_data-print es fuel plain h =
    split_loop-print fuel (length (print es)) es [] fuel plain h h (omega arith)
