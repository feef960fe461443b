-- ===== src/Ini/Format/Comments.antt =====
-- src/ini.c: `split_data` overwrites a comment and an empty line with NULs.
use zmq_proxy.Cmd.{Run, returns}
use zmq_proxy.Ini.Buffer.{discard_line}
use zmq_proxy.Ini.Format.{comment, blank, cut_entry, nuls, Passes, ends_value}
use zmq_proxy.Ini.Format.Cutting.{split_loop-step, newline-step, split_loop-at}
use zmq_proxy.Ini.Format.Pointers.{drop, drop-append, read-drop, write-append}
use zmq_proxy.Ini.Split.{split_step, split_loop}
use zmq_proxy.Prelude.{
  ◌∙◌, ℕ, suc, ◌+◌, ◌<◌, ◌≡◌, refl, sym, ap, ◌∷◌, ◌++◌, append_assoc, Bytes, length, length-append,
  lt→ltb, arith, zero, ◌==◌, ◌||◌, false, [], ◌≤◌,
}

-- One NUL more.
pub nuls-suc : (n : ℕ) (tail : Bytes) → nuls n ++ 0 ∷ tail ≡ 0 ∷ (nuls n ++ tail)
nuls-suc zero tail = refl
nuls-suc (suc n) tail = ap (λ l. 0 ∷ l) (nuls-suc n tail)

pub length-nuls : (n : ℕ) → length (nuls n) ≡ n
length-nuls zero = refl
length-nuls (suc n) = ap suc (length-nuls n)

module _ (fuel end : ℕ) where
  discard_line-at :
      (n : ℕ) {p p' : ℕ} {b b' : Bytes}
      → p ≡ p'
      → b ≡ b'
      → discard_line n end p b ≡ discard_line n end p' b'
  discard_line-at n e f = rw (e, f) refl

  returns-at :
      {p p' : ℕ} {b b' : Bytes}
      → p ≡ p'
      → b ≡ b'
      → ◌≡◌ {A = Run Bytes ℕ} (returns p b) (returns p' b')
  returns-at e f = rw (e, f) refl

  discard_line-drop :
      (n : ℕ) (w done tail : Bytes)
      → Passes ends_value w
      → length w < n
      → length done + length w < end
      → discard_line n end (length done) (done ++ (w ++ b'\n' ∷ tail))
        ≡ returns (length done + length w) (done ++ (nuls (length w) ++ b'\n' ∷ tail))
  unfolding discard_line
  discard_line-drop zero w done tail passes h inside = absurd (omega arith)
  discard_line-drop (suc n) [] done tail passes h inside =
      rw
        (
          lt→ltb (length done) end (omega (arith, inside)),
          read-drop (length done) _ (drop-append done (b'\n' ∷ tail)),
        )
        (ap (λ q. returns q (done ++ b'\n' ∷ tail)) (omega arith))
  discard_line-drop (suc n) (x ∷ w) done tail (on, passes) h inside =
      rw
        (
          lt→ltb (length done) end (omega (arith, inside)),
          read-drop (length done) _ (drop-append done (x ∷ (w ++ b'\n' ∷ tail))),
          other x on,
          write-append done (w ++ b'\n' ∷ tail) x 0,
        )
        (discard_line-at n (sym (length-append done (0 ∷ [])))
            (sym (append_assoc done (0 ∷ []) (w ++ b'\n' ∷ tail)))
          ∙ discard_line-drop n w (done ++ 0 ∷ []) tail passes (omega arith)
              (omega (arith, inside, length-append done (0 ∷ [])))
          ∙ returns-at (omega (arith, length-append done (0 ∷ [])))
              (append_assoc done (0 ∷ []) (nuls (length w) ++ b'\n' ∷ tail)))
    where
      other : (c : ℕ) → (c == 0 || c == b'\n') ≡ false → (c == b'\n') ≡ false
      other c e = ground arith

  pub blank-line :
      (done tail : Bytes) (rounds : ℕ)
      → length done + 1 ≤ end
      → split_loop (suc rounds) fuel end (length done) (done ++ b'\n' ∷ tail)
        ≡ split_loop rounds fuel end
            (length (done ++ cut_entry blank))
            ((done ++ cut_entry blank) ++ tail)
  unfolding cut_entry
  blank-line done tail rounds inside =
      split_loop-step fuel end (done ++ b'\n' ∷ tail) rounds (omega (arith, inside))
        (drop-append done _) (newline-step fuel end done tail refl refl)
      ∙ split_loop-at fuel end rounds (omega (arith, length-append done (0 ∷ [])))
          (sym (append_assoc done (0 ∷ []) tail))

  pub comment-line :
      (done text tail : Bytes) (rounds : ℕ)
      → Passes ends_value text
      → length text + 1 < fuel
      → length done + (length text + 2) ≤ end
      → split_loop
          (suc (suc rounds))
          fuel
          end
          (length done)
          (done ++ (b';' ∷ (text ++ b'\n' ∷ tail)))
        ≡ split_loop rounds fuel end
            (length (done ++ cut_entry (comment text)))
            ((done ++ cut_entry (comment text)) ++ tail)
  unfolding split_step cut_entry
  comment-line done text tail rounds passes h inside =
      let cut_up = done ++ (0 ∷ nuls (length text)) in
      let b = done ++ (0 ∷ (nuls (length text) ++ b'\n' ∷ tail)) in
      let p = length done + suc (length text) in
      let at : p ≡ length cut_up =
        omega (arith, length-append done (0 ∷ nuls (length text)), length-nuls (length text)) in
      let same : b ≡ cut_up ++ b'\n' ∷ tail =
        sym (append_assoc done (0 ∷ nuls (length text)) (b'\n' ∷ tail)) in
      split_loop-step fuel end (done ++ (b';' ∷ (text ++ b'\n' ∷ tail))) (suc rounds)
        (omega (arith, inside)) (drop-append done _)
        (discard_line-drop fuel (b';' ∷ text) done tail (refl, passes) (omega (arith, h))
          (omega (arith, inside)))
      ∙ split_loop-step fuel end b rounds (omega (arith, inside))
          (ap (λ q. drop q b) at
            ∙ ap (drop (length cut_up)) same
            ∙ drop-append cut_up (b'\n' ∷ tail))
          (newline-step fuel end cut_up tail at same)
      ∙ split_loop-at fuel end rounds
          (omega
            (arith, at, length-append done (0 ∷ 0 ∷ nuls (length text)), length-nuls (length text)))
          (append_assoc done (0 ∷ nuls (length text)) (0 ∷ tail)
            ∙ ap (λ l. done ++ (0 ∷ l)) (nuls-suc (length text) tail)
            ∙ sym (append_assoc done (0 ∷ 0 ∷ nuls (length text)) tail))
