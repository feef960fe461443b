-- ===== src/Ini/Format/Cutting.antt =====
-- src/ini.c: `split_data` cuts a file of the format into its strings.
use zmq_proxy.Cmd.{returns, and_then-returns, pure, ◌>>◌}
use zmq_proxy.Ini.Buffer.{write}
use zmq_proxy.Ini.Format.{
  header, setting, cut_entry, Passes, ends_name, ends_key, ends_value, IsKey, IsValue,
}
use zmq_proxy.Ini.Format.Pointers.{
  trim_back-Closed, drop-add, drop-suc, drop, drop-append, read-drop, skip_to-drop, write-at,
}
use zmq_proxy.Ini.Split.{blank_loop, split_line, split_value, split_step, split_loop}
use zmq_proxy.Prelude.{
  ◌∙◌, ℕ, suc, ◌+◌, ◌<◌, ◌≡◌, refl, sym, ap, ◌∷◌, ◌++◌, append_assoc, Bytes, length, length-append,
  lt→ltb, arith, zero, ◌==◌, ◌||◌, subst, false, [], ◌≤◌,
}

module _ (fuel end : ℕ) where
  -- One round of the loop.
  pub split_loop-step :
      {p c q : ℕ} (b : Bytes) {b' rest : Bytes} (rounds : ℕ)
      → p < end
      → drop p b ≡ c ∷ rest
      → split_step fuel end p c b ≡ returns q b'
      → split_loop (suc rounds) fuel end p b ≡ split_loop rounds fuel end q b'
  unfolding split_loop
  split_loop-step {p} b rounds inside e step = rw (lt→ltb _ _ inside, read-drop p b e, step) refl

  -- The byte that ends a line.
  pub newline-step :
      {p : ℕ} {b : Bytes} (pre rest : Bytes)
      → p ≡ length pre
      → b ≡ pre ++ b'\n' ∷ rest
      → split_step fuel end p b'\n' b ≡ returns (p + 1) (pre ++ 0 ∷ rest)
  unfolding split_step
  newline-step pre rest at same = rw (write-at pre rest b'\n' 0 at same) refl

  header-step :
      (done name tail : Bytes)
      → Passes ends_name name
      → length name + 1 < fuel
      → split_step fuel end (length done) b'[' (done ++ (b'[' ∷ (name ++ b']' ∷ b'\n' ∷ tail)))
        ≡ returns (length done + length (b'[' ∷ name)) (done ++ (b'[' ∷ (name ++ 0 ∷ b'\n' ∷ tail)))
  unfolding split_step
  header-step done name tail passes h =
      and_then-returns (λ q. write q 0 >> pure q)
        (skip_to-drop fuel ends_name (length done) _ (b'[' ∷ name) b']' (b'\n' ∷ tail)
          (drop-append done _) (refl, passes) refl (omega (arith, h)))
        (and_then-returns (λ _. pure (length done + suc (length name)))
          (write-at {p = length done + suc (length name)} (done ++ b'[' ∷ name) (b'\n' ∷ tail) b']'
            0 (sym (length-append done (b'[' ∷ name))) (sym (append_assoc done (b'[' ∷ name) _)))
          (ap (returns (length done + suc (length name))) (append_assoc done (b'[' ∷ name) _)))

  module _ (done key value tail : Bytes) (k : IsKey key) (v : IsValue value) where
    -- The block before a setting, and when its key has been cut.
    abbrev uncut : Bytes
    uncut = done ++ (key ++ (b'=' ∷ (value ++ b'\n' ∷ tail)))

    abbrev key_cut : Bytes
    key_cut = done ++ (key ++ (0 ∷ (value ++ b'\n' ∷ tail)))

    -- Where the `=` stands.
    abbrev at_equals : ℕ
    at_equals = length done + length key

    behind_key : drop at_equals key_cut ≡ 0 ∷ (value ++ b'\n' ∷ tail)
    behind_key = drop-add (length done) key_cut key _ (drop-append done _)

    behind_equals : drop (at_equals + 1) key_cut ≡ value ++ b'\n' ∷ tail
    behind_equals = drop-suc at_equals key_cut behind_key

    first_of_value : drop (at_equals + 1) key_cut ≡ v.first ∷ (v.more ++ b'\n' ∷ tail)
    first_of_value = behind_equals ∙ ap (λ l. l ++ b'\n' ∷ tail) v.position

    goes_on : (v.first == 0 || v.first == b'\n') ≡ false
    goes_on = (subst (Passes ends_value) v.position v.passes).0

    blank-step : (n : ℕ) → 0 < n → blank_loop n at_equals uncut ≡ returns (at_equals + 1) key_cut
    unfolding blank_loop
    blank-step zero h = absurd (omega arith)
    blank-step (suc n) h =
        and_then-returns _
          (write-at {p = at_equals} {b = uncut} (done ++ key) (value ++ b'\n' ∷ tail) b'=' 0
              (sym (length-append done key)) (sym (append_assoc done key _))
            ∙ ap (returns tt) (append_assoc done key (0 ∷ (value ++ b'\n' ∷ tail))))
          (rw (read-drop (at_equals + 1) key_cut first_of_value, v.no_blank) refl)

    value-step :
        length value < fuel
        → split_value fuel end (length done) (at_equals + 1) key_cut
          ≡ returns (at_equals + 1 + length value) key_cut
    unfolding split_value
    value-step h =
        rw
          (
            read-drop (at_equals + 1) key_cut first_of_value,
            other_end v.first goes_on,
            v.no_quote,
            skip_to-drop fuel ends_value (at_equals + 1) key_cut value b'\n' tail behind_equals
                v.passes refl h,
            trim_back-Closed (at_equals + 1) key_cut value (b'\n' ∷ tail) behind_equals v.closed,
          )
          refl
      where
        other_end : (c : ℕ) → (c == 0 || c == b'\n') ≡ false → (c == b'\n' || c == 0) ≡ false
        other_end c e = ground arith

    setting-step :
        length key < fuel
        → length value < fuel
        → split_line fuel end (length done) uncut ≡ returns (at_equals + 1 + length value) key_cut
    unfolding split_line
    setting-step hk hv =
        let here = drop-append done (key ++ (b'=' ∷ (value ++ b'\n' ∷ tail))) in
        rw
          (
            skip_to-drop fuel ends_key (length done) uncut key b'=' _ here k.passes refl hk,
            read-drop at_equals uncut (drop-add (length done) uncut key _ here),
            trim_back-Closed (length done) uncut key _ here k.closed,
            blank-step fuel (omega (arith, hk)),
          )
          (value-step hv)

  -- The loop goes on from the same place of the same block.
  pub split_loop-at :
      (rounds : ℕ) {p p' : ℕ} {b b' : Bytes}
      → p ≡ p'
      → b ≡ b'
      → split_loop rounds fuel end p b ≡ split_loop rounds fuel end p' b'
  split_loop-at rounds e f = rw (e, f) refl

  pub header-line :
      (done name tail : Bytes) (rounds : ℕ)
      → Passes ends_name name
      → length name + 1 < fuel
      → length done + (length name + 3) ≤ end
      → split_loop
          (suc (suc (suc rounds)))
          fuel
          end
          (length done)
          (done ++ (b'[' ∷ (name ++ b']' ∷ b'\n' ∷ tail)))
        ≡ split_loop rounds fuel end
            (length (done ++ cut_entry (header name)))
            ((done ++ cut_entry (header name)) ++ tail)
  unfolding split_step cut_entry
  header-line done name tail rounds passes h inside =
      let p = length done + suc (length name) in
      let b = done ++ (b'[' ∷ (name ++ 0 ∷ b'\n' ∷ tail)) in
      let behind : drop p b ≡ 0 ∷ b'\n' ∷ tail =
        drop-add (length done) b (b'[' ∷ name) _ (drop-append done _) in
      let cut_up = done ++ (b'[' ∷ (name ++ 0 ∷ [])) in
      split_loop-step (done ++ (b'[' ∷ (name ++ b']' ∷ b'\n' ∷ tail))) (suc (suc rounds))
        (omega (arith, inside)) (drop-append done _) (header-step done name tail passes h)
      ∙ split_loop-step b (suc rounds) (omega (arith, inside)) behind refl
      ∙ split_loop-step b rounds (omega (arith, inside)) (drop-suc p b behind) (
          newline-step cut_up tail
            (omega
              (arith, length-append done (b'[' ∷ (name ++ 0 ∷ [])), length-append name (0 ∷ [])))
            (simp append_assoc refl))
      ∙ split_loop-at rounds
          (omega (
            arith,
            length-append done (b'[' ∷ (name ++ 0 ∷ 0 ∷ [])),
            length-append name (0 ∷ 0 ∷ []),
          ))
          (simp append_assoc refl)

  pub setting-line :
      (done key value tail : Bytes) (rounds : ℕ)
      → IsKey key
      → IsValue value
      → length key < fuel
      → length value < fuel
      → length done + (length key + (length value + 2)) ≤ end
      → split_loop
          (suc (suc rounds))
          fuel
          end
          (length done)
          (done ++ (key ++ (b'=' ∷ (value ++ b'\n' ∷ tail))))
        ≡ split_loop rounds fuel end
            (length (done ++ cut_entry (setting key value)))
            ((done ++ cut_entry (setting key value)) ++ tail)
  unfolding split_step cut_entry
  setting-line done key value tail rounds k v hk hv inside =
      let p = length done + length key + 1 + length value in
      let b = done ++ (key ++ (0 ∷ (value ++ b'\n' ∷ tail))) in
      let cut_up = done ++ (key ++ (0 ∷ value)) in
      split_loop-step (done ++ (key ++ (b'=' ∷ (value ++ b'\n' ∷ tail)))) (suc rounds)
        (omega (arith, inside))
        (drop-append done _ ∙ ap (λ l. l ++ (b'=' ∷ (value ++ b'\n' ∷ tail))) k.position)
        (by_first ∙ setting-step done key value tail k v hk hv)
      ∙ split_loop-step b rounds (omega (arith, inside))
          (drop-add (length done + length key + 1) b value _
            (behind_equals done key value tail k v))
          (newline-step cut_up tail
            (omega (arith, length-append done (key ++ (0 ∷ value)), length-append key (0 ∷ value)))
            (simp append_assoc refl))
      ∙ split_loop-at rounds
          (omega (
            arith,
            length-append done (key ++ (0 ∷ (value ++ 0 ∷ []))),
            length-append key (0 ∷ (value ++ 0 ∷ [])),
            length-append value (0 ∷ []),
          ))
          (simp append_assoc refl)
    where
      not_null : (c : ℕ) → (c == 0 || ends_key c) ≡ false → (c == 0) ≡ false
      not_null c e = ground arith

      by_first :
          split_step fuel end (length done) k.first (uncut done key value tail k v)
          ≡ split_line fuel end (length done) (uncut done key value tail k v)
      by_first =
          rw
            (
              k.no_space,
              not_null k.first (subst (Passes ends_key) k.position k.passes).0,
              k.no_header,
              k.no_comment,
            )
            refl
