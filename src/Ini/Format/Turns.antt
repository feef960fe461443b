-- ===== src/Ini/Format/Turns.antt =====
-- src/ini.c: one round of the loop of `ini_get`, at the strings of an entry.
use zmq_proxy.Cmd.{returns, and_then-returns, Cmd, ◌>>=◌, pure}
use zmq_proxy.Ini.Format.{
  skipped, Entry, header, setting, cut, IsPlain, IsString, same_ci, in_scope, Passes, IsKey,
  IsValue, ends_name,
}
use zmq_proxy.Ini.Format.Finding.{
  leads, skipped-cut, Holds, Reached, within, IsSection, in_section-in_scope, value-IsString,
  key-IsString, at_header, at_setting, length-cut-header, length-cut-setting, starts_key, rests,
}
use zmq_proxy.Ini.Format.Pointers.{drop, drop-suc, drop-add, read-drop}
use zmq_proxy.Ini.Format.Strings.{next-nuls, next-one, Rests, Passes-IsString, strcmpci-drop}
use zmq_proxy.Ini.Get.{get_loop}
use zmq_proxy.Prelude.{
  ℕ, suc, ◌+◌, ◌<◌, ◌≡◌, refl, ap, ◌∙◌, subst, Bool, true, false, ◌&&◌, List, [], ◌∷◌, ◌++◌, Option,
  some, Bytes, All, length, lt→ltb, arith, inr, if◌then◌else◌, sym,
}

-- The test of a key that is reached just in the section.
found_if :
    (here same : Bool) (test : Cmd Bytes Bool) (val : ℕ) (on : Cmd Bytes (Option ℕ)) {b : Bytes}
    → test b ≡ returns same b
    → ((if here then test else pure false) >>= λ found. if found then pure (some val) else on) b
      ≡ (if here && same then returns (some val) b else on b)
found_if true true test val on e = rw e refl
found_if true false test val on e = rw e refl
found_if false same test val on e = refl

module _ (b : Bytes) (fuel end : ℕ) (section : Option Bytes) (key : Bytes) where
  pub header-turn :
      (title : Bytes) (es : List Entry) (rounds p : ℕ) (cur : Option ℕ)
      → end < fuel
      → Passes ends_name title
      → All IsPlain es
      → drop p b ≡ cut (header title ∷ es) ++ 0 ∷ []
      → p + length (cut (header title ∷ es)) ≡ end
      → (q : ℕ) × ((get_loop (suc rounds) fuel end section key cur p b
            ≡ get_loop rounds fuel end section key (some (p + 1)) (q + skipped es) b)
          × Reached b title (some (p + 1))
          × (drop q b ≡ cut es ++ 0 ∷ [])
          × (q + length (cut es) ≡ end))
  unfolding get_loop
  header-turn title es rounds p cur enough passes plain e at =
      let here = at_header title es e in
      let size = length-cut-header title es in
      let behind = drop-suc _ b (drop-suc _ b (drop-add p b (b'[' ∷ title) _ here)) in
      let at' : p + length (b'[' ∷ title) + 1 + 1 + length (cut es) ≡ end =
        omega (arith, at, size) in
      let is_name = Passes-IsString ends_name title passes in
      let (rest, lead) = leads es in
      let q = p + length (b'[' ∷ title) + 1 + 1 in
      let on : q + skipped es ≡ p + length (b'[' ∷ title) + 1 + suc (skipped es) = omega arith in
      (
        p + length (b'[' ∷ title) + 1 + 1,
        (
          rw
              (
                lt→ltb p end (omega (arith, at, size)),
                read-drop p b here,
                next-nuls fuel end p (suc (skipped es)) b (b'[' ∷ title) rest
                    (here ∙ ap (λ l. (b'[' ∷ title) ++ 0 ∷ 0 ∷ l) lead) (refl, is_name)
                    (subst (λ r. Rests end r b) on (rests b es end q plain behind at'))
                    (omega (arith, at, size)) (omega (arith, at, size, skipped-cut es)),
              )
              (ap (λ r. get_loop rounds fuel end section key (some (p + 1)) r b) (sym on)),
          within (is_name, (_, drop-suc p b here)),
          behind,
          at',
        ),
      )

  pub setting-turn :
      (k value : Bytes) (es : List Entry) (rounds p : ℕ) (name : Bytes) (cur : Option ℕ)
      → end < fuel
      → IsSection section
      → IsString key
      → IsKey k
      → IsValue value
      → All IsPlain es
      → drop p b ≡ cut (setting k value ∷ es) ++ 0 ∷ []
      → p + length (cut (setting k value ∷ es)) ≡ end
      → Reached b name cur
      → (q : ℕ) × ((get_loop (suc rounds) fuel end section key cur p b ≡ (
            if in_scope section name && same_ci key k
            then returns (some (p + length k + 1)) b
            else get_loop rounds fuel end section key cur (q + skipped es) b))
          × Holds b value (p + length k + 1)
          × (drop q b ≡ cut es ++ 0 ∷ [])
          × (q + length (cut es) ≡ end))
  unfolding get_loop
  setting-turn k value es rounds p name cur enough is_section is_string is_key is_value plain e at
        reached =
      let here = at_setting k value es e in
      let size = length-cut-setting k value es in
      let val = p + length k + 1 in
      let there = drop-suc _ b (drop-add p b k _ here) in
      let behind = drop-suc _ b (drop-add val b value _ there) in
      let at' : val + length value + 1 + length (cut es) ≡ end = omega (arith, at, size) in
      let value_string = value-IsString is_value in
      let (rest, lead) = leads es in
      let positive : 0 < length k = omega (arith, ap length is_key.position) in
      let starts = there ∙ ap (λ w. w ++ 0 ∷ (cut es ++ 0 ∷ [])) is_value.position in
      (
        val + length value + 1,
        (
          rw
              (
                lt→ltb p end (omega (arith, at, size)),
                read-drop p b (starts_key is_key _ here),
                is_key.no_header,
                next-one fuel end p b k _ here (key-IsString is_key)
                    (inr (
                      is_value.first,
                      _,
                      omega (arith, at, size),
                      starts,
                      (subst IsString is_value.position value_string).0,
                    ))
                    (omega (arith, at, size)) (omega (arith, at, size)),
                in_section-in_scope b section is_section reached,
              )
              (found_if (in_scope section name) (same_ci key k) _ _ _
                  (strcmpci-drop key k _ p b here is_string (key-IsString is_key))
                ∙ ap
                    (λ r.
                      if in_scope section name && same_ci key k then returns (some val) b else r)
                    (and_then-returns _
                      (next-nuls fuel end val (skipped es) b value rest
                        (there ∙ ap (λ l. value ++ 0 ∷ l) lead) value_string
                        (rests b es end (val + length value + 1) plain behind at')
                        (omega (arith, at, size))
                        (omega (arith, at, size, skipped-cut es, positive)))
                      refl)),
          (value_string, (_, there)),
          behind,
          at',
        ),
      )
