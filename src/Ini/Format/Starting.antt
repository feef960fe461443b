-- ===== src/Ini/Format/Starting.antt =====
-- src/ini.c: `ini_get` on a file of the format.
use zmq_proxy.Cmd.{returns}
use zmq_proxy.Ini.Buffer.{read, next, skip_to, next_loop}
use zmq_proxy.Ini.Format.{
  nuls, skipped, comment, blank, cut_entry, Entry, header, setting, cut, IsPlain, IsString, same_ci,
  in_scope, lookup,
}
use zmq_proxy.Ini.Format.Finding.{
  skipped-cut, at_header, at_setting, starts_key, key-IsString, behind_comment, length-cut-comment,
  rests, leads, nowhere, length-cut-setting, length-cut-header, Found, absent, present, Reached,
  IsSection,
}
use zmq_proxy.Ini.Format.Pointers.{drop-suc, read-drop, drop}
use zmq_proxy.Ini.Format.Strings.{next-nuls, Rests}
use zmq_proxy.Ini.Format.Turns.{header-turn, setting-turn}
use zmq_proxy.Ini.Get.{ini_get, get_loop}
use zmq_proxy.Prelude.{
  ap, ℕ, zero, suc, ◌+◌, ◌≤◌, ◌<◌, ◌≡◌, refl, ◌∙◌, false, ◌&&◌, List, [], ◌∷◌, ◌++◌, Option, none,
  some, Bytes, All, length, ltb, arith, Bool-cases, inl, inr, sym, subst, ◌==◌,
}

module _ (b : Bytes) (fuel end : ℕ) (section : Option Bytes) (key : Bytes) (enough : end < fuel)
    (is_section : IsSection section) (is_string : IsString key) where
  -- The loop returns what the entries that are left say.
  abbrev LooksUp : List Entry → ℕ → ℕ → Bytes → Option ℕ → Type 0
  LooksUp es rounds q name cur =
      (r : Option ℕ) × ((get_loop rounds fuel end section key cur q b ≡ returns r b)
        × Found b (lookup section key name es) r)

  at_end :
      (rounds p : ℕ) (cur : Option ℕ)
      → end ≤ p
      → get_loop (suc rounds) fuel end section key cur p b ≡ returns none b
  unfolding get_loop
  at_end rounds p cur past = elim (Bool-cases (ltb p end)) [
    | inl inside ↦ absurd (ground (arith, inside, past))
    | inr outside ↦ rw outside refl
  ]

  get_loop-cut :
      (es : List Entry) (rounds p : ℕ) (name : Bytes) (cur : Option ℕ)
      → All IsPlain es
      → drop p b ≡ cut es ++ 0 ∷ []
      → p + length (cut es) ≡ end
      → length es < rounds
      → Reached b name cur
      → LooksUp es rounds (p + skipped es) name cur
  unfolding lookup cut skipped cut_entry
  get_loop-cut es zero p name cur plain e at h reached = absurd (omega arith)
  get_loop-cut [] (suc rounds) p name cur plain e at h reached =
      (none, (at_end rounds (p + 0) cur (omega (arith, at)), absent))
  get_loop-cut (header title ∷ es) (suc rounds) p name cur (passes, plain) e at h reached =
      let start : p ≡ p + 0 = omega arith in
      let (q, (turn, here, e', at')) =
        header-turn b fuel end section key title es rounds p cur enough passes plain e at in
      let (r, (run, found)) =
        get_loop-cut es rounds q title (some (p + 1)) plain e' at' (omega (arith, h)) here in
      (
        r,
        (
          ap (λ n. get_loop (suc rounds) fuel end section key cur n b) (sym start) ∙ turn ∙ run,
          found,
        ),
      )
  get_loop-cut (setting k v ∷ es) (suc rounds) p name cur ((is_key, is_value), plain) e at h
        reached =
      let start : p ≡ p + 0 = omega arith in
      let (q, (turn, holds, e', at')) =
        setting-turn b fuel end section key k v es rounds p name cur enough is_section is_string
          is_key is_value plain e at reached in
      let turn' = ap (λ n. get_loop (suc rounds) fuel end section key cur n b) (sym start) ∙ turn in
      elim (Bool-cases (in_scope section name && same_ci key k)) [
        | inl here ↦ (some (p + length k + 1), (rw (turn', here) refl, rw here (present holds)))
        | inr other ↦
            let (r, (run, found)) =
              get_loop-cut es rounds q name cur plain e' at' (omega (arith, h)) reached in
            (r, (rw (turn', other) run, rw other found))
      ]
  get_loop-cut (comment text ∷ es) (suc rounds) p name cur (passes, plain) e at h reached =
      let on : p + suc (suc (length text)) + skipped es ≡ p + suc (suc (length text + skipped es)) =
        omega arith in
      subst (λ q. LooksUp (comment text ∷ es) (suc rounds) q name cur) on
        (get_loop-cut es (suc rounds) (p + suc (suc (length text))) name cur plain
          (behind_comment b text es p e) (omega (arith, at, length-cut-comment text es))
          (omega (arith, h)) reached)
  get_loop-cut (blank ∷ es) (suc rounds) p name cur (_, plain) e at h reached =
      let on : p + 1 + skipped es ≡ p + suc (skipped es) = omega arith in
      subst (λ q. LooksUp (blank ∷ es) (suc rounds) q name cur) on
        (get_loop-cut es (suc rounds) (p + 1) name cur plain (drop-suc p b e) (omega (arith, at))
          (omega (arith, h)) reached)

-- Every entry has a byte.
length-cut : (es : List Entry) → length es ≤ length (cut es)
unfolding cut cut_entry
length-cut [] = omega arith
length-cut (header name ∷ es) = omega (arith, length-cut es, length-cut-header name es)
length-cut (setting k v ∷ es) = omega (arith, length-cut es, length-cut-setting k v es)
length-cut (comment text ∷ es) = omega (arith, length-cut es, length-cut-comment text es)
length-cut (blank ∷ es) = omega (arith, length-cut es)

-- Where a look-up starts: at the first byte, or behind the NULs in front of the first string.
module _ (fuel end : ℕ) (section : Option Bytes) (key b : Bytes) where
  starts_solid :
      {c : ℕ} {rest : Bytes}
      → drop 0 b ≡ c ∷ rest
      → (c == 0) ≡ false
      → ini_get fuel end section key b ≡ get_loop fuel fuel end section key none 0 b
  unfolding ini_get
  starts_solid e solid = rw (read-drop 0 b e, solid) refl

  starts_nul :
      (k : ℕ) (rest : Bytes)
      → drop 0 b ≡ 0 ∷ (nuls k ++ rest)
      → Rests end (0 + suc k) b
      → k + 1 < fuel
      → ini_get fuel end section key b ≡ get_loop fuel fuel end section key none (0 + suc k) b
  unfolding ini_get
  starts_nul k rest e stop h =
      let on : 0 + suc k ≡ 0 + 0 + 1 + k = omega arith in
      rw
        (
          read-drop 0 b e,
          next-nuls fuel end 0 k b [] rest e tt (subst (λ q. Rests end q b) on stop)
              (omega (arith, h)) h,
        )
        (ap (λ q. get_loop fuel fuel end section key none q b) (sym on))

starts_empty :
    (section : Option Bytes) (key : Bytes)
    → ini_get 1 0 section key (0 ∷ []) ≡ get_loop 1 1 0 section key none 0 (0 ∷ [])
unfolding ini_get read next skip_to next_loop
starts_empty section key = refl

ini_get-start :
    (es : List Entry) (section : Option Bytes) (key : Bytes)
    → All IsPlain es
    → ini_get (length (cut es) + 1) (length (cut es)) section key (cut es ++ 0 ∷ [])
      ≡ get_loop
          (length (cut es) + 1)
          (length (cut es) + 1)
          (length (cut es))
          section
          key
          none
          (0 + skipped es)
          (cut es ++ 0 ∷ [])
unfolding skipped cut
ini_get-start [] section key plain = starts_empty section key
ini_get-start (header name ∷ es) section key plain =
    starts_solid _ _ section key _ (at_header name es refl) refl
ini_get-start (setting k v ∷ es) section key ((is_key, is_value), plain) =
    starts_solid _ _ section key _ (starts_key is_key _ (at_setting k v es refl))
      (subst IsString is_key.position (key-IsString is_key)).0
ini_get-start (comment text ∷ es) section key plain =
    let all = comment text ∷ es in
    let (rest, lead) = leads all in
    starts_nul _ (length (cut all)) section key _ (suc (length text + skipped es)) rest lead
      (rests _ all (length (cut all)) 0 plain refl (omega arith)) (omega (arith, skipped-cut all))
ini_get-start (blank ∷ es) section key plain =
    let all = blank ∷ es in
    let (rest, lead) = leads all in
    starts_nul _ (length (cut all)) section key _ (skipped es) rest lead
      (rests _ all (length (cut all)) 0 plain refl (omega arith)) (omega (arith, skipped-cut all))

pub ini_get-cut :
    (es : List Entry) (section : Option Bytes) (key : Bytes)
    → All IsPlain es
    → IsSection section
    → IsString key
    → (r : Option ℕ) × ((ini_get
            (length (cut es) + 1)
            (length (cut es))
            section
            key
            (cut es ++ 0 ∷ [])
          ≡ returns r (cut es ++ 0 ∷ []))
        × Found (cut es ++ 0 ∷ []) (lookup section key [] es) r)
ini_get-cut es section key plain is_section is_string =
    let end = length (cut es) in
    let (r, (run, found)) =
      get_loop-cut (cut es ++ 0 ∷ []) (end + 1) end section key (omega arith) is_section is_string
        es (end + 1) 0 [] none plain refl (omega arith) (omega (arith, length-cut es)) nowhere in
    (r, (ini_get-start es section key plain ∙ run, found))
