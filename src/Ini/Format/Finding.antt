-- ===== src/Ini/Format/Finding.antt =====
-- src/ini.c: the strings of a file of the format, as a look-up meets them.
use zmq_proxy.Cmd.{returns}
use zmq_proxy.Ini.Format.{
  comment, blank, nuls, skipped, Entry, header, setting, cut, cut_entry, IsPlain, IsString, same_ci,
  in_scope, IsKey, IsValue, ends_key, ends_value,
}
use zmq_proxy.Ini.Format.Comments.{length-nuls}
use zmq_proxy.Ini.Format.Pointers.{drop-suc, drop-add, drop}
use zmq_proxy.Ini.Format.Strings.{Passes-IsString, strcmpci-drop, Rests}
use zmq_proxy.Ini.Get.{in_section}
use zmq_proxy.Prelude.{
  ℕ, ◌+◌, ◌≡◌, refl, ap, ◌∙◌, subst, List, [], ◌∷◌, ◌++◌, append_assoc, Option, none, some, Bytes,
  All, length, length-append, arith, inl, inr, zero, suc, ◌≤◌, sym,
}

-- The section that is asked for.
abbrev pub IsSection : Option Bytes → Type 0
IsSection none = Unit
IsSection (some name) = IsString name

pub value-IsString : {value : Bytes} → IsValue value → IsString value
value-IsString v = Passes-IsString ends_value _ v.passes

pub key-IsString : {key : Bytes} → IsKey key → IsString key
key-IsString k = Passes-IsString ends_key _ k.passes

-- What stands at the strings of an entry.
pub at_header :
    (name : Bytes) (es : List Entry) {l : Bytes}
    → l ≡ cut (header name ∷ es) ++ 0 ∷ []
    → l ≡ (b'[' ∷ name) ++ 0 ∷ 0 ∷ (cut es ++ 0 ∷ [])
unfolding cut cut_entry
at_header name es e = e ∙ simp append_assoc refl

pub at_setting :
    (key value : Bytes) (es : List Entry) {l : Bytes}
    → l ≡ cut (setting key value ∷ es) ++ 0 ∷ []
    → l ≡ key ++ 0 ∷ (value ++ 0 ∷ (cut es ++ 0 ∷ []))
unfolding cut cut_entry
at_setting key value es e = e ∙ simp append_assoc refl

pub length-cut-header :
    (name : Bytes) (es : List Entry)
    → length (cut (header name ∷ es)) ≡ length name + 3 + length (cut es)
unfolding cut cut_entry
length-cut-header name es =
    length-append (b'[' ∷ (name ++ 0 ∷ 0 ∷ [])) (cut es)
    ∙ omega (arith, length-append name (0 ∷ 0 ∷ []))

pub length-cut-setting :
    (key value : Bytes) (es : List Entry)
    → length (cut (setting key value ∷ es)) ≡ length key + 1 + (length value + 1) + length (cut es)
unfolding cut cut_entry
length-cut-setting key value es =
    length-append (key ++ (0 ∷ (value ++ 0 ∷ []))) (cut es)
    ∙ omega (arith, length-append key (0 ∷ (value ++ 0 ∷ [])), length-append value (0 ∷ []))

pub starts_key :
    {k : Bytes} (is_key : IsKey k) (rest : Bytes) {l : Bytes}
    → l ≡ k ++ rest
    → l ≡ is_key.first ∷ (is_key.more ++ rest)
starts_key is_key rest e = e ∙ ap (λ w. w ++ rest) is_key.position

pub length-cut-comment :
    (text : Bytes) (es : List Entry)
    → length (cut (comment text ∷ es)) ≡ length text + 2 + length (cut es)
unfolding cut cut_entry
length-cut-comment text es =
    length-append (0 ∷ 0 ∷ nuls (length text)) (cut es) ∙ omega (arith, length-nuls (length text))

nuls-add : (n m : ℕ) → nuls (n + m) ≡ nuls n ++ nuls m
nuls-add zero m = let none_more : 0 + m ≡ m = omega arith in ap nuls none_more
nuls-add (suc n) m =
    let one_more : suc n + m ≡ suc (n + m) = omega arith in
    ap nuls one_more ∙ ap (λ l. 0 ∷ l) (nuls-add n m)

-- The block of the entries begins with so many NULs.
pub leads : (es : List Entry) → (rest : Bytes) × (cut es ++ 0 ∷ [] ≡ nuls (skipped es) ++ rest)
unfolding cut cut_entry skipped
leads [] = (0 ∷ [], refl)
leads (header name ∷ es) = (_, refl)
leads (setting key value ∷ es) = (_, refl)
leads (comment text ∷ es) =
    let (rest, e) = leads es in
    (
      rest,
      ap (λ l. 0 ∷ 0 ∷ l)
          (append_assoc (nuls (length text)) (cut es) (0 ∷ [])
            ∙ ap (λ l. nuls (length text) ++ l) e
            ∙ sym (append_assoc (nuls (length text)) (nuls (skipped es)) rest)
            ∙ ap (λ l. l ++ rest) (sym (nuls-add (length text) (skipped es)))),
    )
leads (blank ∷ es) = let (rest, e) = leads es in (rest, ap (λ l. 0 ∷ l) e)

pub skipped-cut : (es : List Entry) → skipped es ≤ length (cut es)
unfolding cut cut_entry skipped
skipped-cut [] = omega arith
skipped-cut (header name ∷ es) = omega arith
skipped-cut (setting key value ∷ es) = omega arith
skipped-cut (comment text ∷ es) = omega (arith, skipped-cut es, length-cut-comment text es)
skipped-cut (blank ∷ es) = omega (arith, skipped-cut es)

module _ (b : Bytes) where
  -- A string starts at the pointer.
  abbrev pub Holds : Bytes → ℕ → Type 0
  Holds w q = IsString w × ((rest : Bytes) × (drop q b ≡ w ++ 0 ∷ rest))

  -- The result of a look-up: a string and where it stands.
  pub data Found : Option Bytes → Option ℕ → Type 0 where
    absent : Found none none
    present : {v : Bytes} {q : ℕ} → Holds v q → Found (some v) (some q)

  -- The section that a look-up has reached: before the first header there is no pointer to its name.
  pub data Reached : Bytes → Option ℕ → Type 0 where
    nowhere : Reached [] none
    within : {name : Bytes} {q : ℕ} → Holds name q → Reached name (some q)

  pub in_section-in_scope :
      (section : Option Bytes) {name : Bytes} {cur : Option ℕ}
      → IsSection section
      → Reached name cur
      → in_section section cur b ≡ returns (in_scope section name) b
  unfolding in_section in_scope same_ci
  in_section-in_scope none string reached = refl
  in_section-in_scope (some []) string nowhere = refl
  in_section-in_scope (some (x ∷ s)) string nowhere = ap (λ r. returns r b) string.0
  in_section-in_scope (some section) string (within {name} {q} (is_name, (rest, e))) =
      strcmpci-drop section name rest q b e string is_name

  pub behind_comment :
      (text : Bytes) (es : List Entry) (p : ℕ)
      → drop p b ≡ cut (comment text ∷ es) ++ 0 ∷ []
      → drop (p + suc (suc (length text))) b ≡ cut es ++ 0 ∷ []
  unfolding cut cut_entry
  behind_comment text es p e =
      ap (λ n. drop (p + suc (suc n)) b) (sym (length-nuls (length text)))
      ∙ drop-add p b (0 ∷ 0 ∷ nuls (length text)) (cut es ++ 0 ∷ [])
          (e ∙ append_assoc (0 ∷ 0 ∷ nuls (length text)) (cut es) (0 ∷ []))

  -- In front of the first string of the entries that are left there are just so many NULs.
  pub rests :
      (es : List Entry) (end p : ℕ)
      → All IsPlain es
      → drop p b ≡ cut es ++ 0 ∷ []
      → p + length (cut es) ≡ end
      → Rests end (p + skipped es) b
  unfolding cut cut_entry skipped
  rests [] end p plain e at = inl (omega (arith, at))
  rests (header name ∷ es) end p plain e at =
      let here : p ≡ p + 0 = omega arith in
      subst (λ q. Rests end q b) here
        (inr (b'[', _, omega (arith, at, length-cut-header name es), at_header name es e, refl))
  rests (setting key value ∷ es) end p ((k, v), plain) e at =
      let here : p ≡ p + 0 = omega arith in
      subst (λ q. Rests end q b) here
        (inr (
          k.first,
          _,
          omega (arith, at, length-cut-setting key value es),
          starts_key k _ (at_setting key value es e),
          (subst IsString k.position (key-IsString k)).0,
        ))
  rests (comment text ∷ es) end p (_, plain) e at =
      let on : p + suc (suc (length text)) + skipped es ≡ p + suc (suc (length text + skipped es)) =
        omega arith in
      subst (λ q. Rests end q b) on
        (rests es end _ plain (behind_comment text es p e)
          (omega (arith, at, length-cut-comment text es)))
  rests (blank ∷ es) end p (_, plain) e at =
      let on : p + 1 + skipped es ≡ p + suc (skipped es) = omega arith in
      subst (λ q. Rests end q b) on (rests es end _ plain (drop-suc p b e) (omega (arith, at)))
