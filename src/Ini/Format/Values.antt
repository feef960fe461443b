-- ===== src/Ini/Format/Values.antt =====
-- src/ini.c: look-ups in a file of the format.
use zmq_proxy.Cmd.{◌>>◌, and_then-returns, returns}
use zmq_proxy.Ini.Format.{print, Entry, cut, IsPlain, IsString, lookup}
use zmq_proxy.Ini.Format.Document.{split_data-print, length-print}
use zmq_proxy.Ini.Format.Finding.{Found, absent, present, IsSection}
use zmq_proxy.Ini.Format.Pointers.{drop}
use zmq_proxy.Ini.Format.Starting.{ini_get-cut}
use zmq_proxy.Ini.Format.Strings.{string_at-drop}
use zmq_proxy.Ini.Load.{ini_sget, store, Dst, number}
use zmq_proxy.Ini.Split.{split_data}
use zmq_proxy.Platform.{Status}
use zmq_proxy.Prelude.{
  length-append, ap, ℕ, zero, suc, ◌+◌, ◌<◌, ◌≡◌, refl, Bool, true, false, List, [], ◌∷◌, ◌++◌,
  Option, none, some, Bytes, All, length, arith, sym,
}

-- What `ini_sget` returns and leaves in its variable, if the look-up gives `value`.
unfoldable pub stored : (Bytes → Option Status) → Dst → Option Bytes → Bool × Dst
stored scan dst none = (false, dst)
stored scan dst (some value) = (true, elim (scan value) [ none ↦ dst | some n ↦ number n ])

length-drop : (q : ℕ) (b w rest : Bytes) → drop q b ≡ w ++ 0 ∷ rest → length w < length b
length-drop zero b w rest e = omega (arith, ap length e, length-append w (0 ∷ rest))
length-drop (suc q) [] w rest e = omega (arith, ap length e, length-append w (0 ∷ rest))
length-drop (suc q) (x ∷ b) w rest e = omega (arith, length-drop q b w rest e)

store-Found :
    {b : Bytes} (end : ℕ) (scan : Bytes → Option Status) (dst : Dst) {value : Option Bytes}
    {val : Option ℕ}
    → length b ≡ end + 1
    → Found b value val
    → store (end + 1) (some scan) dst val b ≡ returns (stored scan dst value) b
unfolding store stored
store-Found end scan dst size absent = refl
store-Found {b} end scan dst size (present {v} {q} (is_string, (rest, e))) =
    rw
      (string_at-drop (end + 1) v rest q b e is_string
        (omega (arith, size, length-drop q b v rest e)))
      refl

pub ini_sget-cut :
    (es : List Entry) (section : Option Bytes) (key : Bytes) (scan : Bytes → Option Status)
    (dst : Dst)
    → All IsPlain es
    → IsSection section
    → IsString key
    → ini_sget (length (cut es)) section key (some scan) dst (cut es ++ 0 ∷ [])
      ≡ returns (stored scan dst (lookup section key [] es)) (cut es ++ 0 ∷ [])
unfolding ini_sget
ini_sget-cut es section key scan dst plain is_section is_string =
    let (r, (run, found)) = ini_get-cut es section key plain is_section is_string in
    and_then-returns _ run
      (store-Found (length (cut es)) scan dst (length-append (cut es) (0 ∷ [])) found)

-- In a file of the format `ini_sget`, with a format string, stores what the conversion makes of the
-- value that the file gives the key in the section (`lookup`), and leaves its variable as it is if the
-- file gives none or the conversion fails; it returns whether the file gives a value. The file is as
-- `fread` stores it, and `split_data` has cut it; the key and the section, if one is asked for, are
-- strings without a NUL.
pub ini_sget-print :
    (es : List Entry) (section : Option Bytes) (key : Bytes) (scan : Bytes → Option Status)
    (dst : Dst)
    → All IsPlain es
    → IsSection section
    → IsString key
    → (split_data (length (print es) + 1) (length (print es))
          >> ini_sget (length (print es)) section key (some scan) dst)
        (print es ++ 0 ∷ [])
      ≡ returns (stored scan dst (lookup section key [] es)) (cut es ++ 0 ∷ [])
ini_sget-print es section key scan dst plain is_section is_string =
    and_then-returns _ (split_data-print es (length (print es) + 1) plain (omega arith))
      (rw (sym (length-print es)) (ini_sget-cut es section key scan dst plain is_section is_string))
