-- ===== src/Ini/Format.antt =====
-- src/ini.c: the format of the configuration file, for the files that need no repair: sections with
-- settings, comments and empty lines, one on each line, without quotes or blanks around the names.
pub mod Pointers
pub mod Cutting
pub mod Comments
pub mod Document
pub mod Strings
pub mod Finding
pub mod Turns
pub mod Starting
pub mod Values
pub mod Loading
use zmq_proxy.Ini.Buffer.{tolower}
use zmq_proxy.Prelude.{
  Option, none, some, ◌&&◌, ℕ, ◌+◌, ◌≡◌, Bool, true, false, ◌||◌, List, [], ◌∷◌, ◌++◌, Bytes, All,
  if◌then◌else◌, ◌==◌, zero, suc, length,
}

pub data Entry : Type 0 where
  header : Bytes → Entry
  setting : Bytes → Bytes → Entry
  comment : Bytes → Entry
  blank : Entry

-- So many NULs.
abbrev pub nuls : ℕ → Bytes
nuls zero = []
nuls (suc n) = 0 ∷ nuls n

-- The line of an entry in the file, and the strings that `split_data` leaves of it.
unfoldable pub print_entry : Entry → Bytes
print_entry (header name) = b'[' ∷ (name ++ b']' ∷ b'\n' ∷ [])
print_entry (setting key value) = key ++ (b'=' ∷ (value ++ b'\n' ∷ []))
print_entry (comment text) = b';' ∷ (text ++ b'\n' ∷ [])
print_entry blank = b'\n' ∷ []

unfoldable pub cut_entry : Entry → Bytes
cut_entry (header name) = b'[' ∷ (name ++ 0 ∷ 0 ∷ [])
cut_entry (setting key value) = key ++ (0 ∷ (value ++ 0 ∷ []))
cut_entry (comment text) = 0 ∷ 0 ∷ nuls (length text)
cut_entry blank = 0 ∷ []

unfoldable pub print : List Entry → Bytes
print [] = []
print (e ∷ es) = print_entry e ++ print es

unfoldable pub cut : List Entry → Bytes
cut [] = []
cut (e ∷ es) = cut_entry e ++ cut es

-- How many NULs stand in front of the first string.
unfoldable pub skipped : List Entry → ℕ
skipped [] = 0
skipped (header name ∷ es) = 0
skipped (setting key value ∷ es) = 0
skipped (comment text ∷ es) = suc (suc (length text + skipped es))
skipped (blank ∷ es) = suc (skipped es)

-- No byte of the word is a NUL, or one that a scan stops at.
abbrev pub Passes : (ℕ → Bool) → Bytes → Type 0
Passes reject = All λ c. (c == 0 || reject c) ≡ false

abbrev pub ends_name : ℕ → Bool
ends_name = λ d. d == b']' || d == b'\n'

abbrev pub ends_key : ℕ → Bool
ends_key = λ d. d == b'=' || d == b'\n'

abbrev pub ends_value : ℕ → Bool
ends_value = λ d. d == b'\n'

-- What `trim_back` removes.
abbrev pub is_blank : ℕ → Bool
is_blank c = c == b' ' || c == b'\t' || c == b'\r'

-- The word ends with a byte that is not blank.
pub record Closed (word : Bytes) : Type 0 where
  pub front : Bytes
  pub last : ℕ
  pub position : word ≡ front ++ last ∷ []
  pub solid : is_blank last ≡ false

-- A key does not begin like another kind of line.
pub record IsKey (key : Bytes) : Type 0 where
  pub first : ℕ
  pub more : Bytes
  pub position : key ≡ first ∷ more
  pub no_space : (first == b'\r' || first == b'\n' || first == b'\t' || first == b' ') ≡ false
  pub no_header : (first == b'[') ≡ false
  pub no_comment : (first == b';') ≡ false
  pub passes : Passes ends_key key
  pub closed : Closed key

-- A value does not begin with a blank or a quote.
pub record IsValue (value : Bytes) : Type 0 where
  pub first : ℕ
  pub more : Bytes
  pub position : value ≡ first ∷ more
  pub no_blank : (first == b' ' || first == b'\r' || first == b'\t') ≡ false
  pub no_quote : (first == b'"') ≡ false
  pub passes : Passes ends_value value
  pub closed : Closed value

abbrev pub IsPlain : Entry → Type 0
IsPlain (header name) = Passes ends_name name
IsPlain (setting key value) = IsKey key × IsValue value
IsPlain (comment text) = Passes ends_value text
IsPlain blank = Unit

-- A string of C.
abbrev pub IsString : Bytes → Type 0
IsString = All λ c. (c == 0) ≡ false

-- Whether two strings are the same but for upper and lower case.
unfoldable pub same_ci : Bytes → Bytes → Bool
same_ci [] [] = true
same_ci [] (y ∷ w) = false
same_ci (x ∷ a) [] = false
same_ci (x ∷ a) (y ∷ w) = if tolower x == tolower y then same_ci a w else false

-- Whether a look-up reads the settings of the section `current`; every look-up reads them if it
-- asks for none.
unfoldable pub in_scope : Option Bytes → Bytes → Bool
in_scope none current = true
in_scope (some section) current = same_ci section current

-- The value that the file gives a key: the first in the section. `current` is the section so far,
-- the empty name before the first header.
unfoldable pub lookup : Option Bytes → Bytes → Bytes → List Entry → Option Bytes
lookup section key current [] = none
lookup section key current (header name ∷ es) = lookup section key name es
lookup section key current (comment text ∷ es) = lookup section key current es
lookup section key current (blank ∷ es) = lookup section key current es
lookup section key current (setting k v ∷ es) =
    if in_scope section current && same_ci key k then some v else lookup section key current es
