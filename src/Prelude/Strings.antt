-- ===== src/Prelude/Strings.antt =====
-- Text as the list of its Unicode scalar values, with its UTF-8 bytes; bytes as numbers.
use Prim.Native.Nat.{ℕ, ◌+◌, ◌/◌, ◌%◌}
use Prim.Native.Char.{code}
use Prim.Native.String.{String}
use mathlib.Core.Path.{◌≡◌, refl}
use mathlib.Core.Logic.{◌↔◌}
use mathlib.Core.Bool.{Bool, true, false, ◌&&◌, ◌||◌}
use mathlib.Core.List.{List, [], ◌∷◌, ◌++◌, reverse}
use native.Mathlib.Omega.{arith}
use dot_terminal.Prelude.Tests.{ltb, leb, ◌==◌, if◌then◌else◌}

-- `String` and `str`: scalar values, in order.
abbrev pub Text : Type 0
Text = List ℕ

-- `Vec<u8>` and `&[u8]`.
abbrev pub Bytes : Type 0
Bytes = List ℕ

abbrev pub text : String → Text
text String.[] = []
text (String.◌∷◌ c s) = code c ∷ text s

abbrev pub list_eq : List ℕ → List ℕ → Bool
list_eq [] [] = true
list_eq (x ∷ xs) (y ∷ ys) = (x == y) && list_eq xs ys
list_eq _ _ = false

-- `starts_with`, `ends_with` and `contains` of `str`; what is looked for comes first.
abbrev pub starts_with : Text → Text → Bool
starts_with [] t = true
starts_with (c ∷ p) [] = false
starts_with (c ∷ p) (d ∷ t) = (c == d) && starts_with p t

abbrev pub ends_with : Text → Text → Bool
ends_with end t = starts_with (reverse end) (reverse t)

abbrev pub contains_text : Text → Text → Bool
contains_text [] [] = true
contains_text (c ∷ p) [] = false
contains_text p (d ∷ t) = starts_with p (d ∷ t) || contains_text p t

pub list_eq_iff : (xs ys : List ℕ) → (list_eq xs ys ≡ true) ↔ (xs ≡ ys)
list_eq_iff [] [] = ground arith
list_eq_iff [] (y ∷ ys) = ground arith
list_eq_iff (x ∷ xs) [] = ground arith
list_eq_iff (x ∷ xs) (y ∷ ys) = ground (arith, list_eq_iff xs ys)

pub list_eq_refl : (xs : List ℕ) → list_eq xs xs ≡ true
list_eq_refl xs = (list_eq_iff xs xs).1 refl

-- The UTF-8 bytes of one scalar value.
abbrev pub utf8_char : ℕ → Bytes
utf8_char c =
    if ltb c 0x80
    then c ∷ []
    else if ltb c 0x800
    then (0xC0 + c / 64) ∷ (0x80 + c % 64) ∷ []
    else if ltb c 0x10000
    then (0xE0 + c / 4096) ∷ (0x80 + c / 64 % 64) ∷ (0x80 + c % 64) ∷ []
    else (0xF0 + c / 262144) ∷ (0x80 + c / 4096 % 64) ∷ (0x80 + c / 64 % 64) ∷ (0x80 + c % 64) ∷ []

-- `as_bytes`.
abbrev pub utf8 : Text → Bytes
utf8 [] = []
utf8 (c ∷ cs) = utf8_char c ++ utf8 cs

abbrev pub is_ascii_digit : ℕ → Bool
is_ascii_digit b = leb 48 b && leb b 57

abbrev pub is_ascii_lowercase : ℕ → Bool
is_ascii_lowercase b = leb 97 b && leb b 122

abbrev pub is_ascii_alphanumeric : ℕ → Bool
is_ascii_alphanumeric b = is_ascii_digit b || is_ascii_lowercase b || (leb 65 b && leb b 90)

abbrev pub is_ascii_hexdigit : ℕ → Bool
is_ascii_hexdigit b = is_ascii_digit b || (leb 97 b && leb b 102) || (leb 65 b && leb b 70)

-- `char::is_control`: the general category Cc.
abbrev pub is_control : ℕ → Bool
is_control c = ltb c 32 || (leb 127 c && leb c 159)
