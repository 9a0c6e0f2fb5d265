-- ===== src/Base/Text.antt =====
-- What the program uses of Go's `strings` package, on texts as lists of characters.
use Prim.Native.Nat.{ℕ, ◌+◌}
use Prim.Native.Char.{Char, code}
use Prim.Native.String.{String, [], ◌∷◌}
use text.Mathlib.Text.{◌==◌}
use text.Mathlib.TextEquality.{eq_iff}
use text.Mathlib.TextLemmas.{cons-ne-nil}
use mathlib.Core.Path.{◌≡◌}
use mathlib.Core.Logic.{◌≢◌, inl, inr}
use mathlib.Core.Option.{Option, none, some}
use mathlib.Core.Bool.{true, Bool, false, ◌&&◌, ◌||◌}
use native.Mathlib.Omega.{arith}
use wa_gateway.Base.Tests.{ltb, leb, eqb, if◌then◌else◌, Bool-cases}

-- unicode.IsSpace
unfoldable pub is_space : ℕ → Bool
is_space c =
    (leb 9 c && leb c 13)
    || eqb c 32
    || eqb c 0x85
    || eqb c 0xA0
    || eqb c 0x1680
    || (leb 0x2000 c && leb c 0x200A)
    || eqb c 0x2028
    || eqb c 0x2029
    || eqb c 0x202F
    || eqb c 0x205F
    || eqb c 0x3000

-- strings.TrimLeftFunc(s, unicode.IsSpace)
unfoldable pub trim_left : String → String
trim_left [] = ""
trim_left (c ∷ s) = if is_space (code c) then trim_left s else c ∷ s

-- one character put before a text whose end is trimmed
abbrev pub keep_before : Char → String → String
keep_before c [] = if is_space (code c) then "" else c ∷ ""
keep_before c (d ∷ s) = c ∷ d ∷ s

unfoldable pub trim_right : String → String
trim_right [] = ""
trim_right (c ∷ s) = keep_before c (trim_right s)

-- strings.TrimSpace
unfoldable pub trim : String → String
unfolding is_space trim_left trim_right
trim s = trim_right (trim_left s)

-- strings.HasSuffix(s, t)
unfoldable pub has_suffix : String → String → Bool
has_suffix [] t = "" == t
has_suffix (c ∷ s) t = (c ∷ s) == t || has_suffix s t

-- len(s), in bytes of UTF-8
abbrev utf8_width : ℕ → ℕ
utf8_width c = if ltb c 0x80 then 1 else if ltb c 0x800 then 2 else if ltb c 0x10000 then 3 else 4

unfoldable pub byte_len : String → ℕ
byte_len [] = 0
byte_len (c ∷ s) = utf8_width (code c) + byte_len s

-- strings.TrimSuffix(s, t)
unfoldable pub trim_suffix : String → String → String
trim_suffix [] t = ""
trim_suffix (c ∷ s) t = if (c ∷ s) == t then "" else c ∷ trim_suffix s t

-- strings.TrimPrefix(a, p) where HasPrefix(a, p)
unfoldable pub after_prefix : String → String → Option String
after_prefix [] a = some a
after_prefix (c ∷ p) [] = none
after_prefix (c ∷ p) (d ∷ a) = if eqb (code c) (code d) then after_prefix p a else none

-- the text before the first comma, or all of it
unfoldable pub before_comma : String → String
before_comma [] = ""
before_comma (c ∷ s) = let rest = before_comma s in if eqb (code c) 44 then "" else c ∷ rest

-- the text before the last colon, if there is one
unfoldable pub before_last_colon : String → Option String
before_last_colon [] = none
before_last_colon (c ∷ s) = elim (before_last_colon s) [
  | some head ↦ some (c ∷ head)
  | none ↦ if eqb (code c) 58 then some "" else none
]

abbrev is_prefix : String → String → Bool
is_prefix p s = elim (after_prefix p s) [ some rest ↦ true | none ↦ false ]

-- strings.Contains
unfoldable pub contains : String → String → Bool
contains [] t = is_prefix t ""
contains (c ∷ s) t = is_prefix t (c ∷ s) || contains s t

pub ==_of_ne : (s t : String) → s ≢ t → (s == t) ≡ false
==_of_ne s t h = elim (Bool-cases (s == t)) [ inl e ↦ absurd (h ((eq_iff s t).0 e)) | inr e ↦ e ]

pub cons-ne-nil_test : (c : Char) (s : String) → ((c ∷ s) == "") ≡ false
cons-ne-nil_test c s = ==_of_ne (c ∷ s) "" (cons-ne-nil c s)

pub ne_of_test : (s t : String) → (s == t) ≡ false → s ≢ t
ne_of_test s t h e = absurd (ground (arith, eq_iff s t))
