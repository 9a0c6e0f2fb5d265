-- ===== src/Bulk/Template.antt =====
-- renderTemplate of internal/gateway/bulk.go: the placeholders {{ name }} that
-- `\{\{\s*([a-zA-Z0-9_]+)\s*\}\}` matches, leftmost first. The four parts of the pattern share no
-- character, so a match is found by one pass without going back.
use Prim.Native.Char.{code}
use Prim.Native.String.{[], ◌∷◌}
use Prim.Native.String
use wa_gateway.Base.{
  ℕ, zero, suc, String, Bool, ◌&&◌, ◌||◌, ◌==◌, Option, none, some, leb, eqb, if◌then◌else◌, Assoc,
  lookup, is_empty,
}

-- [a-zA-Z0-9_]
abbrev pub is_word : ℕ → Bool
is_word c =
    (leb b'a' c && leb c b'z')
    || (leb b'A' c && leb c b'Z')
    || (leb b'0' c && leb c b'9')
    || eqb c b'_'

-- \s of the regexp package
abbrev pub is_blank : ℕ → Bool
is_blank c = eqb c 9 || eqb c 10 || eqb c 12 || eqb c 13 || eqb c 32

-- the longest front of characters that pass the test, and what follows it
unfoldable pub span : (ℕ → Bool) → String → String × String
span p [] = ("", "")
span p (c ∷ s) =
    let (front, back) = span p s in if p (code c) then (c ∷ front, back) else ("", c ∷ s)

-- two characters `b`
abbrev pub strip_pair : ℕ → String → Option String
strip_pair b [] = none
strip_pair b (c ∷ []) = none
strip_pair b (c ∷ d ∷ s) = if eqb (code c) b && eqb (code d) b then some s else none

pub record Placeholder : Type 0 where
  pub key : String
  pub matched : String
  pub after : String

-- what follows the opening braces
abbrev pub match_inner : String → Option Placeholder
match_inner s =
    let (blanks, s1) = span is_blank s in
    let (word, s2) = span is_word s1 in
    let (blanks', s3) = span is_blank s2 in
    if word == "" then none else elim (strip_pair b'}' s3) [
      | none ↦ none
      | some rest ↦ some (record {
        key = word;
        matched =
            String.◌++◌ "{{" (String.◌++◌ blanks (String.◌++◌ word (String.◌++◌ blanks' "}}")));
        after = rest;
      })
    ]

-- a match at the front of the text
unfoldable pub match_placeholder : String → Option Placeholder
match_placeholder s = elim (strip_pair b'{' s) [ none ↦ none | some t ↦ match_inner t ]

abbrev pub value_or : Option String → String → String
value_or none m = m
value_or (some v) m = v

-- ReplaceAllStringFunc, on fuel
unfoldable pub replace_all : Assoc String → ℕ → String → String
replace_all vars zero s = s
replace_all vars (suc f) [] = ""
replace_all vars (suc f) (c ∷ s) = elim (match_placeholder (c ∷ s)) [
  | none ↦ c ∷ replace_all vars f s
  | some p ↦ String.◌++◌ (value_or (lookup p.key vars) p.matched) (replace_all vars f p.after)
]

abbrev pub char_count : String → ℕ
char_count [] = 0
char_count (c ∷ s) = suc (char_count s)

unfoldable pub render_template : String → Assoc String → String
render_template tmpl vars =
    if tmpl == "" || is_empty vars then tmpl else replace_all vars (char_count tmpl) tmpl
