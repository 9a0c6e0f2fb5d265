-- ===== src/Base/Comma.antt =====
-- strings.Split(s, ",") and strings.Join(parts, ","), and that the first undoes the second.
use Prim.Native.Char.{Char, code}
use Prim.Native.String
use Prim.Native.String.{String, [], ◌∷◌}
use text.Mathlib.TextLemmas.{nil-append, cons-append}
use mathlib.Core.Path.{◌≡◌, refl}
use mathlib.Core.Bool.{false}
use mathlib.Core.List.{List}
use wa_gateway.Base.Tests.{eqb, if◌then◌else◌}
use wa_gateway.Base.Lists.{All}

abbrev cons_head : Char → List String → List String
cons_head c List.[] = List.◌∷◌ (c ∷ "") List.[]
cons_head c (List.◌∷◌ p ps) = List.◌∷◌ (c ∷ p) ps

unfoldable pub split_comma : String → List String
split_comma [] = List.◌∷◌ "" List.[]
split_comma (c ∷ s) =
    let rest = split_comma s in if eqb (code c) 44 then List.◌∷◌ "" rest else cons_head c rest

unfoldable pub join_comma : List String → String
join_comma List.[] = ""
join_comma (List.◌∷◌ p List.[]) = p
join_comma (List.◌∷◌ p (List.◌∷◌ q ps)) = String.◌++◌ p ("," ∷ join_comma (List.◌∷◌ q ps))

abbrev pub NoComma : String → Type 0
NoComma [] = Unit
NoComma (c ∷ s) = (eqb (code c) 44 ≡ false) × NoComma s

split_comma-word : (p : String) → NoComma p → split_comma p ≡ List.◌∷◌ p List.[]
unfolding split_comma
split_comma-word [] h = refl
split_comma-word (c ∷ p) (n, h) = rw (n, split_comma-word p h) refl

split_comma-append :
    (p s : String) → NoComma p → split_comma (String.◌++◌ p ("," ∷ s)) ≡ List.◌∷◌ p (split_comma s)
unfolding split_comma
split_comma-append [] s h = rw nil-append refl
split_comma-append (c ∷ p) s (n, h) = rw (cons-append, n, split_comma-append p s h) refl

pub split_comma-join_comma :
    (p : String) (ps : List String)
    → NoComma p
    → All NoComma ps
    → split_comma (join_comma (List.◌∷◌ p ps)) ≡ List.◌∷◌ p ps
unfolding join_comma
split_comma-join_comma p List.[] n h = split_comma-word p n
split_comma-join_comma p (List.◌∷◌ q ps) n (m, h) =
    rw (split_comma-append p _ n, split_comma-join_comma q ps m h) refl
