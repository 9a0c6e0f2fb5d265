-- ===== src/Bulk/Rendered.antt =====
-- What renderTemplate (internal/gateway/bulk.go) makes of a template.
use Prim.Native.Char.{Char, code}
use Prim.Native.String.{[], ◌∷◌, ◌++◌}
use mathlib.Core.List.{List}
use text.Mathlib.TextLemmas.{nil-append, cons-append}
use wa_gateway.Base.{
  ℕ, suc, ◌≡◌, ◌≢◌, refl, ap, sym, subst, eq_iff, ◌∙◌, arith, String, Bool, true, false, none, some,
  Assoc, lookup, All, eqb, Bool-cases, inl, inr, ◌==◌, if◌then◌else◌,
}
use wa_gateway.Bulk.Template.{
  is_blank, is_word, Placeholder, match_placeholder, value_or, replace_all, char_count,
  render_template,
}
use wa_gateway.Bulk.Fuel.{replace_all_enough, char_count-match_placeholder}
use wa_gateway.Bulk.Matched.{placeholder, AllChars, match_placeholder-append, placeholder-append}

-- a part of a template: text, or a placeholder with the blanks around its name
pub data Piece : Type 0 where
  plain : String → Piece
  hole : String → String → String → Piece

-- the template that the pieces make up
unfoldable pub template_of : List Piece → String
template_of List.[] = ""
template_of (List.◌∷◌ (plain s) pieces) = s ++ template_of pieces
template_of (List.◌∷◌ (hole before key after) pieces) =
    placeholder before key after ++ template_of pieces

-- the text that is meant: a name that has no value stays as it is written
unfoldable pub filled : Assoc String → List Piece → String
filled vars List.[] = ""
filled vars (List.◌∷◌ (plain s) pieces) = s ++ filled vars pieces
filled vars (List.◌∷◌ (hole before key after) pieces) =
    value_or (lookup key vars) (placeholder before key after) ++ filled vars pieces

abbrev pub is_not_brace : ℕ → Bool
is_not_brace c = if eqb c b'{' then false else true

-- the text has no opening brace; a placeholder has a name
abbrev pub IsPiece : Piece → Type 0
IsPiece (plain s) = AllChars is_not_brace s
IsPiece (hole before key after) =
    AllChars is_blank before × AllChars is_word key × (key ≢ "") × AllChars is_blank after

module _ (vars : Assoc String) where
  unmatched : (c : Char) (s : String) → eqb (code c) b'{' ≡ false → match_placeholder (c ∷ s) ≡ none
  unfolding match_placeholder
  unmatched c [] h = refl
  unmatched c (d ∷ s) h = rw (match_placeholder, h) refl

  replace_all-none :
      (f : ℕ) (c : Char) (s : String)
      → match_placeholder (c ∷ s) ≡ none
      → replace_all vars (suc f) (c ∷ s) ≡ c ∷ replace_all vars f s
  unfolding replace_all
  replace_all-none f c s n = rw (replace_all, n) refl

  replace_all-some :
      (f : ℕ) (c : Char) (s : String) (p : Placeholder)
      → match_placeholder (c ∷ s) ≡ some p
      → replace_all vars (suc f) (c ∷ s)
        ≡ value_or (lookup p.key vars) p.matched ++ replace_all vars f p.after
  unfolding replace_all
  replace_all-some f c s p m = rw (replace_all, m) refl

  replace_all-plain :
      (s t : String)
      → AllChars is_not_brace s
      → replace_all vars (char_count (s ++ t)) (s ++ t) ≡ s ++ replace_all vars (char_count t) t
  replace_all-plain [] t h = rw (nil-append, nil-append) refl
  replace_all-plain (c ∷ s) t (h, hs) =
      let e : eqb (code c) b'{' ≡ false = ground (arith, h) in
      rw (cons-append, cons-append)
        (replace_all-none (char_count (s ++ t)) c (s ++ t) (unmatched c (s ++ t) e)
          ∙ ap (c ∷◌) (replace_all-plain s t hs))

  replace_all-hole :
      (before key after t : String)
      → IsPiece (hole before key after)
      → replace_all vars
          (char_count (placeholder before key after ++ t))
          (placeholder before key after ++ t)
        ≡ value_or (lookup key vars) (placeholder before key after)
          ++ replace_all vars (char_count t) t
  replace_all-hole before key after t (b, k, n, a) =
      let rest = before ++ (key ++ (after ++ ("}" ∷ ("}" ∷ t)))) in
      let found = match_placeholder-append before key after t b k n a in
      let shorter = char_count-match_placeholder ("{" ∷ ("{" ∷ rest)) found in
      let replaced =
        replace_all-some (char_count ("{" ∷ rest)) "{" ("{" ∷ rest) _ found
        ∙ ap (value_or (lookup key vars) (placeholder before key after) ++◌) (
            replace_all_enough vars (char_count ("{" ∷ rest)) (char_count t) t
              (omega (arith, shorter)) (omega arith)) in
      subst
        (λ (s : String).
          replace_all vars (char_count s) s
          ≡ value_or (lookup key vars) (placeholder before key after)
            ++ replace_all vars (char_count t) t)
        (sym (placeholder-append before key after t)) replaced

  replace_all-template_of :
      (pieces : List Piece)
      → All IsPiece pieces
      → replace_all vars (char_count (template_of pieces)) (template_of pieces) ≡ filled vars pieces
  unfolding template_of filled replace_all
  replace_all-template_of List.[] h = refl
  replace_all-template_of (List.◌∷◌ (plain s) pieces) (h, hs) =
      replace_all-plain s (template_of pieces) h ∙ ap (s ++◌) (replace_all-template_of pieces hs)
  replace_all-template_of (List.◌∷◌ (hole b k a) pieces) (h, hs) =
      replace_all-hole b k a (template_of pieces) h
      ∙ ap (value_or (lookup k vars) (placeholder b k a) ++◌) (replace_all-template_of pieces hs)

filled_without : (pieces : List Piece) → filled List.[] pieces ≡ template_of pieces
unfolding filled template_of lookup
filled_without List.[] = refl
filled_without (List.◌∷◌ (plain s) pieces) = ap (s ++◌) (filled_without pieces)
filled_without (List.◌∷◌ (hole b k a) pieces) = ap (placeholder b k a ++◌) (filled_without pieces)

-- For a template of texts without an opening brace and of placeholders, whose names are of letters,
-- digits and underscores, between blanks: renderTemplate puts in place of each placeholder the value
-- of its name, or leaves it as it is written if the name has none, and keeps the texts.
pub render_template_lem :
    (pieces : List Piece) (vars : Assoc String)
    → All IsPiece pieces
    → render_template (template_of pieces) vars ≡ filled vars pieces
unfolding render_template replace_all
render_template_lem pieces List.[] h = ground (arith, filled_without pieces)
render_template_lem pieces (List.◌∷◌ v vars) h =
    let whole = replace_all-template_of (List.◌∷◌ v vars) pieces h in
    elim (Bool-cases (template_of pieces == "")) [
      | inl e ↦
          let none_left : template_of pieces ≡ "" = (eq_iff (template_of pieces) "").0 e in
          let blank : "" ≡ filled (List.◌∷◌ v vars) pieces = rw none_left at whole in
          rw e (none_left ∙ blank)
      | inr e ↦ rw (e, whole) refl
    ]
