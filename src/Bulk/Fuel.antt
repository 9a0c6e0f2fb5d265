-- ===== src/Bulk/Fuel.antt =====
-- The fuel of replace_all (renderTemplate of internal/gateway/bulk.go) is enough.
use Prim.Native.Char.{code}
use Prim.Native.String
use Prim.Native.String.{[], ◌∷◌}
use wa_gateway.Base.{
  ℕ, zero, suc, ◌≤◌, ◌<◌, ◌≡◌, refl, ap, arith, String, Bool, Option, none, some, Assoc, lookup,
  eqb, Bool-cases, Option-cases, inl, inr, ◌==◌, ◌&&◌,
}
use wa_gateway.Bulk.Template.{
  is_blank, is_word, span, strip_pair, Placeholder, match_inner, match_placeholder, value_or,
  replace_all, char_count,
}

char_count-span : (p : ℕ → Bool) (s : String) → char_count (span p s).1 ≤ char_count s
unfolding span
char_count-span p [] = omega arith
char_count-span p (c ∷ s) = elim (Bool-cases (p (code c))) [
  | inl e ↦ rw e (omega (arith, char_count-span p s))
  | inr e ↦ rw e (omega arith)
]

char_count-strip_pair :
    (b : ℕ) (s : String) {t : String} → strip_pair b s ≡ some t → char_count t < char_count s
char_count-strip_pair b [] e = ground arith
char_count-strip_pair b (c ∷ []) e = ground arith
char_count-strip_pair b (c ∷ d ∷ s) {t = t} e =
    elim (Bool-cases (eqb (code c) b && eqb (code d) b)) [
      | inl h ↦
          let read : some s ≡ some t = rw h at e in
          let same : s ≡ t = cc in
          let size : char_count s ≡ char_count t = ap char_count same in omega (arith, size)
      | inr h ↦ let read : none ≡ some t = rw h at e in absurd (ground (arith, read))
    ]

after_some :
    {k m : String} (rest : String) {p : Placeholder}
    → ◌≡◌ {A = Option Placeholder} (some (record { key = k; matched = m; after = rest })) (some p)
    → char_count rest ≡ char_count p.after
after_some {k = k} {m = m} rest {p = p} e =
    let same : ◌≡◌ {A = Placeholder} (record { key = k; matched = m; after = rest }) p = cc in
    ap (λ (x : Placeholder). char_count x.after) same

char_count-match_inner :
    (s : String) {p : Placeholder} → match_inner s ≡ some p → char_count p.after ≤ char_count s
char_count-match_inner s {p = p} e =
    let s1 = (span is_blank s).1 in
    let word = (span is_word s1).0 in
    let s2 = (span is_word s1).1 in
    let s3 = (span is_blank s2).1 in
    let shorter : char_count s3 ≤ char_count s = omega (
      arith,
      char_count-span is_blank s,
      char_count-span is_word s1,
      char_count-span is_blank s2,
    ) in
    elim (Bool-cases (word == "")) [
      | inl q ↦ let read : none ≡ some p = rw q at e in absurd (ground (arith, read))
      | inr q ↦ elim (Option-cases (strip_pair b'}' s3)) [
        | inl n ↦ let read : none ≡ some p = rw (q, n) at e in absurd (ground (arith, read))
        | inr (rest, f) ↦
            let less = char_count-strip_pair b'}' s3 f in
            let size : char_count rest ≡ char_count p.after = after_some rest (rw (q, f) at e) in
            omega (arith, size, less, shorter)
      ]
    ]

pub char_count-match_placeholder :
    (s : String) {p : Placeholder}
    → match_placeholder s ≡ some p
    → char_count p.after < char_count s
unfolding match_placeholder
char_count-match_placeholder s {p = p} e = elim (Option-cases (strip_pair b'{' s)) [
  | inl n ↦
      let read : none ≡ some p = rw (n, match_placeholder) at e in absurd (ground (arith, read))
  | inr (t, f) ↦
      let one = char_count-strip_pair b'{' s f in
      let two = char_count-match_inner t {p = p} (rw (f, match_placeholder) at e) in
      omega (arith, one, two)
]

-- Any two fuels of at least the text's length give the same text with its placeholders replaced,
-- so the fuel of renderTemplate, that length, is enough.
pub replace_all_enough :
    (vars : Assoc String) (f g : ℕ) (s : String)
    → char_count s ≤ f
    → char_count s ≤ g
    → replace_all vars f s ≡ replace_all vars g s
unfolding replace_all
replace_all_enough vars zero zero s h k = refl
replace_all_enough vars zero (suc g) [] h k = refl
replace_all_enough vars zero (suc g) (c ∷ s) h k = absurd (omega (arith, h))
replace_all_enough vars (suc f) zero [] h k = refl
replace_all_enough vars (suc f) zero (c ∷ s) h k = absurd (omega (arith, k))
replace_all_enough vars (suc f) (suc g) [] h k = refl
replace_all_enough vars (suc f) (suc g) (c ∷ s) h k =
    elim (Option-cases (match_placeholder (c ∷ s))) [
      | inl n ↦
          rw (n, replace_all)
            (ap (c ∷◌) (replace_all_enough vars f g s (omega (arith, h)) (omega (arith, k))))
      | inr (p, e) ↦
          let shorter = char_count-match_placeholder (c ∷ s) e in
          rw (e, replace_all)
            (ap (String.◌++◌ (value_or (lookup p.key vars) p.matched)) (
              replace_all_enough vars f g p.after (omega (arith, h, shorter))
                (omega (arith, k, shorter))))
    ]
