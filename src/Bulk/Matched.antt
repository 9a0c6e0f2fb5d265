-- ===== src/Bulk/Matched.antt =====
-- How renderTemplate (internal/gateway/bulk.go) finds a placeholder that stands in a template.
use Prim.Native.Char.{code}
use Prim.Native.String.{[], ◌∷◌, ◌++◌}
use text.Mathlib.TextLemmas.{append_assoc, nil-append, cons-append}
use wa_gateway.Base.{
  ℕ, ◌≡◌, ◌≢◌, refl, ap, ◌∙◌, arith, String, Bool, true, false, some, ==_of_ne, ◌==◌,
}
use wa_gateway.Bulk.Template.{is_blank, is_word, span, strip_pair, match_inner, match_placeholder}

abbrev pub placeholder : String → String → String → String
placeholder before key after = "{{" ++ (before ++ (key ++ (after ++ "}}")))

-- every character passes the test
abbrev pub AllChars : (ℕ → Bool) → String → Type 0
AllChars p [] = Unit
AllChars p (c ∷ s) = (p (code c) ≡ true) × AllChars p s

abbrev Stops : (ℕ → Bool) → String → Type 0
Stops p [] = Unit
Stops p (c ∷ s) = p (code c) ≡ false

span-Stops : (p : ℕ → Bool) (t : String) → Stops p t → span p t ≡ ("", t)
unfolding span
span-Stops p [] k = refl
span-Stops p (c ∷ t) k = rw k refl

span-append : (p : ℕ → Bool) (s t : String) → AllChars p s → Stops p t → span p (s ++ t) ≡ (s, t)
unfolding span
span-append p [] t h k = rw nil-append (span-Stops p t k)
span-append p (c ∷ s) t (h, hs) k = rw (cons-append, h, span-append p s t hs k) refl

opening : (t : String) → "{{" ++ t ≡ "{" ∷ ("{" ∷ t)
opening t =
    cons-append "{" ("{" ∷ []) t ∙ ap ("{" ∷◌) (cons-append "{" [] t ∙ ap ("{" ∷◌) (nil-append t))

closing : (t : String) → "}}" ++ t ≡ "}" ∷ ("}" ∷ t)
closing t =
    cons-append "}" ("}" ∷ []) t ∙ ap ("}" ∷◌) (cons-append "}" [] t ∙ ap ("}" ∷◌) (nil-append t))

blank_of_word : (n : ℕ) → is_word n ≡ true → is_blank n ≡ false
blank_of_word n h = ground (arith, h)

word_of_blank : (n : ℕ) → is_blank n ≡ true → is_word n ≡ false
word_of_blank n h = ground (arith, h)

Stops-key : (key t : String) → AllChars is_word key → key ≢ "" → Stops is_blank (key ++ t)
Stops-key [] t h n = absurd (n refl)
Stops-key (c ∷ key) t (h, hs) n = rw cons-append (blank_of_word (code c) h)

Stops-after :
    (after t : String) → AllChars is_blank after → Stops is_word (after ++ ("}" ∷ ("}" ∷ t)))
Stops-after [] t h = rw nil-append refl
Stops-after (c ∷ after) t (h, hs) = rw cons-append (word_of_blank (code c) h)

match_inner_of_spans :
    (s s1 s2 s3 before key after t : String)
    → span is_blank s ≡ (before, s1)
    → span is_word s1 ≡ (key, s2)
    → span is_blank s2 ≡ (after, s3)
    → (key == "") ≡ false
    → strip_pair b'}' s3 ≡ some t
    → match_inner s ≡ some (record { key = key; matched = placeholder before key after; after = t })
match_inner_of_spans s s1 s2 s3 before key after t b k a n c =
    let e1 : (span is_blank s).1 ≡ s1 = ap (λ x. x.1) b in
    let e0 : (span is_blank s).0 ≡ before = ap (λ x. x.0) b in
    let f1 : (span is_word s1).1 ≡ s2 = ap (λ x. x.1) k in
    let f0 : (span is_word s1).0 ≡ key = ap (λ x. x.0) k in
    let g1 : (span is_blank s2).1 ≡ s3 = ap (λ x. x.1) a in
    let g0 : (span is_blank s2).0 ≡ after = ap (λ x. x.0) a in
    rw (e1, f0, n, f1, g1, c, e1, f0, e0, f1, g0) refl

-- a placeholder at the front is matched
pub match_placeholder-append :
    (before key after t : String)
    → AllChars is_blank before
    → AllChars is_word key
    → key ≢ ""
    → AllChars is_blank after
    → match_placeholder ("{" ∷ ("{" ∷ (before ++ (key ++ (after ++ ("}" ∷ ("}" ∷ t)))))))
      ≡ some (record { key = key; matched = placeholder before key after; after = t })
unfolding match_placeholder
match_placeholder-append before key after t b k n a =
    match_inner_of_spans _ _ _ _ before key after t
      (span-append is_blank before (key ++ (after ++ ("}" ∷ ("}" ∷ t)))) b (Stops-key key _ k n))
      (span-append is_word key (after ++ ("}" ∷ ("}" ∷ t))) k (Stops-after after t a))
      (span-append is_blank after ("}" ∷ ("}" ∷ t)) a refl) (==_of_ne key "" n) refl

-- the placeholder, followed by more text
pub placeholder-append :
    (before key after t : String)
    → placeholder before key after ++ t
      ≡ "{" ∷ ("{" ∷ (before ++ (key ++ (after ++ ("}" ∷ ("}" ∷ t))))))
placeholder-append before key after t =
    append_assoc "{{" (before ++ (key ++ (after ++ "}}"))) t
    ∙ ap ("{{" ++◌) (
        append_assoc before (key ++ (after ++ "}}")) t
        ∙ ap (before ++◌) (
            append_assoc key (after ++ "}}") t
            ∙ ap (key ++◌) (append_assoc after "}}" t ∙ ap (after ++◌) (closing t))))
    ∙ opening _
