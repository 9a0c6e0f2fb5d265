-- ===== src/Keys/Scopes.antt =====
-- The scopes of a key as one text column: splitScopes and joinScopes of
-- internal/gateway/apikey.go.
use wa_gateway.Base.{
  String, List, [], ◌∷◌, All, ◌==◌, ◌≡◌, ◌≢◌, refl, trim, split_comma, join_comma, NoComma,
  split_comma-join_comma, ==_of_ne, if◌then◌else◌,
}
use wa_gateway.Keys.{scope_all}

-- the loop that trims the parts and drops the empty ones
abbrev pub trimmed_parts : List String → List String
trimmed_parts [] = []
trimmed_parts (p ∷ ps) = let rest = trimmed_parts ps in if trim p == "" then rest else trim p ∷ rest

abbrev pub or_all : List String → List String
or_all [] = scope_all ∷ []
or_all (s ∷ out) = s ∷ out

unfoldable pub split_scopes : String → List String
split_scopes s = or_all (trimmed_parts (split_comma s))

unfoldable pub join_scopes : List String → String
join_scopes [] = scope_all
join_scopes (s ∷ scopes) = join_comma (s ∷ scopes)

-- A scope that one part of the column can hold: not empty, no comma, no space at its ends.
pub record IsScope (s : String) : Type 0 where
  pub nonempty : s ≢ ""
  pub no_comma : NoComma s
  pub tight : trim s ≡ s

trimmed_parts_of_IsScope :
    (scopes : List String) → All IsScope scopes → trimmed_parts scopes ≡ scopes
trimmed_parts_of_IsScope [] h = refl
trimmed_parts_of_IsScope (s ∷ rest) (h, hs) =
    rw (h.tight, ==_of_ne s "" h.nonempty, trimmed_parts_of_IsScope rest hs) refl

NoComma-of_IsScope : (scopes : List String) → All IsScope scopes → All NoComma scopes
NoComma-of_IsScope [] h = tt
NoComma-of_IsScope (s ∷ rest) (h, hs) = (h.no_comma, NoComma-of_IsScope rest hs)

-- Scopes that are not empty, have no comma and no space at an end are read back from the column as
-- they were written; no scopes are read back as the scope of everything.
pub split_scopes-join_scopes :
    (scopes : List String) → All IsScope scopes → split_scopes (join_scopes scopes) ≡ or_all scopes
unfolding split_scopes join_scopes
split_scopes-join_scopes [] h = unfold trim split_comma in refl
split_scopes-join_scopes (s ∷ rest) (h, hs) =
    rw
      (
        split_comma-join_comma s rest h.no_comma (NoComma-of_IsScope rest hs),
        trimmed_parts_of_IsScope (s ∷ rest) (h, hs),
      )
      refl
