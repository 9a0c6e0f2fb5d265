-- ===== src/Base/Maps.antt =====
-- Go's `map[string]V` as an association list with distinct keys.
use Prim.Native.String.{String}
use text.Mathlib.Text.{◌==◌}
use text.Mathlib.TextEquality.{eq_iff}
use mathlib.Core.Path.{◌≡◌, refl}
use mathlib.Core.Option.{Option, none, some}
use mathlib.Core.List.{List, [], ◌∷◌}
use native.Mathlib.Omega.{arith}
use wa_gateway.Base.Tests.{if◌then◌else◌}

abbrev pub Assoc {ℓ} : Type ℓ → Type ℓ
Assoc V = List (String × V)

module _ {ℓ} {V : Type ℓ} where
  -- val, ok := entries[key]
  unfoldable pub lookup : String → Assoc V → Option V
  lookup key [] = none
  lookup key ((first, val) ∷ entries) = if first == key then some val else lookup key entries

  -- entries[key] = new
  unfoldable pub insert : String → V → Assoc V → Assoc V
  insert key new [] = (key, new) ∷ []
  insert key new ((first, val) ∷ entries) =
      if first == key then (first, new) ∷ entries else (first, val) ∷ insert key new entries

  -- delete(entries, key)
  unfoldable pub delete : String → Assoc V → Assoc V
  delete key [] = []
  delete key ((first, val) ∷ entries) =
      let rest = delete key entries in if first == key then rest else (first, val) ∷ rest

  pub lookup-insert :
      (key asked : String) (new : V) (entries : Assoc V)
      → lookup asked (insert key new entries)
        ≡ (if key == asked then some new else lookup asked entries)
  unfolding lookup insert
  lookup-insert key asked new [] = refl
  lookup-insert key asked new ((first, val) ∷ entries) = ground (
    arith,
    lookup-insert key asked new entries,
    eq_iff first asked,
    eq_iff first key,
    eq_iff key asked,
  )

  pub lookup-delete :
      (k j : String) (m : Assoc V) → lookup j (delete k m) ≡ (if k == j then none else lookup j m)
  unfolding lookup delete
  lookup-delete k j [] = ground arith
  lookup-delete k j ((i, w) ∷ m) =
      ground (arith, eq_iff k j, eq_iff i k, eq_iff i j, lookup-delete k j m)

pub lookup-nil {ℓ} : {V : Type ℓ} (k : String) → lookup {V = V} k [] ≡ none
unfolding lookup
lookup-nil k = refl

pub ruleset assoc_laws = (lookup-nil, lookup-insert, lookup-delete)
