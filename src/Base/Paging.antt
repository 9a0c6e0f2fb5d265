-- ===== src/Base/Paging.antt =====
-- `ORDER BY t DESC LIMIT n OFFSET k` on rows: a stable sort, the rows of the same time in the
-- table's order, and a page of it; and the limit that a listing takes when the one asked for is out
-- of range.
use mathlib.Core.List.{List, [], ◌∷◌, ◌++◌}
use mathlib.Core.Bool.{Bool, true, ◌&&◌, not}
use mathlib.Core.Path.{◌≡◌, refl, sym, ap, subst, ◌∙◌}
use Prim.Native.Nat.{ℕ, zero, suc, ◌+◌, ◌-◌, ◌≤◌, min}
use native.Mathlib.Omega.{arith}
use mathlib.Core.Logic.{inl, inr}
use wa_gateway.Base.Tests.{leb, if◌then◌else◌, Bool-cases}
use wa_gateway.Base.Lists.{All, take, drop, filter_if, length, count_if, length-filter_if}
use wa_gateway.Base.Int.{ℤ, pos_part, is_positive, ltb_ℤ, pos}

abbrev pub default_limit : ℤ → ℕ
default_limit limit =
    if is_positive limit && not (ltb_ℤ (pos 1000) limit) then pos_part limit else 100

pub length-take_le {ℓ} : {A : Type ℓ} (n : ℕ) (xs : List A) → length (take n xs) ≤ n
length-take_le zero xs = omega arith
length-take_le (suc n) [] = omega arith
length-take_le (suc n) (x ∷ xs) = omega (arith, length-take_le n xs)

pub length-take {ℓ} : {A : Type ℓ} (n : ℕ) (xs : List A) → length (take n xs) ≡ min n (length xs)
length-take zero xs = ground arith
length-take (suc n) [] = ground arith
length-take (suc n) (x ∷ xs) = ground (arith, length-take n xs)

pub length-drop {ℓ} : {A : Type ℓ} (n : ℕ) (xs : List A) → length (drop n xs) ≡ length xs - n
length-drop zero xs = omega arith
length-drop (suc n) [] = omega arith
length-drop (suc n) (x ∷ xs) = omega (arith, length-drop n xs)

module _ {ℓ} {A : Type ℓ} (p : A → Bool) where
  pub count_if-filter_if_le :
      (q : A → Bool) (xs : List A) → count_if p (filter_if q xs) ≤ count_if p xs
  count_if-filter_if_le q [] = omega arith
  count_if-filter_if_le q (x ∷ xs) = ground (arith, count_if-filter_if_le q xs)

module _ {ℓ} {A : Type ℓ} (time : A → ℕ) where
  unfoldable pub put_newest : A → List A → List A
  put_newest x [] = x ∷ []
  put_newest x (y ∷ ys) =
      let rest = put_newest x ys in if leb (time y) (time x) then x ∷ y ∷ ys else y ∷ rest

  unfoldable pub newest_first : List A → List A
  newest_first [] = []
  newest_first (x ∷ xs) = put_newest x (newest_first xs)

  -- every row is at least as late as those that follow it
  abbrev pub IsNewestFirst : List A → Type 0
  IsNewestFirst [] = Unit
  IsNewestFirst (x ∷ xs) = All (λ y. time y ≤ time x) xs × IsNewestFirst xs

  module _ {κ} (P : A → Type κ) where
    All-put_newest : (x : A) (ys : List A) → P x → All P ys → All P (put_newest x ys)
    unfolding put_newest
    All-put_newest x [] p t = (p, tt)
    All-put_newest x (y ∷ ys) p (q, t) = elim (Bool-cases (leb (time y) (time x))) [
      | inl e ↦ rw e (p, (q, t))
      | inr e ↦ rw e (q, All-put_newest x ys p t)
    ]

  All_earlier :
      (x y : A) (ys : List A)
      → time y ≤ time x
      → All (λ z. time z ≤ time y) ys
      → All (λ z. time z ≤ time x) ys
  All_earlier x y [] h t = tt
  All_earlier x y (z ∷ ys) h (q, t) = (omega arith, All_earlier x y ys h t)

  put_newest-IsNewestFirst :
      (x : A) (ys : List A) → IsNewestFirst ys → IsNewestFirst (put_newest x ys)
  unfolding put_newest
  put_newest-IsNewestFirst x [] t = (tt, tt)
  put_newest-IsNewestFirst x (y ∷ ys) (q, t) = elim (Bool-cases (leb (time y) (time x))) [
    | inl e ↦ rw e ((ground arith, All_earlier x y ys (ground arith) q), (q, t))
    | inr e ↦ rw e (
      All-put_newest (λ z. time z ≤ time y) x ys (ground arith) q,
      put_newest-IsNewestFirst x ys t,
    )
  ]

  pub newest_first-IsNewestFirst : (xs : List A) → IsNewestFirst (newest_first xs)
  unfolding newest_first
  newest_first-IsNewestFirst [] = tt
  newest_first-IsNewestFirst (x ∷ xs) =
      put_newest-IsNewestFirst x (newest_first xs) (newest_first-IsNewestFirst xs)

  module _ (p : A → Bool) where
    count_if-put_newest :
        (x : A) (ys : List A)
        → count_if p (put_newest x ys) ≡ (if p x then 1 else 0) + count_if p ys
    unfolding put_newest
    count_if-put_newest x [] = refl
    count_if-put_newest x (y ∷ ys) = elim (Bool-cases (leb (time y) (time x))) [
      | inl e ↦ rw e refl
      | inr e ↦ rw e (omega (arith, count_if-put_newest x ys))
    ]

    -- each row is kept as often as before
    pub count_if-newest_first : (xs : List A) → count_if p (newest_first xs) ≡ count_if p xs
    unfolding newest_first
    count_if-newest_first [] = refl
    count_if-newest_first (x ∷ xs) =
        omega (arith, count_if-put_newest x (newest_first xs), count_if-newest_first xs)

  count_if_always : (xs : List A) → count_if (λ x. true) xs ≡ length xs
  count_if_always [] = refl
  count_if_always (x ∷ xs) = omega (arith, count_if_always xs)

  pub length-newest_first : (xs : List A) → length (newest_first xs) ≡ length xs
  length-newest_first xs = omega (
    arith,
    count_if-newest_first (λ x. true) xs,
    count_if_always xs,
    count_if_always (newest_first xs),
  )

take_append_drop {ℓ} : {A : Type ℓ} (n : ℕ) (xs : List A) → take n xs ++ drop n xs ≡ xs
take_append_drop zero xs = refl
take_append_drop (suc n) [] = refl
take_append_drop (suc n) (x ∷ xs) = ap (x ∷◌) (take_append_drop n xs)

-- A page of the rows that `wanted` picks: these rows, newest first, are those that are skipped, the
-- page, and those that are left out; as many are skipped as the offset says, and the page is as long
-- as the limit allows. Rows of the same time stand in any order.
pub record IsPage {ℓ} {A : Type ℓ} (time : A → ℕ) (wanted : A → Bool) (limit offset : ℕ)
    (rows page : List A) : Type ℓ where
  pub skipped : List A
  pub left : List A
  pub sorted : IsNewestFirst time (skipped ++ (page ++ left))
  pub complete :
      (p : A → Bool) → count_if p (skipped ++ (page ++ left)) ≡ count_if p (filter_if wanted rows)
  pub start : length skipped ≡ min offset (count_if wanted rows)
  pub full : length page ≡ min limit (count_if wanted rows - offset)

module _ {ℓ} {A : Type ℓ} (time : A → ℕ) (wanted : A → Bool) where
  pub take-IsPage :
      (limit offset : ℕ) (rows : List A)
      → IsPage time wanted limit offset rows
          (take limit (drop offset (newest_first time (filter_if wanted rows))))
  take-IsPage limit offset rows =
      let found = filter_if wanted rows in
      let sorted_rows = newest_first time found in
      let after = drop offset sorted_rows in
      let whole : take offset sorted_rows ++ (take limit after ++ drop limit after) ≡ sorted_rows =
        ap (take offset sorted_rows ++◌) (take_append_drop limit after)
        ∙ take_append_drop offset sorted_rows in
      record {
        skipped = take offset sorted_rows;
        left = drop limit after;
        sorted = subst (IsNewestFirst time) (sym whole) (newest_first-IsNewestFirst time found);
        complete = λ p. ap (count_if p) whole ∙ count_if-newest_first time p found;
        start = omega (
          arith,
          length-take offset sorted_rows,
          length-newest_first time found,
          length-filter_if wanted rows,
        );
        full = omega (
          arith,
          length-take limit after,
          length-drop offset sorted_rows,
          length-newest_first time found,
          length-filter_if wanted rows,
        );
      }
