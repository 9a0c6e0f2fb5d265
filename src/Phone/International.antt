-- ===== src/Phone/International.antt =====
-- What NormalizePhone accepts and returns.
use Prim.Native.Char.{Char, code}
use Prim.Native.String.{[], ◌∷◌}
use Prim.Native.String
use text.Mathlib.TextLemmas.{cons-ne-nil, nil-append, cons-append}
use wa_gateway.Base.{
  ℕ, ◌≤◌, String, Bool, true, false, not, ◌&&◌, ◌==◌, cons-ne-nil_test, ==_of_ne, ◌≡◌, ◌≢◌, ◌∙◌,
  refl, inl, inr, arith, Bool-cases, if◌then◌else◌, trim, trim_left, trim_right, keep_before,
  is_space, byte_len, ok,
}
use wa_gateway.Phone.{
  is_digit, digits_only, has_plus, starts_with_zero, drop_first, replace_trunk, check_number,
  normalize_phone,
}

abbrev pub AllDigits : String → Type 0
AllDigits [] = Unit
AllDigits (c ∷ s) = (is_digit (code c) ≡ true) × AllDigits s

-- An international number: digits only, no leading 0, at least seven bytes long.
pub record IsInternational (n : String) : Type 0 where
  pub digits : AllDigits n
  pub no_trunk : starts_with_zero n ≡ false
  pub long : 7 ≤ byte_len n

digits_only-AllDigits : (s : String) → AllDigits (digits_only s)
unfolding digits_only
digits_only-AllDigits [] = tt
digits_only-AllDigits (c ∷ s) = ground (arith, digits_only-AllDigits s)

digits_only_of_AllDigits : (s : String) → AllDigits s → digits_only s ≡ s
unfolding digits_only
digits_only_of_AllDigits [] h = refl
digits_only_of_AllDigits (c ∷ s) (d, h) = ground (arith, digits_only_of_AllDigits s h)

AllDigits-append : (s t : String) → AllDigits s → AllDigits t → AllDigits (String.◌++◌ s t)
AllDigits-append [] t h k = rw nil-append k
AllDigits-append (c ∷ s) t (d, h) k = rw cons-append (d, AllDigits-append s t h k)

digit-not_space : (c : ℕ) → is_digit c ≡ true → is_space c ≡ false
unfolding is_space
digit-not_space c h = ground arith

trim_right-cons : (c : Char) (s : String) → trim_right (c ∷ s) ≡ keep_before c (trim_right s)
unfolding trim_right
trim_right-cons c s = refl

keep_before_digit : (c : Char) (s : String) → is_digit (code c) ≡ true → keep_before c s ≡ c ∷ s
keep_before_digit c [] d = rw (digit-not_space (code c) d)
keep_before_digit c (e ∷ s) d = refl

trim_right_of_AllDigits : (s : String) → AllDigits s → trim_right s ≡ s
trim_right_of_AllDigits [] h = unfold trim_right in refl
trim_right_of_AllDigits (c ∷ s) (d, h) =
    rw (trim_right-cons c s, trim_right_of_AllDigits s h) (keep_before_digit c s d)

trim_left_of_AllDigits : (s : String) → AllDigits s → trim_left s ≡ s
unfolding trim_left
trim_left_of_AllDigits [] h = refl
trim_left_of_AllDigits (c ∷ s) (d, h) = ground (arith, digit-not_space (code c) d)

pub trim_of_AllDigits : (s : String) → AllDigits s → trim s ≡ s
unfolding trim
trim_of_AllDigits s h = rw (trim_left_of_AllDigits s h) (trim_right_of_AllDigits s h)

AllDigits-if :
    (b : Bool) (s t : String) → AllDigits s → AllDigits t → AllDigits (if b then s else t)
AllDigits-if true s t h k = h
AllDigits-if false s t h k = k

drop_first-AllDigits : (s : String) → AllDigits s → AllDigits (drop_first s)
drop_first-AllDigits [] h = tt
drop_first-AllDigits (c ∷ s) (d, h) = h

replace_trunk-AllDigits :
    (plus : Bool) (cc raw : String)
    → AllDigits cc
    → AllDigits raw
    → AllDigits (replace_trunk plus cc raw)
replace_trunk-AllDigits plus country raw h k =
    AllDigits-if _ (String.◌++◌ country (drop_first raw)) raw
      (AllDigits-append country (drop_first raw) h (drop_first-AllDigits raw k)) k

check_number-IsInternational :
    (raw n : String) → AllDigits raw → check_number raw ≡ ok n → IsInternational n
check_number-IsInternational raw n h e = ground arith

-- If the default country code has digits only, an accepted number is international: it has digits
-- only, no leading 0, and is at least seven bytes long.
pub normalize_phone-IsInternational :
    (raw cc n : String) → AllDigits cc → normalize_phone raw cc ≡ ok n → IsInternational n
unfolding normalize_phone
normalize_phone-IsInternational raw country n h e =
    check_number-IsInternational _ n
      (replace_trunk-AllDigits (has_plus (trim raw)) country _ h (digits_only-AllDigits (trim raw)))
      (ground arith)

replace_trunk_kept :
    (plus : Bool) (country n : String)
    → starts_with_zero n ≡ false
    → replace_trunk plus country n ≡ n
replace_trunk_kept plus country n h =
    rw (h, ◌&&◌)
      (elim (Bool-cases (not plus && not (country == ""))) [
        | inl e ↦ rw e refl
        | inr e ↦ rw e refl
      ])

IsInternational-ne-nil : (n : String) → IsInternational n → (n == "") ≡ false
unfolding byte_len
IsInternational-ne-nil [] h = absurd (omega (arith, h.long))
IsInternational-ne-nil (c ∷ n) h = cons-ne-nil_test c n

-- An international number (digits only, no leading 0, at least seven bytes) is its own normal
-- form, whatever the country code.
pub normalize_phone_idempotent :
    (n country : String) → IsInternational n → normalize_phone n country ≡ ok n
unfolding normalize_phone
normalize_phone_idempotent n country h =
    rw (trim_of_AllDigits n h.digits, digits_only_of_AllDigits n h.digits)
      (ground (
        arith,
        IsInternational-ne-nil n h,
        replace_trunk_kept (has_plus n) country n h.no_trunk,
        h.no_trunk,
        h.long,
      ))

normalize_of_AllDigits :
    (s country : String)
    → AllDigits s
    → s ≢ ""
    → normalize_phone s country ≡ check_number (replace_trunk (has_plus s) country s)
unfolding normalize_phone
normalize_of_AllDigits s country h n =
    rw (trim_of_AllDigits s h, digits_only_of_AllDigits s h) (rw (==_of_ne s "" n) refl)

has_plus_of_AllDigits : (s : String) → AllDigits s → has_plus s ≡ false
has_plus_of_AllDigits [] h = refl
has_plus_of_AllDigits (c ∷ s) h = ground arith

starts_with_zero-append :
    (s t : String) → s ≢ "" → starts_with_zero (String.◌++◌ s t) ≡ starts_with_zero s
starts_with_zero-append [] t h = absurd (h refl)
starts_with_zero-append (c ∷ s) t h = rw cons-append refl

append-ne-nil : (s t : String) → s ≢ "" → String.◌++◌ s t ≢ ""
append-ne-nil [] t h e = h refl
append-ne-nil (c ∷ s) t h e = cons-ne-nil c (String.◌++◌ s t) (rw cons-append at e)

-- With a country code of digits that is not empty and does not start with 0, a local number of
-- digits, with its leading 0, and the same number with the country code in place of the 0
-- normalise to the same result.
pub normalize_phone_local :
    (country rest : String)
    → AllDigits country
    → country ≢ ""
    → starts_with_zero country ≡ false
    → AllDigits rest
    → normalize_phone ("0" ∷ rest) country ≡ normalize_phone (String.◌++◌ country rest) country
normalize_phone_local country rest hc hn hz hr =
    rw
      (
        normalize_of_AllDigits ("0" ∷ rest) country (refl, hr) (cons-ne-nil "0" rest),
        normalize_of_AllDigits (String.◌++◌ country rest) country
            (AllDigits-append country rest hc hr) (append-ne-nil country rest hn),
        replace_trunk_kept (has_plus (String.◌++◌ country rest)) country (String.◌++◌ country rest)
            (starts_with_zero-append country rest hn ∙ hz),
        ==_of_ne country "" hn,
      )
      refl
