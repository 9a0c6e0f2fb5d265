-- ===== src/Phone.antt =====
-- Phone numbers and recipients: NormalizePhone and parseJID of internal/gateway/session.go, and
-- parseGroupJID of internal/gateway/group.go.
pub mod Examples
pub mod International
pub mod Recipient
use Prim.Native.Char.{code}
use Prim.Native.String.{[], ◌∷◌}
use Prim.Native.String
use wa_gateway.Base.{
  ℕ, String, Bool, false, not, ◌&&◌, ◌==◌, leb, eqb, ltb, if◌then◌else◌, trim, byte_len, Result, ok,
  err, ◌≡◌, refl,
}

pub data PhoneError : Type 0 where
  empty no_digits : PhoneError
  leading_zero too_short : String → PhoneError

abbrev pub is_digit : ℕ → Bool
is_digit c = leb 48 c && leb c 57

-- the loop that keeps the digits
unfoldable pub digits_only : String → String
digits_only [] = ""
digits_only (c ∷ s) = if is_digit (code c) then c ∷ digits_only s else digits_only s

-- strings.HasPrefix(raw, "+")
abbrev pub has_plus : String → Bool
has_plus [] = false
has_plus (c ∷ s) = eqb (code c) 43

-- strings.HasPrefix(raw, "0")
abbrev pub starts_with_zero : String → Bool
starts_with_zero [] = false
starts_with_zero (c ∷ s) = eqb (code c) 48

-- raw[1:] of a text that starts with "0"
abbrev pub drop_first : String → String
drop_first [] = ""
drop_first (c ∷ s) = s

-- a local number's leading "0" gives way to the country code
abbrev pub replace_trunk : Bool → String → String → String
replace_trunk plus cc raw =
    if not plus && not (cc == "") && starts_with_zero raw
    then String.◌++◌ cc (drop_first raw)
    else raw

abbrev pub check_number : String → Result PhoneError String
check_number raw =
    if starts_with_zero raw
    then err (leading_zero raw)
    else if ltb (byte_len raw) 7
    then err (too_short raw)
    else ok raw

unfoldable pub normalize_phone : String → String → Result PhoneError String
normalize_phone raw default_cc =
    let t = trim raw in
    let digits = digits_only t in
    if t == ""
    then err empty
    else if digits == ""
    then err no_digits
    else check_number (replace_trunk (has_plus t) default_cc digits)

sample_local : normalize_phone "0812=345-678" "62" ≡ ok "62812345678"
unfolding normalize_phone digits_only trim byte_len
sample_local = refl
