-- ===== src/Database.antt =====
-- The database handle: `rebind` of internal/gateway/db.go. The methods of pgDB pass each query on to
-- database/sql rebound, with its arguments.
pub mod Numbered
pub mod Examples
use Prim.Native.Char.{code}
use Prim.Native.String
use Prim.Native.String.{String, [], ◌∷◌}
use wa_gateway.Base.{ℕ, zero, suc, ◌/◌, ◌%◌, Bool, false, ◌||◌, eqb, ltb, if◌then◌else◌}

-- strings.Contains(s, "?")
unfoldable pub contains_mark : String → Bool
contains_mark [] = false
contains_mark (c ∷ s) = eqb (code c) 63 || contains_mark s

unfoldable pub digit : ℕ → String
digit d =
    if eqb d 0
    then "0"
    else if eqb d 1
    then "1"
    else if eqb d 2
    then "2"
    else if eqb d 3
    then "3"
    else if eqb d 4
    then "4"
    else if eqb d 5
    then "5"
    else if eqb d 6
    then "6"
    else if eqb d 7
    then "7"
    else if eqb d 8
    then "8"
    else "9"

-- The decimal digits of a number before a text; a number has at most as many digits as its size, so
-- that `suc n` is fuel enough for `n`.
unfoldable pub put_decimal : ℕ → ℕ → String → String
put_decimal zero n s = s
put_decimal (suc fuel) n s =
    let text = String.◌++◌ (digit (n % 10)) s in
    let more = put_decimal fuel (n / 10) text in if ltb n 10 then text else more

-- strconv.Itoa
unfoldable pub itoa : ℕ → String
itoa n = put_decimal (suc n) n ""

-- the loop of rebind, after `n` placeholders
unfoldable pub rebind_from : ℕ → String → String
rebind_from n [] = ""
rebind_from n (c ∷ s) =
    let numbered = rebind_from (suc n) s in
    let plain = rebind_from n s in
    if eqb (code c) 63 then "$" ∷ (String.◌++◌ (itoa (suc n)) numbered) else c ∷ plain

unfoldable pub rebind : String → String
rebind query = if contains_mark query then rebind_from 0 query else query
