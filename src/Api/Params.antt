-- ===== src/Api/Params.antt =====
-- Query parameters: strconv.Atoi and ParseInt with base 10, as the handlers of internal/api/server.go
-- use them, sessionName, and parseAccessLogQuery.
use Prim.Native.Char.{code}
use Prim.Native.String.{[], ◌∷◌}
use wa_gateway.Base.{
  ℕ, zero, suc, ◌+◌, ◌-◌, ◌*◌, ◌^◌, String, Bool, true, false, ◌&&◌, ◌==◌, Option, none, some, ℤ,
  pos, negsuc, eqb, leb, ltb, is_positive, if◌then◌else◌,
}
use wa_gateway.AccessLog.{AccessLogQuery}

-- the value of a text of digits after `n`
unfoldable pub digits_value : String → ℕ → Option ℕ
digits_value [] n = some n
digits_value (c ∷ s) n =
    let rest = digits_value s (n * 10 + (code c - 48)) in
    if leb 48 (code c) && leb (code c) 57 then rest else none

abbrev unsigned : String → Option ℕ
unsigned s = if s == "" then none else digits_value s 0

abbrev negated : ℕ → ℤ
negated zero = pos 0
negated (suc n) = negsuc n

abbrev in_range : Bool → Option ℕ → Option ℤ
in_range is_negative none = none
in_range true (some n) = if leb n (2 ^ 63) then some (negated n) else none
in_range false (some n) = if ltb n (2 ^ 63) then some (pos n) else none

-- strconv.ParseInt(s, 10, 64), which is Atoi where an int has 64 bits
unfoldable pub parse_int : String → Option ℤ
parse_int [] = none
parse_int (c ∷ s) =
    if eqb (code c) 45
    then in_range true (unsigned s)
    else if eqb (code c) 43
    then in_range false (unsigned s)
    else in_range false (unsigned (c ∷ s))

abbrev or_kept : Option ℤ → ℤ → ℤ
or_kept none old = old
or_kept (some n) old = n

-- a number of the query, kept where it is missing or none
abbrev pub int_param : String → ℤ → ℤ
int_param v old = or_kept (parse_int v) old

abbrev positive_or : ℤ → ℤ → ℤ
positive_or n old = if is_positive n then n else old

-- sessionName
abbrev pub session_name : String → String
session_name s = if s == "" then "default" else s

-- parseAccessLogQuery of the parameters key, limit and since
abbrev pub parse_access_log_query : String → String → String → AccessLogQuery
parse_access_log_query key limit since = record {
  key_id = key;
  since = int_param since (pos 0);
  limit = positive_or (int_param limit (pos 100)) (pos 100);
  offset = pos 0;
}
