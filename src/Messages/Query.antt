-- ===== src/Messages/Query.antt =====
-- Listing and finding stored messages: query and messageByID of internal/gateway/store.go. Whether
-- the SELECT goes through is an argument; rows of the same time come in the table's order.
use Prim.Native.Char.{code}
use Prim.Native.String.{[], ◌∷◌}
use mathlib.Core.List.{List}
use wa_gateway.Base.{
  ℕ, String, Bool, false, not, ◌&&◌, ◌||◌, ◌==◌, Option, none, some, ℤ, pos_part, is_positive, ltb,
  leb, eqb, if◌then◌else◌, Result, ok, err, filter_if, take,
}
use wa_gateway.Base.Paging.{default_limit, newest_first}
use wa_gateway.Messages.{StoredMessage}

pub data StoreError : Type 0 where
  storage_disabled select_failed : StoreError

pub record MessageQuery : Type 0 where
  pub session : String
  pub chat : String
  pub limit : ℤ
  pub before : ℤ
  pub after : ℤ
  pub order : String

-- the WHERE of query
abbrev pub matches : MessageQuery → StoredMessage → Bool
matches q m =
    (q.session == "" || m.session == q.session)
    && (q.chat == "" || m.chat == q.chat)
    && (not (is_positive q.before) || ltb m.timestamp (pos_part q.before))
    && (not (is_positive q.after) || leb (pos_part q.after) m.timestamp)

-- strings.EqualFold(order, "asc"), where the long s folds to s
abbrev is_letter : ℕ → ℕ → ℕ → Bool
is_letter c lower upper = eqb c lower || eqb c upper

unfoldable pub is_ascending : String → Bool
is_ascending (a ∷ s ∷ c ∷ []) =
    is_letter (code a) 97 65
    && (is_letter (code s) 115 83 || eqb (code s) 0x17F)
    && is_letter (code c) 99 67
is_ascending _ = false

-- ORDER BY timestamp ASC
unfoldable pub put_oldest : StoredMessage → List StoredMessage → List StoredMessage
put_oldest m List.[] = List.◌∷◌ m List.[]
put_oldest m (List.◌∷◌ n rows) =
    let rest = put_oldest m rows in
    if leb m.timestamp n.timestamp then List.◌∷◌ m (List.◌∷◌ n rows) else List.◌∷◌ n rest

unfoldable pub oldest_first : List StoredMessage → List StoredMessage
oldest_first List.[] = List.[]
oldest_first (List.◌∷◌ m rows) = put_oldest m (oldest_first rows)

-- query
unfoldable pub query_messages :
    Bool → Bool → MessageQuery → List StoredMessage → Result StoreError (List StoredMessage)
query_messages active selects q rows =
    if not active
    then err storage_disabled
    else if not selects
    then err select_failed
    else let found = filter_if (matches q) rows in
      ok (
        take (default_limit q.limit) (
          if is_ascending q.order
          then oldest_first found
          else newest_first (λ m. m.timestamp) found))

-- the row that LIMIT 1 leaves
unfoldable pub find_message : String → String → List StoredMessage → Option StoredMessage
find_message session id List.[] = none
find_message session id (List.◌∷◌ m rows) =
    let rest = find_message session id rows in
    if m.id == id && (session == "" || m.session == session) then some m else rest

-- messageByID
unfoldable pub message_by_id :
    Bool → Bool → String → String → List StoredMessage → Result StoreError (Option StoredMessage)
message_by_id active selects session id rows =
    if not active
    then err storage_disabled
    else if not selects
    then err select_failed
    else ok (find_message session id rows)
